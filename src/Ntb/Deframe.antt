-- ===== src/Ntb/Deframe.antt =====
-- The deframer of mbim_ntb.c reads inside its block, stops, and delivers parts of the block.
use virtuallte.Common.{
  ℕ, zero, suc, ◌+◌, ◌*◌, ◌%◌, ◌^◌, ◌≤◌, ◌<◌, ◌≡◌, ◌≢◌, List, [], ◌∷◌, ◌++◌, length, Outcome, ok,
  reject, fault, arith, read_ok, read_bytes_ok, get_or, All, All-append, ap, sym, if◌then◌else◌,
  bit_and, not, ◌&&◌, ◌>>=◌, take, drop, length-take, length-drop, ltb, leb, Bool-cases, inl, inr,
  ◌⊎◌, ltb→lt, true, false, ◌==◌, ◌||◌,
}
use virtuallte.Ntb.{
  rd16, rd32, entry, scan_entries, chain, scan_ndps, ndp_limit, deframe, ndp16_sig_mask,
  ndp16_signature, nth16_signature,
}

rd16-ok : (p : List ℕ) (off : ℕ) → off + 2 ≤ length p → (v : ℕ) × (rd16 p off ≡ ok v) × (v < 2 ^ 16)
unfolding rd16
rd16-ok p off h = (
  (get_or p off 0 + get_or p (off + 1) 0 * 2 ^ 8) % 2 ^ 16,
  ground (arith, read_ok p off, read_ok p (off + 1)),
  omega arith,
)

-- The number that four bytes are in little-endian order.
abbrev pub le_word : List ℕ → ℕ → ℕ
le_word p off =
    (get_or p off 0
      + get_or p (off + 1) 0 * 2 ^ 8
      + get_or p (off + 2) 0 * 2 ^ 16
      + get_or p (off + 3) 0 * 2 ^ 24)
    % 2 ^ 32

rd32-ok : (p : List ℕ) (off : ℕ) → off + 4 ≤ length p → rd32 p off ≡ ok (le_word p off)
unfolding rd32
rd32-ok p off h =
    ground (arith, read_ok p off, read_ok p (off + 1), read_ok p (off + 2), read_ok p (off + 3))

-- A datagram as the deframer may deliver it: a part of the block that is not empty.
pub record Part (ntb : List ℕ) (block_len : ℕ) (dg : List ℕ) : Type 0 where
  pub offset : ℕ
  pub bytes : dg ≡ take (length dg) (drop offset ntb)
  pub some_bytes : 1 ≤ length dg
  pub inside : offset + length dg ≤ block_len

-- A run that ended well, with such datagrams only.
abbrev pub Delivers : List ℕ → ℕ → Outcome (List (List ℕ)) → Type 0
Delivers ntb block_len (ok dgs) = All (Part ntb block_len) dgs
Delivers ntb block_len reject = ⊥
Delivers ntb block_len fault = ⊥

entry-Delivers :
    (ntb : List ℕ) (block_len i l : ℕ) (rest : Outcome (List (List ℕ)))
    → block_len ≤ length ntb
    → Delivers ntb block_len rest
    → Delivers ntb block_len (entry ntb block_len i l rest)
unfolding entry
entry-Delivers ntb block_len i l fault h d = absurd d
entry-Delivers ntb block_len i l reject h d = absurd d
entry-Delivers ntb block_len i l (ok dgs) h d =
    elim (Bool-cases (l == 0 || ltb block_len (i + l))) [
      | inl skip ↦ ground arith
      | inr taken ↦
          let inside : i + l ≤ block_len = ground arith in
          let len : length (take l (drop i ntb)) ≡ l =
            length-take l (drop i ntb) (omega (arith, length-drop {0} i ntb)) in
          let dg = take l (drop i ntb) in
          let part : Part ntb block_len dg = record {
            offset = i;
            bytes = ap (λ n. take n (drop i ntb)) (sym len);
            some_bytes = ground arith;
            inside = omega arith;
          } in
          ground (arith, read_bytes_ok ntb i l, part, d)
    ]

scan_entries-Delivers :
    (fuel : ℕ) (ntb : List ℕ) (block_len ndp_end p : ℕ)
    → block_len ≤ length ntb
    → ndp_end ≤ block_len
    → p ≤ ndp_end
    → ndp_end < p + 4 * fuel
    → Delivers ntb block_len (scan_entries fuel ntb block_len ndp_end p)
unfolding scan_entries
scan_entries-Delivers zero ntb block_len ndp_end p h k l f = absurd (omega arith)
scan_entries-Delivers (suc fuel) ntb block_len ndp_end p h k l f =
    elim (Bool-cases (leb (p + 4) ndp_end)) [
      | inr done ↦ rw done tt
      | inl more ↦
          let room : p + 4 ≤ ndp_end = ground arith in
          let (i, e, _) = rd16-ok ntb p (omega arith) in
          let (l, d, _) = rd16-ok ntb (p + 2) (omega arith) in
          let rest = scan_entries fuel ntb block_len ndp_end (p + 4) in
          rw (more, e, d)
            (entry-Delivers ntb block_len i l rest h
              (scan_entries-Delivers fuel ntb block_len ndp_end (p + 4) h k room (omega arith)))
    ]

chain-Delivers :
    (ntb : List ℕ) (block_len ndp_index next_ndp : ℕ) (dgs : List (List ℕ))
    (rest : Outcome (List (List ℕ)))
    → All (Part ntb block_len) dgs
    → (ndp_index < next_ndp → Delivers ntb block_len rest)
    → Delivers ntb block_len (chain ndp_index next_ndp dgs rest)
unfolding chain
chain-Delivers ntb block_len ndp_index next_ndp dgs rest h k =
    elim (Bool-cases (next_ndp == 0 || leb next_ndp ndp_index)) [
      | inl stop ↦ rw stop h
      | inr on ↦ rw on (join rest (k (ground arith)))
    ]
  where
    join :
        (r : Outcome (List (List ℕ)))
        → Delivers ntb block_len r
        → Delivers ntb block_len (r >>= λ more. ok (dgs ++ more))
    join (ok more) d = All-append (Part ntb block_len) dgs more h d
    join reject d = absurd d
    join fault d = absurd d

ndp_limit_bounds :
    (block_len i n : ℕ)
    → i + 8 ≤ block_len
    → (ndp_limit block_len i n ≤ block_len) × (i + 8 ≤ ndp_limit block_len i n)
ndp_limit_bounds block_len i n h = ground arith

scan_ndps-Delivers :
    (fuel : ℕ) (ntb : List ℕ) (block_len ndp_index : ℕ)
    → block_len ≤ length ntb
    → ndp_index < 2 ^ 16
    → 2 ^ 16 ≤ ndp_index + fuel
    → Delivers ntb block_len (scan_ndps fuel ntb block_len ndp_index)
unfolding scan_ndps
scan_ndps-Delivers zero ntb block_len ndp_index h k f = absurd (omega arith)
scan_ndps-Delivers (suc fuel) ntb block_len i h k f =
    elim (Bool-cases (not (i == 0) && leb (i + 8) block_len)) [
      | inr done ↦ rw done tt
      | inl more ↦
          let room : i + 8 ≤ block_len = ground arith in
          let sig : ℕ = le_word ntb i in
          let e = rd32-ok ntb i (omega arith) in
          let (n, d, _) = rd16-ok ntb (i + 4) (omega arith) in
          let (next, c, small) = rd16-ok ntb (i + 6) (omega arith) in
          let limit = ndp_limit block_len i n in
          let (low, high) = ndp_limit_bounds block_len i n room in
          let entries =
            scan_entries-Delivers (block_len + 1) ntb block_len limit (i + 8) h low high
              (omega arith) in
          rw (more, e, d, c)
            (go sig next (scan_entries (block_len + 1) ntb block_len limit (i + 8)) entries
              (λ forward. scan_ndps-Delivers fuel ntb block_len next h small (omega arith)))
    ]
  where
    go :
        (sig next : ℕ) (r : Outcome (List (List ℕ)))
        → Delivers ntb block_len r
        → (i < next → Delivers ntb block_len (scan_ndps fuel ntb block_len next))
        → Delivers ntb block_len (
            if not (bit_and sig ndp16_sig_mask == ndp16_signature)
            then ok []
            else (r >>= λ dgs. chain i next dgs (scan_ndps fuel ntb block_len next)))
    go sig next (ok dgs) e k =
        elim (Bool-cases (not (bit_and sig ndp16_sig_mask == ndp16_signature))) [
          | inl other ↦ rw other tt
          | inr ips ↦
              rw ips
                (chain-Delivers ntb block_len i next dgs (scan_ndps fuel ntb block_len next) e k)
        ]
    go sig next reject e k = absurd e
    go sig next fault e k = absurd e

-- What the deframer answers: an error for a block that is shorter than its header or does not start
-- with the bytes "NCMH", and for any other datagrams that are parts of the block.
abbrev pub Deframed : List ℕ → Outcome (List (List ℕ)) → Type 0
Deframed ntb (ok dgs) =
    (12 ≤ length ntb) × (le_word ntb 0 ≡ 0x484D434E) × All (Part ntb (length ntb)) dgs
Deframed ntb reject = (length ntb < 12) ⊎ (le_word ntb 0 ≢ 0x484D434E)
Deframed ntb fault = ⊥

shorter :
    (ntb : List ℕ) (n : ℕ) (r : Outcome (List (List ℕ)))
    → n ≤ length ntb
    → 12 ≤ length ntb
    → le_word ntb 0 ≡ 0x484D434E
    → Delivers ntb n r
    → Deframed ntb r
shorter ntb n reject h room sig d = absurd d
shorter ntb n fault h room sig d = absurd d
shorter ntb n (ok dgs) h room sig d = (room, sig, widen dgs d)
  where
    widen : (xs : List (List ℕ)) → All (Part ntb n) xs → All (Part ntb (length ntb)) xs
    widen [] a = tt
    widen (x ∷ xs) (p, a) = (
      record {
        offset = p.offset;
        bytes = p.bytes;
        some_bytes = p.some_bytes;
        inside = omega (arith, p.inside);
      },
      widen xs a,
    )

-- Whatever bytes the host sends, the deframer stops and never reads outside them. It refuses a block
-- that is shorter than its header of 12 bytes or lacks the signature 0x484D434E, and only such a
-- block; from any other, each datagram that it delivers is a part of the block that is not empty.
pub deframe-Deframed : (ntb : List ℕ) → Deframed ntb (deframe ntb)
unfolding deframe
deframe-Deframed ntb = elim (Bool-cases (ltb (length ntb) 12)) [
  | inl short ↦ rw short (inl (ltb→lt _ _ short))
  | inr long ↦
      let room : 12 ≤ length ntb = ground arith in
      let sig : ℕ = le_word ntb 0 in
      let e = rd32-ok ntb 0 (omega arith) in
      let (l, d, _) = rd16-ok ntb 8 (omega arith) in
      let (i, c, small) = rd16-ok ntb 10 (omega arith) in
      elim (Bool-cases (sig == nth16_signature)) [
        | inl same ↦
            let signed : sig ≡ 0x484D434E = ground arith in
            rw (long, e, same, d, c)
              (pick l i (Bool-cases (l == 0 || ltb (length ntb) l)) small room signed)
        | inr other ↦ rw (long, e, other) (inr (λ h. ground arith))
      ]
]
  where
    pick :
        (l i : ℕ)
        → ((l == 0 || ltb (length ntb) l) ≡ true) ⊎ ((l == 0 || ltb (length ntb) l) ≡ false)
        → i < 2 ^ 16
        → 12 ≤ length ntb
        → le_word ntb 0 ≡ 0x484D434E
        → Deframed ntb
            (scan_ndps (2 ^ 16 + 1) ntb (if l == 0 || ltb (length ntb) l then length ntb else l) i)
    pick l i (inl whole) small room sig = rw whole (
        shorter ntb (length ntb) (scan_ndps (2 ^ 16 + 1) ntb (length ntb) i) (omega arith) room sig
          (scan_ndps-Delivers (2 ^ 16 + 1) ntb (length ntb) i (omega arith) small (omega arith)))
    pick l i (inr part) small room sig = rw part (
        shorter ntb l (scan_ndps (2 ^ 16 + 1) ntb l i) (ground arith) room sig
          (scan_ndps-Delivers (2 ^ 16 + 1) ntb l i (ground arith) small (omega arith)))
