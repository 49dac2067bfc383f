-- ===== src/Ntb/Block.antt =====
-- A block of one datagram, as the deframer of mbim_ntb.c reads it.
use virtuallte.Common.{
  ℕ, zero, suc, ◌+◌, ◌/◌, ◌%◌, ◌^◌, ◌≤◌, ◌<◌, ◌≡◌, ◌∙◌, ap, sym, refl, not, ◌&&◌, ◌||◌, List, [],
  ◌∷◌, ◌++◌, length, ok, arith, length-append, append_assoc, bind_ok, read, read_at, read_bytes,
  read_bytes-append, if_true, if_false, le→not-ltb, ltb, leb, ◌==◌, if◌then◌else◌,
}
use virtuallte.Ntb.{
  le16, le32, rd16, rd32, entry, scan_entries, ndp_limit, chain, scan_ndps, deframe,
  nth16_signature, ndp16_signature,
}

rd16_at :
    (p xs ys : List ℕ) (v i : ℕ)
    → p ≡ xs ++ (le16 v ++ ys)
    → i ≡ length xs
    → v < 2 ^ 16
    → rd16 p i ≡ ok v
unfolding rd16
rd16_at p xs ys v i e h k = bind_ok _ _ (read_at p xs (v / 2 ^ 8 % 256 ∷ ys) (v % 256) i e h) (
    bind_ok _ _
      (read_at p (xs ++ (v % 256 ∷ [])) ys (v / 2 ^ 8 % 256) (i + 1)
        (e ∙ sym (append_assoc xs (v % 256 ∷ []) (v / 2 ^ 8 % 256 ∷ ys)))
        (omega (arith, length-append {0} xs (v % 256 ∷ []))))
      (ap ok (omega arith)))

-- A table of one entry and the null entry, whatever lies behind.
two_entries :
    (ntb : List ℕ) (block_len ndp_end p i l : ℕ) (dg : List ℕ) (fuel : ℕ)
    → 2 ≤ fuel
    → p + 8 ≤ ndp_end
    → rd16 ntb p ≡ ok i
    → rd16 ntb (p + 2) ≡ ok l
    → rd16 ntb (p + 4) ≡ ok 0
    → rd16 ntb (p + 4 + 2) ≡ ok 0
    → 1 ≤ l
    → i + l ≤ block_len
    → read_bytes ntb i l ≡ ok dg
    → scan_entries fuel ntb block_len ndp_end p ≡ ok (dg ∷ [])
unfolding scan_entries entry
two_entries ntb n end p i l dg zero f room a b c d some_byte fits copy = absurd (omega arith)
two_entries ntb n end p i l dg (suc zero) f room a b c d some_byte fits copy = absurd (omega arith)
two_entries ntb n end p i l dg (suc (suc fuel)) f room a b c d some_byte fits copy =
    if_true (leb (p + 4) end) _ _ (ground arith) (
      bind_ok _ _ a (
        bind_ok _ _ b (
          if_false (i == 0 && l == 0) _ _ (ground arith) (
            if_false (l == 0 || ltb n (i + l)) _ _ (ground arith)
              (bind_ok _ _ copy (bind_ok _ _ null_entry refl))))))
  where
    null_entry : scan_entries (suc fuel) ntb n end (p + 4) ≡ ok []
    null_entry =
        if_true (leb (p + 4 + 4) end) _ _ (ground arith) (bind_ok _ _ c (bind_ok _ _ d refl))

-- A block with one datagram, and padding in front of its table.
module _ (ip pad : List ℕ) (sequence : ℕ) where
  abbrev ndp_off : ℕ
  ndp_off = 12 + length ip + length pad

  abbrev total : ℕ
  total = ndp_off + 16

  abbrev header : List ℕ
  header = le32 nth16_signature ++ (le16 12 ++ (le16 sequence ++ (le16 total ++ le16 ndp_off)))

  abbrev table : List ℕ
  table =
      le32 ndp16_signature
      ++ (le16 16 ++ (le16 0 ++ (le16 12 ++ (le16 (length ip) ++ (le16 0 ++ le16 0)))))

  abbrev body : List ℕ
  body = header ++ (ip ++ pad)

  abbrev pub block : List ℕ
  block = body ++ table

  length-body : length body ≡ ndp_off
  length-body = omega (arith, length-append {0} header (ip ++ pad), length-append {0} ip pad)

  pub length-block : length block ≡ total
  length-block = omega (arith, length-body, length-append {0} body table)

  module _ (small : total < 2 ^ 16) (some_byte : 1 ≤ length ip) where
    -- A field of the table.
    table_at :
        (front rest : List ℕ) (v i : ℕ)
        → table ≡ front ++ (le16 v ++ rest)
        → i ≡ ndp_off + length front
        → v < 2 ^ 16
        → rd16 block i ≡ ok v
    table_at front rest v i e h k =
        rd16_at block (body ++ front) rest v i
          (ap (λ t. body ++ t) e ∙ sym (append_assoc body front (le16 v ++ rest)))
          (omega (arith, length-append {0} body front, length-body)) k

    entries : scan_entries (total + 1) block total (ndp_off + 16) (ndp_off + 8) ≡ ok (ip ∷ [])
    entries =
        let sig : List ℕ = le32 ndp16_signature in
        two_entries block total (ndp_off + 16) (ndp_off + 8) 12 (length ip) ip (total + 1)
          (omega arith) (omega arith)
          (table_at (sig ++ (le16 16 ++ le16 0)) _ 12 (ndp_off + 8) refl (omega arith)
            (omega arith))
          (table_at (sig ++ (le16 16 ++ (le16 0 ++ le16 12))) _ (length ip) (ndp_off + 8 + 2) refl
            (omega arith) (omega arith))
          (table_at (sig ++ (le16 16 ++ (le16 0 ++ (le16 12 ++ le16 (length ip))))) (le16 0) 0
            (ndp_off + 8 + 4) refl (omega arith) (omega arith))
          (table_at (sig ++ (le16 16 ++ (le16 0 ++ (le16 12 ++ (le16 (length ip) ++ le16 0))))) [] 0
            (ndp_off + 8 + 4 + 2) refl (omega arith) (omega arith))
          some_byte (omega arith)
          (ap (λ t. read_bytes t 12 (length ip))
              (append_assoc header (ip ++ pad) table
                ∙ ap (λ t. header ++ t) (append_assoc ip pad table))
            ∙ read_bytes-append header ip (pad ++ table) 12 (length ip) refl refl)

    signature_at : rd32 block ndp_off ≡ ok ndp16_signature
    unfolding rd32
    signature_at = bind_ok _ _ (byte_at [] _ 0x49 ndp_off refl (omega arith)) (
        bind_ok _ _ (byte_at (0x49 ∷ []) _ 0x50 (ndp_off + 1) refl (omega arith)) (
          bind_ok _ _ (byte_at (0x49 ∷ (0x50 ∷ [])) _ 0x53 (ndp_off + 2) refl (omega arith)) (
            bind_ok _ _ (byte_at (0x49 ∷ (0x50 ∷ (0x53 ∷ []))) _ 0 (ndp_off + 3) refl (omega arith))
              refl)))
      where
        byte_at :
            (front rest : List ℕ) (v i : ℕ)
            → table ≡ front ++ (v ∷ rest)
            → i ≡ ndp_off + length front
            → read block i ≡ ok v
        byte_at front rest v i e h =
            read_at block (body ++ front) rest v i
              (ap (λ t. body ++ t) e ∙ sym (append_assoc body front (v ∷ rest)))
              (omega (arith, length-append {0} body front, length-body))

    table_read : (fuel : ℕ) → 1 ≤ fuel → scan_ndps fuel block total ndp_off ≡ ok (ip ∷ [])
    unfolding scan_ndps chain
    table_read zero f = absurd (omega arith)
    table_read (suc fuel) f =
        if_true (not (ndp_off == 0) && leb (ndp_off + 8) total) _ _ (ground arith) (
          bind_ok _ _ signature_at (
            bind_ok _ _
              (table_at (le32 ndp16_signature) _ 16 (ndp_off + 4) refl (omega arith) (omega arith))
              (bind_ok _ _
                (table_at (le32 ndp16_signature ++ le16 16) _ 0 (ndp_off + 6) refl (omega arith)
                  (omega arith))
                (bind_ok _ _
                  (ap (λ end. scan_entries (total + 1) block total end (ndp_off + 8)) limit
                    ∙ entries)
                  refl))))
      where
        limit : ndp_limit total ndp_off 16 ≡ ndp_off + 16
        limit = ground arith

    pub deframe-block : deframe block ≡ ok (ip ∷ [])
    unfolding deframe rd32
    deframe-block =
        if_false (ltb (length block) 12) _ _ (le→not-ltb _ _ (omega (arith, length-block))) (
          bind_ok _ _
            (rd16_at block (le32 nth16_signature ++ (le16 12 ++ le16 sequence))
              (le16 ndp_off ++ ((ip ++ pad) ++ table)) total 8 refl refl small)
            (bind_ok _ _
              (rd16_at block (le32 nth16_signature ++ (le16 12 ++ (le16 sequence ++ le16 total)))
                ((ip ++ pad) ++ table) ndp_off 10 refl refl (omega arith))
              (ap (λ n. scan_ndps (2 ^ 16 + 1) block n ndp_off) whole
                ∙ table_read (2 ^ 16 + 1) (omega arith))))
      where
        whole : (if total == 0 || ltb (length block) total then length block else total) ≡ total
        whole =
            if_false (total == 0 || ltb (length block) total) _ _ (ground (arith, length-block))
              refl
