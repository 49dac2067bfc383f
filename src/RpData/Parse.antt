-- ===== src/RpData/Parse.antt =====
-- What `ims_rp_data_to_mbim_pdu` makes of an RP-DATA of the network.
use virtuallte.Common.{
  ℕ, suc, ◌+◌, ◌≤◌, ◌<◌, ◌≡◌, ◌≢◌, refl, ap, sym, ◌∙◌, List, [], ◌∷◌, ◌++◌, length, drop, take, ok,
  false, fault, arith, read, read_ok, read_bytes_ok, read_bytes, get_or, ltb, Bool-cases, inl, inr,
  length-append, get_elem?-append, bind_ok, blit_at, blit, le→leb, length-take, length-drop,
  append_assoc, read_bytes-append, read_bytes_end, get_elem?, ◌>>=◌, if◌then◌else◌, ◌==◌, ◌||◌,
}
use virtuallte.RpData.{copy_mbim_pdu, rp_data_to_mbim_pdu}

blit_ok :
    (buf new : List ℕ) (i : ℕ)
    → i + length new ≤ length buf
    → (r : List ℕ) × (blit buf i new ≡ ok r) × (length r ≡ length buf)
blit_ok buf new i h = (
  take i buf ++ (new ++ drop (i + length new) buf),
  rw (le→leb (i + length new) (length buf) h),
  omega (
    arith,
    length-append {0} (take i buf) (new ++ drop (i + length new) buf),
    length-append {0} new (drop (i + length new) buf),
    length-take {0} i buf (omega arith),
    length-drop {0} (i + length new) buf,
  ),
)

copy_mbim_pdu-ne-fault :
    (rp out : List ℕ) (oa_lv pos : ℕ)
    → 2 + oa_lv ≤ length rp
    → pos < length rp
    → copy_mbim_pdu rp out oa_lv pos ≢ fault
unfolding copy_mbim_pdu
copy_mbim_pdu-ne-fault rp out oa_lv pos h k =
    let ud_len : ℕ = get_or rp pos 0 in
    elim (Bool-cases (ltb (length rp) (pos + 1 + ud_len) || ltb (length out) (oa_lv + ud_len))) [
      | inl bad ↦ ground (arith, read_ok rp pos)
      | inr good ↦
          let r1 : pos + 1 + ud_len ≤ length rp = ground arith in
          let r2 : oa_lv + ud_len ≤ length out = ground arith in
          let oa : List ℕ = take oa_lv (drop 2 rp) in
          let ud : List ℕ = take ud_len (drop (pos + 1) rp) in
          let oa_length : length oa ≡ oa_lv =
            length-take oa_lv (drop 2 rp) (omega (arith, length-drop {0} 2 rp)) in
          let ud_length : length ud ≡ ud_len =
            length-take ud_len (drop (pos + 1) rp) (omega (arith, length-drop {0} (pos + 1) rp)) in
          let (one, e1, l1) = blit_ok out oa 0 (omega arith) in
          let (two, e2, l2) = blit_ok one ud oa_lv (omega arith) in
          ground (
            arith,
            read_ok rp pos,
            read_bytes_ok rp 2 oa_lv,
            read_bytes_ok rp (pos + 1) ud_len,
            e1,
            e2,
          )
    ]

-- No RP-DATA makes the parser reach outside it or outside the buffer for the PDU.
pub rp_data_to_mbim_pdu-ne-fault : (rp out : List ℕ) → rp_data_to_mbim_pdu rp out ≢ fault
unfolding rp_data_to_mbim_pdu
rp_data_to_mbim_pdu-ne-fault rp out = elim (Bool-cases (ltb (length rp) 3)) [
  | inl short ↦ ground arith
  | inr long ↦
      let room : 3 ≤ length rp = ground arith in
      let oa = get_or rp 2 0 in
      let da = get_or rp (2 + (1 + oa)) 0 in
      let pos = 2 + (1 + oa) + 1 + da in
      ground (
        arith,
        read_ok rp 0,
        read_ok rp 1,
        read_ok rp 2,
        read_ok rp (2 + (1 + oa)),
        read_ok rp pos,
        copy_mbim_pdu-ne-fault rp out (1 + oa) pos,
        copy_mbim_pdu-ne-fault rp out (1 + oa) (pos + 1),
      )
]

-- The octets of an RP-DATA of the network: type 1, reference, the service centre as originator, the
-- destination and the user data, each with its length.
abbrev pub network_rp_data : ℕ → List ℕ → List ℕ → List ℕ → List ℕ
network_rp_data rp_mr oa da ud =
    1 ∷ rp_mr ∷ length oa ∷ (oa ++ (length da ∷ (da ++ (length ud ∷ ud))))

module _ (rp_mr : ℕ) (oa da ud out : List ℕ) where
  abbrev rp : List ℕ
  rp = network_rp_data rp_mr oa da ud

  abbrev after_oa : List ℕ
  after_oa = length da ∷ (da ++ (length ud ∷ ud))

  lengths :
      (length rp ≡ 5 + length oa + length da + length ud)
      × (length (oa ++ after_oa) ≡ 2 + length oa + length da + length ud)
  lengths = omega (arith, length-append {0} oa after_oa, length-append {0} da (length ud ∷ ud))

  read_da_len : read rp (3 + length oa) ≡ ok (length da)
  read_da_len =
      ground (arith, get_elem?-append (1 ∷ rp_mr ∷ length oa ∷ oa) after_oa 0 (3 + length oa))

  read_ud :
      (k i : ℕ) → i ≡ 4 + length oa + length da + k → get_elem? rp i ≡ get_elem? (length ud ∷ ud) k
  read_ud k i h =
      get_elem?-append (1 ∷ rp_mr ∷ length oa ∷ oa) after_oa (1 + length da + k) i (omega arith)
      ∙ get_elem?-append (length da ∷ da) (length ud ∷ ud) k (1 + length da + k) (omega arith)

  read_ud_bytes : (i : ℕ) → i ≡ 5 + length oa + length da → read_bytes rp i (length ud) ≡ ok ud
  read_ud_bytes i e =
      let front = 1 ∷ rp_mr ∷ length oa ∷ (oa ++ (length da ∷ (da ++ (length ud ∷ [])))) in
      let same : rp ≡ front ++ ud = simp append_assoc in
      let len : length front ≡ 5 + length oa + length da = omega (
        arith,
        length-append {0} oa (length da ∷ (da ++ (length ud ∷ []))),
        length-append {0} da (length ud ∷ []),
      ) in
      ap (λ (r : List ℕ). read_bytes r i (length ud)) same
      ∙ read_bytes_end front ud i (length ud) (e ∙ sym len) refl

  -- The end of the parser, where it found the length of the user data.
  copy_mbim_pdu_lem :
      (pos : ℕ)
      → pos ≡ 4 + length oa + length da
      → 1 ≤ length ud
      → 1 + length oa + length ud ≤ length out
      → copy_mbim_pdu rp out (1 + length oa) pos
        ≡ ok (
          (length oa ∷ oa) ++ (ud ++ drop (1 + length oa + length ud) out),
          1 + length oa + length ud,
        )
  unfolding copy_mbim_pdu
  copy_mbim_pdu_lem pos e h room =
      let k : ℕ = length ud in
      let lv : List ℕ = length oa ∷ oa in
      let total : 1 + length oa + k ≡ length oa + 1 + k = omega arith in
      let tests : ((k == 0) || ltb (length rp) (pos + 1 + k)) ≡ false = ground (arith, lengths) in
      let fits : ltb (length out) (1 + length oa + k) ≡ false = ground arith in
      let first : read rp pos ≡ ok k = ground (arith, read_ud 0 pos) in
      bind_ok _ _ first (
        rw (tests, fits)
          (bind_ok _ _
            (read_bytes-append (1 ∷ rp_mr ∷ []) lv after_oa 2 (1 + length oa) refl (omega arith))
            (bind_ok _ _ (blit_at out [] out lv 0 0 refl refl (omega arith)) (
              bind_ok _ _ (read_ud_bytes (pos + 1) (omega arith)) (
                bind_ok _ _
                  (blit_at _ lv out ud (length lv) (1 + length oa) (start lv) (omega arith)
                    (omega arith))
                  (rw (back) refl))))))
    where
      start : (lv : List ℕ) → lv ++ drop (0 + length lv) out ≡ lv ++ drop (length lv) out
      start lv = ap (λ n. lv ++ drop n out) (omega arith)

      back : suc (length oa) + length ud ≡ 1 + length oa + length ud
      back = omega arith

  parse_head :
      1 ≤ length ud
      → rp_data_to_mbim_pdu rp out ≡ (do
        written ←
            copy_mbim_pdu rp out
              (1 + length oa)
              (if length ud == 0x41 then 5 + length oa + length da else 4 + length oa + length da)
        ok (written, rp_mr))
  unfolding rp_data_to_mbim_pdu
  parse_head h = ground (arith, lengths, read_da_len, read_ud 0 (4 + length oa + length da))

-- A network's RP-DATA with user data of 1 octet or more, but not of 65, becomes the MBIM PDU of its
-- originator address and its user data, with its reference, if the buffer holds the two.
pub rp_data_to_mbim_pdu_lem :
    (rp_mr : ℕ) (oa da ud out : List ℕ)
    → 1 ≤ length ud
    → length ud ≢ 65
    → 1 + length oa + length ud ≤ length out
    → rp_data_to_mbim_pdu (network_rp_data rp_mr oa da ud) out
      ≡ ok (
        (
          (length oa ∷ oa) ++ (ud ++ drop (1 + length oa + length ud) out),
          1 + length oa + length ud,
        ),
        rp_mr,
      )
rp_data_to_mbim_pdu_lem rp_mr oa da ud out h ne room = ground (
  arith,
  parse_head rp_mr oa da ud out h,
  copy_mbim_pdu_lem rp_mr oa da ud out (4 + length oa + length da) refl h room,
)

copy_mbim_pdu_size :
    (rp out result : List ℕ) (oa_lv pos n : ℕ)
    → copy_mbim_pdu rp out oa_lv pos ≡ ok (result, n)
    → pos + 1 + n ≤ length rp + oa_lv
unfolding copy_mbim_pdu
copy_mbim_pdu_size rp out result oa_lv pos n e = ground arith

-- User data of 65 octets is mistaken for an information element: its length octet 0x41 is skipped
-- as an identifier and its first octet taken for the length, so that a call that succeeds delivers
-- at most 64 octets of the message.
pub rp_data_to_mbim_pdu_short :
    (rp_mr : ℕ) (oa da ud out result : List ℕ) (n mr : ℕ)
    → length ud ≡ 65
    → rp_data_to_mbim_pdu (network_rp_data rp_mr oa da ud) out ≡ ok ((result, n), mr)
    → n < 1 + length oa + length ud
rp_data_to_mbim_pdu_short rp_mr oa da ud out result n mr h e = ground (
  arith,
  parse_head rp_mr oa da ud out,
  lengths rp_mr oa da ud out,
  copy_mbim_pdu_size (network_rp_data rp_mr oa da ud) out result (1 + length oa)
      (5 + length oa + length da) n,
)
