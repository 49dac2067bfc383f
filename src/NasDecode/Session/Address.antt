-- ===== src/NasDecode/Session/Address.antt =====
-- The PDU address of a PDU Session Establishment Accept, as ue_nas_decode.c looks for it.
use virtuallte.Common.{
  ℕ, zero, suc, ◌+◌, ◌/◌, ◌%◌, ◌^◌, ◌≤◌, ◌<◌, ◌≡◌, ◌∙◌, refl, ap, sym, true, false, ◌&&◌, List, [],
  ◌∷◌, ◌++◌, length, drop, ltb, leb, ◌==◌, if◌then◌else◌, ok, read, read_ok, ◌≢◌, read_bytes, arith,
  bind_ok, length-append, read_bytes-append, le→leb, le→not-ltb, append_assoc, read-append, read_at,
  if_true, if_false, blit-append, lt→ltb,
}
use virtuallte.NasDecode.Event.{NasEvent}
use virtuallte.NasDecode.Session.{
  skip_lv16, skip_lv8, copy_pdu_address, scan_pdu_address, find_pdu_address,
}

suc_one : (n : ℕ) → n + 1 ≡ suc n
suc_one n = omega arith

-- The rounds of the scan: at the address, over another element, and at the end.
module _ (p : List ℕ) (e : NasEvent) where
  scan_at :
      (fuel pos : ℕ)
      → 1 ≤ fuel
      → pos + 2 < length p
      → read p pos ≡ ok 0x29
      → scan_pdu_address fuel p pos e ≡ copy_pdu_address p pos e
  unfolding scan_pdu_address
  scan_at zero pos k room h = absurd (omega arith)
  scan_at (suc fuel) pos k room h =
      if_true (ltb (pos + 2) (length p)) _ _ (lt→ltb _ _ room)
        (bind_ok _ _ h (bind_ok _ _ (read_ok p (pos + 1) (omega arith)) refl))

  scan_over :
      (fuel pos iei n : ℕ)
      → pos + 2 < length p
      → read p pos ≡ ok iei
      → read p (pos + 1) ≡ ok n
      → iei < 0x80
      → iei ≢ 0x29
      → scan_pdu_address (suc fuel) p pos e ≡ scan_pdu_address fuel p (pos + (2 + n)) e
  unfolding scan_pdu_address
  scan_over fuel pos iei n room h k small other =
      let tlv : leb 0x80 iei ≡ false = ground arith in
      let skip : (if leb 0x80 iei then pos + 1 else pos + (2 + n)) ≡ pos + (2 + n) = rw tlv refl in
      if_true (ltb (pos + 2) (length p)) _ _ (lt→ltb _ _ room) (
        bind_ok _ _ h (
          bind_ok _ _ k (
            if_false (iei == 0x29) _ _ (ground arith)
              (ap (λ next. scan_pdu_address fuel p next e) skip))))

  scan_end : (fuel pos : ℕ) → 1 ≤ fuel → length p ≤ pos + 2 → scan_pdu_address fuel p pos e ≡ ok e
  unfolding scan_pdu_address
  scan_end zero pos k h = absurd (omega arith)
  scan_end (suc fuel) pos k h = if_false (ltb (pos + 2) (length p)) _ _ (le→not-ltb _ _ h) refl

module _ (psi pti kind : ℕ) (qos ambr : List ℕ) where
  -- The mandatory fields, up to the QoS rules.
  abbrev rules : List ℕ
  rules = 0x2E ∷ (psi ∷ (pti ∷ (0xC2 ∷ (kind ∷ (length qos / 2 ^ 8 ∷ (length qos % 2 ^ 8 ∷ qos))))))

  abbrev mandatory : List ℕ
  mandatory = rules ++ (length ambr ∷ ambr)

  -- An accept with the given optional elements.
  abbrev pub est_accept : List ℕ → List ℕ
  est_accept optional = mandatory ++ optional

  module _ (optional : List ℕ) where
    abbrev pdu : List ℕ
    pdu = est_accept optional

    length-mandatory : length mandatory ≡ 7 + length qos + (1 + length ambr)
    length-mandatory = omega (arith, length-append {0} rules (length ambr ∷ ambr))

    length-pdu : length pdu ≡ 7 + length qos + (1 + length ambr) + length optional
    length-pdu = omega (arith, length-mandatory, length-append {0} mandatory optional)

    skip_mandatory :
        (e : NasEvent)
        → find_pdu_address pdu e ≡ scan_pdu_address (length pdu + 1) pdu (length mandatory) e
    unfolding find_pdu_address skip_lv16 skip_lv8
    skip_mandatory e =
        if_true (leb 5 (length pdu)) _ _ (le→leb _ _ (omega (arith, length-pdu)))
          (bind_ok _ _ rules_end (bind_ok _ _ ambr_end refl))
      where
        rules_end : skip_lv16 pdu 5 ≡ ok (7 + length qos)
        rules_end =
            if_true (leb 7 (length pdu)) _ _ (le→leb _ _ (omega (arith, length-pdu)))
              (ap ok (omega arith))

        ambr_end : skip_lv8 pdu (7 + length qos) ≡ ok (length mandatory)
        ambr_end =
            if_true (leb (7 + length qos + 1) (length pdu)) _ _
              (le→leb _ _ (omega (arith, length-pdu)))
              (bind_ok _ _
                (read_at pdu rules (ambr ++ optional) (length ambr) (7 + length qos)
                  (append_assoc rules (length ambr ∷ ambr) optional) (omega arith))
                (ap ok (omega (arith, length-mandatory))))

  -- The PDU address element of an IPv4 session.
  abbrev pub address_element : ℕ → ℕ → ℕ → ℕ → List ℕ
  address_element a b c d = 0x29 ∷ (5 ∷ (1 ∷ (a ∷ (b ∷ (c ∷ (d ∷ []))))))

  -- Where the IPv4 address is the first optional element, it is found, whatever the QoS rules and
  -- the session AMBR are and whatever follows.
  pub find-pdu_address :
      (a b c d : ℕ) (rest : List ℕ) (e : NasEvent)
      → length e.ipv4_addr ≡ 4
      → find_pdu_address (est_accept (address_element a b c d ++ rest)) e
        ≡ ok record e {
          has_pdu_address = true;
          pdu_addr_type = 1;
          ipv4_addr = a ∷ (b ∷ (c ∷ (d ∷ drop 4 e.ipv4_addr)));
        }
  unfolding copy_pdu_address
  find-pdu_address a b c d rest e h =
      let optional : List ℕ = address_element a b c d ++ rest in
      let p : List ℕ = est_accept optional in
      let n : ℕ = length mandatory in
      let size : length p ≡ n + 7 + length rest = omega (
        arith,
        length-append {0} mandatory optional,
        length-append {0} (address_element a b c d) rest,
      ) in
      skip_mandatory optional e
      ∙ scan_at p e (length p + 1) n (omega arith) (omega arith)
          (read-append mandatory _ 0x29 n refl)
      ∙ bind_ok _ _
          (read_at p (mandatory ++ (0x29 ∷ [])) (1 ∷ (a ∷ (b ∷ (c ∷ (d ∷ rest))))) 5 (n + 1)
            (sym (append_assoc mandatory (0x29 ∷ []) _))
            (omega (arith, length-append {0} mandatory (0x29 ∷ []))))
          (if_true (leb (n + 2 + 5) (length p) && leb 5 5) _ _ (ground (arith, size)) (
            bind_ok _ _
              (read_at p (mandatory ++ (0x29 ∷ (5 ∷ []))) (a ∷ (b ∷ (c ∷ (d ∷ rest)))) 1 (n + 2)
                (sym (append_assoc mandatory (0x29 ∷ (5 ∷ [])) _))
                (omega (arith, length-append {0} mandatory (0x29 ∷ (5 ∷ [])))))
              (bind_ok _ _
                (ap (λ q. read_bytes q (n + 3) 4)
                    (sym (append_assoc mandatory (0x29 ∷ (5 ∷ (1 ∷ []))) _))
                  ∙ read_bytes-append (mandatory ++ (0x29 ∷ (5 ∷ (1 ∷ []))))
                      (a ∷ (b ∷ (c ∷ (d ∷ [])))) rest (n + 3) 4
                      (omega (arith, length-append {0} mandatory (0x29 ∷ (5 ∷ (1 ∷ []))))) refl)
                (bind_ok _ _
                  (blit-append [] e.ipv4_addr (a ∷ (b ∷ (c ∷ (d ∷ [])))) 0 refl (omega arith))
                  refl))))

  -- Where the two octets of a 5GSM cause, of value 5 or more, stand before the IPv4 address and
  -- nothing follows it, the address is not found: the event stays as it is.
  pub cause_hides_address :
      (cause a b c d : ℕ) (e : NasEvent)
      → 5 ≤ cause
      → find_pdu_address (est_accept (0x59 ∷ (cause ∷ address_element a b c d))) e ≡ ok e
  cause_hides_address cause a b c d e h =
      let optional : List ℕ = 0x59 ∷ (cause ∷ address_element a b c d) in
      let p : List ℕ = est_accept optional in
      let n : ℕ = length mandatory in
      let size : length p ≡ n + 9 = omega (arith, length-append {0} mandatory optional) in
      skip_mandatory optional e
      ∙ ap (λ f. scan_pdu_address f p n e) (suc_one (length p))
      ∙ scan_over p e (length p) n 0x59 cause (omega arith) (read-append mandatory _ 0x59 n refl)
          (read_at p (mandatory ++ (0x59 ∷ [])) (address_element a b c d) cause (n + 1)
            (sym (append_assoc mandatory (0x59 ∷ []) _))
            (omega (arith, length-append {0} mandatory (0x59 ∷ []))))
          (omega arith) (ground arith)
      ∙ scan_end p e (length p) (n + (2 + cause)) (omega arith) (omega arith)
