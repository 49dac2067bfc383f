-- ===== src/NasEncode/Identity.antt =====
-- The SUCI of ue_nas_encode.c holds the digits of the IMSI.
use virtuallte.Common.{
  ℕ, suc, ◌+◌, ◌*◌, ◌/◌, ◌%◌, ◌≤◌, ◌<◌, ◌≡◌, refl, ap, ◌∙◌, true, false, not, ◌&&◌, ◌==◌, ltb,
  if◌then◌else◌, Option, none, some, List, [], ◌∷◌, ◌++◌, length, length-append, take, drop,
  take-append, drop-append, All, ok, reject, bind_ok, le→not-ltb, ==_iff, arith,
}
use virtuallte.NasEncode.Cursor.{at_start}
use virtuallte.NasEncode.Suci.{bcd_pack, write_suci, encode_suci}
use virtuallte.NasEncode.Writes.{put-Emits, at_start-Written}
use virtuallte.NasEncode.Digits.{
  IsDigit, ascii, unpack, unpack-bcd, put_msin-Emits, length-ascii, length-bcd,
}
use virtuallte.NasEncode.Subscriber.{
  Subscriber, third, mcc_digits, mnc_digits, imsi_digits, AllDigits, filled, suci_octets,
  ascii-append, suci_octets-valid, nibble-ascii, third_lem,
}

write_suci_lem :
    (s : Subscriber) (buf : List ℕ)
    → AllDigits s
    → length (suci_octets s) ≤ length buf
    → write_suci buf (ascii (mcc_digits s)) (ascii (mnc_digits s)) (ascii s.msin) ≡ (
        if length s.msin % 2 == 0
        then ok (suci_octets s ++ drop (length (suci_octets s)) buf, length (suci_octets s))
        else reject)
unfolding write_suci bcd_pack
write_suci_lem s buf h room =
    let octets : List ℕ =
      (s.m2 * 16 + s.m1) ∷ (filled s.n3 * 16 + s.m3) ∷ (s.n2 * 16 + s.n1) ∷ [] in
    let a = put-Emits (1 ∷ []) buf [] (at_start buf) (at_start-Written buf) (omega arith) in
    let b = put-Emits octets buf (1 ∷ []) a.0 a.2 (omega arith) in
    let c = put-Emits (0 ∷ 0 ∷ 0 ∷ 0 ∷ []) buf (1 ∷ octets) b.0 b.2 (omega arith) in
    let d =
      put_msin-Emits s.msin h.msin_digits buf (1 ∷ (octets ++ (0 ∷ 0 ∷ 0 ∷ 0 ∷ []))) c.0 c.2
        (omega arith) in
    let content : d.0.buf ≡ suci_octets s ++ drop (length (suci_octets s)) buf = d.2.content in
    let position : d.0.pos ≡ length (suci_octets s) = d.2.position in
    let whole : take d.0.pos d.0.buf ≡ suci_octets s =
      ap (take d.0.pos) content ∙ take-append (suci_octets s) _ d.0.pos position in
    rw
      (
        nibble-ascii s.m1 h.m1_digit,
        nibble-ascii s.m2 h.m2_digit,
        nibble-ascii s.m3 h.m3_digit,
        nibble-ascii s.n1 h.n1_digit,
        nibble-ascii s.n2 h.n2_digit,
        third_lem s.n1 s.n2 s.n3 h.n3_digit,
      )
      (bind_ok _ _ a.1 (
        bind_ok _ _ b.1 (
          bind_ok _ _ c.1
            (bind_ok _ _ d.1 (rw (whole, suci_octets-valid s h, content, position) refl)))))

mnc_fits :
    (n3 : Option ℕ)
    → (not (suc (suc (length (ascii (third n3)))) == 2)
        && not (suc (suc (length (ascii (third n3)))) == 3))
      ≡ false
mnc_fits none = refl
mnc_fits (some d) = refl

encode_suci_lem :
    (s : Subscriber) (buf : List ℕ)
    → AllDigits s
    → length (suci_octets s) ≤ length buf
    → encode_suci buf (ascii (imsi_digits s)) (ascii (mcc_digits s)) (ascii (mnc_digits s)) ≡ (
        if length s.msin % 2 == 0
        then ok (suci_octets s ++ drop (length (suci_octets s)) buf, length (suci_octets s))
        else reject)
unfolding encode_suci
encode_suci_lem s buf h room =
    let mnc : List ℕ = ascii (mnc_digits s) in
    let front : List ℕ = ascii (s.m1 ∷ s.m2 ∷ s.m3 ∷ s.n1 ∷ s.n2 ∷ third s.n3) in
    let imsi : ascii (imsi_digits s) ≡ front ++ ascii s.msin =
      ascii-append (s.m1 ∷ s.m2 ∷ s.m3 ∷ s.n1 ∷ s.n2 ∷ third s.n3) s.msin in
    let size : length (ascii (imsi_digits s)) ≡ length front + length (ascii s.msin) =
      ap length imsi ∙ length-append {A = ℕ} front (ascii s.msin) in
    let msin : drop (3 + length mnc) (ascii (imsi_digits s)) ≡ ascii s.msin =
      ap (drop (3 + length mnc)) imsi
      ∙ drop-append front (ascii s.msin) (3 + length mnc) (omega arith) in
    let enough : ltb (length (ascii (imsi_digits s))) (3 + length mnc) ≡ false =
      le→not-ltb _ _ (omega (arith, size)) in
    let fits : ltb (length buf) (8 + (length (ascii s.msin) + 1) / 2) ≡ false =
      le→not-ltb _ _ (omega (arith, length-ascii s.msin, length-bcd s.msin)) in
    rw (mnc_fits s.n3, enough, msin, fits) (write_suci_lem s buf h room)

-- The digits that a receiver reads in a SUCI; a filler stands for no third digit of the network.
abbrev pub suci_digits : List ℕ → List ℕ
suci_digits (t ∷ p0 ∷ p1 ∷ p2 ∷ r0 ∷ r1 ∷ scheme ∷ key ∷ output) =
    p0 % 16
    ∷ p0 / 16
    ∷ p1 % 16
    ∷ p2 % 16
    ∷ p2 / 16
    ∷ ((if p1 / 16 == 15 then [] else p1 / 16 ∷ []) ++ unpack output)
suci_digits short = []

third-filled :
    (m3 : ℕ) (n3 : Option ℕ)
    → IsDigit m3
    → All IsDigit (third n3)
    → (if (filled n3 * 16 + m3) / 16 == 15 then [] else (filled n3 * 16 + m3) / 16 ∷ []) ≡ third n3
third-filled m3 none hm h = let high : (15 * 16 + m3) / 16 ≡ 15 = omega arith in rw high refl
third-filled m3 (some d) hm h =
    let hd : d < 10 = h.0 in
    let high : (d * 16 + m3) / 16 ≡ d = omega arith in
    let digit : (d == 15) ≡ false = ground arith in rw (high, digit) refl

suci_digits-octets :
    (s : Subscriber)
    → AllDigits s
    → length s.msin % 2 ≡ 0
    → suci_digits (suci_octets s) ≡ imsi_digits s
suci_digits-octets s h even =
    let low = λ (a b : ℕ) (ha : a < 10). let e : (b * 16 + a) % 16 ≡ a = omega arith in e in
    let high = λ (a b : ℕ) (ha : a < 10). let e : (b * 16 + a) / 16 ≡ b = omega arith in e in
    rw
      (
        low s.m1 s.m2 h.m1_digit,
        high s.m1 s.m2 h.m1_digit,
        low s.m3 (filled s.n3) h.m3_digit,
        low s.n1 s.n2 h.n1_digit,
        high s.n1 s.n2 h.n1_digit,
        third-filled s.m3 s.n3 h.m3_digit h.n3_digit,
        unpack-bcd s.msin h.msin_digits even,
      )
      refl

-- For a subscriber of digits, with a network of two or three digits, whose MSIN has an even number of
-- them, and with room in the buffer, the encoder writes a SUCI from which the digits of the IMSI are
-- read back in order, and leaves the rest of the buffer alone.
pub suci_digits-encode_suci :
    (s : Subscriber) (buf : List ℕ)
    → AllDigits s
    → length s.msin % 2 ≡ 0
    → 8 + length s.msin / 2 ≤ length buf
    → (suci : List ℕ) × (encode_suci buf
          (ascii (imsi_digits s))
          (ascii (mcc_digits s))
          (ascii (mnc_digits s))
        ≡ ok (suci ++ drop (length suci) buf, length suci))
      × (suci_digits suci ≡ imsi_digits s)
suci_digits-encode_suci s buf h even room =
    let pairs : (length s.msin % 2 == 0) ≡ true = (==_iff _ _).1 even in
    (
      suci_octets s,
      encode_suci_lem s buf h (omega (arith, length-bcd s.msin)) ∙ rw pairs refl,
      suci_digits-octets s h even,
    )

-- An IMSI whose MSIN has an odd number of digits, as every one of 15 digits with a network of three
-- digits, is refused by the encoder, though its buffer has room: the filler behind the last digit
-- does not pass the check of what was written.
pub encode_suci_odd :
    (s : Subscriber) (buf : List ℕ)
    → AllDigits s
    → length s.msin % 2 ≡ 1
    → 8 + (length s.msin + 1) / 2 ≤ length buf
    → encode_suci buf (ascii (imsi_digits s)) (ascii (mcc_digits s)) (ascii (mnc_digits s)) ≡ reject
encode_suci_odd s buf h odd room =
    let single : (length s.msin % 2 == 0) ≡ false = ground arith in
    encode_suci_lem s buf h (omega (arith, length-bcd s.msin)) ∙ rw single refl
