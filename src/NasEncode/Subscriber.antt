-- ===== src/NasEncode/Subscriber.antt =====
-- A subscriber by digits, and the SUCI of ue_nas_encode.c that stands for it.
use virtuallte.Common.{
  ℕ, ◌+◌, ◌*◌, ◌/◌, ◌%◌, ◌<◌, ◌≡◌, refl, ◌⊎◌, ap, true, false, not, ◌&&◌, ◌==◌, ltb, if◌then◌else◌,
  Option, none, some, List, [], ◌∷◌, ◌++◌, length, get_or, All, le→not-ltb, inl, inr, arith,
}
use virtuallte.NasEncode.Suci.{
  digit_val, nibble, bcd_validate_strict, bcd_validate_plmn, suci_validate_bcd,
}
use virtuallte.NasEncode.Digits.{IsDigit, ascii, digit_val-ascii, bcd, all_strict-bcd}

-- The digits of a subscriber: the country, the network with two or three digits, and the rest.
pub record Subscriber : Type 0 where
  pub m1 : ℕ
  pub m2 : ℕ
  pub m3 : ℕ
  pub n1 : ℕ
  pub n2 : ℕ
  pub n3 : Option ℕ
  pub msin : List ℕ

abbrev pub third : Option ℕ → List ℕ
third none = []
third (some d) = d ∷ []

abbrev pub mcc_digits : Subscriber → List ℕ
mcc_digits s = s.m1 ∷ s.m2 ∷ s.m3 ∷ []

abbrev pub mnc_digits : Subscriber → List ℕ
mnc_digits s = s.n1 ∷ s.n2 ∷ third s.n3

abbrev pub imsi_digits : Subscriber → List ℕ
imsi_digits s = s.m1 ∷ s.m2 ∷ s.m3 ∷ s.n1 ∷ s.n2 ∷ (third s.n3 ++ s.msin)

pub record AllDigits (s : Subscriber) : Type 0 where
  pub m1_digit : IsDigit s.m1
  pub m2_digit : IsDigit s.m2
  pub m3_digit : IsDigit s.m3
  pub n1_digit : IsDigit s.n1
  pub n2_digit : IsDigit s.n2
  pub n3_digit : All IsDigit (third s.n3)
  pub msin_digits : All IsDigit s.msin

-- The third digit of the network, or the filler.
abbrev pub filled : Option ℕ → ℕ
filled none = 15
filled (some d) = d

abbrev pub suci_octets : Subscriber → List ℕ
suci_octets s =
    1
    ∷ (s.m2 * 16 + s.m1)
    ∷ (filled s.n3 * 16 + s.m3)
    ∷ (s.n2 * 16 + s.n1)
    ∷ 0
    ∷ 0
    ∷ 0
    ∷ 0
    ∷ bcd s.msin

pub ascii-append : (xs ys : List ℕ) → ascii (xs ++ ys) ≡ ascii xs ++ ascii ys
ascii-append [] ys = refl
ascii-append (x ∷ xs) ys = ap (λ (t : List ℕ). (48 + x) ∷ t) (ascii-append xs ys)

-- The PLMN octets of digits pass the check.
pub plmn-valid :
    (m1 m2 m3 n1 n2 f : ℕ)
    → IsDigit m1
    → IsDigit m2
    → IsDigit m3
    → IsDigit n1
    → IsDigit n2
    → IsDigit f ⊎ (f ≡ 15)
    → bcd_validate_plmn (m2 * 16 + m1) (f * 16 + m3) (n2 * 16 + n1) ≡ true
unfolding bcd_validate_plmn
plmn-valid m1 m2 m3 n1 n2 f h1 h2 h3 h4 h5 hf =
    let l0 : (m2 * 16 + m1) % 16 ≡ m1 = omega arith in
    let u0 : (m2 * 16 + m1) / 16 % 16 ≡ m2 = omega arith in
    let l2 : (n2 * 16 + n1) % 16 ≡ n1 = omega arith in
    let u2 : (n2 * 16 + n1) / 16 % 16 ≡ n2 = omega arith in
    let l1 : (f * 16 + m3) % 16 ≡ m3 = omega arith in
    let u1 : (f * 16 + m3) / 16 % 16 ≡ f = elim hf [ inl d ↦ omega arith | inr e ↦ omega arith ] in
    let third_fits : (ltb 9 f && not (f == 15)) ≡ false = elim hf [
      | inl d ↦ rw (le→not-ltb 9 f (omega arith)) refl
      | inr e ↦ rw e refl
    ] in
    let small = λ (d : ℕ) (h : d < 10). le→not-ltb 9 d (omega arith) in
    rw
      (
        l0,
        u0,
        l1,
        u1,
        l2,
        u2,
        small m1 h1,
        small m2 h2,
        small m3 h3,
        small n1 h4,
        small n2 h5,
        third_fits,
      )
      refl

pub filled-cases : (n3 : Option ℕ) → All IsDigit (third n3) → IsDigit (filled n3) ⊎ (filled n3 ≡ 15)
filled-cases none h = inr refl
filled-cases (some d) h = inl h.0

pub suci_octets-valid :
    (s : Subscriber) → AllDigits s → suci_validate_bcd (suci_octets s) ≡ (length s.msin % 2 == 0)
unfolding suci_validate_bcd
suci_octets-valid s h =
    let plmn =
      plmn-valid s.m1 s.m2 s.m3 s.n1 s.n2 (filled s.n3) h.m1_digit h.m2_digit h.m3_digit h.n1_digit
        h.n2_digit (filled-cases s.n3 h.n3_digit) in
    let zero_octet : bcd_validate_strict 0 ≡ true = unfold bcd_validate_strict in refl in
    rw (plmn, zero_octet) (all_strict-bcd s.msin h.msin_digits)

pub nibble-ascii : (d : ℕ) → IsDigit d → nibble (digit_val (48 + d)) ≡ d
unfolding nibble
nibble-ascii d h = rw (digit_val-ascii d h) (omega arith)

-- The third digit of the network is read where there is one.
pub third_lem :
    (n1 n2 : ℕ) (n3 : Option ℕ)
    → All IsDigit (third n3)
    → nibble (
        if length (ascii (n1 ∷ n2 ∷ third n3)) == 3
        then digit_val (get_or (ascii (n1 ∷ n2 ∷ third n3)) 2 0)
        else none)
      ≡ filled n3
unfolding nibble
third_lem n1 n2 none h = refl
third_lem n1 n2 (some d) h = let small : d < 10 = h.0 in rw (digit_val-ascii d small) (omega arith)
