-- ===== src/NasEncode/Digits.antt =====
-- Decimal digits as characters and in the BCD bytes of ue_nas_encode.c.
use virtuallte.Common.{
  ℕ, suc, ◌+◌, ◌*◌, ◌/◌, ◌%◌, ◌<◌, ◌≡◌, refl, sym, ap, ◌∙◌, true, ◌==◌, none, some, List, [], ◌∷◌,
  length, All, ◌>>=◌, CString, le→not-ltb, arith,
}
use mathlib.Core.Path.{subst}
use virtuallte.NasEncode.Cursor.{put}
use virtuallte.NasEncode.Suci.{
  digit_val, nibble, bcd_pack, bcd_validate_strict, all_strict, put_msin,
}
use virtuallte.NasEncode.Writes.{Emits, here, put-Emits, Emits-bind, Emits-ok}

abbrev pub IsDigit : ℕ → Type 0
IsDigit d = d < 10

-- Digits as ASCII characters.
abbrev pub ascii : List ℕ → CString
ascii [] = []
ascii (d ∷ digits) = (48 + d) ∷ ascii digits

pub digit_val-ascii : (d : ℕ) → IsDigit d → digit_val (48 + d) ≡ some d
unfolding digit_val
digit_val-ascii d h = ground arith

-- Two digits to an octet, the first in the low half; an odd last one has a filler above it.
abbrev pub bcd : List ℕ → List ℕ
bcd [] = []
bcd (a ∷ []) = (15 * 16 + a) ∷ []
bcd (a ∷ b ∷ digits) = (b * 16 + a) ∷ bcd digits

-- Both halves of every octet.
abbrev pub unpack : List ℕ → List ℕ
unpack [] = []
unpack (b ∷ bytes) = b % 16 ∷ b / 16 ∷ unpack bytes

pub unpack-bcd :
    (digits : List ℕ) → All IsDigit digits → length digits % 2 ≡ 0 → unpack (bcd digits) ≡ digits
unpack-bcd [] h even = refl
unpack-bcd (a ∷ []) h even = absurd (omega arith)
unpack-bcd (a ∷ b ∷ digits) h even =
    let ha : a < 10 = h.0 in
    let hb : b < 10 = h.1.0 in
    let low : (b * 16 + a) % 16 ≡ a = omega arith in
    let high : (b * 16 + a) / 16 ≡ b = omega arith in
    rw (low, high, unpack-bcd digits h.1.1 (omega arith))

pub put_msin-Emits :
    (digits : List ℕ)
    → All IsDigit digits
    → Emits here (λ c. put_msin c (ascii digits)) (bcd digits)
unfolding put_msin bcd_pack nibble
put_msin-Emits [] h = Emits-ok here
put_msin-Emits (a ∷ []) h =
    let ha : a < 10 = h.0 in
    let octet : nibble none * 16 + nibble (digit_val (48 + a)) ≡ 15 * 16 + a =
      rw (digit_val-ascii a ha) (omega arith) in
    subst (λ v. Emits here (λ c. put c (v ∷ [])) ((15 * 16 + a) ∷ [])) (sym octet) (put-Emits _)
put_msin-Emits (a ∷ b ∷ digits) h =
    let ha : a < 10 = h.0 in
    let hb : b < 10 = h.1.0 in
    let octet : nibble (digit_val (48 + b)) * 16 + nibble (digit_val (48 + a)) ≡ b * 16 + a =
      rw (digit_val-ascii a ha, digit_val-ascii b hb) (omega arith) in
    subst
      (λ v.
        Emits here (λ c. put c (v ∷ []) >>= λ c. put_msin c (ascii digits))
          ((b * 16 + a) ∷ bcd digits))
      (sym octet)
      (Emits-bind here (λ c. put c ((b * 16 + a) ∷ [])) (λ c. put_msin c (ascii digits)) _
        (bcd digits) (put-Emits _) (put_msin-Emits digits h.1.1))

pub strict-pair : (a b : ℕ) → IsDigit a → IsDigit b → bcd_validate_strict (b * 16 + a) ≡ true
unfolding bcd_validate_strict
strict-pair a b ha hb =
    let low : (b * 16 + a) % 16 ≡ a = omega arith in
    let high : (b * 16 + a) / 16 % 16 ≡ b = omega arith in
    rw (low, high, le→not-ltb 9 a (omega arith), le→not-ltb 9 b (omega arith)) refl

-- The octets of digits pass the check exactly if there is no filler among them.
pub all_strict-bcd :
    (digits : List ℕ) → All IsDigit digits → all_strict (bcd digits) ≡ (length digits % 2 == 0)
unfolding all_strict
all_strict-bcd [] h = refl
all_strict-bcd (a ∷ []) h = let ha : a < 10 = h.0 in unfold bcd_validate_strict in ground arith
all_strict-bcd (a ∷ b ∷ digits) h =
    let parity : length digits % 2 ≡ suc (suc (length digits)) % 2 = omega arith in
    rw (strict-pair a b h.0 h.1.0) (all_strict-bcd digits h.1.1 ∙ ap (λ n. n == 0) parity)

pub length-ascii : (digits : List ℕ) → length (ascii digits) ≡ length digits
length-ascii [] = refl
length-ascii (d ∷ digits) = ap suc (length-ascii digits)

pub length-bcd : (digits : List ℕ) → length (bcd digits) ≡ (length digits + 1) / 2
length-bcd [] = omega arith
length-bcd (a ∷ []) = omega arith
length-bcd (a ∷ b ∷ digits) = omega (arith, length-bcd digits)
