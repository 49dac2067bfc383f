-- ===== src/ImsIp/Checksum.antt =====
-- The Internet checksum of ims_ip.c.
use virtuallte.Common.{
  ℕ, suc, ◌+◌, ◌-◌, ◌*◌, ◌/◌, ◌%◌, ◌^◌, ◌≤◌, ◌<◌, ◌≡◌, refl, List, [], ◌∷◌, length, ok, arith,
  IsU32, IsBytes, ◌∙◌, ap, sym, Bool-cases, ltb, inl, inr,
}
use virtuallte.ImsIp.{checksum_add, fold_carry, checksum_finish}

-- What folding the carries gives: 16 bits, congruent to the sum modulo 2 ^ 16 - 1, and 0 for 0 alone.
pub record Folded (sum r : ℕ) : Type 0 where
  pub runs : fold_carry 3 sum ≡ ok r
  pub small : r < 2 ^ 16
  pub quotient : ℕ
  pub congruent : sum ≡ 65535 * quotient + r
  pub nonzero : 0 < sum → 0 < r

abbrev fold1 : ℕ → ℕ
fold1 s = (s % 2 ^ 16 + s / 2 ^ 16) % 2 ^ 32

fold_carry-small : (n s : ℕ) → s < 2 ^ 16 → fold_carry (suc n) s ≡ ok s
unfolding fold_carry
fold_carry-small n s h = ground arith

fold_carry-large : (n s : ℕ) → 2 ^ 16 ≤ s → fold_carry (suc n) s ≡ fold_carry n (fold1 s)
unfolding fold_carry
fold_carry-large n s h = ground arith

fold1-congruent : (s : ℕ) → IsU32 s → s ≡ 65535 * (s / 2 ^ 16) + fold1 s
fold1-congruent s h = omega arith

-- Three rounds are enough for 32 bits.
pub fold_carry-Folded : (s : ℕ) → IsU32 s → (r : ℕ) × Folded s r
fold_carry-Folded s h = elim (Bool-cases (ltb s (2 ^ 16))) [
  | inl small ↦ (
    s,
    record {
      runs = fold_carry-small 2 s (ground arith);
      small = ground arith;
      quotient = 0;
      congruent = omega arith;
      nonzero = λ p. p;
    },
  )
  | inr large ↦
      let big : 2 ^ 16 ≤ s = ground arith in
      let e1 = fold1-congruent s h in
      elim (Bool-cases (ltb (fold1 s) (2 ^ 16))) [
        | inl small ↦ (
          fold1 s,
          record {
            runs = fold_carry-large 2 s big ∙ fold_carry-small 1 (fold1 s) (ground arith);
            small = ground arith;
            quotient = s / 2 ^ 16;
            congruent = e1;
            nonzero = λ p. omega arith;
          },
        )
        | inr again ↦
            let big2 : 2 ^ 16 ≤ fold1 s = ground arith in
            let e2 = fold1-congruent (fold1 s) (omega arith) in
            let last : fold1 (fold1 s) < 2 ^ 16 = omega arith in
            (
              fold1 (fold1 s),
              record {
                runs =
                    fold_carry-large 2 s big
                    ∙ (fold_carry-large 1 (fold1 s) big2
                        ∙ fold_carry-small 0 (fold1 (fold1 s)) last);
                small = last;
                quotient = s / 2 ^ 16 + fold1 s / 2 ^ 16;
                congruent = omega arith;
                nonzero = λ p. omega arith;
              },
            )
      ]
]

-- Adding the checksum of a sum to the sum gives a sum whose checksum is 0.
pub checksum_finish-add :
    (s : ℕ)
    → s + 2 ^ 16 ≤ 2 ^ 32
    → (c : ℕ) × (checksum_finish s ≡ ok c) × (c < 2 ^ 16) × (checksum_finish (s + c) ≡ ok 0)
unfolding checksum_finish
checksum_finish-add s h =
    let f = fold_carry-Folded s (omega arith) in
    let r : ℕ = f.0 in
    let c : ℕ = (2 ^ 32 - 1 - r) % 2 ^ 16 in
    let small : r < 2 ^ 16 = f.1.small in
    let e : c ≡ 65535 - r = omega arith in
    let q : ℕ = f.1.quotient in
    let congruent : s ≡ 65535 * q + r = f.1.congruent in
    let total : s + c ≡ 65535 * (q + 1) = omega arith in
    let g = fold_carry-Folded (s + c) (omega arith) in
    let small' : g.0 < 2 ^ 16 = g.1.small in
    let congruent' : s + c ≡ 65535 * g.1.quotient + g.0 = g.1.congruent in
    let positive : 0 < g.0 = g.1.nonzero (omega arith) in
    let ones : g.0 ≡ 65535 = omega arith in
    (c, rw (f.1.runs) refl, omega arith, rw (g.1.runs) (rw ones refl))

pub checksum_add-IsU32 : (s : ℕ) (xs : List ℕ) → IsU32 s → IsU32 (checksum_add s xs)
unfolding checksum_add
checksum_add-IsU32 s [] h = h
checksum_add-IsU32 s (a ∷ []) h = omega arith
checksum_add-IsU32 s (a ∷ b ∷ xs) h =
    checksum_add-IsU32 ((s + (a * 2 ^ 8 + b)) % 2 ^ 32) xs (omega arith)

pub checksum_finish-total : (s : ℕ) → IsU32 s → (c : ℕ) × (checksum_finish s ≡ ok c) × (c < 2 ^ 16)
unfolding checksum_finish
checksum_finish-total s h =
    let f = fold_carry-Folded s h in ((2 ^ 32 - 1 - f.0) % 2 ^ 16, rw (f.1.runs) refl, omega arith)

-- The sum of the words of bytes, an odd one at the end in the high half of its word.
abbrev pub words : List ℕ → ℕ
words [] = 0
words (a ∷ []) = a * 2 ^ 8
words (a ∷ b ∷ xs) = a * 2 ^ 8 + b + words xs

-- 32 bits are enough for the sum of less than 2 ^ 16 bytes.
pub checksum_add-words :
    (s : ℕ) (xs : List ℕ)
    → IsBytes xs
    → s + 2 ^ 16 * length xs < 2 ^ 32
    → checksum_add s xs ≡ s + words xs
unfolding checksum_add
checksum_add-words s [] h room = omega arith
checksum_add-words s (a ∷ []) h room = let ha : a < 256 = h.0 in omega arith
checksum_add-words s (a ∷ b ∷ xs) h room =
    let ha : a < 256 = h.0 in
    let hb : b < 256 = h.1.0 in
    let now : (s + (a * 2 ^ 8 + b)) % 2 ^ 32 ≡ s + (a * 2 ^ 8 + b) = omega arith in
    rw now (omega (arith, checksum_add-words (s + (a * 2 ^ 8 + b)) xs h.1.1 (omega arith)))

-- The same of a checksum that is computed already.
pub checksum_finish_zero :
    (s c : ℕ)
    → s + 2 ^ 16 ≤ 2 ^ 32
    → checksum_finish s ≡ ok c
    → (c < 2 ^ 16) × (checksum_finish (s + c) ≡ ok 0)
checksum_finish_zero s c h e =
    let f = checksum_finish-add s h in
    let e1 : checksum_finish s ≡ ok f.0 = f.1 in
    let same : f.0 ≡ c = cc in
    let small : f.0 < 2 ^ 16 = f.2 in
    (omega arith, ap (λ k. checksum_finish (s + k)) (sym same) ∙ f.3)
