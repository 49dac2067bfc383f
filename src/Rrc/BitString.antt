-- ===== src/Rrc/BitString.antt =====
-- Bit strings: what the streams of ue_rrc.c stand for.
use virtuallte.Common.{
  ℕ, zero, suc, ◌≤◌, Bool-cases, inl, inr, ◌+◌, ◌-◌, ◌*◌, ◌/◌, ◌%◌, ◌^◌, ◌<◌, ◌≡◌, refl, ap, ◌∙◌,
  Bool, true, false, ◌&&◌, ◌==◌, ==_iff, bit_or, List, [], ◌∷◌, ◌++◌, length, get_or, set, IsBytes,
  arith, ltb, ltb→lt, length-append, replicate, replicate_add, sym, set-append_left,
  set-append_right, get_or-append_left, get_or-append_right,
}
use mathlib.Core.Path.{subst}

-- The lowest `n` bits of a number, the highest of them first.
abbrev pub to_bits : ℕ → ℕ → List ℕ
to_bits zero v = []
to_bits (suc i) v = v / 2 ^ i % 2 ∷ to_bits i v

-- The number that a bit string continues from `acc`.
abbrev pub from_bits : ℕ → List ℕ → ℕ
from_bits acc [] = acc
from_bits acc (b ∷ bs) = from_bits (acc * 2 + b) bs

-- The bits of a buffer.
abbrev pub bits_of : List ℕ → List ℕ
bits_of [] = []
bits_of (b ∷ bytes) = to_bits 8 b ++ bits_of bytes

-- A test that holds on a run of numbers, of the given start and length.
holds_on : (ℕ → Bool) → ℕ → ℕ → Bool
holds_on test start zero = true
holds_on test start (suc run) = test start && holds_on test (suc start) run

on_run :
    (run start : ℕ) (test : ℕ → Bool) (i : ℕ)
    → holds_on test start run ≡ true
    → start ≤ i
    → i < start + run
    → test i ≡ true
unfolding holds_on
on_run zero start test i all from to = absurd (omega arith)
on_run (suc run) start test i all from to =
    let here : test start ≡ true = ground arith in
    let others : holds_on test (suc start) run ≡ true = ground arith in
    elim (Bool-cases (start == i)) [
      | inl same ↦ subst (λ (k : ℕ). test k ≡ true) ((==_iff _ _).0 same) here
      | inr apart ↦ on_run run (suc start) test i others (ground arith) (omega arith)
    ]

abbrev table : ℕ → (ℕ → Bool) → Bool
table size test = holds_on test 0 size

of_table : (size : ℕ) (test : ℕ → Bool) (i : ℕ) → table size test ≡ true → i < size → test i ≡ true
of_table size test i all below = on_run size 0 test i all (omega arith) (omega arith)

same_bits : List ℕ → List ℕ → Bool
same_bits [] [] = true
same_bits [] (b ∷ bs) = false
same_bits (a ∷ as') [] = false
same_bits (a ∷ as') (b ∷ bs) = a == b && same_bits as' bs

same_bits→eq : (as' bs : List ℕ) → same_bits as' bs ≡ true → as' ≡ bs
unfolding same_bits
same_bits→eq [] [] h = refl
same_bits→eq [] (b ∷ bs) h = cc
same_bits→eq (a ∷ as') [] h = cc
same_bits→eq (a ∷ as') (b ∷ bs) h = ground (arith, same_bits→eq as' bs)

-- Setting one bit of a byte, checked for all bytes.
set_table :
    table 8
      (λ j. table 256 (λ b. same_bits (to_bits 8 (bit_or b (2 ^ (7 - j)))) (set (to_bits 8 b) j 1)))
    ≡ true
unfolding holds_on same_bits
set_table = refl

to_bits-bit_or :
    (j b : ℕ) → j < 8 → b < 256 → to_bits 8 (bit_or b (2 ^ (7 - j))) ≡ set (to_bits 8 b) j 1
to_bits-bit_or j b hj hb = same_bits→eq _ _ (
    of_table 256 _ b
      (of_table 8
        (λ j.
          table 256 (λ b. same_bits (to_bits 8 (bit_or b (2 ^ (7 - j)))) (set (to_bits 8 b) j 1)))
        j set_table hj)
      hb)

-- It stays a byte.
byte_table : table 8 (λ j. table 256 (λ b. ltb (bit_or b (2 ^ (7 - j))) 256)) ≡ true
unfolding holds_on
byte_table = refl

pub bit_or-byte : (j b : ℕ) → j < 8 → b < 256 → bit_or b (2 ^ (7 - j)) < 256
bit_or-byte j b hj hb = ltb→lt _ _ (
    of_table 256 (λ b. ltb (bit_or b (2 ^ (7 - j))) 256) b
      (of_table 8 (λ j. table 256 (λ b. ltb (bit_or b (2 ^ (7 - j))) 256)) j byte_table hj) hb)

pub length-to_bits : (n v : ℕ) → length (to_bits n v) ≡ n
length-to_bits zero v = refl
length-to_bits (suc n) v = ap suc (length-to_bits n v)

pub length-bits_of : (bytes : List ℕ) → length (bits_of bytes) ≡ 8 * length bytes
length-bits_of [] = refl
length-bits_of (b ∷ bytes) =
    omega (arith, length-append {0} (to_bits 8 b) (bits_of bytes), length-bits_of bytes)

pub bits_of-zeros : (n : ℕ) → bits_of (replicate n 0) ≡ replicate (8 * n) 0
bits_of-zeros zero = refl
bits_of-zeros (suc n) =
    ap (λ (t : List ℕ). replicate 8 0 ++ t) (bits_of-zeros n)
    ∙ (sym (replicate_add {0} 8 (8 * n) 0) ∙ ap (λ k. replicate k 0) (omega arith))

-- Bit `j` of byte `q`.
pub bits_of-set :
    (buf : List ℕ) (q j : ℕ)
    → j < 8
    → q < length buf
    → IsBytes buf
    → bits_of (set buf q (bit_or (get_or buf q 0) (2 ^ (7 - j)))) ≡ set (bits_of buf) (q * 8 + j) 1
bits_of-set [] q j hj hq hb = absurd (omega arith)
bits_of-set (b ∷ buf) zero j hj hq hb =
    ap (λ (t : List ℕ). t ++ bits_of buf) (to_bits-bit_or j b hj hb.0)
    ∙ (sym (set-append_left (to_bits 8 b) (bits_of buf) j 1 hj)
        ∙ ap (λ k. set (bits_of (b ∷ buf)) k 1) (omega arith))
bits_of-set (b ∷ buf) (suc q) j hj hq hb =
    ap (λ (t : List ℕ). to_bits 8 b ++ t) (bits_of-set buf q j hj (omega arith) hb.1)
    ∙ sym (set-append_right (to_bits 8 b) (bits_of buf) (suc q * 8 + j) (q * 8 + j) 1 (omega arith))

get_or-to_bits : (n v j : ℕ) → j < n → get_or (to_bits n v) j 0 ≡ v / 2 ^ (n - 1 - j) % 2
get_or-to_bits zero v j h = absurd (omega arith)
get_or-to_bits (suc n) v zero h = ap (λ k. v / 2 ^ k % 2) (omega arith)
get_or-to_bits (suc n) v (suc j) h =
    get_or-to_bits n v j (omega arith) ∙ ap (λ k. v / 2 ^ k % 2) (omega arith)

pub get_or-bits_of :
    (buf : List ℕ) (q j : ℕ)
    → j < 8
    → q < length buf
    → get_or (bits_of buf) (q * 8 + j) 0 ≡ get_or buf q 0 / 2 ^ (7 - j) % 2
get_or-bits_of [] q j hj hq = absurd (omega arith)
get_or-bits_of (b ∷ buf) zero j hj hq =
    ap (λ k. get_or (bits_of (b ∷ buf)) k 0) (omega arith)
    ∙ (get_or-append_left (to_bits 8 b) (bits_of buf) j 0 hj ∙ get_or-to_bits 8 b j hj)
get_or-bits_of (b ∷ buf) (suc q) j hj hq =
    get_or-append_right (to_bits 8 b) (bits_of buf) (suc q * 8 + j) (q * 8 + j) 0 (omega arith)
    ∙ get_or-bits_of buf q j hj (omega arith)

length_table : table 16384 (λ n. bit_or 32768 n == 32768 + n) ≡ true
unfolding holds_on
length_table = refl

pub bit_or_length : (n : ℕ) → n < 16384 → bit_or 32768 n ≡ 32768 + n
bit_or_length n h =
    (==_iff _ _).0 (of_table 16384 (λ n. bit_or 32768 n == 32768 + n) n length_table h)

split_table :
    table 16384
      (λ n. same_bits (to_bits 16 (32768 + n)) (to_bits 8 (128 + n / 256) ++ to_bits 8 (n % 256)))
    ≡ true
unfolding holds_on same_bits
split_table = refl

-- The two bytes of a long length.
pub to_bits-long :
    (n : ℕ) → n < 16384 → to_bits 16 (32768 + n) ≡ to_bits 8 (128 + n / 256) ++ to_bits 8 (n % 256)
to_bits-long n h = same_bits→eq _ _ (
    of_table 16384
      (λ n. same_bits (to_bits 16 (32768 + n)) (to_bits 8 (128 + n / 256) ++ to_bits 8 (n % 256))) n
      split_table h)
