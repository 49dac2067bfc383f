-- ===== src/NasSecurity/Stream.antt =====
-- Exclusive or and the counter mode of ue_nas_security.c undo themselves.
use virtuallte.Common.{
  ℕ, zero, suc, ◌+◌, ◌*◌, ◌/◌, ◌%◌, ◌^◌, ◌≤◌, ◌<◌, ◌≡◌, refl, ap, sym, ◌∙◌, ◌⊎◌, inl, inr, Bool,
  true, ◌&&◌, ltb, List, [], ◌∷◌, ◌++◌, length, length-append, take, drop, All-get_or, IsByte,
  IsBytes, take-append, drop-append, take-append-drop, append-nil, length-take, arith, Bool-cases,
  leb,
}
use virtuallte.NasSecurity.Words.{xor, xor_bytes}
use virtuallte.NasSecurity.Aes.{
  aes_sbox, sbox, aes_sub_bytes, aes_shift_rows, aes128_ecb_encrypt, increment_from, ctr_from,
  aes128_ctr,
}

pub xor_lt : (w a b : ℕ) → xor w a b < 2 ^ w
xor_lt zero a b = omega arith
xor_lt (suc w) a b = omega (arith, xor_lt w (a / 2) (b / 2))

xor_twice : (w a b : ℕ) → a < 2 ^ w → xor w (xor w a b) b ≡ a
xor_twice zero a b h = omega arith
xor_twice (suc w) a b h =
    let rest = xor w (a / 2) (b / 2) in
    let low : ((a + b) % 2 + 2 * rest + b) % 2 ≡ a % 2 = omega arith in
    let high : ((a + b) % 2 + 2 * rest) / 2 ≡ rest = omega arith in
    rw (low, high) (omega (arith, xor_twice w (a / 2) (b / 2) (omega arith)))

pub length-xor_bytes : (bytes ks : List ℕ) → length (xor_bytes bytes ks) ≡ length bytes
unfolding xor_bytes
length-xor_bytes [] ks = refl
length-xor_bytes (b ∷ bytes) [] = refl
length-xor_bytes (b ∷ bytes) (k ∷ ks) = ap suc (length-xor_bytes bytes ks)

xor_bytes_twice : (bytes ks : List ℕ) → IsBytes bytes → xor_bytes (xor_bytes bytes ks) ks ≡ bytes
unfolding xor_bytes
xor_bytes_twice [] ks h = refl
xor_bytes_twice (b ∷ bytes) [] h = refl
xor_bytes_twice (b ∷ bytes) (k ∷ ks) h =
    ap (λ c. c ∷ xor_bytes (xor_bytes bytes ks) ks) (xor_twice 8 b k h.0)
    ∙ ap (λ bs. b ∷ bs) (xor_bytes_twice bytes ks h.1)

pub xor_bytes-IsBytes : (bytes ks : List ℕ) → IsBytes bytes → IsBytes (xor_bytes bytes ks)
unfolding xor_bytes
xor_bytes-IsBytes [] ks h = h
xor_bytes-IsBytes (b ∷ bytes) [] h = h
xor_bytes-IsBytes (b ∷ bytes) (k ∷ ks) h = (xor_lt 8 b k, xor_bytes-IsBytes bytes ks h.1)

take-IsBytes : (n : ℕ) (bytes : List ℕ) → IsBytes bytes → IsBytes (take n bytes)
take-IsBytes zero bytes h = tt
take-IsBytes (suc n) [] h = tt
take-IsBytes (suc n) (b ∷ bytes) h = (h.0, take-IsBytes n bytes h.1)

drop-IsBytes : (n : ℕ) (bytes : List ℕ) → IsBytes bytes → IsBytes (drop n bytes)
drop-IsBytes zero bytes h = h
drop-IsBytes (suc n) [] h = tt
drop-IsBytes (suc n) (b ∷ bytes) h = drop-IsBytes n bytes h.1

ctr_from-nil : (n : ℕ) (key ctr : List ℕ) → ctr_from n key ctr [] ≡ []
unfolding ctr_from xor_bytes
ctr_from-nil zero key ctr = refl
ctr_from-nil (suc n) key ctr = ctr_from-nil n key (increment_from 4 15 ctr)

-- What no more than `n` elements are taken from or dropped from.
take_short : (n : ℕ) (xs : List ℕ) → length xs ≤ n → take n xs ≡ xs
take_short zero [] h = refl
take_short zero (x ∷ xs) h = absurd (omega arith)
take_short (suc n) [] h = refl
take_short (suc n) (x ∷ xs) h = ap (λ ys. x ∷ ys) (take_short n xs (omega arith))

drop_short : (n : ℕ) (xs : List ℕ) → length xs ≤ n → drop n xs ≡ []
drop_short zero [] h = refl
drop_short zero (x ∷ xs) h = absurd (omega arith)
drop_short (suc n) [] h = refl
drop_short (suc n) (x ∷ xs) h = drop_short n xs (omega arith)

-- A whole block with what follows it, or a short block that nothing follows.
split_block :
    (xs rest : List ℕ)
    → (length xs ≡ 16) ⊎ ((length xs < 16) × (rest ≡ []))
    → (take 16 (xs ++ rest) ≡ xs) × (drop 16 (xs ++ rest) ≡ rest)
split_block xs rest (inl whole) =
    (take-append xs rest 16 (sym whole), drop-append xs rest 16 (sym whole))
split_block xs rest (inr (short, none_left)) =
    let alone = ap (λ r. xs ++ r) none_left ∙ append-nil xs in
    (
      ap (take 16) alone ∙ take_short 16 xs (omega (arith, short)),
      ap (drop 16) alone ∙ (drop_short 16 xs (omega (arith, short)) ∙ sym none_left),
    )

ctr_from_twice :
    (n : ℕ) (key ctr bytes : List ℕ)
    → IsBytes bytes
    → ctr_from n key ctr (ctr_from n key ctr bytes) ≡ bytes
unfolding ctr_from
ctr_from_twice zero key ctr bytes h = refl
ctr_from_twice (suc n) key ctr bytes h =
    let ks = aes128_ecb_encrypt key ctr in
    let next = increment_from 4 15 ctr in
    let block = xor_bytes (take 16 bytes) ks in
    let rest = ctr_from n key next (drop 16 bytes) in
    let size = length-xor_bytes (take 16 bytes) ks in
    let shape : (length block ≡ 16) ⊎ ((length block < 16) × (rest ≡ [])) =
      elim (Bool-cases (leb 16 (length bytes))) [
        | inl whole ↦ inl (size ∙ length-take 16 bytes (ground arith))
        | inr short ↦
            let few : length bytes < 16 = ground arith in
            inr (
              omega (arith, size, ap length (take_short 16 bytes (omega (arith, few))), few),
              ap (ctr_from n key next) (drop_short 16 bytes (omega (arith, few)))
                  ∙ ctr_from-nil n key next,
            )
      ] in
    let (front, back) = split_block block rest shape in
    ap (λ b. xor_bytes b ks ++ ctr_from n key next (drop 16 (block ++ rest))) front
    ∙ (ap (λ r. xor_bytes block ks ++ ctr_from n key next r) back
        ∙ (ap (λ b. b ++ ctr_from n key next rest)
              (xor_bytes_twice (take 16 bytes) ks (take-IsBytes 16 bytes h))
            ∙ (ap (λ r. take 16 bytes ++ r)
                  (ctr_from_twice n key next (drop 16 bytes) (drop-IsBytes 16 bytes h))
                ∙ take-append-drop 16 bytes)))

length-ctr_from :
    (n : ℕ) (key ctr bytes : List ℕ) → length (ctr_from n key ctr bytes) ≡ length bytes
unfolding ctr_from
length-ctr_from zero key ctr bytes = refl
length-ctr_from (suc n) key ctr bytes =
    let block = xor_bytes (take 16 bytes) (aes128_ecb_encrypt key ctr) in
    let rest = ctr_from n key (increment_from 4 15 ctr) (drop 16 bytes) in
    omega (
      arith,
      length-append block rest,
      length-xor_bytes (take 16 bytes) (aes128_ecb_encrypt key ctr),
      length-ctr_from n key (increment_from 4 15 ctr) (drop 16 bytes),
      length-append (take 16 bytes) (drop 16 bytes),
      ap length (take-append-drop 16 bytes),
    )

-- The counter mode is undone by the same key and the same counter.
pub aes128_ctr_twice :
    (key iv bytes : List ℕ) → IsBytes bytes → aes128_ctr key iv (aes128_ctr key iv bytes) ≡ bytes
unfolding aes128_ctr
aes128_ctr_twice key iv bytes h =
    let n = (length bytes + 15) / 16 in
    ap (λ m. ctr_from ((m + 15) / 16) key iv (ctr_from n key iv bytes))
      (length-ctr_from n key iv bytes)
    ∙ ctr_from_twice n key iv bytes h

are_bytes : List ℕ → Bool
are_bytes [] = true
are_bytes (b ∷ bytes) = ltb b 256 && are_bytes bytes

are_bytes-IsBytes : (bytes : List ℕ) → are_bytes bytes ≡ true → IsBytes bytes
unfolding are_bytes
are_bytes-IsBytes [] h = tt
are_bytes-IsBytes (b ∷ bytes) h = (ground arith, are_bytes-IsBytes bytes (ground arith))

sbox_lt : (b : ℕ) → sbox b < 256
unfolding are_bytes
sbox_lt b = All-get_or IsByte aes_sbox b 0 (are_bytes-IsBytes aes_sbox refl) (omega arith)

aes_sub_bytes-IsBytes : (s : List ℕ) → IsBytes (aes_sub_bytes s)
unfolding aes_sub_bytes
aes_sub_bytes-IsBytes [] = tt
aes_sub_bytes-IsBytes (b ∷ s) = (sbox_lt b, aes_sub_bytes-IsBytes s)

aes_shift_rows-IsBytes : (s : List ℕ) → IsBytes s → IsBytes (aes_shift_rows s)
unfolding aes_shift_rows
aes_shift_rows-IsBytes s h =
    let at = λ (i : ℕ). All-get_or IsByte s i 0 h (omega arith) in
    (
      at 0,
      (
        at 5,
        (
          at 10,
          (
            at 15,
            (
              at 4,
              (
                at 9,
                (
                  at 14,
                  (at 3, (at 8, (at 13, (at 2, (at 7, (at 12, (at 1, (at 6, (at 11, tt))))))))),
                ),
              ),
            ),
          ),
        ),
      ),
    )

pub aes128-IsBytes : (key block : List ℕ) → IsBytes (aes128_ecb_encrypt key block)
unfolding aes128_ecb_encrypt
aes128-IsBytes key block =
    xor_bytes-IsBytes _ _ (aes_shift_rows-IsBytes _ (aes_sub_bytes-IsBytes _))

pub length-aes128_ctr : (key iv bytes : List ℕ) → length (aes128_ctr key iv bytes) ≡ length bytes
unfolding aes128_ctr
length-aes128_ctr key iv bytes = length-ctr_from ((length bytes + 15) / 16) key iv bytes
