-- ===== src/NasSecurity/Counter.antt =====
-- The key stream of the counter mode of ue_nas_security.c.
use virtuallte.Common.{
  ℕ, zero, suc, ◌+◌, ◌-◌, ◌*◌, ◌/◌, ◌%◌, ◌^◌, ◌≤◌, ◌<◌, ◌≡◌, refl, ap, sym, ◌∙◌, inl, inr, ◌==◌,
  ◌≢◌, Bool, true, false, leb, if◌then◌else◌, List, [], ◌∷◌, ◌++◌, length, length-take, length-drop,
  take, drop, get_or, set, get_or-append_left, get_or-append_right, set-append_right,
  take-append-drop, length-append, arith, Bool-cases,
}
use virtuallte.NasSecurity.Words.{xor, xor_bytes, be32_bytes}
use virtuallte.NasSecurity.Aes.{
  aes_shift_rows, aes128_ecb_encrypt, increment_from, ctr_from, aes128_ctr,
}
use virtuallte.NasSecurity.Stream.{length-xor_bytes, length-aes128_ctr}

-- One byte of the counter, and where it carries.
carry :
    (n k i : ℕ) (p ws : List ℕ)
    → k ≡ length p + i
    → increment_from (suc n) k (p ++ ws) ≡ (
        if (get_or ws i 0 + 1) % 256 == 0
        then increment_from n (k - 1) (p ++ set ws i ((get_or ws i 0 + 1) % 256))
        else p ++ set ws i ((get_or ws i 0 + 1) % 256))
unfolding increment_from
carry n k i p ws e =
    rw (get_or-append_right p ws k i 0 e, set-append_right p ws k i ((get_or ws i 0 + 1) % 256) e)
      refl

if_same : (b : Bool) (xs : List ℕ) → (if b then xs else xs) ≡ xs
if_same true xs = refl
if_same false xs = refl

same_word :
    (a b c d a' b' c' d' : ℕ)
    → a ≡ a'
    → b ≡ b'
    → c ≡ c'
    → d ≡ d'
    → ◌≡◌ {A = List ℕ} (a ∷ b ∷ c ∷ d ∷ []) (a' ∷ b' ∷ c' ∷ d' ∷ [])
same_word a b c d a' b' c' d' ea eb ec ed = cc

-- The last four bytes of the counter are a number that is counted up.
next_counter :
    (p : List ℕ) (m : ℕ)
    → length p ≡ 12
    → m < 2 ^ 32
    → increment_from 4 15 (p ++ be32_bytes m) ≡ p ++ be32_bytes ((m + 1) % 2 ^ 32)
unfolding increment_from
next_counter p m size small =
    let a : ℕ = m / 2 ^ 24 % 256 in
    let b : ℕ = m / 2 ^ 16 % 256 in
    let c : ℕ = m / 2 ^ 8 % 256 in
    let d : ℕ = m % 256 in
    let k : ℕ = (m + 1) % 2 ^ 32 in
    let done =
      λ (a' b' c' d' : ℕ) (ea : a' ≡ k / 2 ^ 24 % 256) (eb : b' ≡ k / 2 ^ 16 % 256)
          (ec : c' ≡ k / 2 ^ 8 % 256) (ed : d' ≡ k % 256).
        ap (λ (t : List ℕ). p ++ t)
          (same_word a' b' c' d' (k / 2 ^ 24 % 256) (k / 2 ^ 16 % 256) (k / 2 ^ 8 % 256) (k % 256)
            ea eb ec ed) in
    carry 3 15 3 p (a ∷ b ∷ c ∷ d ∷ []) (omega arith) ∙ elim (Bool-cases ((d + 1) % 256 == 0)) [
      | inr stop ↦
          let n : (d + 1) % 256 ≢ 0 = ground arith in
          rw stop
            (done a b c ((d + 1) % 256) (omega arith) (omega arith) (omega arith) (omega arith))
      | inl on ↦
          let z : (d + 1) % 256 ≡ 0 = ground arith in
          let d' : ℕ = (d + 1) % 256 in
          rw on (
            carry 2 14 2 p (a ∷ b ∷ c ∷ d' ∷ []) (omega arith)
            ∙ elim (Bool-cases ((c + 1) % 256 == 0)) [
              | inr stop ↦
                  let n : (c + 1) % 256 ≢ 0 = ground arith in
                  rw stop (
                    done a b ((c + 1) % 256) d' (omega arith) (omega arith) (omega arith)
                      (omega arith))
              | inl on' ↦
                  let z' : (c + 1) % 256 ≡ 0 = ground arith in
                  let c' : ℕ = (c + 1) % 256 in
                  rw on' (
                    carry 1 13 1 p (a ∷ b ∷ c' ∷ d' ∷ []) (omega arith)
                    ∙ elim (Bool-cases ((b + 1) % 256 == 0)) [
                      | inr stop ↦
                          let n : (b + 1) % 256 ≢ 0 = ground arith in
                          rw stop (
                            done a ((b + 1) % 256) c' d' (omega arith) (omega arith) (omega arith)
                              (omega arith))
                      | inl on'' ↦
                          let z'' : (b + 1) % 256 ≡ 0 = ground arith in
                          let b' : ℕ = (b + 1) % 256 in
                          rw on'' (
                            carry 0 12 0 p (a ∷ b' ∷ c' ∷ d' ∷ []) (omega arith)
                            ∙ (if_same ((a + 1) % 256 == 0) _
                                ∙ done ((a + 1) % 256) b' c' d' (omega arith) (omega arith)
                                    (omega arith) (omega arith)))
                    ])
            ])
    ]

get_or-take : (n : ℕ) (xs : List ℕ) (i : ℕ) → i < n → get_or (take n xs) i 0 ≡ get_or xs i 0
get_or-take zero xs i h = absurd (omega arith)
get_or-take (suc n) [] i h = refl
get_or-take (suc n) (x ∷ xs) zero h = refl
get_or-take (suc n) (x ∷ xs) (suc i) h = get_or-take n xs i (omega arith)

take_holds : (n : ℕ) (xs : List ℕ) (i : ℕ) → i < n → i < length xs → i < length (take n xs)
take_holds zero xs i h k = absurd (omega arith)
take_holds (suc n) [] i h k = absurd (omega arith)
take_holds (suc n) (x ∷ xs) zero h k = omega arith
take_holds (suc n) (x ∷ xs) (suc i) h k =
    omega (arith, take_holds n xs i (omega arith) (omega arith))

get_or-drop : (n : ℕ) (xs : List ℕ) (i : ℕ) → get_or (drop n xs) i 0 ≡ get_or xs (n + i) 0
get_or-drop zero xs i = ap (λ k. get_or xs k 0) (omega arith)
get_or-drop (suc n) [] i = refl
get_or-drop (suc n) (x ∷ xs) i =
    let e : suc n + i ≡ suc (n + i) = omega arith in
    get_or-drop n xs i ∙ ap (λ k. get_or (x ∷ xs) k 0) (sym e)

get_or-xor_bytes :
    (xs ks : List ℕ) (i : ℕ)
    → i < length xs
    → i < length ks
    → get_or (xor_bytes xs ks) i 0 ≡ xor 8 (get_or xs i 0) (get_or ks i 0)
unfolding xor_bytes
get_or-xor_bytes [] ks i h k = absurd (omega arith)
get_or-xor_bytes (x ∷ xs) [] i h k = absurd (omega arith)
get_or-xor_bytes (x ∷ xs) (b ∷ ks) zero h k = refl
get_or-xor_bytes (x ∷ xs) (b ∷ ks) (suc i) h k =
    get_or-xor_bytes xs ks i (omega arith) (omega arith)

length-aes128 : (key block : List ℕ) → length (aes128_ecb_encrypt key block) ≡ 16
unfolding aes128_ecb_encrypt aes_shift_rows
length-aes128 key block = length-xor_bytes _ _

-- The counter block of a nonce.
abbrev pub counter_block : List ℕ → ℕ → List ℕ
counter_block nonce m = nonce ++ be32_bytes (m % 2 ^ 32)

-- The byte at `i` of what is ciphered from the counter `m` on.
abbrev pub ciphered_byte : List ℕ → List ℕ → ℕ → List ℕ → ℕ → ℕ
ciphered_byte key nonce m bytes i =
    xor 8 (get_or bytes i 0)
      (get_or (aes128_ecb_encrypt key (counter_block nonce (m + i / 16))) (i % 16) 0)

same_block :
    (key nonce : List ℕ) (m n b i j : ℕ)
    → m % 2 ^ 32 ≡ n % 2 ^ 32
    → i ≡ j
    → xor 8 b (get_or (aes128_ecb_encrypt key (counter_block nonce m)) i 0)
      ≡ xor 8 b (get_or (aes128_ecb_encrypt key (counter_block nonce n)) j 0)
same_block key nonce m n b i j e f =
    ap (λ (k : ℕ). xor 8 b (get_or (aes128_ecb_encrypt key (nonce ++ be32_bytes k)) i 0)) e
    ∙ ap (λ (k : ℕ). xor 8 b (get_or (aes128_ecb_encrypt key (counter_block nonce n)) k 0)) f

ctr_from-byte :
    (n : ℕ) (key nonce : List ℕ) (m : ℕ) (bytes : List ℕ) (i : ℕ)
    → length nonce ≡ 12
    → i < length bytes
    → length bytes ≤ 16 * n
    → get_or (ctr_from n key (counter_block nonce m) bytes) i 0 ≡ ciphered_byte key nonce m bytes i
unfolding ctr_from
ctr_from-byte zero key nonce m bytes i size inside blocks = absurd (omega arith)
ctr_from-byte (suc n) key nonce m bytes i size inside blocks =
    let ctr : List ℕ = counter_block nonce m in
    let ks : List ℕ = aes128_ecb_encrypt key ctr in
    let block : List ℕ = xor_bytes (take 16 bytes) ks in
    let rest : List ℕ = ctr_from n key (increment_from 4 15 ctr) (drop 16 bytes) in
    let wide = length-aes128 key ctr in
    let len = length-xor_bytes (take 16 bytes) ks in
    let cut = length-append (take 16 bytes) (drop 16 bytes) in
    let whole : length (take 16 bytes ++ drop 16 bytes) ≡ length bytes =
      ap length (take-append-drop 16 bytes) in
    elim (Bool-cases (leb 16 i)) [
      | inr early ↦
          let low : i < 16 = ground arith in
          let held : i < length (take 16 bytes) = take_holds 16 bytes i low inside in
          get_or-append_left block rest i 0 (omega (arith, len, held))
          ∙ (get_or-xor_bytes (take 16 bytes) ks i held (omega (arith, wide))
              ∙ (ap (λ b. xor 8 b (get_or ks i 0)) (get_or-take 16 bytes i low)
                  ∙ same_block key nonce m (m + i / 16) (get_or bytes i 0) i (i % 16) (omega arith)
                      (omega arith)))
      | inl late ↦
          let high : 16 ≤ i = ground arith in
          let j : ℕ = i - 16 in
          let full : length (take 16 bytes) ≡ 16 = length-take 16 bytes (omega arith) in
          let left = length-drop 16 bytes in
          let next : increment_from 4 15 ctr ≡ counter_block nonce (m + 1) =
            next_counter nonce (m % 2 ^ 32) size (omega arith)
            ∙ ap (λ k. nonce ++ be32_bytes k) (omega arith) in
          get_or-append_right block rest i j 0 (omega (arith, len, full))
          ∙ (ap (λ (c : List ℕ). get_or (ctr_from n key c (drop 16 bytes)) j 0) next
              ∙ (ctr_from-byte n key nonce (m + 1) (drop 16 bytes) j size (omega (arith, left))
                    (omega (arith, left))
                  ∙ (ap
                        (λ b. xor 8 b (
                          get_or (aes128_ecb_encrypt key (counter_block nonce (m + 1 + j / 16)))
                            (j % 16) 0))
                        (get_or-drop 16 bytes j ∙ ap (λ k. get_or bytes k 0) (omega arith))
                      ∙ same_block key nonce (m + 1 + j / 16) (m + i / 16) (get_or bytes i 0)
                          (j % 16) (i % 16) (ap (λ k. k % 2 ^ 32) (omega arith)) (omega arith))))
    ]

-- The counter mode under a nonce of 12 bytes and a counter of 32 bits keeps the length, and the byte at
-- `i` is combined by exclusive or with the byte at `i % 16` of the encryption of the nonce with the
-- counter that is `i / 16` further on, modulo 2 ^ 32.
pub aes128_ctr_lem :
    (key nonce : List ℕ) (m : ℕ) (bytes : List ℕ) (i : ℕ)
    → length nonce ≡ 12
    → i < length bytes
    → (length (aes128_ctr key (counter_block nonce m) bytes) ≡ length bytes)
      × (get_or (aes128_ctr key (counter_block nonce m) bytes) i 0
          ≡ ciphered_byte key nonce m bytes i)
unfolding aes128_ctr
aes128_ctr_lem key nonce m bytes i size inside = (
  length-aes128_ctr key (counter_block nonce m) bytes,
  ctr_from-byte ((length bytes + 15) / 16) key nonce m bytes i size inside (omega arith),
)
