-- ===== src/Rrc/Reader.antt =====
-- The bit reader of ue_rrc.c takes a bit string apart.
use native.Mathlib.Nat.{div-div-eq-div-mul, pow-suc, div-le_self, div-eq_of_lt}
use virtuallte.Common.{
  ℕ, zero, suc, ◌+◌, ◌-◌, ◌*◌, ◌/◌, ◌%◌, ◌^◌, ◌≤◌, ◌<◌, ◌≡◌, refl, sym, ap, ◌∙◌, false, ◌||◌, ◌==◌,
  ltb, lt→ltb, List, [], ◌∷◌, ◌++◌, append_assoc, length, get_or, get_or-append_right, ok, bind_ok,
  length-append, arith, read_ok, IsBytes,
}
use virtuallte.Rrc.Stream.{BitStream, get_bit, get_loop, get_bits, get_bytes}
use virtuallte.Rrc.BitString.{to_bits, bits_of, get_or-bits_of, length-bits_of}

-- The stream has been read up to `bs`.
pub record Before (r : BitStream) (bs : List ℕ) : Type 0 where
  pub past : List ℕ
  pub position : r.bit_pos ≡ length past
  pub content : bits_of r.buf ≡ past ++ bs

abbrev pub advance : BitStream → ℕ → BitStream
advance r n = record r { bit_pos = r.bit_pos + n }

pub advance-Before :
    (r : BitStream) (xs bs : List ℕ) (n : ℕ)
    → n ≡ length xs
    → Before r (xs ++ bs)
    → Before (advance r n) bs
advance-Before r xs bs n e h = record {
  past = h.past ++ xs;
  position = omega (arith, h.position, length-append {A = ℕ} h.past xs);
  content = h.content ∙ sym (append_assoc h.past xs bs);
}

get_bit_lem :
    (r : BitStream) (b : ℕ) (bs : List ℕ) → Before r (b ∷ bs) → get_bit r ≡ ok (advance r 1, b)
unfolding get_bit
get_bit_lem r b bs h =
    let q : ℕ = r.bit_pos / 8 in
    let j : ℕ = r.bit_pos % 8 in
    let size = length-append {A = ℕ} h.past (b ∷ bs) in
    let inside : q < length r.buf =
      omega (arith, h.position, length-bits_of r.buf, ap length h.content, size) in
    let value : get_or r.buf q 0 / 2 ^ (7 - j) % 2 ≡ b =
      sym (get_or-bits_of r.buf q j (omega arith) inside)
      ∙ (ap (λ (t : List ℕ). get_or t (q * 8 + j) 0) h.content
          ∙ get_or-append_right h.past (b ∷ bs) (q * 8 + j) 0 0 (omega (arith, h.position))) in
    rw (lt→ltb q (length r.buf) inside, read_ok r.buf q inside, value) refl

halves : (v n : ℕ) → v / 2 ^ suc n ≡ v / 2 ^ n / 2
halves v n = sym (div-div-eq-div-mul v (2 ^ n) 2 ∙ ap (λ d. v / d) (sym (pow-suc 2 n)))

at_end : (r : BitStream) (m n : ℕ) → m ≡ n → advance r m ≡ advance r n
at_end r m n e = ap (λ k. advance r k) e

-- The loop continues with the bits of a number of 64 bits at most.
get_loop_lem :
    (n : ℕ) (r : BitStream) (v : ℕ) (bs : List ℕ)
    → v < 2 ^ 64
    → Before r (to_bits n v ++ bs)
    → get_loop n r (v / 2 ^ n) ≡ ok (advance r n, v)
unfolding get_loop
get_loop_lem zero r v bs small h =
    ap (λ k. ok (r, k)) (omega arith) ∙ ap (λ k. ok (record r { bit_pos = k }, v)) (omega arith)
get_loop_lem (suc n) r v bs small h =
    let x : ℕ = v / 2 ^ n in
    let half : v / 2 ^ suc n ≡ x / 2 = halves v n in
    let below : x ≤ v = div-le_self v (2 ^ n) in
    let next : v / 2 ^ suc n * 2 % 2 ^ 64 + x % 2 ≡ x = omega (arith, half) in
    bind_ok _ _ (get_bit_lem r (x % 2) (to_bits n v ++ bs) h) (
      rw next (
        get_loop_lem n (advance r 1) v bs small (advance-Before r (x % 2 ∷ []) _ 1 refl h)
        ∙ ap (λ k. ok (record r { bit_pos = k }, v)) (omega arith)))

-- A number of `n` bits that the buffer holds next is read.
pub get_bits_lem :
    (n v : ℕ) (r : BitStream) (bs : List ℕ)
    → 0 < n
    → n ≤ 64
    → v < 2 ^ n
    → v < 2 ^ 64
    → Before r (to_bits n v ++ bs)
    → get_bits r n ≡ ok (advance r n, v)
unfolding get_bits
get_bits_lem n v r bs some small low fits h =
    let e : (n == 0 || ltb 64 n) ≡ false = ground arith in
    let start : v / 2 ^ n ≡ 0 = div-eq_of_lt low in
    rw e (ap (λ k. get_loop n r k) (sym start) ∙ get_loop_lem n r v bs fits h)

pub get_bytes_lem :
    (bytes : List ℕ) (r : BitStream) (bs : List ℕ)
    → IsBytes bytes
    → Before r (bits_of bytes ++ bs)
    → get_bytes r (length bytes) ≡ ok (advance r (8 * length bytes), bytes)
unfolding get_bytes
get_bytes_lem [] r bs hb h = ap (λ k. ok (record r { bit_pos = k }, [])) (omega arith)
get_bytes_lem (b ∷ bytes) r bs hb h =
    let byte : b < 256 = hb.0 in
    let same : b % 256 ≡ b = omega arith in
    let here : Before r (to_bits 8 b ++ (bits_of bytes ++ bs)) = record {
      past = h.past;
      position = h.position;
      content = h.content;
    } in
    bind_ok _ _ (get_bits_lem 8 b r _ (omega arith) (omega arith) (omega arith) (omega arith) here)
      (bind_ok _ _
        (get_bytes_lem bytes (advance r 8) bs hb.1 (advance-Before r (to_bits 8 b) _ 8 refl here))
        (rw same (ap (λ k. ok (record r { bit_pos = k }, b ∷ bytes)) (omega arith))))
