-- ===== src/Rrc/Writer.antt =====
-- The bit writer of ue_rrc.c appends to a bit string of bounded length.
use virtuallte.Common.{
  ℕ, zero, suc, ◌+◌, ◌-◌, ◌*◌, ◌/◌, ◌%◌, ◌^◌, ◌≤◌, ◌<◌, ◌≡◌, refl, sym, ap, ◌∙◌, ◌⊎◌, inl, inr,
  true, false, ◌||◌, ◌==◌, ltb, ltb→lt, lt→ltb, le→not-ltb, Bool-cases, bit_or, List, [], ◌∷◌, ◌++◌,
  append-nil, append_assoc, length, replicate, get_or, set, Outcome, ok, reject, ◌>>=◌, IsBytes,
  IsByte, All-set, All-get_or, All-replicate, length-append, length-set, length-replicate,
  set-append_right, read_ok, arith,
}
use mathlib.Core.Path.{subst}
use virtuallte.Rrc.Stream.{BitStream, bw_init, put_bit, put_loop, put_bits, put_bytes}
use virtuallte.Rrc.BitString.{to_bits, bits_of, bits_of-set, bit_or-byte, bits_of-zeros}

-- The stream has `bs` written, and zeros behind it up to the end of its buffer.
pub record Holds (w : BitStream) (bs : List ℕ) : Type 0 where
  pub position : w.bit_pos ≡ length bs
  pub fits : length bs ≤ 8 * length w.buf
  pub content : bits_of w.buf ≡ bs ++ replicate (8 * length w.buf - length bs) 0
  pub bytes : IsBytes w.buf

-- A stream after `out` was appended to it.
pub record Appends (w : BitStream) (bs out : List ℕ) (w' : BitStream) : Type 0 where
  pub holds : Holds w' (bs ++ out)
  pub same_size : length w'.buf ≡ length w.buf

-- An operation appends `out` and answers with `k` of the stream, exactly if it has room in the
-- buffer, and fails else.
abbrev pub Yields {ℓ} : {A : Type ℓ} → (BitStream → A) → (BitStream → Outcome A) → List ℕ → Type ℓ
Yields k f out =
    (w : BitStream) (bs : List ℕ)
    → Holds w bs
    → ((length bs + length out ≤ 8 * length w.buf)
        × (w' : BitStream) × (f w ≡ ok (k w'))
        × Appends w bs out w')
      ⊎ ((8 * length w.buf < length bs + length out) × (f w ≡ reject))

abbrev pub Writes : (BitStream → Outcome BitStream) → List ℕ → Type 0
Writes = Yields (λ w. w)

pub bw_init-Holds : (buf : List ℕ) → Holds (bw_init buf) []
unfolding bw_init
bw_init-Holds buf =
    let size = length-replicate {A = ℕ} (length buf) 0 in
    record {
      position = refl;
      fits = omega arith;
      content = bits_of-zeros (length buf) ∙ ap (λ n. replicate {A = ℕ} n 0) (omega (arith, size));
      bytes = All-replicate IsByte (length buf) 0 (omega arith);
    }

-- The first of the zeros becomes the bit `b`.
next_zero :
    (bs : List ℕ) (m b : ℕ)
    → 0 < m
    → set (bs ++ replicate m 0) (length bs) b ≡ (bs ++ (b ∷ [])) ++ replicate (m - 1) 0
next_zero bs zero b h = absurd (omega arith)
next_zero bs (suc m) b h =
    set-append_right bs (replicate (suc m) 0) (length bs) 0 b (omega arith)
    ∙ (ap (λ k. bs ++ (b ∷ replicate k 0)) (omega arith)
        ∙ sym (append_assoc bs (b ∷ []) (replicate (suc m - 1) 0)))

keep_zero :
    (bs : List ℕ) (m : ℕ) → 0 < m → bs ++ replicate m 0 ≡ (bs ++ (0 ∷ [])) ++ replicate (m - 1) 0
keep_zero bs zero h = absurd (omega arith)
keep_zero bs (suc m) h =
    ap (λ k. bs ++ (0 ∷ replicate k 0)) (omega arith)
    ∙ sym (append_assoc bs (0 ∷ []) (replicate (suc m - 1) 0))

module _ (w : BitStream) (bs : List ℕ) (h : Holds w bs) where
  module _ (room : length bs < 8 * length w.buf) where
    abbrev q : ℕ
    q = w.bit_pos / 8

    abbrev j : ℕ
    j = w.bit_pos % 8

    abbrev marked : List ℕ
    marked = set w.buf q (bit_or (get_or w.buf q 0) (2 ^ (7 - j)))

    put_zero-Appends : Appends w bs (0 ∷ []) (record w { bit_pos = w.bit_pos + 1 })
    put_zero-Appends =
        let size = length-append {A = ℕ} bs (0 ∷ []) in
        record {
          holds = record {
            position = omega (arith, size, h.position);
            fits = omega (arith, size);
            content =
                h.content
                ∙ (keep_zero bs (8 * length w.buf - length bs) (omega arith)
                    ∙ ap (λ k. (bs ++ (0 ∷ [])) ++ replicate k 0) (omega (arith, size)));
            bytes = h.bytes;
          };
          same_size = refl;
        }

    put_one-Appends : Appends w bs (1 ∷ []) (record { buf = marked; bit_pos = w.bit_pos + 1 })
    put_one-Appends =
        let size = length-append {A = ℕ} bs (1 ∷ []) in
        let inside : q < length w.buf = omega (arith, h.position) in
        let pos : q * 8 + j ≡ length bs = omega (arith, h.position) in
        let low : j < 8 = omega arith in
        let same : length marked ≡ length w.buf = length-set w.buf q _ in
        record {
          holds = record {
            position = omega (arith, size, h.position);
            fits = omega (arith, size, same);
            content =
                bits_of-set w.buf q j low inside h.bytes
                ∙ (ap (λ k. set (bits_of w.buf) k 1) pos
                    ∙ (ap (λ (t : List ℕ). set t (length bs) 1) h.content
                        ∙ (next_zero bs (8 * length w.buf - length bs) 1 (omega arith)
                            ∙ ap (λ k. (bs ++ (1 ∷ [])) ++ replicate k 0)
                                (omega (arith, size, same)))));
            bytes = All-set IsByte w.buf q _ h.bytes (
                bit_or-byte j (get_or w.buf q 0) low
                  (All-get_or IsByte w.buf q 0 h.bytes (omega arith)));
          };
          same_size = same;
        }

    put_bit-Appends :
        (b : ℕ) → b < 2 → (w' : BitStream) × (put_bit w b ≡ ok w') × Appends w bs (b ∷ []) w'
    unfolding put_bit
    put_bit-Appends zero hb =
        (record w { bit_pos = w.bit_pos + 1 }, rw (inside) refl, put_zero-Appends)
      where
        inside : ltb (w.bit_pos / 8) (length w.buf) ≡ true
        inside = lt→ltb _ _ (omega (arith, h.position))
    put_bit-Appends (suc zero) hb = (
      record { buf = marked; bit_pos = w.bit_pos + 1 },
      rw (inside, read_ok w.buf (w.bit_pos / 8) (ltb→lt _ _ inside)) refl,
      put_one-Appends,
    )
      where
        inside : ltb (w.bit_pos / 8) (length w.buf) ≡ true
        inside = lt→ltb _ _ (omega (arith, h.position))
    put_bit-Appends (suc (suc b)) hb = absurd (omega arith)

  put_bit-full : (b : ℕ) → 8 * length w.buf ≤ length bs → put_bit w b ≡ reject
  unfolding put_bit
  put_bit-full b full =
      rw (le→not-ltb (w.bit_pos / 8) (length w.buf) (omega (arith, h.position))) refl

-- Appending two strings is appending their concatenation.
Appends-trans :
    (w : BitStream) (bs xs ys : List ℕ) (w' w'' : BitStream)
    → Appends w bs xs w'
    → Appends w' (bs ++ xs) ys w''
    → Appends w bs (xs ++ ys) w''
Appends-trans w bs xs ys w' w'' a b = record {
  holds = subst (Holds w'') (append_assoc bs xs ys) b.holds;
  same_size = b.same_size ∙ a.same_size;
}

pub Writes-bind {ℓ} :
    {A : Type ℓ} (k : BitStream → A) (f : BitStream → Outcome BitStream) (g : BitStream → Outcome A)
    (xs ys : List ℕ)
    → Writes f xs
    → Yields k g ys
    → Yields k (λ w. f w >>= g) (xs ++ ys)
Writes-bind k f g xs ys wf wg w bs h =
    let size = length-append {A = ℕ} xs ys in
    let size' = length-append {A = ℕ} bs xs in
    elim (wf w bs h) [
      | inr (full, e) ↦ inr (omega (arith, size), rw e refl)
      | inl (room, w', e, a) ↦ elim (wg w' (bs ++ xs) a.holds) [
        | inr (full, e') ↦ inr (omega (arith, size, size', a.same_size), rw e e')
        | inl (room', w'', e', a') ↦ inl (
          omega (arith, size, size', a.same_size),
          w'',
          rw e e',
          Appends-trans w bs xs ys w' w'' a a',
        )
      ]
    ]

pub Yields-ok {ℓ} : {A : Type ℓ} (k : BitStream → A) → Yields k (λ w. ok (k w)) []
Yields-ok k w bs h = inl (
  omega (arith, h.fits),
  w,
  refl,
  record { holds = subst (Holds w) (sym (append-nil bs)) h; same_size = refl },
)

pub Yields-last {ℓ} :
    {A : Type ℓ} (k : BitStream → A) (f : BitStream → Outcome BitStream) (xs : List ℕ)
    → Writes f xs
    → Yields k (λ w. f w >>= λ w. ok (k w)) xs
Yields-last k f xs wf w bs h = elim (wf w bs h) [
  | inl (room, w', e, a) ↦ inl (room, w', rw e refl, a)
  | inr (full, e) ↦ inr (full, rw e refl)
]

put_bit-Writes : (b : ℕ) → b < 2 → Writes (λ w. put_bit w b) (b ∷ [])
put_bit-Writes b hb w bs h = elim (Bool-cases (ltb (length bs) (8 * length w.buf))) [
  | inl room ↦
      let free : length bs < 8 * length w.buf = ltb→lt _ _ room in
      let r = put_bit-Appends w bs h free b hb in inl (omega arith, r.0, r.1, r.2)
  | inr full ↦ inr (ground arith, put_bit-full w bs h b (ground arith))
]

put_loop-Writes : (n v : ℕ) → Writes (λ w. put_loop n w v) (to_bits n v)
unfolding put_loop
put_loop-Writes zero v = Yields-ok (λ w. w)
put_loop-Writes (suc n) v =
    Writes-bind (λ w. w) (λ w. put_bit w (v / 2 ^ n % 2)) (λ w. put_loop n w v) (v / 2 ^ n % 2 ∷ [])
      (to_bits n v) (put_bit-Writes (v / 2 ^ n % 2) (omega arith)) (put_loop-Writes n v)

-- Writing up to 64 bits appends the lowest bits of the number, the highest of them first, if they
-- have room in the buffer, keeps what was written before, and fails else.
pub put_bits-Writes : (v n : ℕ) → 0 < n → n ≤ 64 → Writes (λ w. put_bits w v n) (to_bits n v)
unfolding put_bits
put_bits-Writes v n some small w bs h =
    let e : (n == 0 || ltb 64 n) ≡ false = ground arith in rw e (put_loop-Writes n v w bs h)

pub put_bytes-Writes : (bytes : List ℕ) → Writes (λ w. put_bytes w bytes) (bits_of bytes)
unfolding put_bytes
put_bytes-Writes [] = Yields-ok (λ w. w)
put_bytes-Writes (b ∷ bytes) =
    Writes-bind (λ w. w) (λ w. put_bits w b 8) (λ w. put_bytes w bytes) (to_bits 8 b)
      (bits_of bytes) (put_bits-Writes b 8 (omega arith) (omega arith)) (put_bytes-Writes bytes)
