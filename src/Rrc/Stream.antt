-- ===== src/Rrc/Stream.antt =====
-- The bit streams of src/ue_engine/ue_rrc.c. `buf_len` is the length of the list. A writer that has
-- failed is not looked at again: all callers return.
use virtuallte.Common.{
  ℕ, zero, suc, ◌+◌, ◌-◌, ◌*◌, ◌/◌, ◌%◌, ◌^◌, not, ◌||◌, ◌==◌, ltb, if◌then◌else◌, bit_or, List, [],
  ◌∷◌, length, replicate, set, Outcome, ok, reject, fault, read, ◌>>=◌,
}

-- `struct ue_rrc_bitwriter` and `struct ue_rrc_bitreader`
pub record BitStream : Type 0 where
  pub buf : List ℕ
  pub bit_pos : ℕ

-- `p[i] = v`
abbrev pub store : List ℕ → ℕ → ℕ → Outcome (List ℕ)
store xs i v = if ltb i (length xs) then ok (set xs i v) else fault

unfoldable pub bw_init : List ℕ → BitStream
bw_init buf = record { buf = replicate (length buf) 0; bit_pos = 0 }

-- One round of the loop of `ue_rrc_bw_put_bits`, for the bit `b`.
unfoldable pub put_bit : BitStream → ℕ → Outcome BitStream
put_bit w b =
    let byte_idx : ℕ = w.bit_pos / 8 in
    let bit_idx : ℕ = 7 - w.bit_pos % 8 in
    if not (ltb byte_idx (length w.buf)) then reject else do
      buf ←
          if b == 1
          then (do old ← read w.buf byte_idx; store w.buf byte_idx (bit_or old (2 ^ bit_idx)))
          else ok w.buf
      ok (record { buf = buf; bit_pos = w.bit_pos + 1 })

-- The loop, with `i` rounds left.
unfoldable pub put_loop : ℕ → BitStream → ℕ → Outcome BitStream
put_loop zero w val = ok w
put_loop (suc i) w val = do w ← put_bit w (val / 2 ^ i % 2); put_loop i w val

unfoldable pub put_bits : BitStream → ℕ → ℕ → Outcome BitStream
put_bits w val nbits = if nbits == 0 || ltb 64 nbits then reject else put_loop nbits w val

unfoldable pub put_bytes : BitStream → List ℕ → Outcome BitStream
put_bytes w [] = ok w
put_bytes w (b ∷ bytes) = do w ← put_bits w b 8; put_bytes w bytes

abbrev pub byte_len : BitStream → ℕ
byte_len w = (w.bit_pos + 7) / 8

unfoldable pub br_init : List ℕ → BitStream
br_init buf = record { buf = buf; bit_pos = 0 }

unfoldable pub get_bit : BitStream → Outcome (BitStream × ℕ)
get_bit r =
    let byte_idx : ℕ = r.bit_pos / 8 in
    let bit_idx : ℕ = 7 - r.bit_pos % 8 in
    if not (ltb byte_idx (length r.buf)) then reject else do
      byte ← read r.buf byte_idx
      ok (record r { bit_pos = r.bit_pos + 1 }, byte / 2 ^ bit_idx % 2)

-- The loop of `ue_rrc_br_get_bits`, on the 64-bit `result`.
unfoldable pub get_loop : ℕ → BitStream → ℕ → Outcome (BitStream × ℕ)
get_loop zero r result = ok (r, result)
get_loop (suc n) r result = do b ← get_bit r; get_loop n b.0 (result * 2 % 2 ^ 64 + b.1)

unfoldable pub get_bits : BitStream → ℕ → Outcome (BitStream × ℕ)
get_bits r nbits = if nbits == 0 || ltb 64 nbits then reject else get_loop nbits r 0

unfoldable pub get_bytes : BitStream → ℕ → Outcome (BitStream × List ℕ)
get_bytes r zero = ok (r, [])
get_bytes r (suc n) = do b ← get_bits r 8; rest ← get_bytes b.0 n; ok (rest.0, (b.1 % 256) ∷ rest.1)

unfoldable pub remaining_bits : BitStream → ℕ
remaining_bits r = length r.buf * 8 - r.bit_pos

unfoldable pub put_length : BitStream → ℕ → Outcome BitStream
put_length w len =
    if ltb len 128
    then put_bits w len 8
    else if ltb len 16384
    then put_bits w (bit_or 32768 len) 16
    else reject

-- The masks `0x80`, `0xC0` and `0x3F` of a byte.
unfoldable pub get_length : BitStream → Outcome (BitStream × ℕ)
get_length r = do
  b ← get_bits r 8
  if b.1 / 128 % 2 == 0
      then ok (b.0, b.1)
      else if b.1 / 64 % 4 == 2
      then (do c ← get_bits b.0 8; ok (c.0, b.1 % 64 * 256 + c.1))
      else reject
