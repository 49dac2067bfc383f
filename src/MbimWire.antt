-- ===== src/MbimWire.antt =====
-- src/mbim_frontend/mbim_wire.c: the builder of the information buffer of an MBIM message.
-- The buffer is the list of its bytes. `cap` is a field of its own, which a caller promises is no
-- more than the buffer has. Logging and the debug output are left out.
pub mod Strings
mod Tests
use virtuallte.Common.{
  ℕ, ◌+◌, ◌-◌, ◌*◌, ◌/◌, ◌%◌, ◌^◌, Bool, true, false, not, ◌&&◌, ◌||◌, ◌==◌, ltb, leb,
  if◌then◌else◌, List, [], ◌∷◌, length, replicate, Outcome, ok, ◌>>=◌, blit, CString,
}

-- `struct mbim_wire_builder`
pub record WireBuilder : Type 0 where
  pub buf : List ℕ
  pub cap : ℕ
  pub len : ℕ
  pub frame_base : ℕ
  pub overflow : Bool

-- `struct mbim_string`
pub record MbimString : Type 0 where
  pub offset : ℕ
  pub string_length : ℕ

abbrev pub mbim_align4 : ℕ → ℕ
mbim_align4 v = (v + 3) % 2 ^ 32 / 4 * 4

unfoldable pub init : List ℕ → ℕ → WireBuilder
init info_buffer cap = record {
  buf = info_buffer;
  cap = cap;
  len = 0;
  frame_base = 0;
  overflow = false;
}

unfoldable pub reserve : WireBuilder → ℕ → Outcome (WireBuilder × ℕ)
reserve b n =
    let off = b.len in
    if ltb b.cap n || ltb (b.cap - n) off then ok (record b { overflow = true }, off) else do
      buf ← if not (n == 0) then blit b.buf off (replicate n 0) else ok b.buf
      ok (record b { buf = buf; len = (off + n) % 2 ^ 32 }, off)

-- The loop of `mbim_wire_write_utf16le`, from index `i`; `dst` is the offset of its destination.
unfoldable pub write_chars : ℕ → ℕ → CString → List ℕ → Outcome (List ℕ)
write_chars dst i [] buf = ok buf
write_chars dst i (c ∷ src) buf = do
  buf ← blit buf (dst + i * 2 % 2 ^ 32) (c % 256 ∷ 0 ∷ [])
  write_chars dst (i + 1) src buf

unfoldable pub append_string : WireBuilder → CString → Outcome ((WireBuilder × MbimString) × Bool)
append_string b ascii =
    let utf16_len : ℕ = length ascii % 2 ^ 32 * 2 % 2 ^ 32 in
    let nothing : MbimString = record { offset = 0; string_length = 0 } in
    if utf16_len == 0 then ok ((b, nothing), true) else do
      r ← reserve b (mbim_align4 utf16_len)
      if r.0.overflow then ok ((r.0, nothing), false) else do
        buf ← write_chars r.1 0 ascii r.0.buf
        ok (
          (
            record (r.0) { buf = buf },
            record { offset = (r.1 + (2 ^ 32 - b.frame_base)) % 2 ^ 32; string_length = utf16_len },
          ),
          true,
        )

unfoldable pub finalize : WireBuilder → Bool
finalize b = if b.overflow then false else if ltb b.cap b.len then false else true
