-- ===== src/NasEncode/Cursor.antt =====
-- The writes of ue_nas_encode.c: `buf[pos++] = b` and the copies that step over what they wrote.
use virtuallte.Common.{ℕ, ◌+◌, ◌/◌, ◌%◌, ◌^◌, [], ◌∷◌, List, length, Outcome, ok, ◌>>=◌, blit}

-- `buf` and `pos`
pub record Cursor : Type 0 where
  pub buf : List ℕ
  pub pos : ℕ

abbrev pub at_start : List ℕ → Cursor
at_start buf = record { buf = buf; pos = 0 }

-- A run of `buf[pos++] = b`, or `memcpy(buf + pos, …); pos += …`.
unfoldable pub put : Cursor → List ℕ → Outcome Cursor
put c bytes = do buf ← blit c.buf c.pos bytes; ok (record { buf = buf; pos = c.pos + length bytes })

-- `return (int)pos`: the buffer and the length of the message.
abbrev pub finish : Cursor → Outcome (List ℕ × ℕ)
finish c = ok (c.buf, c.pos)

-- A length of two bytes.
abbrev pub be16 : ℕ → List ℕ
be16 v = v / 2 ^ 8 % 2 ^ 8 ∷ v % 2 ^ 8 ∷ []
