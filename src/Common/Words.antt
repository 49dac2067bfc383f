-- ===== src/Common/Words.antt =====
-- Bytes, and words in the two byte orders of the wire formats.
use Prim.Native.Nat.{ℕ, ◌^◌, ◌<◌}
use mathlib.Core.List.{List}
use virtuallte.Common.Lists.{All}

abbrev pub IsByte : ℕ → Type 0
IsByte b = b < 256

abbrev pub IsBytes : List ℕ → Type 0
IsBytes = All IsByte

abbrev pub IsU16 : ℕ → Type 0
IsU16 v = v < 2 ^ 16

abbrev pub IsU32 : ℕ → Type 0
IsU32 v = v < 2 ^ 32

abbrev pub IsU64 : ℕ → Type 0
IsU64 v = v < 2 ^ 64
