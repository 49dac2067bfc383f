-- ===== src/Common/Text.antt =====
-- C strings as the bytes before their terminator.
use Prim.Native.Nat.{ℕ, ◌-◌}
use mathlib.Core.List.{List, [], ◌∷◌}
use virtuallte.Common.Lists.{take}
use mathlib.Core.Bool.{Bool, true, false}

abbrev pub CString : Type 0
CString = List ℕ

-- `strncpy(dst, src, sizeof(dst) - 1)` with the terminator forced, where `dst` has `size` bytes.
abbrev pub copy_string : ℕ → CString → CString
copy_string size src = take (size - 1) src

-- `s[0] == '\0'`
abbrev pub is_empty : CString → Bool
is_empty [] = true
is_empty (c ∷ s) = false
