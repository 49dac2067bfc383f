-- ===== src/NasSecurity/Words.antt =====
-- `^`, `&` and shifts on words of C. A word of `w` bits is a number below 2 ^ w.
use virtuallte.Common.{ℕ, zero, suc, ◌+◌, ◌*◌, ◌/◌, ◌%◌, ◌^◌, List, [], ◌∷◌}

-- Exclusive or of the lowest `w` bits.
abbrev pub xor : ℕ → ℕ → ℕ → ℕ
xor zero a b = 0
xor (suc w) a b = (a + b) % 2 + 2 * xor w (a / 2) (b / 2)

-- Byte by byte, as long as there are bytes of the second list.
unfoldable pub xor_bytes : List ℕ → List ℕ → List ℕ
xor_bytes [] ks = []
xor_bytes (b ∷ bytes) [] = b ∷ bytes
xor_bytes (b ∷ bytes) (k ∷ ks) = xor 8 b k ∷ xor_bytes bytes ks

-- Big-endian bytes of 32 bits.
abbrev pub be32_bytes : ℕ → List ℕ
be32_bytes v = v / 2 ^ 24 % 256 ∷ v / 2 ^ 16 % 256 ∷ v / 2 ^ 8 % 256 ∷ v % 256 ∷ []
