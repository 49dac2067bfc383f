-- ===== src/NasSecurity/Aes.antt =====
-- AES-128, its counter mode and its MAC, of src/ue_engine/ue_nas_security.c.
use virtuallte.Common.{
  ℕ, zero, suc, ◌+◌, ◌-◌, ◌*◌, ◌/◌, ◌%◌, ◌==◌, ltb, if◌then◌else◌, List, [], ◌∷◌, ◌++◌, length,
  take, drop, get_or, set, replicate,
}
use virtuallte.NasSecurity.Words.{xor, xor_bytes}

abbrev pub aes_sbox : List ℕ
aes_sbox =
    0x63 ∷ 0x7c ∷ 0x77 ∷ 0x7b ∷ 0xf2 ∷ 0x6b ∷ 0x6f ∷ 0xc5 ∷ 0x30 ∷ 0x01 ∷ 0x67 ∷ 0x2b ∷ 0xfe ∷ 0xd7
    ∷ 0xab ∷ 0x76 ∷ 0xca ∷ 0x82 ∷ 0xc9 ∷ 0x7d ∷ 0xfa ∷ 0x59 ∷ 0x47 ∷ 0xf0 ∷ 0xad ∷ 0xd4 ∷ 0xa2
    ∷ 0xaf ∷ 0x9c ∷ 0xa4 ∷ 0x72 ∷ 0xc0 ∷ 0xb7 ∷ 0xfd ∷ 0x93 ∷ 0x26 ∷ 0x36 ∷ 0x3f ∷ 0xf7 ∷ 0xcc
    ∷ 0x34 ∷ 0xa5 ∷ 0xe5 ∷ 0xf1 ∷ 0x71 ∷ 0xd8 ∷ 0x31 ∷ 0x15 ∷ 0x04 ∷ 0xc7 ∷ 0x23 ∷ 0xc3 ∷ 0x18
    ∷ 0x96 ∷ 0x05 ∷ 0x9a ∷ 0x07 ∷ 0x12 ∷ 0x80 ∷ 0xe2 ∷ 0xeb ∷ 0x27 ∷ 0xb2 ∷ 0x75 ∷ 0x09 ∷ 0x83
    ∷ 0x2c ∷ 0x1a ∷ 0x1b ∷ 0x6e ∷ 0x5a ∷ 0xa0 ∷ 0x52 ∷ 0x3b ∷ 0xd6 ∷ 0xb3 ∷ 0x29 ∷ 0xe3 ∷ 0x2f
    ∷ 0x84 ∷ 0x53 ∷ 0xd1 ∷ 0x00 ∷ 0xed ∷ 0x20 ∷ 0xfc ∷ 0xb1 ∷ 0x5b ∷ 0x6a ∷ 0xcb ∷ 0xbe ∷ 0x39
    ∷ 0x4a ∷ 0x4c ∷ 0x58 ∷ 0xcf ∷ 0xd0 ∷ 0xef ∷ 0xaa ∷ 0xfb ∷ 0x43 ∷ 0x4d ∷ 0x33 ∷ 0x85 ∷ 0x45
    ∷ 0xf9 ∷ 0x02 ∷ 0x7f ∷ 0x50 ∷ 0x3c ∷ 0x9f ∷ 0xa8 ∷ 0x51 ∷ 0xa3 ∷ 0x40 ∷ 0x8f ∷ 0x92 ∷ 0x9d
    ∷ 0x38 ∷ 0xf5 ∷ 0xbc ∷ 0xb6 ∷ 0xda ∷ 0x21 ∷ 0x10 ∷ 0xff ∷ 0xf3 ∷ 0xd2 ∷ 0xcd ∷ 0x0c ∷ 0x13
    ∷ 0xec ∷ 0x5f ∷ 0x97 ∷ 0x44 ∷ 0x17 ∷ 0xc4 ∷ 0xa7 ∷ 0x7e ∷ 0x3d ∷ 0x64 ∷ 0x5d ∷ 0x19 ∷ 0x73
    ∷ 0x60 ∷ 0x81 ∷ 0x4f ∷ 0xdc ∷ 0x22 ∷ 0x2a ∷ 0x90 ∷ 0x88 ∷ 0x46 ∷ 0xee ∷ 0xb8 ∷ 0x14 ∷ 0xde
    ∷ 0x5e ∷ 0x0b ∷ 0xdb ∷ 0xe0 ∷ 0x32 ∷ 0x3a ∷ 0x0a ∷ 0x49 ∷ 0x06 ∷ 0x24 ∷ 0x5c ∷ 0xc2 ∷ 0xd3
    ∷ 0xac ∷ 0x62 ∷ 0x91 ∷ 0x95 ∷ 0xe4 ∷ 0x79 ∷ 0xe7 ∷ 0xc8 ∷ 0x37 ∷ 0x6d ∷ 0x8d ∷ 0xd5 ∷ 0x4e
    ∷ 0xa9 ∷ 0x6c ∷ 0x56 ∷ 0xf4 ∷ 0xea ∷ 0x65 ∷ 0x7a ∷ 0xae ∷ 0x08 ∷ 0xba ∷ 0x78 ∷ 0x25 ∷ 0x2e
    ∷ 0x1c ∷ 0xa6 ∷ 0xb4 ∷ 0xc6 ∷ 0xe8 ∷ 0xdd ∷ 0x74 ∷ 0x1f ∷ 0x4b ∷ 0xbd ∷ 0x8b ∷ 0x8a ∷ 0x70
    ∷ 0x3e ∷ 0xb5 ∷ 0x66 ∷ 0x48 ∷ 0x03 ∷ 0xf6 ∷ 0x0e ∷ 0x61 ∷ 0x35 ∷ 0x57 ∷ 0xb9 ∷ 0x86 ∷ 0xc1
    ∷ 0x1d ∷ 0x9e ∷ 0xe1 ∷ 0xf8 ∷ 0x98 ∷ 0x11 ∷ 0x69 ∷ 0xd9 ∷ 0x8e ∷ 0x94 ∷ 0x9b ∷ 0x1e ∷ 0x87
    ∷ 0xe9 ∷ 0xce ∷ 0x55 ∷ 0x28 ∷ 0xdf ∷ 0x8c ∷ 0xa1 ∷ 0x89 ∷ 0x0d ∷ 0xbf ∷ 0xe6 ∷ 0x42 ∷ 0x68
    ∷ 0x41 ∷ 0x99 ∷ 0x2d ∷ 0x0f ∷ 0xb0 ∷ 0x54 ∷ 0xbb ∷ 0x16 ∷ []

abbrev pub aes_rcon : List ℕ
aes_rcon = 0x00 ∷ 0x01 ∷ 0x02 ∷ 0x04 ∷ 0x08 ∷ 0x10 ∷ 0x20 ∷ 0x40 ∷ 0x80 ∷ 0x1b ∷ 0x36 ∷ []

abbrev pub sbox : ℕ → ℕ
sbox b = get_or aes_sbox b 0

abbrev pub gf_mul2 : ℕ → ℕ
gf_mul2 x = xor 8 (x * 2 % 256) (if ltb 127 x then 0x1b else 0)

-- The word before word `i`, turned and substituted where `i` is a multiple of 4.
unfoldable pub key_word : ℕ → List ℕ → List ℕ
key_word i tmp =
    if i % 4 == 0
    then (xor 8 (sbox (get_or tmp 1 0)) (get_or aes_rcon (i / 4) 0)
        ∷ sbox (get_or tmp 2 0)
        ∷ sbox (get_or tmp 3 0)
        ∷ sbox (get_or tmp 0 0)
        ∷ [])
    else tmp

-- The loop over the words from `i` on, with `n` rounds left.
unfoldable pub expand_from : ℕ → ℕ → List ℕ → List ℕ
expand_from zero i rk = rk
expand_from (suc n) i rk =
    expand_from n (i + 1) (
      rk
      ++ xor_bytes (take 4 (drop ((i - 4) * 4) rk)) (key_word i (take 4 (drop ((i - 1) * 4) rk))))

unfoldable pub aes_key_expansion : List ℕ → List ℕ
aes_key_expansion key = expand_from 40 4 (take 16 key)

unfoldable pub aes_sub_bytes : List ℕ → List ℕ
aes_sub_bytes [] = []
aes_sub_bytes (b ∷ s) = sbox b ∷ aes_sub_bytes s

unfoldable pub aes_shift_rows : List ℕ → List ℕ
aes_shift_rows s =
    get_or s 0 0
    ∷ get_or s 5 0
    ∷ get_or s 10 0
    ∷ get_or s 15 0
    ∷ get_or s 4 0
    ∷ get_or s 9 0
    ∷ get_or s 14 0
    ∷ get_or s 3 0
    ∷ get_or s 8 0
    ∷ get_or s 13 0
    ∷ get_or s 2 0
    ∷ get_or s 7 0
    ∷ get_or s 12 0
    ∷ get_or s 1 0
    ∷ get_or s 6 0
    ∷ get_or s 11 0
    ∷ []

abbrev pub xor5 : ℕ → ℕ → ℕ → ℕ → ℕ → ℕ
xor5 a b c d e = xor 8 (xor 8 (xor 8 (xor 8 a b) c) d) e

-- Column by column.
unfoldable pub aes_mix_columns : List ℕ → List ℕ
aes_mix_columns (a0 ∷ a1 ∷ a2 ∷ a3 ∷ s) =
    xor5 (gf_mul2 a0) (gf_mul2 a1) a1 a2 a3
    ∷ xor5 a0 (gf_mul2 a1) (gf_mul2 a2) a2 a3
    ∷ xor5 a0 a1 (gf_mul2 a2) (gf_mul2 a3) a3
    ∷ xor5 (gf_mul2 a0) a0 a1 a2 (gf_mul2 a3)
    ∷ aes_mix_columns s
aes_mix_columns s = s

-- The next 16 bytes of the round keys.
abbrev pub aes_add_round_key : List ℕ → List ℕ → List ℕ
aes_add_round_key s rk = xor_bytes s (take 16 rk)

-- The rounds from `r` on, with `n` of them left.
unfoldable pub rounds_from : ℕ → ℕ → List ℕ → List ℕ → List ℕ
rounds_from zero r rk s = s
rounds_from (suc n) r rk s =
    rounds_from n (r + 1) rk
      (aes_add_round_key (aes_mix_columns (aes_shift_rows (aes_sub_bytes s))) (drop (r * 16) rk))

unfoldable pub aes128_ecb_encrypt : List ℕ → List ℕ → List ℕ
aes128_ecb_encrypt key block =
    let rk = aes_key_expansion key in
    let s = rounds_from 9 1 rk (aes_add_round_key (take 16 block) rk) in
    aes_add_round_key (aes_shift_rows (aes_sub_bytes s)) (drop 160 rk)

-- The bytes shifted left by a bit, and the bit that is carried out.
unfoldable pub shift_bytes : List ℕ → List ℕ × ℕ
shift_bytes [] = ([], 0)
shift_bytes (b ∷ bytes) =
    let rest = shift_bytes bytes in ((b * 2 + rest.1) % 256 ∷ rest.0, b / 128 % 2)

unfoldable pub cmac_shift_left : List ℕ → List ℕ
cmac_shift_left block =
    let shifted = shift_bytes block in
    if shifted.1 == 1 then set shifted.0 15 (xor 8 (get_or shifted.0 15 0) 0x87) else shifted.0

-- The loop over the blocks before the last, with `n` of them left.
unfoldable pub cbc_from : ℕ → List ℕ → List ℕ → List ℕ → List ℕ
cbc_from zero key x msg = x
cbc_from (suc n) key x msg =
    cbc_from n key (aes128_ecb_encrypt key (xor_bytes x (take 16 msg))) (drop 16 msg)

-- The last block, complete or padded.
unfoldable pub last_block : List ℕ → ℕ → List ℕ → List ℕ → List ℕ
last_block msg n k1 k2 =
    let rest = drop ((n - 1) * 16) msg in
    if length msg % 16 == 0
    then (if length msg == 0 then xor_bytes (0x80 ∷ replicate 15 0) k2 else xor_bytes rest k1)
    else xor_bytes (rest ++ (0x80 ∷ replicate (15 - length msg % 16) 0)) k2

unfoldable pub aes_cmac : List ℕ → List ℕ → List ℕ
aes_cmac key msg =
    let k1 = cmac_shift_left (aes128_ecb_encrypt key (replicate 16 0)) in
    let k2 = cmac_shift_left k1 in
    let blocks = (length msg + 15) / 16 in
    let n : ℕ = if blocks == 0 then 1 else blocks in
    let x = cbc_from (n - 1) key (replicate 16 0) msg in
    aes128_ecb_encrypt key (xor_bytes x (last_block msg n k1 k2))

-- The counter in the bytes up to `k`, with `n` bytes left to carry into.
unfoldable pub increment_from : ℕ → ℕ → List ℕ → List ℕ
increment_from zero k ctr = ctr
increment_from (suc n) k ctr =
    let next = (get_or ctr k 0 + 1) % 256 in
    let carried = increment_from n (k - 1) (set ctr k next) in
    if next == 0 then carried else set ctr k next

-- The loop over blocks of 16 bytes, the last of which may be short, with `n` blocks left.
unfoldable pub ctr_from : ℕ → List ℕ → List ℕ → List ℕ → List ℕ
ctr_from zero key ctr data_bytes = data_bytes
ctr_from (suc n) key ctr data_bytes =
    xor_bytes (take 16 data_bytes) (aes128_ecb_encrypt key ctr)
    ++ ctr_from n key (increment_from 4 15 ctr) (drop 16 data_bytes)

unfoldable pub aes128_ctr : List ℕ → List ℕ → List ℕ → List ℕ
aes128_ctr key iv data_bytes = ctr_from ((length data_bytes + 15) / 16) key iv data_bytes
