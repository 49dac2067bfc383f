-- ===== src/NasSecurity/Sha.antt =====
-- SHA-256 and its HMAC, of src/ue_engine/ue_nas_security.c.
use virtuallte.Common.{
  ℕ, zero, suc, ◌+◌, ◌-◌, ◌*◌, ◌/◌, ◌%◌, ◌^◌, ltb, leb, if◌then◌else◌, List, [], ◌∷◌, ◌++◌, length,
  take, drop, get_or, replicate, bit_and,
}
use virtuallte.NasSecurity.Words.{xor, xor_bytes, be32_bytes}

abbrev pub sha256_k : List ℕ
sha256_k =
    0x428a2f98 ∷ 0x71374491 ∷ 0xb5c0fbcf ∷ 0xe9b5dba5 ∷ 0x3956c25b ∷ 0x59f111f1 ∷ 0x923f82a4
    ∷ 0xab1c5ed5 ∷ 0xd807aa98 ∷ 0x12835b01 ∷ 0x243185be ∷ 0x550c7dc3 ∷ 0x72be5d74 ∷ 0x80deb1fe
    ∷ 0x9bdc06a7 ∷ 0xc19bf174 ∷ 0xe49b69c1 ∷ 0xefbe4786 ∷ 0x0fc19dc6 ∷ 0x240ca1cc ∷ 0x2de92c6f
    ∷ 0x4a7484aa ∷ 0x5cb0a9dc ∷ 0x76f988da ∷ 0x983e5152 ∷ 0xa831c66d ∷ 0xb00327c8 ∷ 0xbf597fc7
    ∷ 0xc6e00bf3 ∷ 0xd5a79147 ∷ 0x06ca6351 ∷ 0x14292967 ∷ 0x27b70a85 ∷ 0x2e1b2138 ∷ 0x4d2c6dfc
    ∷ 0x53380d13 ∷ 0x650a7354 ∷ 0x766a0abb ∷ 0x81c2c92e ∷ 0x92722c85 ∷ 0xa2bfe8a1 ∷ 0xa81a664b
    ∷ 0xc24b8b70 ∷ 0xc76c51a3 ∷ 0xd192e819 ∷ 0xd6990624 ∷ 0xf40e3585 ∷ 0x106aa070 ∷ 0x19a4c116
    ∷ 0x1e376c08 ∷ 0x2748774c ∷ 0x34b0bcb5 ∷ 0x391c0cb3 ∷ 0x4ed8aa4a ∷ 0x5b9cca4f ∷ 0x682e6ff3
    ∷ 0x748f82ee ∷ 0x78a5636f ∷ 0x84c87814 ∷ 0x8cc70208 ∷ 0x90befffa ∷ 0xa4506ceb ∷ 0xbef9a3f7
    ∷ 0xc67178f2 ∷ []

abbrev pub ror32 : ℕ → ℕ → ℕ
ror32 x n = x / 2 ^ n + x * 2 ^ (32 - n) % 2 ^ 32

abbrev pub xor3 : ℕ → ℕ → ℕ → ℕ
xor3 a b c = xor 32 (xor 32 a b) c

-- The first 16 words, big-endian.
unfoldable pub block_words : ℕ → List ℕ → List ℕ
block_words zero block = []
block_words (suc n) block =
    (get_or block 0 0 * 2 ^ 24
      + get_or block 1 0 * 2 ^ 16
      + get_or block 2 0 * 2 ^ 8
      + get_or block 3 0)
    ∷ block_words n (drop 4 block)

-- The other words from `i` on, with `n` of them left.
unfoldable pub schedule_from : ℕ → ℕ → List ℕ → List ℕ
schedule_from zero i w = w
schedule_from (suc n) i w =
    let a = get_or w (i - 15) 0 in
    let b = get_or w (i - 2) 0 in
    let s0 = xor3 (ror32 a 7) (ror32 a 18) (a / 2 ^ 3) in
    let s1 = xor3 (ror32 b 17) (ror32 b 19) (b / 2 ^ 10) in
    schedule_from n (i + 1)
      (w ++ ((get_or w (i - 16) 0 + s0 + get_or w (i - 7) 0 + s1) % 2 ^ 32 ∷ []))

-- The working variables.
pub record Working : Type 0 where
  pub a : ℕ
  pub b : ℕ
  pub c : ℕ
  pub d : ℕ
  pub e : ℕ
  pub f : ℕ
  pub g : ℕ
  pub hh : ℕ

-- One round with the constant `k` and the word `w`.
unfoldable pub round : ℕ → ℕ → Working → Working
round k w v =
    let s1 = xor3 (ror32 v.e 6) (ror32 v.e 11) (ror32 v.e 25) in
    let ch = xor 32 (bit_and v.e v.f) (bit_and (2 ^ 32 - 1 - v.e) v.g) in
    let t1 = (v.hh + s1 + ch + k + w) % 2 ^ 32 in
    let s0 = xor3 (ror32 v.a 2) (ror32 v.a 13) (ror32 v.a 22) in
    let maj = xor3 (bit_and v.a v.b) (bit_and v.a v.c) (bit_and v.b v.c) in
    let t2 = (s0 + maj) % 2 ^ 32 in
    record {
      a = (t1 + t2) % 2 ^ 32;
      b = v.a;
      c = v.b;
      d = v.c;
      e = (v.d + t1) % 2 ^ 32;
      f = v.e;
      g = v.f;
      hh = v.g;
    }

unfoldable pub compress : List ℕ → List ℕ → Working → Working
compress [] w v = v
compress (k ∷ ks) [] v = v
compress (k ∷ ks) (x ∷ w) v = compress ks w (round k x v)

abbrev pub add32 : ℕ → ℕ → ℕ
add32 x y = (x + y) % 2 ^ 32

unfoldable pub sha256_transform : Working → List ℕ → Working
sha256_transform h block =
    let v = compress sha256_k (schedule_from 48 16 (block_words 16 block)) h in
    record {
      a = add32 h.a v.a;
      b = add32 h.b v.b;
      c = add32 h.c v.c;
      d = add32 h.d v.d;
      e = add32 h.e v.e;
      f = add32 h.f v.f;
      g = add32 h.g v.g;
      hh = add32 h.hh v.hh;
    }

abbrev pub initial_hash : Working
initial_hash = record {
  a = 0x6a09e667;
  b = 0xbb67ae85;
  c = 0x3c6ef372;
  d = 0xa54ff53a;
  e = 0x510e527f;
  f = 0x9b05688c;
  g = 0x1f83d9ab;
  hh = 0x5be0cd19;
}

-- The loop over the full blocks, with `n` of them left.
unfoldable pub blocks_from : ℕ → Working → List ℕ → Working
blocks_from zero h msg = h
blocks_from (suc n) h msg = blocks_from n (sha256_transform h (take 64 msg)) (drop 64 msg)

-- The number of bits in 8 bytes.
abbrev pub bit_len : ℕ → List ℕ
bit_len len =
    let bits = len * 8 % 2 ^ 64 in be32_bytes (bits / 2 ^ 32) ++ be32_bytes (bits % 2 ^ 32)

-- The padding of the last `rem` bytes, in one block or in two.
unfoldable pub finish_hash : Working → List ℕ → ℕ → Working
finish_hash h tail len =
    let rem = length tail in
    if leb 56 rem
    then sha256_transform (sha256_transform h (tail ++ (0x80 ∷ replicate (63 - rem) 0)))
        (replicate 56 0 ++ bit_len len)
    else sha256_transform h (tail ++ (0x80 ∷ (replicate (55 - rem) 0 ++ bit_len len)))

unfoldable pub sha256 : List ℕ → List ℕ
sha256 msg =
    let blocks = length msg / 64 in
    let h =
      finish_hash (blocks_from blocks initial_hash msg) (drop (blocks * 64) msg) (length msg) in
    be32_bytes h.a
    ++ (be32_bytes h.b
        ++ (be32_bytes h.c
            ++ (be32_bytes h.d
                ++ (be32_bytes h.e ++ (be32_bytes h.f ++ (be32_bytes h.g ++ be32_bytes h.hh))))))

-- The key in 64 bytes, hashed first if it is longer.
unfoldable pub key_pad : List ℕ → List ℕ
key_pad key =
    if ltb 64 (length key)
    then sha256 key ++ replicate 32 0
    else key ++ replicate (64 - length key) 0

-- A message of more than 8192 bytes does not fit the inner buffer and is left out.
unfoldable pub hmac_sha256 : List ℕ → List ℕ → List ℕ
hmac_sha256 key msg =
    let pad = key_pad key in
    let inner = xor_bytes pad (replicate 64 0x36) in
    let inner_hash : List ℕ =
      if leb (length msg) 8192 then sha256 (inner ++ msg) else sha256 inner in
    sha256 (xor_bytes pad (replicate 64 0x5c) ++ inner_hash)
