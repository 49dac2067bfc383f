-- ===== src/NasSecurity/Downlink.antt =====
-- What `ue_nas_security_unprotect` makes of the messages of the network.
use virtuallte.Common.{ℕ, ◌+◌, ◌%◌, ◌^◌, ◌<◌, ◌≡◌, refl, List, ◌∷◌, ◌++◌, replicate, IsBytes, arith}
use virtuallte.NasSecurity.Words.{be32_bytes}
use virtuallte.NasSecurity.Protection.{
  NasCount, count_value, count_increment, CipheringAlg, SecurityCtx, count_header, compute_mac,
  cipher,
}
use virtuallte.NasSecurity.Stream.{aes128_ctr_twice}

-- A count within its widths.
pub record IsCount (c : NasCount) : Type 0 where
  pub overflow_below : c.overflow < 2 ^ 16
  pub sqn_below : c.sqn < 2 ^ 8

-- The message that a network with the same keys sends under the downlink count `c`.
abbrev pub network_body : SecurityCtx → NasCount → List ℕ → List ℕ
network_body ctx c plain =
    c.sqn ∷ cipher ctx.enc_alg (count_value c) ctx.bearer 1 ctx.keys.knas_enc plain

abbrev pub network_mac : SecurityCtx → NasCount → List ℕ → ℕ
network_mac ctx c plain =
    compute_mac ctx.int_alg (count_value c) ctx.bearer 1 ctx.keys.knas_int
      (network_body ctx c plain)

abbrev pub network_message : SecurityCtx → NasCount → ℕ → List ℕ → List ℕ
network_message ctx c sht plain =
    0x7E ∷ sht ∷ (be32_bytes (network_mac ctx c plain) ++ network_body ctx c plain)

pub cipher_twice :
    (alg : CipheringAlg) (count bearer direction : ℕ) (key bytes : List ℕ)
    → IsBytes bytes
    → cipher alg count bearer direction key (cipher alg count bearer direction key bytes) ≡ bytes
unfolding cipher
cipher_twice CipheringAlg.nea0 count bearer direction key bytes h = refl
cipher_twice CipheringAlg.nea1 count bearer direction key bytes h = refl
cipher_twice CipheringAlg.nea2 count bearer direction key bytes h =
    aes128_ctr_twice key (count_header count bearer direction ++ replicate 8 0) bytes h

-- The next count is the next number of 24 bits, and a count within its widths.
pub count_increment_lem :
    (c : NasCount)
    → IsCount c
    → (count_value (count_increment c) ≡ (count_value c + 1) % 2 ^ 24) × IsCount (count_increment c)
unfolding count_increment
count_increment_lem c h = (
  ground (arith, h.overflow_below, h.sqn_below),
  record {
    overflow_below = ground (arith, h.overflow_below, h.sqn_below);
    sqn_below = omega arith;
  },
)
