-- ===== src/NasSecurity/Tests.antt =====
-- The test vectors of FIPS 197 and FIPS 180-4, and a message of the network.
use virtuallte.Common.{
  ℕ, ◌-◌, ◌^◌, length, take, get_or, ◌≡◌, ◌⊎◌, refl, true, List, [], ◌∷◌, arith, replicate,
}
use virtuallte.NasSecurity.Words.{xor_bytes}
use virtuallte.NasSecurity.Aes.{
  key_word, expand_from, aes_key_expansion, aes_sub_bytes, aes_shift_rows, aes_mix_columns,
  rounds_from, aes128_ecb_encrypt, aes128_ctr,
}
use virtuallte.NasSecurity.Sha.{
  block_words, schedule_from, round, compress, sha256_transform, blocks_from, finish_hash, sha256,
}
use virtuallte.NasSecurity.Keys.{NasKeys}
use virtuallte.NasSecurity.Protection.{NasCount, IntegrityAlg, CipheringAlg, SecurityCtx, cipher}
use virtuallte.NasSecurity.Uplink.{Protected, protect_with_sht_lem}
use virtuallte.NasSecurity.Counter.{counter_block, ciphered_byte, aes128_ctr_lem}
use virtuallte.NasSecurity.Downlink.{IsCount}

abbrev key : List ℕ
key = 0 ∷ 1 ∷ 2 ∷ 3 ∷ 4 ∷ 5 ∷ 6 ∷ 7 ∷ 8 ∷ 9 ∷ 10 ∷ 11 ∷ 12 ∷ 13 ∷ 14 ∷ 15 ∷ []

aes_run :
    aes128_ecb_encrypt key (
      0x00 ∷ 0x11 ∷ 0x22 ∷ 0x33 ∷ 0x44 ∷ 0x55 ∷ 0x66 ∷ 0x77 ∷ 0x88 ∷ 0x99 ∷ 0xaa ∷ 0xbb ∷ 0xcc
      ∷ 0xdd ∷ 0xee ∷ 0xff ∷ [])
    ≡ 0x69 ∷ 0xc4 ∷ 0xe0 ∷ 0xd8 ∷ 0x6a ∷ 0x7b ∷ 0x04 ∷ 0x30 ∷ 0xd8 ∷ 0xcd ∷ 0xb7 ∷ 0x80 ∷ 0x70
      ∷ 0xb4 ∷ 0xc5 ∷ 0x5a ∷ []
unfolding xor_bytes key_word expand_from aes_key_expansion aes_sub_bytes aes_shift_rows
    aes_mix_columns rounds_from aes128_ecb_encrypt
aes_run = refl

sha_run :
    sha256 (0x61 ∷ 0x62 ∷ 0x63 ∷ [])
    ≡ 0xba ∷ 0x78 ∷ 0x16 ∷ 0xbf ∷ 0x8f ∷ 0x01 ∷ 0xcf ∷ 0xea ∷ 0x41 ∷ 0x41 ∷ 0x40 ∷ 0xde ∷ 0x5d
      ∷ 0xae ∷ 0x22 ∷ 0x23 ∷ 0xb0 ∷ 0x03 ∷ 0x61 ∷ 0xa3 ∷ 0x96 ∷ 0x17 ∷ 0x7a ∷ 0x9c ∷ 0xb4 ∷ 0x10
      ∷ 0xff ∷ 0x61 ∷ 0xf2 ∷ 0x00 ∷ 0x15 ∷ 0xad ∷ []
unfolding block_words schedule_from round compress sha256_transform blocks_from finish_hash sha256
sha_run = refl

abbrev keys : NasKeys
keys = record { kausf = []; kseaf = []; kamf = []; knas_int = key; knas_enc = key; res_star = [] }

abbrev last_count : NasCount
last_count = record { overflow = 0; sqn = 250 }

abbrev next_count : NasCount
next_count = record { overflow = 1; sqn = 4 }

abbrev ctx : SecurityCtx
ctx = record {
  active = true;
  keys = keys;
  int_alg = IntegrityAlg.nia2;
  enc_alg = CipheringAlg.nea2;
  ul_count = last_count;
  dl_count = last_count;
  bearer = 1;
}

abbrev plain : List ℕ
plain = 0x7E ∷ 0x00 ∷ 0x54 ∷ []

last_count-IsCount : IsCount last_count
last_count-IsCount = record { overflow_below = omega arith; sqn_below = omega arith }

-- The byte 17 is in the second block, whose counter has wrapped.
aes128_ctr_lem_example :
    (length (aes128_ctr key (counter_block (take 12 key) (2 ^ 32 - 1)) (replicate 20 7)) ≡ 20)
    × (get_or (aes128_ctr key (counter_block (take 12 key) (2 ^ 32 - 1)) (replicate 20 7)) 17 0
        ≡ ciphered_byte key (take 12 key) (2 ^ 32 - 1) (replicate 20 7) 17)
aes128_ctr_lem_example =
    aes128_ctr_lem key (take 12 key) (2 ^ 32 - 1) (replicate 20 7) 17 refl (omega arith)

abbrev buffer : List ℕ
buffer = replicate 16 0

protect_with_sht_lem_example :
    (((◌≡◌ {A = ℕ} 2 2) ⊎ (◌≡◌ {A = ℕ} 2 4))
      × Protected buffer ctx plain 2 (cipher CipheringAlg.nea2 250 1 0 key plain))
    ⊎ (((◌≡◌ {A = ℕ} 2 1) ⊎ (◌≡◌ {A = ℕ} 2 3)) × Protected buffer ctx plain 2 plain)
protect_with_sht_lem_example =
    protect_with_sht_lem buffer ctx plain 2 refl last_count-IsCount (omega arith) (omega arith)
      (omega arith)
