-- ===== src/NasSecurity/Keys.antt =====
-- Milenage and the keys of 5G, of src/ue_engine/ue_nas_security.c. Without a RAND or a RES the field
-- `res_star` stays zero.
use virtuallte.Common.{
  ℕ, ◌/◌, ◌%◌, ◌^◌, ◌==◌, ltb, if◌then◌else◌, Option, none, some, List, [], ◌∷◌, ◌++◌, length, take,
  drop, get_or, set, replicate, Outcome, ok, fault, ◌>>=◌, CString,
}
use virtuallte.NasSecurity.Words.{xor, xor_bytes}
use virtuallte.NasSecurity.Aes.{aes128_ecb_encrypt}
use virtuallte.NasSecurity.Sha.{hmac_sha256}

pub record MilenageResult : Type 0 where
  pub res : List ℕ
  pub ck : List ℕ
  pub ik : List ℕ
  pub ak : List ℕ
  pub ak_star : List ℕ
  pub mac_a : List ℕ
  pub mac_s : List ℕ

-- `out[i] = in[(i + r) % 16]`, for an `r` of at most 16.
abbrev pub milenage_rotate : List ℕ → ℕ → List ℕ
milenage_rotate block r = drop r block ++ take r block

unfoldable pub milenage_opc : List ℕ → List ℕ → List ℕ
milenage_opc k op = xor_bytes (aes128_ecb_encrypt k op) op

-- A constant xored to the last byte.
abbrev pub xor_last : List ℕ → ℕ → List ℕ
xor_last block c = set block 15 (xor 8 (get_or block 15 0) c)

-- One of the functions behind the first: rotated by `r`, with the constant `c`.
unfoldable pub milenage_out : List ℕ → List ℕ → List ℕ → ℕ → ℕ → List ℕ
milenage_out opc k temp r c =
    xor_bytes (aes128_ecb_encrypt k (xor_last (milenage_rotate (xor_bytes temp opc) r) c)) opc

unfoldable pub milenage_compute : List ℕ → List ℕ → List ℕ → List ℕ → List ℕ → MilenageResult
milenage_compute opc k rand sqn amf =
    let temp = aes128_ecb_encrypt k (xor_bytes rand opc) in
    let in1 = take 6 sqn ++ (take 2 amf ++ (take 6 sqn ++ take 2 amf)) in
    let out1 =
      xor_bytes (aes128_ecb_encrypt k (xor_bytes (milenage_rotate (xor_bytes in1 opc) 8) temp))
        opc in
    let out2 = milenage_out opc k temp 0 1 in
    record {
      res = take 8 (drop 8 out2);
      ck = milenage_out opc k temp 4 2;
      ik = milenage_out opc k temp 8 4;
      ak = take 6 out2;
      ak_star = take 6 (milenage_out opc k temp 12 8);
      mac_a = take 8 out1;
      mac_s = take 8 (drop 8 out1);
    }

-- A parameter behind what `s` holds, with its length in 16 bits, unless it is empty; `s` has 512 bytes.
unfoldable pub put_param : List ℕ → List ℕ → Outcome (List ℕ)
put_param s p =
    let len = length p % 2 ^ 16 in
    if len == 0
    then ok s
    else let next : List ℕ = s ++ (take len p ++ (len / 2 ^ 8 ∷ len % 2 ^ 8 ∷ [])) in
      if ltb 512 (length next) then fault else ok next

unfoldable pub kdf : List ℕ → ℕ → List ℕ → List ℕ → Outcome (List ℕ)
kdf key fc p0 p1 = do s ← put_param (fc ∷ []) p0; s ← put_param s p1; ok (hmac_sha256 key s)

unfoldable pub kdf_3p : List ℕ → ℕ → List ℕ → List ℕ → List ℕ → Outcome (List ℕ)
kdf_3p key fc p0 p1 p2 = do
  s ← put_param (fc ∷ []) p0
  s ← put_param s p1
  s ← put_param s p2
  ok (hmac_sha256 key s)

pub record NasKeys : Type 0 where
  pub kausf : List ℕ
  pub kseaf : List ℕ
  pub kamf : List ℕ
  pub knas_int : List ℕ
  pub knas_enc : List ℕ
  pub res_star : List ℕ

-- The key for an algorithm, from the second half of what is derived.
unfoldable pub derive_knas : List ℕ → ℕ → ℕ → Outcome (List ℕ)
derive_knas kamf alg_type alg_id = do
  kdf_out ← kdf kamf 0x69 (alg_type ∷ []) (alg_id ∷ [])
  ok (take 16 (drop 16 kdf_out))

-- The integrity key and the ciphering key.
unfoldable pub derive_knas_from_kamf : List ℕ → ℕ → ℕ → Outcome (List ℕ × List ℕ)
derive_knas_from_kamf kamf int_alg_id enc_alg_id = do
  knas_enc ← derive_knas kamf 1 enc_alg_id
  knas_int ← derive_knas kamf 2 int_alg_id
  ok (knas_int, knas_enc)

unfoldable pub derive_res_star : List ℕ → CString → Option (List ℕ × List ℕ) → Outcome (List ℕ)
derive_res_star ck_ik snn none = ok (replicate 16 0)
derive_res_star ck_ik snn (some (rand, res)) = do
  kdf_out ← kdf_3p ck_ik 0x6B snn (take 16 rand) (take 8 res)
  ok (take 16 (drop 16 kdf_out))

unfoldable pub derive_keys :
    List ℕ
    → List ℕ
    → List ℕ
    → Option (List ℕ × List ℕ)
    → List ℕ
    → CString
    → CString
    → List ℕ
    → ℕ
    → ℕ
    → Outcome NasKeys
derive_keys ck ik ak rand_res sqn snn supi abba int_alg_id enc_alg_id = do
  let ck_ik = take 16 ck ++ take 16 ik
  kausf ← kdf ck_ik 0x6A snn (xor_bytes (take 6 sqn) (take 6 ak))
  kseaf ← kdf kausf 0x6C snn []
  kamf ← kdf kseaf 0x6D supi abba
  knas_enc ← derive_knas kamf 1 enc_alg_id
  knas_int ← derive_knas kamf 2 int_alg_id
  res_star ← derive_res_star ck_ik snn rand_res
  ok (record {
    kausf = kausf;
    kseaf = kseaf;
    kamf = kamf;
    knas_int = knas_int;
    knas_enc = knas_enc;
    res_star = res_star;
  })
