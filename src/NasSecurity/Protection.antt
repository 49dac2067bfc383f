-- ===== src/NasSecurity/Protection.antt =====
-- The protected messages of src/ue_engine/ue_nas_security.c. The fields of the context that only the
-- engine uses are left out.
use virtuallte.Common.{
  ℕ, ◌+◌, ◌*◌, ◌%◌, ◌^◌, Bool, true, false, not, ◌&&◌, ◌||◌, ◌==◌, ltb, if◌then◌else◌, List, [],
  ◌∷◌, ◌++◌, length, drop, get_or, replicate, Outcome, ok, reject, ◌>>=◌, read_bytes, blit,
}
use virtuallte.NasSecurity.Words.{be32_bytes}
use virtuallte.NasSecurity.Aes.{aes_cmac, aes128_ctr}
use virtuallte.NasSecurity.Keys.{NasKeys}

-- `struct ue_nas_count`
pub record NasCount : Type 0 where
  pub overflow : ℕ
  pub sqn : ℕ

abbrev pub count_value : NasCount → ℕ
count_value c = c.overflow * 2 ^ 8 + c.sqn

unfoldable pub count_increment : NasCount → NasCount
count_increment c =
    let sqn = (c.sqn + 1) % 2 ^ 8 in
    record { overflow = if sqn == 0 then (c.overflow + 1) % 2 ^ 16 else c.overflow; sqn = sqn }

-- `enum ue_nas_integrity_alg`
pub data IntegrityAlg : Type 0 where
  nia0 nia1 nia2 : IntegrityAlg

-- `enum ue_nas_ciphering_alg`
pub data CipheringAlg : Type 0 where
  nea0 nea1 nea2 : CipheringAlg

pub record SecurityCtx : Type 0 where
  pub active : Bool
  pub keys : NasKeys
  pub int_alg : IntegrityAlg
  pub enc_alg : CipheringAlg
  pub ul_count : NasCount
  pub dl_count : NasCount
  pub bearer : ℕ

-- COUNT, BEARER and DIRECTION; the bits of a byte that `|` joins do not overlap.
abbrev pub count_header : ℕ → ℕ → ℕ → List ℕ
count_header count bearer direction =
    be32_bytes count ++ ((bearer * 8 % 2 ^ 8 + direction % 2 * 4) ∷ 0 ∷ 0 ∷ 0 ∷ [])

-- Four bytes as a number.
abbrev pub word_of : List ℕ → ℕ
word_of mac =
    get_or mac 0 0 * 2 ^ 24 + get_or mac 1 0 * 2 ^ 16 + get_or mac 2 0 * 2 ^ 8 + get_or mac 3 0

unfoldable pub compute_mac : IntegrityAlg → ℕ → ℕ → ℕ → List ℕ → List ℕ → ℕ
compute_mac IntegrityAlg.nia0 count bearer direction key msg = 0
compute_mac IntegrityAlg.nia1 count bearer direction key msg = 0
compute_mac IntegrityAlg.nia2 count bearer direction key msg =
    if ltb 8192 (length msg)
    then 0
    else word_of (aes_cmac key (count_header count bearer direction ++ msg))

-- The bytes, ciphered or left as they are. No caller in the file looks at what the source returns.
unfoldable pub cipher : CipheringAlg → ℕ → ℕ → ℕ → List ℕ → List ℕ → List ℕ
cipher CipheringAlg.nea0 count bearer direction key bytes = bytes
cipher CipheringAlg.nea1 count bearer direction key bytes = bytes
cipher CipheringAlg.nea2 count bearer direction key bytes =
    aes128_ctr key (count_header count bearer direction ++ replicate 8 0) bytes

abbrev pub is_protected : ℕ → Bool
is_protected sht = sht == 1 || (sht == 2 || (sht == 3 || sht == 4))

abbrev pub is_ciphered : ℕ → Bool
is_ciphered sht = sht == 2 || sht == 4

-- The buffer and the length of the message, and the context with its next count.
unfoldable pub protect_with_sht :
    List ℕ → SecurityCtx → List ℕ → ℕ → Outcome ((List ℕ × ℕ) × SecurityCtx)
protect_with_sht buf ctx plain sht =
    if not ctx.active || (length plain == 0 || not (is_protected sht))
    then reject
    else if ltb (length buf) (7 + length plain)
    then reject
    else do
      let count = count_value ctx.ul_count
      buf ← blit buf 0 (0x7E ∷ sht ∷ [])
      buf ← blit buf 6 (ctx.ul_count.sqn ∷ [])
      buf ← blit buf 7 plain
      payload ← read_bytes buf 7 (length plain)
      buf ← blit buf 7 (
          if is_ciphered sht
          then cipher ctx.enc_alg count ctx.bearer 0 ctx.keys.knas_enc payload
          else payload)
      body ← read_bytes buf 6 (1 + length plain)
      buf ←
          blit buf 2
            (be32_bytes (compute_mac ctx.int_alg count ctx.bearer 0 ctx.keys.knas_int body))
      ok ((buf, 7 + length plain), record ctx { ul_count = count_increment ctx.ul_count })

abbrev pub protect : List ℕ → SecurityCtx → List ℕ → Outcome ((List ℕ × ℕ) × SecurityCtx)
protect buf ctx plain = protect_with_sht buf ctx plain 2

-- The downlink count that a received sequence number stands for.
unfoldable pub estimate : NasCount → ℕ → NasCount
estimate c sqn = record {
  overflow = if ltb sqn c.sqn then (c.overflow + 1) % 2 ^ 16 else c.overflow;
  sqn = sqn;
}

abbrev pub is_nia0 : IntegrityAlg → Bool
is_nia0 IntegrityAlg.nia0 = true
is_nia0 IntegrityAlg.nia1 = false
is_nia0 IntegrityAlg.nia2 = false

-- The check of the MAC and what follows it, under the estimated count.
unfoldable pub unprotect_under : SecurityCtx → List ℕ → NasCount → Outcome (SecurityCtx × List ℕ)
unprotect_under ctx msg est =
    let count = count_value est in
    let received = word_of (drop 2 msg) in
    let computed = compute_mac ctx.int_alg count ctx.bearer 1 ctx.keys.knas_int (drop 6 msg) in
    if not (is_nia0 ctx.int_alg) && not (received == computed)
    then reject
    else ok (
      record ctx { dl_count = est },
      cipher ctx.enc_alg count ctx.bearer 1 ctx.keys.knas_enc (drop 7 msg),
    )

-- The context and the plain message.
unfoldable pub unprotect : SecurityCtx → List ℕ → Outcome (SecurityCtx × List ℕ)
unprotect ctx msg =
    if not ctx.active || ltb (length msg) 7
    then reject
    else if not (get_or msg 0 0 == 0x7E)
    then reject
    else if get_or msg 1 0 == 0
    then ok (ctx, msg)
    else unprotect_under ctx msg (estimate ctx.dl_count (get_or msg 6 0))

-- `struct ue_nas_sec_header_info`
pub record SecHeaderInfo : Type 0 where
  pub epd : ℕ
  pub sht : ℕ
  pub mac : ℕ
  pub sqn : ℕ

unfoldable pub unwrap_parse_only : List ℕ → Outcome (SecHeaderInfo × List ℕ)
unwrap_parse_only msg =
    if ltb (length msg) 7
    then reject
    else if not (get_or msg 0 0 == 0x7E) || get_or msg 1 0 == 0
    then reject
    else ok (
      record {
        epd = get_or msg 0 0;
        sht = get_or msg 1 0;
        mac = word_of (drop 2 msg);
        sqn = get_or msg 6 0;
      },
      drop 7 msg,
    )
