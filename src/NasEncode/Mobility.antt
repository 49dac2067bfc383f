-- ===== src/NasEncode/Mobility.antt =====
-- The 5GMM messages of src/ue_engine/ue_nas_encode.c. A null pointer with a length is the empty list.
use virtuallte.Common.{
  ℕ, ◌+◌, ◌*◌, ◌%◌, Bool, not, ◌||◌, ◌==◌, ltb, if◌then◌else◌, List, [], ◌∷◌, length, replicate,
  Outcome, ok, reject, ◌>>=◌, read_bytes, CString, Option, none, some, ◌^◌,
}
use virtuallte.NasEncode.Cursor.{at_start, put, finish, be16}
use virtuallte.NasEncode.Suci.{encode_suci}

-- EPD and a plain security header.
abbrev pub mm_header : ℕ → List ℕ
mm_header msg_type = 0x7E ∷ 0 ∷ msg_type ∷ []

-- The mobile identity: a stored 5G-GUTI, or else the SUCI in a buffer of 64 bytes.
unfoldable pub mobile_identity : CString → CString → CString → List ℕ → Outcome (List ℕ)
mobile_identity imsi mcc mnc guti =
    if ltb 0 (length guti)
    then ok guti
    else do suci ← encode_suci (replicate 64 0) imsi mcc mnc; read_bytes suci.0 0 suci.1

abbrev pub checked_ngksi : ℕ → ℕ
checked_ngksi ngksi = if ltb 7 ngksi then 7 else ngksi

-- The writes behind the checks of a registration request.
unfoldable pub write_registration_request :
    List ℕ → List ℕ → ℕ → ℕ → ℕ → Bool → Outcome (List ℕ × ℕ)
write_registration_request buf mid slice_sst reg_type ngksi initial_cleartext = do
  c ← put (at_start buf) (mm_header 0x41)
  c ← put c ((ngksi % 8 * 16 + (8 + reg_type % 8)) ∷ [])
  c ← put c (be16 (length mid))
  c ← put c mid
  c ← if not initial_cleartext then put c (0x10 ∷ 1 ∷ 0 ∷ []) else ok c
  c ← put c (0x2E ∷ 2 ∷ 0xA0 ∷ 0xA0 ∷ [])
  c ← if ltb 0 slice_sst then put c (0x2F ∷ 2 ∷ 1 ∷ slice_sst ∷ []) else ok c
  c ← if not initial_cleartext then put c (0x53 ∷ 1 ∷ 0 ∷ []) else ok c
  finish c

unfoldable pub encode_registration_request :
    List ℕ → CString → CString → CString → ℕ → ℕ → List ℕ → ℕ → Bool → Outcome (List ℕ × ℕ)
encode_registration_request buf imsi mcc mnc slice_sst reg_type guti ngksi initial_cleartext = do
  let checked_type : ℕ = if ltb reg_type 1 || ltb 3 reg_type then 1 else reg_type
  mid ← mobile_identity imsi mcc mnc guti
  if ltb (length buf) (20 + length mid)
      then reject
      else write_registration_request buf mid slice_sst checked_type (checked_ngksi ngksi)
          initial_cleartext

-- A message without fields.
unfoldable pub encode_plain : ℕ → List ℕ → Outcome (List ℕ × ℕ)
encode_plain msg_type buf =
    if ltb (length buf) 3 then reject else do c ← put (at_start buf) (mm_header msg_type); finish c

abbrev pub encode_registration_complete : List ℕ → Outcome (List ℕ × ℕ)
encode_registration_complete = encode_plain 0x43

abbrev pub encode_configuration_update_complete : List ℕ → Outcome (List ℕ × ℕ)
encode_configuration_update_complete = encode_plain 0x55

unfoldable pub encode_deregistration_request : List ℕ → Bool → List ℕ → ℕ → Outcome (List ℕ × ℕ)
encode_deregistration_request buf switch_off guti ngksi =
    if length guti == 0 then reject else if ltb (length buf) (6 + length guti) then reject else do
      c ← put (at_start buf) (mm_header 0x45)
      c ← put c ((checked_ngksi ngksi % 8 * 16 + ((if switch_off then 8 else 0) + 1)) ∷ [])
      c ← put c (be16 (length guti))
      c ← put c guti
      finish c

unfoldable pub encode_auth_response : List ℕ → List ℕ → Outcome (List ℕ × ℕ)
encode_auth_response buf res =
    if length res == 0 || ltb 32 (length res)
    then reject
    else if ltb (length buf) (5 + length res)
    then reject
    else do
      c ← put (at_start buf) (mm_header 0x57)
      c ← put c (0x2D ∷ (length res % 2 ^ 8) ∷ [])
      c ← put c res
      finish c

unfoldable pub encode_auth_failure : List ℕ → ℕ → List ℕ → Outcome (List ℕ × ℕ)
encode_auth_failure buf cause auts = if ltb (length buf) 4 then reject else do
  c ← put (at_start buf) (mm_header 0x59)
  c ← put c (cause ∷ [])
  if length auts == 0
      then finish c
      else if ltb (length buf) (c.pos + 2 + length auts)
      then reject
      else do c ← put c (0x30 ∷ (length auts % 2 ^ 8) ∷ []); c ← put c auts; finish c

-- The argument `container` is `none` for a null pointer: an empty one still counts in the first test.
unfoldable pub encode_security_mode_complete : List ℕ → Option (List ℕ) → Outcome (List ℕ × ℕ)
encode_security_mode_complete buf container =
    let bytes : List ℕ = elim container [ none ↦ [] | some b ↦ b ] in
    let wanted : ℕ = elim container [ none ↦ 0 | some b ↦ 3 + length b ] in
    if ltb (length buf) (3 + wanted) then reject else do
      c ← put (at_start buf) (mm_header 0x5E)
      if length bytes == 0
          then finish c
          else if ltb (length buf) (c.pos + 3 + length bytes)
          then reject
          else do c ← put c (0x71 ∷ be16 (length bytes)); c ← put c bytes; finish c

unfoldable pub encode_identity_response :
    List ℕ → CString → CString → CString → Outcome (List ℕ × ℕ)
encode_identity_response buf imsi mcc mnc = if ltb (length buf) 16 then reject else do
  suci ← encode_suci (replicate 64 0) imsi mcc mnc
  mid ← read_bytes suci.0 0 suci.1
  c ← put (at_start buf) (mm_header 0x5C)
  if ltb (length buf) (c.pos + 2 + length mid)
      then reject
      else do c ← put c (be16 (length mid)); c ← put c mid; finish c
