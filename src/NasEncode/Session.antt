-- ===== src/NasEncode/Session.antt =====
-- The 5GSM messages of src/ue_engine/ue_nas_encode.c, each in a UL NAS TRANSPORT.
use virtuallte.Common.{
  ℕ, ◌+◌, ◌%◌, ◌^◌, ◌==◌, ltb, if◌then◌else◌, List, [], ◌∷◌, length, take, ◌-◌, replicate,
  read_bytes, blit, Outcome, ok, reject, ◌>>=◌, CString,
}
use virtuallte.NasEncode.Cursor.{Cursor, at_start, put, finish, be16}

-- The wrapper that the small messages share; `sm` is what they build in `sm_buf`.
unfoldable pub wrap_sm : List ℕ → ℕ → List ℕ → Outcome (List ℕ × ℕ)
wrap_sm buf psi sm = if ltb (length buf) 16 then reject else do
  c ← put (at_start buf) (0x7E ∷ 0 ∷ 0x67 ∷ 1 ∷ be16 (length sm))
  c ← put c sm
  c ← put c (0x12 ∷ psi ∷ [])
  finish c

unfoldable pub encode_sm_status : List ℕ → ℕ → ℕ → ℕ → Outcome (List ℕ × ℕ)
encode_sm_status buf psi pti cause = wrap_sm buf psi (0x2E ∷ psi ∷ pti ∷ 0xD6 ∷ cause ∷ [])

unfoldable pub encode_pdu_session_release_complete : List ℕ → ℕ → ℕ → Outcome (List ℕ × ℕ)
encode_pdu_session_release_complete buf psi pti = wrap_sm buf psi (0x2E ∷ psi ∷ pti ∷ 0xD4 ∷ [])

unfoldable pub encode_pdu_session_release_request : List ℕ → ℕ → ℕ → Outcome (List ℕ × ℕ)
encode_pdu_session_release_request buf psi pti =
    wrap_sm buf psi (0x2E ∷ psi ∷ (if pti == 0 then 1 else pti) ∷ 0xD1 ∷ 0x59 ∷ 0x24 ∷ [])

-- The extended protocol options: three empty requests behind the protocol octet.
abbrev pub epco_content : List ℕ
epco_content = 0x80 ∷ 0 ∷ 0x0A ∷ 0 ∷ 0 ∷ 0x0D ∷ 0 ∷ 0 ∷ 0x0C ∷ 0 ∷ []

-- The length is filled in last, over two bytes that were left zero.
unfoldable pub encode_pdu_session_est_request_inner : List ℕ → ℕ → ℕ → ℕ → Outcome (List ℕ × ℕ)
encode_pdu_session_est_request_inner buf psi pti pdu_session_type =
    if ltb (length buf) 20 then reject else do
      c ← put (at_start buf) (0x2E ∷ psi ∷ pti ∷ 0xC1 ∷ 0xFF ∷ 0xFF ∷ [])
      c ← put c ((0x90 + pdu_session_type % 16) ∷ 0xA1 ∷ [])
      c ← put c (0x28 ∷ 1 ∷ 0 ∷ 0x7B ∷ [])
      let len_pos = c.pos
      c ← put c (0 ∷ 0 ∷ [])
      let content_start = c.pos
      c ← put c epco_content
      buf ← blit c.buf len_pos (be16 (c.pos - content_start))
      ok (buf, c.pos)

-- The DNN, cut to 100 bytes.
unfoldable pub put_dnn : Cursor → CString → Outcome (List ℕ × ℕ)
put_dnn c dnn =
    if length dnn == 0
    then finish c
    else let dnn_len : ℕ = if ltb 100 (length dnn) then 100 else length dnn in
      if ltb (length c.buf) (c.pos + 3 + dnn_len) then reject else do
        c ← put c (0x25 ∷ ((dnn_len + 1) % 2 ^ 8) ∷ (dnn_len % 2 ^ 8) ∷ [])
        c ← put c (take dnn_len dnn)
        finish c

-- The optional fields behind the container and the session.
unfoldable pub put_optional : Cursor → ℕ → CString → ℕ → Outcome (List ℕ × ℕ)
put_optional c request_type dnn s_nssai_sst = do
  let kind : ℕ = if request_type == 0 then 1 else request_type
  c ← put c ((0x80 + kind % 16) ∷ [])
  c ← if ltb 0 s_nssai_sst then put c (0x22 ∷ 1 ∷ s_nssai_sst ∷ []) else ok c
  put_dnn c dnn

unfoldable pub encode_pdu_session_est_request :
    List ℕ → ℕ → ℕ → ℕ → ℕ → CString → ℕ → Outcome (List ℕ × ℕ)
encode_pdu_session_est_request buf psi pti pdu_session_type request_type dnn s_nssai_sst =
    if ltb (length buf) 32 then reject else do
      inner ← encode_pdu_session_est_request_inner (replicate 128 0) psi pti pdu_session_type
      sm ← read_bytes inner.0 0 inner.1
      c ← put (at_start buf) (0x7E ∷ 0 ∷ 0x67 ∷ 1 ∷ be16 (length sm))
      if ltb (length buf) (c.pos + length sm) then reject else do
        c ← put c sm
        c ← put c (0x12 ∷ psi ∷ [])
        put_optional c request_type dnn s_nssai_sst
