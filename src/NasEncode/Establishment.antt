-- ===== src/NasEncode/Establishment.antt =====
-- The session messages of ue_nas_encode.c, octet by octet.
use virtuallte.Common.{
  ℕ, ◌+◌, ◌%◌, ◌^◌, ◌≤◌, ◌<◌, ◌≡◌, refl, sym, ap, ◌∙◌, true, false, ◌==◌, ltb, if◌then◌else◌, List,
  [], ◌∷◌, ◌++◌, append-nil, append_assoc, length, length-append, take, drop, replicate, Outcome,
  ok, reject, fault, ◌>>=◌, CString, bind_ok, length-take, ltb→lt, ◌⊎◌, le→not-ltb, Bool-cases, inl,
  inr, read_bytes-append, arith,
}
use mathlib.Core.Path.{subst}
use virtuallte.NasEncode.Cursor.{Cursor, at_start, put, finish, be16}
use virtuallte.NasEncode.Session.{
  wrap_sm, encode_pdu_session_est_request_inner, put_dnn, put_optional,
  encode_pdu_session_est_request,
}
use virtuallte.NasEncode.Writes.{
  Written, put-Emits, put_if-Emits, field, last, from_start, at_start-Written, Written-size,
  put-overrun,
}

-- A message in its wrapper: the container type, its length, the message and the session.
abbrev pub wrapped : ℕ → List ℕ → List ℕ
wrapped psi sm = (0x7E ∷ 0 ∷ 0x67 ∷ 1 ∷ be16 (length sm)) ++ (sm ++ (0x12 ∷ psi ∷ []))

pub wrap_sm_lem :
    (buf : List ℕ) (psi : ℕ) (sm : List ℕ)
    → 16 ≤ length buf
    → length sm ≤ 8
    → wrap_sm buf psi sm ≡ ok (wrapped psi sm ++ drop (8 + length sm) buf, 8 + length sm)
unfolding wrap_sm
wrap_sm_lem buf psi sm room small =
    let size = length-append {A = ℕ} sm (0x12 ∷ psi ∷ []) in
    let whole : length (wrapped psi sm) ≡ 8 + length sm = omega (arith, size) in
    rw (le→not-ltb (length buf) 16 room) (
      from_start _ (wrapped psi sm) buf
        (field (0x7E ∷ 0 ∷ 0x67 ∷ 1 ∷ be16 (length sm)) _ _
          (field sm _ _ (field (0x12 ∷ psi ∷ []) _ [] last)))
        (omega arith)
      ∙ ap (λ n. ok (wrapped psi sm ++ drop n buf, n)) whole)

-- The 24 octets of the inner message.
abbrev pub inner_octets : ℕ → ℕ → ℕ → List ℕ
inner_octets psi pti pdu_session_type =
    0x2E
    ∷ psi
    ∷ pti
    ∷ 0xC1
    ∷ 0xFF
    ∷ 0xFF
    ∷ (0x90 + pdu_session_type % 16)
    ∷ 0xA1
    ∷ 0x28
    ∷ 1
    ∷ 0
    ∷ 0x7B
    ∷ 0
    ∷ 10
    ∷ 0x80
    ∷ 0
    ∷ 0x0A
    ∷ 0
    ∷ 0
    ∷ 0x0D
    ∷ 0
    ∷ 0
    ∷ 0x0C
    ∷ 0
    ∷ []

inner_lem :
    (psi pti pdu_session_type : ℕ)
    → encode_pdu_session_est_request_inner (replicate 128 0) psi pti pdu_session_type
      ≡ ok (inner_octets psi pti pdu_session_type ++ replicate 104 0, 24)
unfolding encode_pdu_session_est_request_inner put
inner_lem psi pti pdu_session_type = refl

-- The DNN as one label, cut to 100 octets.
abbrev pub label_size : CString → ℕ
label_size dnn = if ltb 100 (length dnn) then 100 else length dnn

abbrev pub dnn_octets : CString → List ℕ
dnn_octets dnn =
    if length dnn == 0
    then []
    else 0x25
      ∷ ((label_size dnn + 1) % 2 ^ 8)
      ∷ (label_size dnn % 2 ^ 8)
      ∷ take (label_size dnn) dnn

abbrev pub optional_octets : ℕ → CString → ℕ → List ℕ
optional_octets request_type dnn sst =
    (0x80 + (if request_type == 0 then 1 else request_type) % 16)
    ∷ ((if ltb 0 sst then 0x22 ∷ 1 ∷ sst ∷ [] else []) ++ dnn_octets dnn)

-- What stands in front of the optional fields, 32 octets.
abbrev pub container : ℕ → ℕ → ℕ → List ℕ
container psi pti pdu_session_type =
    0x7E ∷ 0 ∷ 0x67 ∷ 1 ∷ 0 ∷ 24 ∷ (inner_octets psi pti pdu_session_type ++ (0x12 ∷ psi ∷ []))

container_lem :
    (buf : List ℕ) (psi pti kind request_type : ℕ) (dnn : CString) (sst : ℕ)
    → 32 ≤ length buf
    → (c : Cursor) × Written buf (container psi pti kind) c
      × (encode_pdu_session_est_request buf psi pti kind request_type dnn sst
          ≡ put_optional c request_type dnn sst)
unfolding encode_pdu_session_est_request
container_lem buf psi pti kind request_type dnn sst room =
    let sm : List ℕ = inner_octets psi pti kind in
    let a =
      put-Emits (0x7E ∷ 0 ∷ 0x67 ∷ 1 ∷ 0 ∷ 24 ∷ []) buf [] (at_start buf) (at_start-Written buf)
        (omega arith) in
    let b = put-Emits sm buf (0x7E ∷ 0 ∷ 0x67 ∷ 1 ∷ 0 ∷ 24 ∷ []) a.0 a.2 (omega arith) in
    let c =
      put-Emits (0x12 ∷ psi ∷ []) buf (0x7E ∷ 0 ∷ 0x67 ∷ 1 ∷ 0 ∷ 24 ∷ sm) b.0 b.2 (omega arith) in
    let pos : a.0.pos ≡ 6 = a.2.position in
    let fits : ltb (length buf) (a.0.pos + 24) ≡ false = le→not-ltb _ _ (omega arith) in
    (
      c.0,
      c.2,
      rw (le→not-ltb (length buf) 32 room, inner_lem psi pti kind)
          (bind_ok _
            (λ sm. put (at_start buf) (0x7E ∷ 0 ∷ 0x67 ∷ 1 ∷ be16 (length sm)) >>= λ c.
              if ltb (length buf) (c.pos + length sm)
              then reject
              else (put c sm >>= λ c.
                  put c (0x12 ∷ psi ∷ []) >>= λ c. put_optional c request_type dnn sst))
            (read_bytes-append [] sm (replicate 104 0) 0 24 refl refl)
            (rw (a.1, fits) (bind_ok _ _ b.1 (bind_ok _ _ c.1 refl)))),
    )

-- A message that is finished, or was refused for want of room.
abbrev Finished : List ℕ → List ℕ → Outcome (List ℕ × ℕ) → Type 0
Finished buf out m =
    ((length out ≤ length buf) × (m ≡ ok (out ++ drop (length out) buf, length out)))
    ⊎ ((length buf < length out) × (m ≡ reject))

finish_lem :
    (buf done : List ℕ) (c : Cursor)
    → Written buf done c
    → finish c ≡ ok (done ++ drop (length done) buf, length done)
finish_lem buf done c w =
    let content : c.buf ≡ done ++ drop (length done) buf = w.content in
    let position : c.pos ≡ length done = w.position in cc

label_fits : (dnn : CString) → label_size dnn ≤ length dnn
label_fits dnn = ground arith

put_dnn_lem :
    (buf done : List ℕ) (c : Cursor) (dnn : CString)
    → Written buf done c
    → length done ≤ length buf
    → Finished buf (done ++ dnn_octets dnn) (put_dnn c dnn)
unfolding put_dnn
put_dnn_lem buf done c [] w fits =
    let whole : done ++ [] ≡ done = append-nil done in
    subst (λ (t : List ℕ). Finished buf t (finish c)) (sym whole)
      (inl (fits, finish_lem buf done c w))
put_dnn_lem buf done c (x ∷ xs) w fits =
    let dnn : CString = x ∷ xs in
    let k : ℕ = label_size dnn in
    let nonempty : (length dnn == 0) ≡ false = ground arith in
    let head : List ℕ = 0x25 ∷ ((k + 1) % 2 ^ 8) ∷ (k % 2 ^ 8) ∷ [] in
    let label : length (take k dnn) ≡ k = length-take k dnn (label_fits dnn) in
    let octets : List ℕ = head ++ take k dnn in
    let named : dnn_octets dnn ≡ octets = rw nonempty refl in
    let size = length-append {A = ℕ} done octets in
    let total : length (done ++ octets) ≡ length done + (3 + k) = omega (arith, size, label) in
    let same = Written-size buf done c w fits in
    subst (λ (t : List ℕ). Finished buf (done ++ t) (put_dnn c dnn)) (sym named)
      (elim (Bool-cases (ltb (length c.buf) (c.pos + 3 + k))) [
        | inl short ↦
            inr
              (omega (arith, ltb→lt _ _ short, total, same, w.position), rw (nonempty, short) refl)
        | inr room ↦
            let fits' : length done + (3 + k) ≤ length buf = ground (arith, same, w.position) in
            let headed = length-append {A = ℕ} done head in
            let a = put-Emits head buf done c w (omega arith) in
            let b =
              put-Emits (take k dnn) buf (done ++ head) a.0 a.2 (omega (arith, headed, label)) in
            let end : Written buf (done ++ octets) b.0 =
              subst (λ (t : List ℕ). Written buf t b.0) (append_assoc done head (take k dnn)) b.2 in
            inl (
              omega (arith, total),
              rw (nonempty, room)
                  (bind_ok _ _ a.1 (bind_ok _ _ b.1 (finish_lem buf (done ++ octets) b.0 end))),
            )
      ])

abbrev pub est_request : ℕ → ℕ → ℕ → ℕ → CString → ℕ → List ℕ
est_request psi pti pdu_session_type request_type dnn sst =
    container psi pti pdu_session_type ++ optional_octets request_type dnn sst

abbrev kind_octet : ℕ → ℕ
kind_octet request_type = 0x80 + (if request_type == 0 then 1 else request_type) % 16

abbrev slice_octets : ℕ → List ℕ
slice_octets sst = if ltb 0 sst then 0x22 ∷ 1 ∷ sst ∷ [] else []

slice_size : (sst : ℕ) → length (slice_octets sst) ≤ 3
slice_size sst = ground arith

-- In a buffer of 36 bytes at least, a session is requested by its container, octet by octet, with the
-- extended protocol options 0x000A, 0x000D and 0x000C in 10 octets, and the optional fields: the kind of request, a slice and the DNN, cut to 100 octets. If the DNN has no
-- room the request is refused; the rest of the buffer is left alone.
pub encode_pdu_session_est_request_lem :
    (buf : List ℕ) (psi pti pdu_session_type request_type : ℕ) (dnn : CString) (sst : ℕ)
    → 36 ≤ length buf
    → (octets : List ℕ) × (octets ≡ est_request psi pti pdu_session_type request_type dnn sst)
      × (((length octets ≤ length buf)
            × (encode_pdu_session_est_request buf psi pti pdu_session_type request_type dnn sst
                ≡ ok (octets ++ drop (length octets) buf, length octets)))
          ⊎ ((length buf < length octets)
              × (encode_pdu_session_est_request buf psi pti pdu_session_type request_type dnn sst
                  ≡ reject)))
encode_pdu_session_est_request_lem buf psi pti pdu_session_type request_type dnn sst room =
    let front : List ℕ = container psi pti pdu_session_type in
    let slice : List ℕ = slice_octets sst in
    let c = container_lem buf psi pti pdu_session_type request_type dnn sst (omega arith) in
    let kind : List ℕ = kind_octet request_type ∷ [] in
    let a = put-Emits kind buf front c.0 c.1 (omega arith) in
    let b =
      put_if-Emits (ltb 0 sst) (0x22 ∷ 1 ∷ sst ∷ []) buf (front ++ kind) a.0 a.2
        (omega (arith, slice_size sst)) in
    let written = length-append {A = ℕ} (front ++ kind) slice in
    let d =
      put_dnn_lem buf ((front ++ kind) ++ slice) b.0 dnn b.2
        (omega (arith, written, slice_size sst)) in
    let steps : put_optional c.0 request_type dnn sst ≡ put_dnn b.0 dnn =
      unfold put_optional in bind_ok _ _ a.1 (bind_ok _ _ b.1 refl) in
    let m = encode_pdu_session_est_request buf psi pti pdu_session_type request_type dnn sst in
    let all : m ≡ put_dnn b.0 dnn = c.2 ∙ steps in
    let whole : ((front ++ kind) ++ slice) ++ dnn_octets dnn
        ≡ est_request psi pti pdu_session_type request_type dnn sst =
      append_assoc (front ++ kind) slice (dnn_octets dnn) in
    let result : Finished buf (est_request psi pti pdu_session_type request_type dnn sst) m =
      subst (Finished buf (est_request psi pti pdu_session_type request_type dnn sst)) (sym all)
        (subst (λ (t : List ℕ). Finished buf t (put_dnn b.0 dnn)) whole d) in
    (est_request psi pti pdu_session_type request_type dnn sst, refl, result)

slice_fault :
    (c : Cursor) (sst : ℕ) (g : Cursor → Outcome (List ℕ × ℕ))
    → ltb 0 sst ≡ true
    → put c (0x22 ∷ 1 ∷ sst ∷ []) ≡ fault
    → ((if ltb 0 sst then put c (0x22 ∷ 1 ∷ sst ∷ []) else ok c) >>= g) ≡ fault
slice_fault c sst g sliced over = rw (sliced, over) refl

-- The encoder only tests for 32 bytes: in a buffer of 32 bytes, or with a slice in one of 33 to 35,
-- it writes past the end.
pub encode_pdu_session_est_request_overrun :
    (buf : List ℕ) (psi pti pdu_session_type request_type : ℕ) (dnn : CString) (sst : ℕ)
    → 32 ≤ length buf
    → length buf < 33 + (if ltb 0 sst then 3 else 0)
    → encode_pdu_session_est_request buf psi pti pdu_session_type request_type dnn sst ≡ fault
encode_pdu_session_est_request_overrun buf psi pti pdu_session_type request_type dnn sst low high =
    let front : List ℕ = container psi pti pdu_session_type in
    let c = container_lem buf psi pti pdu_session_type request_type dnn sst low in
    let kind : List ℕ = kind_octet request_type ∷ [] in
    c.2
    ∙ (unfold put_optional in
        elim (Bool-cases (ltb (length buf) 33)) [
          | inl none_left ↦
              let over =
                put-overrun kind buf front c.0 c.1 (omega arith)
                  (omega (arith, ltb→lt _ _ none_left)) in
              rw over refl
          | inr one_left ↦
              let room : 33 ≤ length buf = ground arith in
              let sliced : ltb 0 sst ≡ true = ground arith in
              let few : length buf < 36 = ground arith in
              let a = put-Emits kind buf front c.0 c.1 (omega arith) in
              let over =
                put-overrun (0x22 ∷ 1 ∷ sst ∷ []) buf (front ++ kind) a.0 a.2 (omega arith)
                  (omega arith) in
              bind_ok _ _ a.1 (slice_fault a.0 sst (λ c. put_dnn c dnn) sliced over)
        ])
