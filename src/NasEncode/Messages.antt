-- ===== src/NasEncode/Messages.antt =====
-- The other 5GMM messages of ue_nas_encode.c stay inside their buffers.
use virtuallte.Common.{
  ℕ, ◌+◌, ◌*◌, ◌%◌, ◌^◌, ◌≤◌, ◌≡◌, refl, ◌⊎◌, inl, inr, Bool, true, false, ◌||◌, ◌==◌, ltb,
  if◌then◌else◌, Option, none, some, List, [], ◌∷◌, ◌++◌, length, length-append, drop, Outcome, ok,
  reject, ◌>>=◌, Bool-cases, arith, ◌∙◌,
}
use virtuallte.NasEncode.Cursor.{Cursor, at_start, put, finish, be16}
use virtuallte.NasEncode.Mobility.{
  mm_header, checked_ngksi, encode_plain, encode_deregistration_request, encode_auth_response,
  encode_auth_failure, encode_security_mode_complete,
}
use virtuallte.NasEncode.Writes.{
  Emits, message, field, last, from_start, Written, put-Emits, at_start-Written,
}

-- A message that is refused, or that is written inside the buffer, the rest of which is left alone.
abbrev pub Fits : List ℕ → Outcome (List ℕ × ℕ) → Type 0
Fits buf m =
    ((octets : List ℕ) × (length octets ≤ length buf)
      × (m ≡ ok (octets ++ drop (length octets) buf, length octets)))
    ⊎ (m ≡ reject)

-- A test for room, and a message that fits where it fails.
Fits-unless :
    (buf out : List ℕ) (test : Bool) (f : Cursor → Outcome (List ℕ × ℕ))
    → Emits message f out
    → (test ≡ false → length out ≤ length buf)
    → Fits buf (if test then reject else f (at_start buf))
Fits-unless buf out true f e room = inr refl
Fits-unless buf out false f e room = inl (out, room refl, from_start f out buf e (room refl))

-- A message of a header, octets with a length, and bytes.
three-Emits :
    (xs ys zs : List ℕ)
    → Emits message
        (λ c. put c xs >>= λ c. put c ys >>= λ c. put c zs >>= finish)
        (xs ++ (ys ++ (zs ++ [])))
three-Emits xs ys zs = field xs _ _ (field ys _ _ (field zs _ _ last))

encode_auth_response-Fits : (buf res : List ℕ) → Fits buf (encode_auth_response buf res)
unfolding encode_auth_response
encode_auth_response-Fits buf res = elim (Bool-cases (length res == 0 || ltb 32 (length res))) [
  | inl wrong ↦ inr (rw wrong refl)
  | inr sized ↦
      let head : List ℕ = 0x2D ∷ (length res % 2 ^ 8) ∷ [] in
      rw sized (
        Fits-unless buf (mm_header 0x57 ++ (head ++ (res ++ [])))
          (ltb (length buf) (5 + length res)) _ (three-Emits (mm_header 0x57) head res)
          (λ e. ground (arith, length-append res [])))
]

encode_deregistration_request-Fits :
    (buf : List ℕ) (switch_off : Bool) (guti : List ℕ) (ngksi : ℕ)
    → Fits buf (encode_deregistration_request buf switch_off guti ngksi)
unfolding encode_deregistration_request
encode_deregistration_request-Fits buf switch_off guti ngksi =
    elim (Bool-cases (length guti == 0)) [
      | inl empty ↦ inr (rw empty refl)
      | inr named ↦
          let kind : List ℕ =
            (checked_ngksi ngksi % 8 * 16 + ((if switch_off then 8 else 0) + 1)) ∷ [] in
          rw named (
            Fits-unless buf (mm_header 0x45 ++ (kind ++ (be16 (length guti) ++ (guti ++ []))))
              (ltb (length buf) (6 + length guti)) _
              (field (mm_header 0x45) _ _ (three-Emits kind (be16 (length guti)) guti))
              (λ e. ground (arith, length-append guti [])))
    ]

encode_plain-Fits : (msg_type : ℕ) (buf : List ℕ) → Fits buf (encode_plain msg_type buf)
unfolding encode_plain
encode_plain-Fits msg_type buf =
    Fits-unless buf (mm_header msg_type ++ []) (ltb (length buf) 3) _
      (field (mm_header msg_type) _ _ last) (λ e. ground arith)

-- An optional field behind what is written, with a test for its room.
optional-Fits :
    (buf done : List ℕ) (c : Cursor) (k : ℕ) (head bytes : List ℕ)
    → Written buf done c
    → length done ≤ length buf
    → length head ≡ k
    → Fits buf (
        if length bytes == 0
        then finish c
        else if ltb (length buf) (c.pos + k + length bytes)
        then reject
        else (put c head >>= λ c. put c bytes >>= finish))
optional-Fits buf done c k head bytes w fits e = elim (Bool-cases (length bytes == 0)) [
  | inl absent ↦
      let content : c.buf ≡ done ++ drop (length done) buf = w.content in
      let position : c.pos ≡ length done = w.position in inl (done, fits, rw absent (cc))
  | inr present ↦ elim (Bool-cases (ltb (length buf) (c.pos + k + length bytes))) [
    | inl short ↦ inr (rw (present, short) refl)
    | inr long ↦
        let out : List ℕ = head ++ (bytes ++ []) in
        let whole = length-append {A = ℕ} head (bytes ++ []) in
        let sized = length-append {A = ℕ} bytes [] in
        let all = length-append {A = ℕ} done out in
        let room : c.pos + k + length bytes ≤ length buf = ground arith in
        let a =
          field head _ _ (field bytes finish [] last) buf done c w
            (omega (arith, whole, sized, w.position)) in
        let content : a.0.buf ≡ (done ++ out) ++ drop (length (done ++ out)) buf = a.2.content in
        let position : a.0.pos ≡ length (done ++ out) = a.2.position in
        inl (
          done ++ out,
          omega (arith, whole, sized, all, w.position),
          rw (present, long) (a.1 ∙ (cc)),
        )
  ]
]

encode_auth_failure-Fits :
    (buf : List ℕ) (cause : ℕ) (auts : List ℕ) → Fits buf (encode_auth_failure buf cause auts)
unfolding encode_auth_failure
encode_auth_failure-Fits buf cause auts = elim (Bool-cases (ltb (length buf) 4)) [
  | inl short ↦ inr (rw short refl)
  | inr long ↦
      let room : 4 ≤ length buf = ground arith in
      let a =
        put-Emits (mm_header 0x59) buf [] (at_start buf) (at_start-Written buf) (omega arith) in
      let b = put-Emits (cause ∷ []) buf (mm_header 0x59) a.0 a.2 (omega arith) in
      rw (long, a.1)
        (at_failure a.0 b.0 b.1 (
          optional-Fits buf (mm_header 0x59 ++ (cause ∷ [])) b.0 2
            (0x30 ∷ (length auts % 2 ^ 8) ∷ []) auts b.2 (omega arith) refl))
]
  where
    at_failure :
        (c c' : Cursor)
        → put c (cause ∷ []) ≡ ok c'
        → Fits buf (
            if length auts == 0
            then finish c'
            else if ltb (length buf) (c'.pos + 2 + length auts)
            then reject
            else (put c' (0x30 ∷ (length auts % 2 ^ 8) ∷ []) >>= λ c. put c auts >>= finish))
        → Fits buf (
            put c (cause ∷ []) >>= λ c.
            if length auts == 0
            then finish c
            else if ltb (length buf) (c.pos + 2 + length auts)
            then reject
            else (put c (0x30 ∷ (length auts % 2 ^ 8) ∷ []) >>= λ c. put c auts >>= finish))
    at_failure c c' e f = rw e f

encode_security_mode_complete-Fits :
    (buf : List ℕ) (container : Option (List ℕ))
    → Fits buf (encode_security_mode_complete buf container)
unfolding encode_security_mode_complete
encode_security_mode_complete-Fits buf container =
    let bytes : List ℕ = elim container [ none ↦ [] | some b ↦ b ] in
    let wanted : ℕ = elim container [ none ↦ 0 | some b ↦ 3 + length b ] in
    elim (Bool-cases (ltb (length buf) (3 + wanted))) [
      | inl short ↦ inr (rw short refl)
      | inr long ↦
          let room : 3 + wanted ≤ length buf = ground arith in
          let a =
            put-Emits (mm_header 0x5E) buf [] (at_start buf) (at_start-Written buf) (omega arith) in
          rw (long, a.1)
            (optional-Fits buf (mm_header 0x5E) a.0 3 (0x71 ∷ be16 (length bytes)) bytes a.2
              (omega arith) refl)
    ]

-- Whatever its arguments are, a plain message, a deregistration request, an authentication response or
-- failure, and a security mode complete message are either refused or written inside the buffer, from
-- its start on, with the length that is returned; the bytes behind that length are kept.
pub mm_messages-Fits :
    (buf : List ℕ) (msg_type : ℕ) (switch_off : Bool) (guti : List ℕ) (ngksi : ℕ) (res : List ℕ)
    (cause : ℕ) (auts : List ℕ) (container : Option (List ℕ))
    → Fits buf (encode_plain msg_type buf)
      × Fits buf (encode_deregistration_request buf switch_off guti ngksi)
      × Fits buf (encode_auth_response buf res)
      × Fits buf (encode_auth_failure buf cause auts)
      × Fits buf (encode_security_mode_complete buf container)
mm_messages-Fits buf msg_type switch_off guti ngksi res cause auts container = (
  encode_plain-Fits msg_type buf,
  encode_deregistration_request-Fits buf switch_off guti ngksi,
  encode_auth_response-Fits buf res,
  encode_auth_failure-Fits buf cause auts,
  encode_security_mode_complete-Fits buf container,
)
