-- ===== src/NasEncode/Registration.antt =====
-- The registration request and the other 5GMM messages of ue_nas_encode.c, octet by octet.
use virtuallte.Common.{
  ℕ, ◌+◌, ◌*◌, ◌%◌, ◌≤◌, ◌<◌, ◌≡◌, refl, ap, leb, ◌/◌, Bool, true, false, not, ◌||◌, ltb, ltb→lt,
  ◌⊎◌, if◌then◌else◌, List, [], ◌∷◌, ◌++◌, length, length-append, drop, ok, reject, CString,
  bind_ok, Bool-cases, inl, inr, arith,
}
use virtuallte.NasEncode.Mobility.{
  mobile_identity, checked_ngksi, write_registration_request, encode_registration_request,
}
use virtuallte.NasEncode.Writes.{field, field_if, last, from_start}

-- The octets of a registration request.
abbrev pub registration_request : List ℕ → ℕ → ℕ → ℕ → Bool → List ℕ
registration_request mid sst reg_type ngksi initial_cleartext =
    (0x7E ∷ 0 ∷ 0x41 ∷ [])
    ++ (((ngksi % 8 * 16 + (8 + reg_type % 8)) ∷ [])
        ++ ((length mid / 256 % 256 ∷ length mid % 256 ∷ [])
            ++ (mid
                ++ ((if not initial_cleartext then 0x10 ∷ 1 ∷ 0 ∷ [] else [])
                    ++ ((0x2E ∷ 2 ∷ 0xA0 ∷ 0xA0 ∷ [])
                        ++ ((if ltb 0 sst then 0x2F ∷ 2 ∷ 1 ∷ sst ∷ [] else [])
                            ++ ((if not initial_cleartext then 0x53 ∷ 1 ∷ 0 ∷ [] else [])
                                ++ [])))))))

write_registration_request_lem :
    (buf mid : List ℕ) (sst reg_type ngksi : ℕ) (initial_cleartext : Bool)
    → length (registration_request mid sst reg_type ngksi initial_cleartext) ≤ length buf
    → write_registration_request buf mid sst reg_type ngksi initial_cleartext
      ≡ ok (
        registration_request mid sst reg_type ngksi initial_cleartext
            ++ drop (length (registration_request mid sst reg_type ngksi initial_cleartext)) buf,
        length (registration_request mid sst reg_type ngksi initial_cleartext),
      )
unfolding write_registration_request
write_registration_request_lem buf mid sst reg_type ngksi initial room =
    let rest : Bool = not initial in
    from_start _ (registration_request mid sst reg_type ngksi initial) buf
      (field _ _ _ (
        field _ _ _ (
          field _ _ _ (
            field _ _ _ (
              field_if rest (0x10 ∷ 1 ∷ 0 ∷ []) _ _ (
                field _ _ _ (
                  field_if (ltb 0 sst) (0x2F ∷ 2 ∷ 1 ∷ sst ∷ []) _ _
                    (field_if rest (0x53 ∷ 1 ∷ 0 ∷ []) _ _ last))))))))
      room

optional_size : (b : Bool) (xs : List ℕ) → length (if b then xs else []) ≤ length xs
optional_size true xs = omega arith
optional_size false xs = omega arith

request_size :
    (mid : List ℕ) (sst reg_type ngksi : ℕ) (initial : Bool)
    → length (registration_request mid sst reg_type ngksi initial) ≤ 20 + length mid
request_size mid sst reg_type ngksi initial =
    let rest : Bool = not initial in
    let tail : List ℕ = (if rest then 0x53 ∷ 1 ∷ 0 ∷ [] else []) ++ [] in
    let nssai : List ℕ = if ltb 0 sst then 0x2F ∷ 2 ∷ 1 ∷ sst ∷ [] else [] in
    let capability : List ℕ = if rest then 0x10 ∷ 1 ∷ 0 ∷ [] else [] in
    let security : List ℕ = 0x2E ∷ 2 ∷ 0xA0 ∷ 0xA0 ∷ (nssai ++ tail) in
    omega (
      arith,
      length-append {A = ℕ} mid (capability ++ security),
      length-append {A = ℕ} capability security,
      length-append {A = ℕ} nssai tail,
      length-append {A = ℕ} (if rest then 0x53 ∷ 1 ∷ 0 ∷ [] else []) [],
      optional_size rest (0x53 ∷ 1 ∷ 0 ∷ []),
      optional_size rest (0x10 ∷ 1 ∷ 0 ∷ []),
      optional_size (ltb 0 sst) (0x2F ∷ 2 ∷ 1 ∷ sst ∷ []),
    )

-- The types that are not 1, 2 or 3 count as 1.
abbrev pub checked_type : ℕ → ℕ
checked_type reg_type = if ltb reg_type 1 || ltb 3 reg_type then 1 else reg_type

-- The key set identifiers above 7 count as 7, which stands for none.
abbrev pub key_set : ℕ → ℕ
key_set ngksi = if leb ngksi 7 then ngksi else 7

same_key_set : (ngksi : ℕ) → checked_ngksi ngksi ≡ key_set ngksi
same_key_set ngksi = ground arith

-- With the mobile identity `mid`, a buffer of 20 bytes more gets the registration request, octet by
-- octet, with the optional fields that belong in it, and keeps its other bytes; a shorter buffer is
-- refused. A type that is not from 1 to 3 is sent as 1, and a key set identifier above 7 as 7.
pub encode_registration_request_lem :
    (buf : List ℕ) (imsi mcc mnc : CString) (sst reg_type : ℕ) (guti : List ℕ) (ngksi : ℕ)
    (initial : Bool) (mid : List ℕ)
    → mobile_identity imsi mcc mnc guti ≡ ok mid
    → (request : List ℕ) × (request
        ≡ registration_request mid sst (checked_type reg_type) (key_set ngksi) initial)
      × (((20 + length mid ≤ length buf)
            × (encode_registration_request buf imsi mcc mnc sst reg_type guti ngksi initial
                ≡ ok (request ++ drop (length request) buf, length request)))
          ⊎ ((length buf < 20 + length mid)
              × (encode_registration_request buf imsi mcc mnc sst reg_type guti ngksi initial
                  ≡ reject)))
unfolding encode_registration_request
encode_registration_request_lem buf imsi mcc mnc sst reg_type guti ngksi initial mid known =
    let kind : ℕ = checked_type reg_type in
    let key : ℕ = checked_ngksi ngksi in
    (
      registration_request mid sst kind key initial,
      ap (λ k. registration_request mid sst kind k initial) (same_key_set ngksi),
      elim (Bool-cases (ltb (length buf) (20 + length mid))) [
        | inl short ↦ inr (ltb→lt _ _ short, bind_ok _ _ known (rw short refl))
        | inr long ↦
            let room : 20 + length mid ≤ length buf = ground arith in
            inl (
              room,
              bind_ok _ _ known (
                  rw long (
                    write_registration_request_lem buf mid sst kind key initial
                      (omega (arith, request_size mid sst kind key initial)))),
            )
      ],
    )
