-- ===== src/Rls/RoundTrip.antt =====
-- What the encoders of ue_rls.c write, the decoder reads back.
use virtuallte.Common.{
  ℕ, suc, ◌+◌, ◌%◌, ◌^◌, ◌≤◌, ◌≡◌, refl, List, [], ◌∷◌, ◌++◌, length, ok, arith, IsU32, IsU64, drop,
  blit_next, bind_ok, le→not-ltb, if◌then◌else◌, not, ◌==◌, ltb, ◌&&◌, ◌>>=◌, read_bytes,
  append-nil, read_bytes_all, true, blit, read_bytes-append,
}
use virtuallte.Rls.{
  PduType, pdu_type_code, Message, be32, encode_heartbeat, encode_pdu_transmission,
  decode_heartbeat, decode_pdu_transmission, decode_body, decode,
}
use virtuallte.Rls.Wire.{header, put_be32_next, get_be32-append, write_header_lem, decode-header}

abbrev heartbeat_bytes : ℕ → ℕ → ℕ → ℕ → List ℕ
heartbeat_bytes sti x y z = header 4 sti ++ (be32 x ++ (be32 y ++ be32 z))

encode_heartbeat_lem :
    (buf : List ℕ) (sti x y z : ℕ)
    → 25 ≤ length buf
    → encode_heartbeat buf sti x y z ≡ ok (heartbeat_bytes sti x y z ++ drop 25 buf, 25)
unfolding encode_heartbeat
encode_heartbeat_lem buf sti x y z h = rw (le→not-ltb (length buf) 25 h) (
    bind_ok _ _ (write_header_lem buf 4 sti (omega arith)) (
      bind_ok _ _ (put_be32_next (header 4 sti) buf 13 13 x refl (omega arith)) (
        bind_ok _ _ (put_be32_next (header 4 sti ++ be32 x) buf 17 17 y refl (omega arith)) (
          bind_ok _ _
            (put_be32_next (header 4 sti ++ (be32 x ++ be32 y)) buf 21 21 z refl (omega arith))
            refl))))

decode-heartbeat_bytes :
    (sti x y z : ℕ)
    → IsU64 sti
    → IsU32 x
    → IsU32 y
    → IsU32 z
    → decode (heartbeat_bytes sti x y z) ≡ ok (Message.heartbeat sti x y z)
unfolding decode_body decode_heartbeat
decode-heartbeat_bytes sti x y z hs hx hy hz = ground (
  arith,
  decode-header 4 sti (be32 x ++ (be32 y ++ be32 z)),
  get_be32-append (header 4 sti) (be32 y ++ be32 z) 13 x,
  get_be32-append (header 4 sti ++ be32 x) (be32 z) 17 y,
  get_be32-append (header 4 sti ++ (be32 x ++ be32 y)) [] 21 z,
)

-- A heartbeat takes the first 25 bytes of the buffer and leaves the others; those bytes decode to
-- the heartbeat that was encoded.
pub decode-encode_heartbeat :
    (buf : List ℕ) (sti x y z : ℕ)
    → 25 ≤ length buf
    → IsU64 sti
    → IsU32 x
    → IsU32 y
    → IsU32 z
    → (bytes : List ℕ) × (encode_heartbeat buf sti x y z ≡ ok (bytes ++ drop 25 buf, 25))
      × (length bytes ≡ 25)
      × (decode bytes ≡ ok (Message.heartbeat sti x y z))
decode-encode_heartbeat buf sti x y z h hs hx hy hz = (
  heartbeat_bytes sti x y z,
  encode_heartbeat_lem buf sti x y z h,
  refl,
  decode-heartbeat_bytes sti x y z hs hx hy hz,
)

-- The 26 bytes in front of the payload.
abbrev pdu_head : ℕ → PduType → ℕ → ℕ → ℕ → List ℕ
pdu_head sti t pdu_id payload pdu_len =
    header 6 sti ++ (pdu_type_code t ∷ (be32 pdu_id ++ (be32 payload ++ be32 pdu_len)))

not_empty : (n : ℕ) → (not (suc n == 0) && ltb 0 (suc n)) ≡ true
not_empty n = ground arith

module _ (buf : List ℕ) (sti : ℕ) (t : PduType) (pdu_id payload : ℕ) where
  abbrev pdu_bytes : List ℕ → List ℕ
  pdu_bytes pdu = pdu_head sti t pdu_id payload (length pdu) ++ pdu

  copy_pdu :
      (pdu : List ℕ) (head : List ℕ)
      → 26 ≡ length head
      → 26 + length pdu ≤ length buf
      → (if not (length pdu == 0) && ltb 0 (length pdu)
          then (do bytes ← read_bytes pdu 0 (length pdu); blit (head ++ drop 26 buf) 26 bytes)
          else ok (head ++ drop 26 buf))
        ≡ ok (head ++ (pdu ++ drop (26 + length pdu) buf))
  copy_pdu [] head e h = refl
  copy_pdu (x ∷ xs) head e h = rw (not_empty (length xs)) (
      bind_ok _ (λ bytes. blit (head ++ drop 26 buf) 26 bytes) (read_bytes_all (x ∷ xs))
        (blit_next head buf (x ∷ xs) 26 26 e h))

  encode_pdu_transmission_lem :
      (pdu : List ℕ)
      → 26 + length pdu ≤ length buf
      → length pdu ≤ 16384
      → encode_pdu_transmission buf sti t pdu_id payload pdu (length pdu)
        ≡ ok (pdu_bytes pdu ++ drop (26 + length pdu) buf, 26 + length pdu)
  unfolding encode_pdu_transmission
  encode_pdu_transmission_lem pdu h k =
      let n = length pdu in
      let total : (13 + 1 + 4 + 4 + 4 + n) % 2 ^ 32 ≡ 26 + n = omega arith in
      rw (total, le→not-ltb (length buf) (26 + n) h, le→not-ltb 16384 n k)
        (bind_ok _ _ (write_header_lem buf 6 sti (omega arith)) (
          bind_ok _ _ (blit_next (header 6 sti) buf (pdu_type_code t ∷ []) 13 13 refl (omega arith))
            (bind_ok _ _
              (put_be32_next (header 6 sti ++ (pdu_type_code t ∷ [])) buf 14 14 pdu_id refl
                (omega arith))
              (bind_ok _ _
                (put_be32_next (header 6 sti ++ (pdu_type_code t ∷ be32 pdu_id)) buf 18 18 payload
                  refl (omega arith))
                (bind_ok _ _
                  (put_be32_next (header 6 sti ++ (pdu_type_code t ∷ (be32 pdu_id ++ be32 payload)))
                    buf 22 22 n refl (omega arith))
                  (bind_ok _ _ (copy_pdu pdu (pdu_head sti t pdu_id payload n) refl h) refl))))))

  decode-pdu_bytes :
      (pdu : List ℕ)
      → length pdu ≤ 16384
      → IsU64 sti
      → IsU32 pdu_id
      → IsU32 payload
      → decode (pdu_bytes pdu) ≡ ok (Message.pdu_transmission sti t pdu_id payload pdu)
  unfolding decode_body decode_pdu_transmission
  decode-pdu_bytes pdu h hs hi hp = ground (
    arith,
    decode-header 6 sti
        (pdu_type_code t ∷ (be32 pdu_id ++ (be32 payload ++ (be32 (length pdu) ++ pdu)))),
    get_be32-append (header 6 sti ++ (pdu_type_code t ∷ []))
        (be32 payload ++ (be32 (length pdu) ++ pdu)) 14 pdu_id,
    get_be32-append (header 6 sti ++ (pdu_type_code t ∷ be32 pdu_id)) (be32 (length pdu) ++ pdu) 18
        payload,
    get_be32-append (header 6 sti ++ (pdu_type_code t ∷ (be32 pdu_id ++ be32 payload))) pdu 22
        (length pdu),
    read_bytes-append (pdu_head sti t pdu_id payload (length pdu)) pdu [] 26 (length pdu),
    append-nil pdu,
  )

-- With room for it and at most 16384 bytes of payload, a PDU transmission takes the first
-- 26 + `length pdu` bytes of the buffer and leaves the others; those bytes decode to the type, the
-- numbers and the payload that were encoded.
pub decode-encode_pdu_transmission :
    (buf : List ℕ) (sti : ℕ) (t : PduType) (pdu_id payload : ℕ) (pdu : List ℕ)
    → 26 + length pdu ≤ length buf
    → length pdu ≤ 16384
    → IsU64 sti
    → IsU32 pdu_id
    → IsU32 payload
    → (bytes : List ℕ) × (encode_pdu_transmission buf sti t pdu_id payload pdu (length pdu)
        ≡ ok (bytes ++ drop (26 + length pdu) buf, 26 + length pdu))
      × (length bytes ≡ 26 + length pdu)
      × (decode bytes ≡ ok (Message.pdu_transmission sti t pdu_id payload pdu))
decode-encode_pdu_transmission buf sti t pdu_id payload pdu room small hs hi hp = (
  pdu_bytes buf sti t pdu_id payload pdu,
  encode_pdu_transmission_lem buf sti t pdu_id payload pdu room small,
  omega arith,
  decode-pdu_bytes buf sti t pdu_id payload pdu small hs hi hp,
)
