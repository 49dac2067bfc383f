-- ===== src/Rrc/Encode.antt =====
-- What the encoders of ue_rrc.c write, as bit strings in the notation of the standard.
use virtuallte.Common.{
  ℕ, ◌+◌, ◌-◌, ◌*◌, ◌/◌, ◌%◌, ◌^◌, ◌≤◌, ◌<◌, ◌≡◌, ap, ◌∙◌, ◌⊎◌, inl, inr, true, false, ◌||◌, ◌==◌,
  ltb, if◌then◌else◌, bit_or, List, [], ◌∷◌, ◌++◌, length, replicate, Outcome, ok, reject, ◌>>=◌,
  length-replicate, lt→ltb, Bool-cases, arith,
}
use virtuallte.Rrc.Stream.{BitStream, bw_init, put_bits, put_bytes, put_length, byte_len}
use virtuallte.Rrc.Messages.{encode_ul_info_transfer, encode_setup_request, encode_setup_complete}
use virtuallte.Rrc.BitString.{to_bits, bits_of, bit_or_length}
use virtuallte.Rrc.Writer.{
  Writes, Writes-bind, put_bits-Writes, put_bytes-Writes, bw_init-Holds, Yields, Yields-last,
}

-- A length: 0 and 7 bits below 128, else 10 and 14 bits.
abbrev pub length_bits : ℕ → List ℕ
length_bits len = if ltb len 128 then to_bits 8 len else to_bits 16 (32768 + len)

-- An octet string behind its length.
abbrev pub octet_string : List ℕ → List ℕ
octet_string bytes = length_bits (length bytes) ++ bits_of bytes

put_length-Writes : (len : ℕ) → len < 16384 → Writes (λ w. put_length w len) (length_bits len)
unfolding put_length
put_length-Writes len h = elim (Bool-cases (ltb len 128)) [
  | inl short ↦ rw short (put_bits-Writes len 8 (omega arith) (omega arith))
  | inr long ↦
      let small : ltb len 16384 ≡ true = lt→ltb _ _ h in
      let mask : bit_or 32768 len ≡ 32768 + len = bit_or_length len h in
      rw (long, small, mask) (put_bits-Writes (32768 + len) 16 (omega arith) (omega arith))
]

abbrev finished : BitStream → List ℕ × ℕ
finished w = (w.buf, byte_len w)

-- The octet string that ends a message.
last_octets :
    (bytes : List ℕ)
    → length bytes ≤ 8192
    → Yields finished
        (λ w. put_length w (length bytes) >>= λ w. put_bytes w bytes >>= λ w. ok (finished w))
        (octet_string bytes)
last_octets bytes h =
    Writes-bind finished (λ w. put_length w (length bytes))
      (λ w. put_bytes w bytes >>= λ w. ok (finished w)) (length_bits (length bytes)) (bits_of bytes)
      (put_length-Writes (length bytes) (omega arith))
      (Yields-last finished (λ w. put_bytes w bytes) (bits_of bytes) (put_bytes-Writes bytes))

-- An encoder wrote the bits `out`, filled up with zeros, at the start of its buffer and gives the
-- number of bytes that they take; or the buffer is too short for them.
abbrev pub Encodes : Outcome (List ℕ × ℕ) → List ℕ → List ℕ → Type 0
Encodes m buf out =
    ((length out ≤ 8 * length buf)
      × (bytes : List ℕ) × (m ≡ ok (bytes, (length out + 7) / 8))
      × (length bytes ≡ length buf)
      × (bits_of bytes ≡ out ++ replicate (8 * length buf - length out) 0))
    ⊎ ((8 * length buf < length out) × (m ≡ reject))

from_start :
    (f : BitStream → Outcome (List ℕ × ℕ)) (out buf : List ℕ)
    → Yields finished f out
    → Encodes (f (bw_init buf)) buf out
unfolding bw_init
from_start f out buf y =
    let size = length-replicate {A = ℕ} (length buf) 0 in
    elim (y (bw_init buf) [] (bw_init-Holds buf)) [
      | inl (room, w, e, a) ↦
          let same : length w.buf ≡ length buf = a.same_size ∙ size in
          inl (
            omega (arith, size),
            w.buf,
            e ∙ ap (λ n. ok (w.buf, (n + 7) / 8)) a.holds.position,
            same,
            a.holds.content ∙ ap (λ n. out ++ replicate (8 * n - length out) 0) same,
          )
      | inr (full, e) ↦ inr (omega (arith, size), e)
    ]

-- One field of a message, and the rest of the message.
field :
    (v n : ℕ) (g : BitStream → Outcome (List ℕ × ℕ)) (out : List ℕ)
    → 0 < n
    → n ≤ 64
    → Yields finished g out
    → Yields finished (λ w. put_bits w v n >>= g) (to_bits n v ++ out)
field v n g out some small y =
    Writes-bind finished (λ w. put_bits w v n) g (to_bits n v) out (put_bits-Writes v n some small)
      y

-- ULInformationTransfer: index 7 of the class c1, its NAS message present, two other fields absent.
abbrev pub ul_info_transfer_bits : List ℕ → List ℕ
ul_info_transfer_bits nas = 0 ∷ 0 ∷ 1 ∷ 1 ∷ 1 ∷ 0 ∷ 1 ∷ 0 ∷ 0 ∷ octet_string nas

-- A NAS message of 1 to 8192 bytes becomes a ULInformationTransfer in unaligned packed encoding, if
-- the buffer holds it: the message class, its index and the bitmap of optional fields, then the
-- length and the bytes; the rest of the buffer is zero, and the result is the number of bytes
-- taken. If the buffer is too short for the bits, the encoder fails.
pub encode_ul_info_transfer-Encodes :
    (buf nas_pdu : List ℕ)
    → 0 < length nas_pdu
    → length nas_pdu ≤ 8192
    → Encodes (encode_ul_info_transfer buf nas_pdu) buf (ul_info_transfer_bits nas_pdu)
unfolding encode_ul_info_transfer
encode_ul_info_transfer-Encodes buf nas_pdu some small =
    let fits : (length nas_pdu == 0 || ltb 8192 (length nas_pdu)) ≡ false = ground arith in
    let message : Yields finished _ (ul_info_transfer_bits nas_pdu) =
      field 0 1 _ _ (omega arith) (omega arith) (
        field 7 4 _ _ (omega arith) (omega arith) (
          field 0 1 _ _ (omega arith) (omega arith)
            (field 4 3 _ _ (omega arith) (omega arith) (last_octets nas_pdu small)))) in
    rw fits (from_start _ (ul_info_transfer_bits nas_pdu) buf message)

-- RRCSetupRequest: index 0, a random identity, the cause and a spare bit.
abbrev pub setup_request_bits : ℕ → ℕ → List ℕ
setup_request_bits ue_identity cause =
    0 ∷ 0 ∷ 0 ∷ 1 ∷ (to_bits 39 (ue_identity % 2 ^ 39) ++ (to_bits 4 (cause % 16) ++ (0 ∷ [])))

-- An RRCSetupRequest is 48 bits: its choices, the lowest 39 bits of the identity, the lowest 4 of the
-- cause and a spare bit; a buffer of less than 6 bytes is refused.
pub encode_setup_request-Encodes :
    (buf : List ℕ) (ue_identity cause : ℕ)
    → Encodes
        (encode_setup_request buf ue_identity cause)
        buf
        (setup_request_bits ue_identity cause)
unfolding encode_setup_request
encode_setup_request-Encodes buf ue_identity cause =
    from_start _ (setup_request_bits ue_identity cause) buf (
      field 0 1 _ _ (omega arith) (omega arith) (
        field 0 2 _ _ (omega arith) (omega arith) (
          field 1 1 _ _ (omega arith) (omega arith) (
            field (ue_identity % 2 ^ 39) 39 _ _ (omega arith) (omega arith) (
              field (cause % 16) 4 _ _ (omega arith) (omega arith) (
                Yields-last finished (λ w. put_bits w 0 1) (to_bits 1 0)
                  (put_bits-Writes 0 1 (omega arith) (omega arith))))))))

-- RRCSetupComplete: index 2, the transaction, six absent fields, the PLMN counted from 0.
abbrev pub setup_complete_bits : ℕ → ℕ → List ℕ → List ℕ
setup_complete_bits tx plmn nas =
    0
    ∷ 0
    ∷ 0
    ∷ 1
    ∷ 0
    ∷ (to_bits 2 (tx % 4)
        ++ (0 ∷ 0 ∷ 0 ∷ 0 ∷ 0 ∷ 0 ∷ 0 ∷ (to_bits 4 (plmn - 1) ++ octet_string nas)))

-- With a PLMN index of 1 to 12 and a NAS message of 1 to 8192 bytes, an RRCSetupComplete has the
-- transaction, the index less 1 and the message in their places, or the buffer is too short and the
-- encoder fails.
pub encode_setup_complete-Encodes :
    (buf : List ℕ) (tx plmn : ℕ) (nas_pdu : List ℕ)
    → 0 < length nas_pdu
    → length nas_pdu ≤ 8192
    → 1 ≤ plmn
    → plmn ≤ 12
    → Encodes (encode_setup_complete buf tx plmn nas_pdu) buf (setup_complete_bits tx plmn nas_pdu)
unfolding encode_setup_complete
encode_setup_complete-Encodes buf tx plmn nas_pdu some small low high =
    let fits : (length nas_pdu == 0 || ltb 8192 (length nas_pdu)) ≡ false = ground arith in
    let index : (ltb plmn 1 || ltb 12 plmn) ≡ false = ground arith in
    let message : Yields finished _ (setup_complete_bits tx plmn nas_pdu) =
      field 0 1 _ _ (omega arith) (omega arith) (
        field 2 4 _ _ (omega arith) (omega arith) (
          field (tx % 4) 2 _ _ (omega arith) (omega arith) (
            field 0 1 _ _ (omega arith) (omega arith) (
              field 0 6 _ _ (omega arith) (omega arith) (
                field (plmn - 1) 4 _ _ (omega arith) (omega arith)
                  (last_octets nas_pdu small)))))) in
    rw (fits, index) (from_start _ (setup_complete_bits tx plmn nas_pdu) buf message)
