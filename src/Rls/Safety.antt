-- ===== src/Rls/Safety.antt =====
-- No input makes the decoder of ue_rls.c read outside its buffer.
use virtuallte.Common.{
  ℕ, zero, suc, ◌+◌, ◌-◌, ◌*◌, ◌^◌, ◌≤◌, ◌≡◌, ◌≢◌, List, length, ok, fault, read_ok, arith,
  read_bytes_ok, get_or, Bool-cases, inl, inr, ltb,
}
use virtuallte.Rls.{
  get_be32, get_be64, get_ids, decode_heartbeat, decode_heartbeat_ack, decode_pdu_transmission,
  decode_pdu_transmission_ack, decode_body, decode,
}

pub get_be32-ok : (p : List ℕ) (off : ℕ) → off + 4 ≤ length p → (v : ℕ) × (get_be32 p off ≡ ok v)
unfolding get_be32
get_be32-ok p off h =
    let at = λ (i : ℕ). get_or p (off + i) 0 in
    (
      get_or p off 0 * 2 ^ 24 + at 1 * 2 ^ 16 + at 2 * 2 ^ 8 + at 3,
      ground (arith, read_ok p off, read_ok p (off + 1), read_ok p (off + 2), read_ok p (off + 3)),
    )

get_ids-ne-fault : (n i : ℕ) (p : List ℕ) → 17 + (i + n) * 4 ≤ length p → get_ids n i p ≢ fault
unfolding get_ids
get_ids-ne-fault zero i p h = ground arith
get_ids-ne-fault (suc n) i p h =
    let (v, e) = get_be32-ok p (17 + i * 4) (omega arith) in
    ground (arith, e, get_ids-ne-fault n (i + 1) p)

decode_heartbeat-ne-fault : (p : List ℕ) (sti : ℕ) → decode_heartbeat p sti ≢ fault
unfolding decode_heartbeat
decode_heartbeat-ne-fault p sti =
    ground (arith, get_be32-ok p 13, get_be32-ok p 17, get_be32-ok p 21)

decode_heartbeat_ack-ne-fault : (p : List ℕ) (sti : ℕ) → decode_heartbeat_ack p sti ≢ fault
unfolding decode_heartbeat_ack
decode_heartbeat_ack-ne-fault p sti = ground (arith, get_be32-ok p 13)

decode_pdu_transmission-ne-fault : (p : List ℕ) (sti : ℕ) → decode_pdu_transmission p sti ≢ fault
unfolding decode_pdu_transmission
decode_pdu_transmission-ne-fault p sti = elim (Bool-cases (ltb (length p - 13) 13)) [
  | inl short ↦ ground arith
  | inr long ↦
      let room : 26 ≤ length p = ground arith in
      let (len, e) = get_be32-ok p 22 (omega arith) in
      ground (arith, e, read_ok p 13, get_be32-ok p 14, get_be32-ok p 18, read_bytes_ok p 26 len)
]

decode_pdu_transmission_ack-ne-fault :
    (p : List ℕ) (sti : ℕ) → decode_pdu_transmission_ack p sti ≢ fault
unfolding decode_pdu_transmission_ack
decode_pdu_transmission_ack-ne-fault p sti = elim (Bool-cases (ltb (length p - 13) 4)) [
  | inl short ↦ ground arith
  | inr long ↦
      let room : 17 ≤ length p = ground arith in
      let (count, e) = get_be32-ok p 13 (omega arith) in
      ground (arith, e, get_ids-ne-fault count 0 p)
]

decode_body-ne-fault : (t : ℕ) (p : List ℕ) (sti : ℕ) → decode_body t p sti ≢ fault
unfolding decode_body
decode_body-ne-fault t p sti = ground (
  arith,
  decode_heartbeat-ne-fault p sti,
  decode_heartbeat_ack-ne-fault p sti,
  decode_pdu_transmission-ne-fault p sti,
  decode_pdu_transmission_ack-ne-fault p sti,
)

get_be64-ok : (p : List ℕ) (off : ℕ) → off + 8 ≤ length p → (v : ℕ) × (get_be64 p off ≡ ok v)
unfolding get_be64
get_be64-ok p off h =
    let (hi, e) = get_be32-ok p off (omega arith) in
    let (lo, d) = get_be32-ok p (off + 4) (omega arith) in (hi * 2 ^ 32 + lo, ground arith)

-- The decoder of a received datagram never reads outside it, whatever the datagram holds.
pub decode-ne-fault : (p : List ℕ) → decode p ≢ fault
unfolding decode
decode-ne-fault p = elim (Bool-cases (ltb (length p) 13)) [
  | inl short ↦ ground arith
  | inr long ↦
      let (sti, e) = get_be64-ok p 5 (ground arith) in
      ground (
        arith,
        e,
        decode_body-ne-fault (get_or p 4 0) p sti,
        read_ok p 0,
        read_ok p 1,
        read_ok p 2,
        read_ok p 3,
        read_ok p 4,
      )
]
