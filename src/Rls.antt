-- ===== src/Rls.antt =====
-- src/ue_engine/ue_rls.c and ue_rls.h: the radio link simulation protocol, big-endian over UDP.
-- A buffer is a list of bytes, as long as the size that the caller passes with it. A signed field
-- is kept as its bit pattern, which is what the wire carries.
pub mod Safety
pub mod RoundTrip
pub mod Acks
mod Wire
mod Tests
use virtuallte.Common.{
  ℕ, zero, suc, ◌+◌, ◌-◌, ◌*◌, ◌/◌, ◌%◌, ◌^◌, Bool, ◌||◌, ◌&&◌, not, List, [], ◌∷◌, length, ltb,
  ◌==◌, if◌then◌else◌, Outcome, ok, reject, ◌>>=◌, read, read_bytes, blit,
}

abbrev pub compat_marker : ℕ
compat_marker = 0x03

abbrev pub version_major : ℕ
version_major = 3

abbrev pub version_minor : ℕ
version_minor = 2

abbrev pub version_patch : ℕ
version_patch = 8

abbrev pub header_size : ℕ
header_size = 13

abbrev pub max_pdu_size : ℕ
max_pdu_size = 16384

abbrev pub max_ack_ids : ℕ
max_ack_ids = 64

pub data PduType : Type 0 where
  rrc user_plane : PduType

abbrev pub pdu_type_code : PduType → ℕ
pdu_type_code PduType.rrc = 1
pdu_type_code PduType.user_plane = 2

-- `struct ue_rls_message`. The constructors stand for the message types 4, 5, 6 and 7.
pub data Message : Type 0 where
  heartbeat : (sti sim_pos_x sim_pos_y sim_pos_z : ℕ) → Message
  heartbeat_ack : (sti dbm : ℕ) → Message
  pdu_transmission : (sti : ℕ) → PduType → (pdu_id payload : ℕ) → (pdu : List ℕ) → Message
  pdu_transmission_ack : (sti : ℕ) → (pdu_ids : List ℕ) → Message

abbrev pub be32 : ℕ → List ℕ
be32 v = (v / 2 ^ 24 % 256) ∷ (v / 2 ^ 16 % 256) ∷ (v / 2 ^ 8 % 256) ∷ (v % 256) ∷ []

pub put_be32 : List ℕ → ℕ → ℕ → Outcome (List ℕ)
put_be32 p off v = blit p off (be32 v)

pub put_be64 : List ℕ → ℕ → ℕ → Outcome (List ℕ)
put_be64 p off v = do p ← put_be32 p off (v / 2 ^ 32 % 2 ^ 32); put_be32 p (off + 4) (v % 2 ^ 32)

-- The fields that `|` joins do not overlap, so their union is their sum.
pub get_be32 : List ℕ → ℕ → Outcome ℕ
get_be32 p off = do
  a ← read p off
  b ← read p (off + 1)
  c ← read p (off + 2)
  d ← read p (off + 3)
  ok (a * 2 ^ 24 + b * 2 ^ 16 + c * 2 ^ 8 + d)

pub get_be64 : List ℕ → ℕ → Outcome ℕ
get_be64 p off = do hi ← get_be32 p off; lo ← get_be32 p (off + 4); ok (hi * 2 ^ 32 + lo)

-- `rls_write_header`. Its result is the buffer alone: no caller looks at what it returns.
pub write_header : List ℕ → ℕ → ℕ → Outcome (List ℕ)
write_header buf msg_type sti = if ltb (length buf) header_size then ok buf else do
  buf ←
      blit buf 0
        (compat_marker ∷ version_major ∷ version_minor ∷ version_patch ∷ (msg_type % 256) ∷ [])
  put_be64 buf 5 sti

-- An encoder returns the buffer and the number of bytes that it wrote.
pub encode_heartbeat : List ℕ → ℕ → ℕ → ℕ → ℕ → Outcome (List ℕ × ℕ)
encode_heartbeat buf sti x y z =
    let total : ℕ = header_size + 12 in
    if ltb (length buf) total then reject else do
      buf ← write_header buf 4 sti
      buf ← put_be32 buf 13 x
      buf ← put_be32 buf 17 y
      buf ← put_be32 buf 21 z
      ok (buf, total)

-- `total` is computed in 32 bits and then widened. A null `pdu` is the empty list, with any length.
pub encode_pdu_transmission : List ℕ → ℕ → PduType → ℕ → ℕ → List ℕ → ℕ → Outcome (List ℕ × ℕ)
encode_pdu_transmission buf sti pdu_type pdu_id payload pdu pdu_len =
    let total : ℕ = (header_size + 1 + 4 + 4 + 4 + pdu_len) % 2 ^ 32 in
    if ltb (length buf) total then reject else if ltb max_pdu_size pdu_len then reject else do
      buf ← write_header buf 6 sti
      buf ← blit buf 13 (pdu_type_code pdu_type ∷ [])
      buf ← put_be32 buf 14 pdu_id
      buf ← put_be32 buf 18 payload
      buf ← put_be32 buf 22 pdu_len
      buf ←
          if not (length pdu == 0) && ltb 0 pdu_len
          then (do bytes ← read_bytes pdu 0 pdu_len; blit buf 26 bytes)
          else ok buf
      ok (buf, total)

-- The loop over `pdu_ids`, from index `i`, with `n` rounds left; `i * 4` is computed in 32 bits.
pub put_ids : ℕ → ℕ → List ℕ → List ℕ → Outcome (List ℕ)
put_ids zero i pdu_ids buf = ok buf
put_ids (suc n) i pdu_ids buf = do
  id ← read pdu_ids i
  buf ← put_be32 buf (17 + i * 4 % 2 ^ 32) id
  put_ids n (i + 1) pdu_ids buf

pub encode_pdu_ack : List ℕ → ℕ → List ℕ → ℕ → Outcome (List ℕ × ℕ)
encode_pdu_ack buf sti pdu_ids count =
    let total = header_size + 4 + count * 4 in
    if ltb (length buf) total then reject else do
      buf ← write_header buf 7 sti
      buf ← put_be32 buf 13 count
      buf ← put_ids count 0 pdu_ids buf
      ok (buf, total)

-- The loop that fills `out->u.pdu_ack.pdu_ids`.
pub get_ids : ℕ → ℕ → List ℕ → Outcome (List ℕ)
get_ids zero i p = ok []
get_ids (suc n) i p = do id ← get_be32 p (17 + i * 4); ids ← get_ids n (i + 1) p; ok (id ∷ ids)

pub decode_heartbeat : List ℕ → ℕ → Outcome Message
decode_heartbeat p sti = if ltb (length p - header_size) 12 then reject else do
  x ← get_be32 p 13
  y ← get_be32 p 17
  z ← get_be32 p 21
  ok (Message.heartbeat sti x y z)

pub decode_heartbeat_ack : List ℕ → ℕ → Outcome Message
decode_heartbeat_ack p sti =
    if ltb (length p - header_size) 4
    then reject
    else do dbm ← get_be32 p 13; ok (Message.heartbeat_ack sti dbm)

pub decode_pdu_transmission : List ℕ → ℕ → Outcome Message
decode_pdu_transmission p sti =
    let remaining = length p - header_size in
    if ltb remaining 13 then reject else do
      t ← read p 13
      if not (t == 1) && not (t == 2) then reject else do
        pdu_len ← get_be32 p 22
        if ltb max_pdu_size pdu_len
            then reject
            else if ltb remaining ((13 + pdu_len) % 2 ^ 32)
            then reject
            else do
              pdu_id ← get_be32 p 14
              payload ← get_be32 p 18
              pdu ← read_bytes p 26 pdu_len
              ok (
                  Message.pdu_transmission sti (if t == 1 then PduType.rrc else PduType.user_plane)
                    pdu_id payload pdu)

pub decode_pdu_transmission_ack : List ℕ → ℕ → Outcome Message
decode_pdu_transmission_ack p sti =
    let remaining = length p - header_size in
    if ltb remaining 4 then reject else do
      count ← get_be32 p 13
      if ltb max_ack_ids count
          then reject
          else if ltb remaining (4 + count * 4)
          then reject
          else do ids ← get_ids count 0 p; ok (Message.pdu_transmission_ack sti ids)

-- The `switch` on the message type.
pub decode_body : ℕ → List ℕ → ℕ → Outcome Message
decode_body msg_type p sti =
    if msg_type == 4
    then decode_heartbeat p sti
    else if msg_type == 5
    then decode_heartbeat_ack p sti
    else if msg_type == 6
    then decode_pdu_transmission p sti
    else if msg_type == 7
    then decode_pdu_transmission_ack p sti
    else reject

-- The checks on the marker and the version; what they pass is the message type and the `sti`.
pub decode : List ℕ → Outcome Message
decode p = if ltb (length p) header_size then reject else do
  marker ← read p 0
  if not (marker == compat_marker) then reject else do
    major ← read p 1
    minor ← read p 2
    patch ← read p 3
    if not (major == version_major) || not (minor == version_minor) || not (patch == version_patch)
        then reject
        else do msg_type ← read p 4; sti ← get_be64 p 5; decode_body msg_type p sti
