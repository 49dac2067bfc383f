-- ===== src/NasDecode/Mobility.antt =====
-- The 5GMM messages of ue_nas_decode.c. Each function is a case of the switch in
-- `decode_mm_message`. A loop takes fuel, one unit for a round, and is a `fault` without it.
pub mod Safety
use virtuallte.Common.{
  ℕ, zero, suc, ◌+◌, ◌*◌, ◌/◌, ◌%◌, ◌^◌, Bool, true, false, not, ◌||◌, ◌&&◌, List, length, ltb, leb,
  ◌==◌, if◌then◌else◌, Option, none, some, Outcome, ok, reject, fault, ◌>>=◌, read, read_bytes,
  blit,
}
use virtuallte.NasDecode.Event.{EventType, NasEvent, read_be16}

pub gprs_timer3_seconds : ℕ → ℕ
gprs_timer3_seconds v =
    let value = v % 32 in
    let unit = v / 2 ^ 5 % 8 in
    if unit == 0
    then value * 600
    else if unit == 1
    then value * 3600
    else if unit == 2
    then value * 36000
    else if unit == 3
    then value * 2
    else if unit == 4
    then value * 30
    else if unit == 5
    then value * 60
    else if unit == 6
    then value * 1152000
    else 0

-- The loop of `parse_t3512` from offset `i` on.
unfoldable pub scan_t3512 : ℕ → List ℕ → ℕ → Outcome (Option ℕ)
scan_t3512 zero pdu i = fault
scan_t3512 (suc fuel) pdu i =
    let rest = scan_t3512 fuel pdu (i + 1) in
    if ltb (i + 2) (length pdu)
    then (do
      iei ← read pdu i
      if not (iei == 0x5E) then rest else do
        len ← read pdu (i + 1)
        if len == 0x01 then (do v ← read pdu (i + 2); ok (some (gprs_timer3_seconds v))) else rest)
    else ok none

unfoldable pub parse_t3512 : List ℕ → Outcome (Option ℕ)
parse_t3512 pdu = scan_t3512 (length pdu + 1) pdu 5

-- The loop over the half-octet elements.
unfoldable pub skip_half_octets : ℕ → List ℕ → ℕ → Outcome ℕ
skip_half_octets zero pdu pos = fault
skip_half_octets (suc fuel) pdu pos =
    let rest = skip_half_octets fuel pdu (pos + 1) in
    if ltb pos (length pdu)
    then (do
      b ← read pdu pos
      let hi = b / 2 ^ 4 % 16
      if hi == 0x9 || hi == 0xA || hi == 0xB then rest else ok pos)
    else ok pos

-- The 5G-GUTI at `pos`, where the message has one there.
unfoldable pub copy_guti : List ℕ → ℕ → NasEvent → Outcome NasEvent
copy_guti pdu pos event =
    if leb (pos + 3) (length pdu)
    then (do
      iei ← read pdu pos
      if not (iei == 0x77) then ok event else do
        glen ← read_be16 pdu (pos + 1)
        if ltb 0 glen && leb glen (length event.guti) && leb (pos + 3 + glen) (length pdu)
            then (do
              kind ← read pdu (pos + 3)
              if not (kind % 8 == 0x02) then ok event else do
                value ← read_bytes pdu (pos + 3) glen
                guti ← blit event.guti 0 value
                ok record event { guti = guti; guti_len = glen; has_guti = true })
            else ok event)
    else ok event

unfoldable pub decode_registration_accept : List ℕ → NasEvent → Outcome NasEvent
decode_registration_accept pdu ev =
    let event : NasEvent = record ev { event_type = EventType.registration_accept } in
    if leb 5 (length pdu)
    then (do
      result_len ← read pdu 3
      pos ← skip_half_octets (length pdu + 1) pdu (4 + result_len)
      event ← copy_guti pdu pos event
      timer ← parse_t3512 pdu
      ok (elim timer [
        | none ↦ event
        | some s ↦ record event { t3512_seconds = s; has_t3512 = true }
      ]))
    else ok event

pub decode_registration_reject : List ℕ → NasEvent → Outcome NasEvent
decode_registration_reject pdu ev =
    let event : NasEvent = record ev { event_type = EventType.registration_reject } in
    if leb 4 (length pdu)
    then (do cause ← read pdu 3; ok record event { mm_cause = cause })
    else ok event

-- The ABBA at `pos`, where it is inside the message and fits its array.
unfoldable pub copy_abba : List ℕ → ℕ → ℕ → NasEvent → Outcome NasEvent
copy_abba pdu pos abba_len event =
    if leb (pos + 1 + abba_len) (length pdu) && leb abba_len (length event.auth_abba)
    then (do
      value ← read_bytes pdu (pos + 1) abba_len
      abba ← blit event.auth_abba 0 value
      ok record event { auth_abba = abba; auth_abba_len = abba_len; has_auth_abba = true })
    else ok event

-- The RAND at `pos`, and the offset behind it.
unfoldable pub copy_rand : List ℕ → ℕ → NasEvent → Outcome (ℕ × NasEvent)
copy_rand pdu pos event =
    if leb (pos + 17) (length pdu)
    then (do
      iei ← read pdu pos
      if not (iei == 0x21) then ok (pos, event) else do
        value ← read_bytes pdu (pos + 1) 16
        rand ← blit event.auth_rand 0 value
        ok (pos + 17, record event { auth_rand = rand; has_auth_rand = true }))
    else ok (pos, event)

unfoldable pub copy_autn : List ℕ → ℕ → NasEvent → Outcome NasEvent
copy_autn pdu pos event =
    if leb (pos + 18) (length pdu)
    then (do
      iei ← read pdu pos
      len ← read pdu (pos + 1)
      if not (iei == 0x20 && len == 16) then ok event else do
        value ← read_bytes pdu (pos + 2) 16
        autn ← blit event.auth_autn 0 value
        ok record event { auth_autn = autn; has_auth_autn = true })
    else ok event

unfoldable pub decode_authentication_request : List ℕ → NasEvent → Outcome NasEvent
decode_authentication_request pdu ev =
    let event : NasEvent = record ev { event_type = EventType.authentication_request } in
    if leb (3 + 1 + 2 + 17 + 18) (length pdu)
    then (do
      ksi ← read pdu 3
      let event : NasEvent = record event { ngksi = ksi % 8; has_ngksi = true }
      abba_len ← read pdu 4
      event ← copy_abba pdu 4 abba_len event
      (pos, event) ← copy_rand pdu (4 + (1 + abba_len)) event
      copy_autn pdu pos event)
    else ok event

-- The loop over the optional elements of a Security Mode Command.
pub scan_sec_info : ℕ → List ℕ → ℕ → NasEvent → Outcome NasEvent
scan_sec_info zero pdu pos event = fault
scan_sec_info (suc fuel) pdu pos event =
    let rest = scan_sec_info fuel pdu (pos + 1) event in
    if leb (pos + 2) (length pdu)
    then (do
      iei ← read pdu pos
      if not (iei == 0x36) then rest else do
        ie_len ← read pdu (pos + 1)
        if leb 1 ie_len && leb (pos + 2 + ie_len) (length pdu)
            then (do
              info ← read pdu (pos + 2)
              ok record event { has_additional_5g_sec_info = true; additional_5g_sec_info = info })
            else ok event)
    else ok event

pub decode_security_mode_command : List ℕ → NasEvent → Outcome NasEvent
decode_security_mode_command pdu ev =
    let event : NasEvent = record ev { event_type = EventType.security_mode_command } in
    if leb 5 (length pdu)
    then (do
      algs ← read pdu 3
      ksi ← read pdu 4
      scan_sec_info (length pdu + 1) pdu 5 (record event {
        has_sec_algs = true;
        sec_enc_alg = algs / 2 ^ 4 % 16;
        sec_int_alg = algs % 16;
        has_ngksi = true;
        ngksi = ksi % 8;
      }))
    else ok event

pub decode_config_update : List ℕ → NasEvent → Outcome NasEvent
decode_config_update pdu ev =
    let event : NasEvent = record ev { event_type = EventType.config_update_command } in
    if leb 4 (length pdu)
    then (do
      b ← read pdu 3
      ok (
          if b / 2 ^ 4 == 0x0D
          then record event { config_update_ack_requested = not (b % 2 == 0) }
          else event))
    else ok event

-- The container of a DL NAS Transport, where it is N1 SM information inside the message.
pub copy_container : List ℕ → NasEvent → Outcome NasEvent
copy_container pdu event = do
  kind ← read pdu 3
  if not (kind % 16 == 0x01) then ok event else do
    container_len ← read_be16 pdu 4
    if ltb 0 container_len && leb (container_len + 6) (length pdu)
        then (do
          inner ← read_bytes pdu 6 container_len
          ok record event { has_inner_sm = true; inner_sm = inner })
        else ok event

-- The PDU session id behind the container: the loop of the source ends in its first round.
pub read_session_id : List ℕ → NasEvent → Outcome NasEvent
read_session_id pdu event =
    let pos = if event.has_inner_sm then 6 + length event.inner_sm else 6 in
    if ltb (pos + 1) (length pdu)
    then (do
      iei ← read pdu pos
      if not (iei == 0x12)
          then ok event
          else do id ← read pdu (pos + 1); ok record event { psi = id })
    else ok event

pub decode_dl_nas_transport : List ℕ → NasEvent → Outcome NasEvent
decode_dl_nas_transport pdu ev =
    let event : NasEvent = record ev { event_type = EventType.dl_nas_transport } in
    if leb 6 (length pdu)
    then (do event ← copy_container pdu event; read_session_id pdu event)
    else ok event

-- The switch over the message type.
unfoldable pub decode_mm_body : ℕ → List ℕ → NasEvent → Outcome NasEvent
decode_mm_body msg_type pdu event =
    if msg_type == 0x42
    then decode_registration_accept pdu event
    else if msg_type == 0x44
    then decode_registration_reject pdu event
    else if msg_type == 0x56
    then decode_authentication_request pdu event
    else if msg_type == 0x5D
    then decode_security_mode_command pdu event
    else if msg_type == 0x5B
    then ok record event { event_type = EventType.identity_request }
    else if msg_type == 0x54
    then decode_config_update pdu event
    else if msg_type == 0x68
    then decode_dl_nas_transport pdu event
    else reject

-- `decode_mm_message`
unfoldable pub decode_mm_message : List ℕ → NasEvent → Outcome NasEvent
decode_mm_message pdu ev = if ltb (length pdu) 3 then reject else do
  epd ← read pdu 0
  if not (epd == 0x7E) then reject else do
    msg_type ← read pdu 2
    let event : NasEvent = record ev { raw_msg_type = msg_type; raw_epd = 0x7E }
    decode_mm_body msg_type pdu event
