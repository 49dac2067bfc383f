-- ===== src/NasDecode/Session.antt =====
-- The 5GSM messages of ue_nas_decode.c, and the addresses that they carry. The loops take fuel, as
-- those of the 5GMM messages.
pub mod Safety
pub mod Address
use virtuallte.Common.{
  ℕ, zero, suc, ◌+◌, ◌*◌, ◌^◌, Bool, true, false, not, ◌||◌, ◌&&◌, List, length, ltb, leb, ◌==◌,
  if◌then◌else◌, Option, none, some, Outcome, ok, reject, fault, ◌>>=◌, read, read_bytes, blit,
}
use virtuallte.NasDecode.Event.{EventType, NasEvent, read_be16}

-- The walk of `parse_epco_container_ipv4` over the items from `p` to `end`.
pub walk_items : ℕ → List ℕ → ℕ → ℕ → ℕ → Outcome (Option (List ℕ))
walk_items zero pdu wanted_id end p = fault
walk_items (suc fuel) pdu wanted_id end p =
    if leb (p + 3) end
    then (do
      id ← read_be16 pdu p
      clen ← read pdu (p + 2)
      let rest = walk_items fuel pdu wanted_id end (p + (3 + clen))
      if ltb end (p + 3 + clen)
          then ok none
          else if id == wanted_id && clen == 4
          then (do value ← read_bytes pdu (p + 3) 4; ok (some value))
          else rest)
    else ok none

-- What the body of the loop over the message finds at `i`, if `pdu[i]` is 0x7B.
pub epco_at : List ℕ → ℕ → ℕ → Outcome (Option (List ℕ))
epco_at pdu wanted_id i = do
  epco_len ← read_be16 pdu (i + 1)
  if ltb epco_len 1 || ltb (length pdu) (i + 3 + epco_len) then ok none else do
    protocol ← read pdu (i + 3)
    if not (protocol == 0x80)
        then ok none
        else walk_items (length pdu + 1) pdu wanted_id (i + 3 + epco_len) (i + 4)

-- The loop of `parse_epco_container_ipv4` from `i` on.
pub scan_epco : ℕ → List ℕ → ℕ → ℕ → Outcome (Option (List ℕ))
scan_epco zero pdu wanted_id i = fault
scan_epco (suc fuel) pdu wanted_id i =
    let rest = scan_epco fuel pdu wanted_id (i + 1) in
    if ltb (i + 4) (length pdu)
    then (do
      b ← read pdu i
      if not (b == 0x7B) then rest else do
        found ← epco_at pdu wanted_id i
        elim found [ none ↦ rest | some value ↦ ok (some value) ])
    else ok none

pub parse_epco_container_ipv4 : List ℕ → ℕ → Outcome (Option (List ℕ))
parse_epco_container_ipv4 pdu wanted_id = scan_epco (length pdu + 1) pdu wanted_id 4

-- A field behind the length at `pos` is stepped over; the length has two bytes, or one.
pub skip_lv16 : List ℕ → ℕ → Outcome ℕ
skip_lv16 pdu pos =
    if leb (pos + 2) (length pdu)
    then (do len ← read_be16 pdu pos; ok (pos + (2 + len)))
    else ok pos

pub skip_lv8 : List ℕ → ℕ → Outcome ℕ
skip_lv8 pdu pos =
    if leb (pos + 1) (length pdu) then (do len ← read pdu pos; ok (pos + (1 + len))) else ok pos

-- The PDU address element at `pos`.
pub copy_pdu_address : List ℕ → ℕ → NasEvent → Outcome NasEvent
copy_pdu_address pdu pos event = do
  addr_ie_len ← read pdu (pos + 1)
  if leb (pos + 2 + addr_ie_len) (length pdu) && leb 5 addr_ie_len
      then (do
        kind ← read pdu (pos + 2)
        let event : NasEvent = record event { has_pdu_address = true; pdu_addr_type = kind }
        if kind == 1 && leb 5 addr_ie_len
            then (do
              value ← read_bytes pdu (pos + 3) 4
              addr ← blit event.ipv4_addr 0 value
              ok record event { ipv4_addr = addr })
            else ok event)
      else ok event

-- The scan for the PDU address from `pos` on.
pub scan_pdu_address : ℕ → List ℕ → ℕ → NasEvent → Outcome NasEvent
scan_pdu_address zero pdu pos event = fault
scan_pdu_address (suc fuel) pdu pos event =
    if ltb (pos + 2) (length pdu)
    then (do
      iei ← read pdu pos
      ie_len ← read pdu (pos + 1)
      let next = if leb 0x80 iei then pos + 1 else pos + (2 + ie_len)
      let rest = scan_pdu_address fuel pdu next event
      if iei == 0x29 then copy_pdu_address pdu pos event else rest)
    else ok event

-- What the accept does with an address out of the extended protocol options.
abbrev pub set_dns : NasEvent → Option (List ℕ) → NasEvent
set_dns event none = event
set_dns event (some value) = record event { dns_ipv4 = value; has_dns = true }

abbrev pub set_pcscf : NasEvent → Option (List ℕ) → NasEvent
set_pcscf event none = event
set_pcscf event (some value) = record event { pcscf_ipv4 = value; has_pcscf = true }

pub find_pdu_address : List ℕ → NasEvent → Outcome NasEvent
find_pdu_address pdu event =
    if leb 5 (length pdu)
    then (do
      pos ← skip_lv16 pdu 5
      pos ← skip_lv8 pdu pos
      scan_pdu_address (length pdu + 1) pdu pos event)
    else ok event

pub decode_est_accept : List ℕ → NasEvent → Outcome NasEvent
decode_est_accept pdu ev = do
  event ← find_pdu_address pdu (record ev { event_type = EventType.pdu_session_est_accept })
  dns ← parse_epco_container_ipv4 pdu 0x000D
  pcscf ← parse_epco_container_ipv4 pdu 0x000C
  ok (set_pcscf (set_dns event dns) pcscf)

-- A rejection or a release, with the cause where the message has one.
pub decode_sm_cause : List ℕ → EventType → NasEvent → Outcome NasEvent
decode_sm_cause pdu t ev =
    let event : NasEvent = record ev { event_type = t } in
    if leb 5 (length pdu)
    then (do cause ← read pdu 4; ok record event { sm_cause = cause })
    else ok event

-- The switch over the message type.
pub decode_sm_body : ℕ → List ℕ → NasEvent → Outcome NasEvent
decode_sm_body msg_type pdu event =
    if msg_type == 0xC2
    then decode_est_accept pdu event
    else if msg_type == 0xC3
    then decode_sm_cause pdu EventType.pdu_session_est_reject event
    else if msg_type == 0xD3
    then decode_sm_cause pdu EventType.pdu_session_release_cmd event
    else reject

-- `decode_sm_message`
pub decode_sm_message : List ℕ → NasEvent → Outcome NasEvent
decode_sm_message pdu ev = if ltb (length pdu) 4 then reject else do
  epd ← read pdu 0
  if not (epd == 0x2E) then reject else do
    psi ← read pdu 1
    pti ← read pdu 2
    msg_type ← read pdu 3
    let event : NasEvent = record ev {
      psi = psi;
      pti = pti;
      raw_msg_type = msg_type;
      raw_epd = 0x2E;
    }
    decode_sm_body msg_type pdu event
