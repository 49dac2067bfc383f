-- ===== src/NasDecode/Dispatch.antt =====
-- The entry points of ue_nas_decode.c.
pub mod Safety
pub mod Messages
pub mod Authentication
use virtuallte.Common.{
  ℕ, not, ◌&&◌, List, length, ltb, ◌==◌, if◌then◌else◌, Bool, true, false, Outcome, ok, reject,
  fault, ◌>>=◌, read,
}
use virtuallte.NasDecode.Event.{EventType, NasEvent, empty_event}
use virtuallte.NasDecode.Mobility.{decode_mm_message}
use virtuallte.NasDecode.Session.{decode_sm_message}

abbrev pub is_transport : EventType → Bool
is_transport EventType.dl_nas_transport = true
is_transport _ = false

-- `ue_nas_decode_inner_sm`
pub decode_inner_sm : List ℕ → NasEvent → Outcome NasEvent
decode_inner_sm sm_pdu event = if ltb (length sm_pdu) 4 then reject else do
  epd ← read sm_pdu 0
  if not (epd == 0x2E) then reject else decode_sm_message sm_pdu event

-- `ue_nas_decode_event`
unfoldable pub decode_event : List ℕ → Outcome NasEvent
decode_event pdu = if ltb (length pdu) 2 then reject else do
  epd ← read pdu 0
  sht ← read pdu 1
  if epd == 0x7E && not (sht == 0)
      then reject
      else if epd == 0x7E
      then (do
        event ← decode_mm_message pdu empty_event
        if is_transport event.event_type && event.has_inner_sm
            then decode_inner_sm event.inner_sm event
            else ok event)
      else if epd == 0x2E
      then decode_sm_message pdu empty_event
      else reject
