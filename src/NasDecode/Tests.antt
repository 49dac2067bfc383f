-- ===== src/NasDecode/Tests.antt =====
-- The theorems on ue_nas_decode.c at concrete messages.
use virtuallte.Common.{ℕ, ◌≡◌, ◌⊎◌, refl, List, [], ◌∷◌, replicate, read, ok, Safe, arith}
use virtuallte.NasDecode.Event.{EventType, NasEvent, empty_event, IsWellFormed}
use virtuallte.NasDecode.Mobility.{decode_mm_message, decode_mm_body}
use virtuallte.NasDecode.Dispatch.{decode_event}
use virtuallte.NasDecode.Dispatch.Safety.{decode_event-Safe}
use virtuallte.NasDecode.Dispatch.Messages.{accepted_is_plain}
use virtuallte.NasDecode.Dispatch.Authentication.{
  authentication_request, authentication_event, decode-authentication_request,
}

-- A DL NAS Transport whose container says that it is longer than the message.
abbrev truncated : List ℕ
truncated = 0x7E ∷ 0 ∷ 0x68 ∷ 1 ∷ 0xFF ∷ 0xFF ∷ 0x2E ∷ []

decode_event-Safe_example : Safe IsWellFormed (decode_event truncated)
decode_event-Safe_example = decode_event-Safe truncated

abbrev identity_request : List ℕ
identity_request = 0x7E ∷ 0 ∷ 0x5B ∷ 1 ∷ []

abbrev identity_event : NasEvent
identity_event = record empty_event {
  event_type = EventType.identity_request;
  raw_msg_type = 0x5B;
  raw_epd = 0x7E;
}

identity_run : decode_event identity_request ≡ ok identity_event
unfolding decode_event decode_mm_message decode_mm_body
identity_run = refl

accepted_is_plain_example :
    ((read identity_request 0 ≡ ok 0x7E) × (read identity_request 1 ≡ ok 0x00))
    ⊎ (read identity_request 0 ≡ ok 0x2E)
accepted_is_plain_example = accepted_is_plain identity_request identity_event identity_run

abbrev rand : List ℕ
rand = replicate 16 0x11

abbrev autn : List ℕ
autn = replicate 16 0x22

decode-authentication_request_example :
    decode_event (authentication_request 1 (0 ∷ 0 ∷ []) rand autn)
    ≡ ok (authentication_event 1 (0 ∷ 0 ∷ []) rand autn)
decode-authentication_request_example =
    decode-authentication_request 1 (0 ∷ 0 ∷ []) rand autn (omega arith) (omega arith) refl refl

abbrev rules : List ℕ
rules = 1 ∷ 0 ∷ 6 ∷ []

abbrev rates : List ℕ
rates = replicate 6 1
