-- ===== src/NasDecode/Dispatch/Safety.antt =====
-- No message at all makes the decoder of ue_nas_decode.c read or write outside its arrays.
use virtuallte.Common.{
  ℕ, ◌≤◌, not, ◌&&◌, List, length, ltb, ◌==◌, Safe, Safe-bind, Safe-if, Safe-read, arith,
}
use virtuallte.NasDecode.Event.{NasEvent, IsWellFormed, empty_event, empty_event-IsWellFormed}
use virtuallte.NasDecode.Mobility.Safety.{decode_mm_message-Safe}
use virtuallte.NasDecode.Session.Safety.{decode_sm_message-Safe}
use virtuallte.NasDecode.Dispatch.{is_transport, decode_inner_sm, decode_event}

decode_inner_sm-Safe :
    (pdu : List ℕ) (e : NasEvent) → IsWellFormed e → Safe IsWellFormed (decode_inner_sm pdu e)
unfolding decode_inner_sm
decode_inner_sm-Safe pdu e h =
    Safe-if _ (ltb (length pdu) 4) _ _ (λ _. tt)
      (λ long.
        let room : 4 ≤ length pdu = ground arith in
        Safe-read _ pdu 0 _ (omega arith) (λ epd.
          Safe-if _ (not (epd == 0x2E)) _ _ (λ _. tt) (λ _. decode_sm_message-Safe pdu e h)))

-- Whatever bytes the network sends, the decoder stops and touches its buffers inside their bounds
-- only. If it fills an event, no copied field is longer than its array, a GUTI that is said to be
-- there has a byte at least, the algorithms are below 16 and the key set identifier is below 8.
pub decode_event-Safe : (pdu : List ℕ) → Safe IsWellFormed (decode_event pdu)
unfolding decode_event
decode_event-Safe pdu =
    Safe-if _ (ltb (length pdu) 2) _ _ (λ _. tt)
      (λ long.
        let room : 2 ≤ length pdu = ground arith in
        Safe-read _ pdu 0 _ (omega arith) (λ epd. Safe-read _ pdu 1 _ (omega arith) (λ sht.
          Safe-if _ (epd == 0x7E && not (sht == 0)) _ _ (λ _. tt)
            (λ _.
              Safe-if _ (epd == 0x7E) _ _
                (λ _.
                  Safe-bind IsWellFormed _ _ _
                    (decode_mm_message-Safe pdu empty_event empty_event-IsWellFormed)
                    (λ event w.
                      Safe-if _ (is_transport event.event_type && event.has_inner_sm) _ _
                        (λ _. decode_inner_sm-Safe event.inner_sm event w) (λ _. w)))
                (λ _.
                  Safe-if _ (epd == 0x2E) _ _
                    (λ _. decode_sm_message-Safe pdu empty_event empty_event-IsWellFormed)
                    (λ _. tt))))))
