-- ===== src/Sm/Events.antt =====
-- What can happen to the session management: its operations as events, and runs of them.
use virtuallte.Common.{ℕ, ◌≡◌, Bool, Option, some, CString, arith}
use virtuallte.Sm.State.{PduRejectCause, EstRequest, EstResult, RelRequest, RelResult, SmCtx}
use virtuallte.Sm.{
  init, set_profile, on_radio, request_connect, request_disconnect, on_pdu_session_established,
  on_pdu_session_released, tick,
}
use virtuallte.Sm.Procedure.{on_pdu_session_reject, enter_inactive}
use virtuallte.Sm.Invariant.{IsSound, Ends, on_pdu_session_reject-Ends, tick-Ends}

pub data Event : Type 0 where
  profile : (default_dnn pdu_type : CString) → Event
  radio : Bool → Event
  connect : CString → Event
  disconnect established released : Event
  reject : PduRejectCause → Event
  tick_at : ℕ → Bool → Event

-- Two attempts are as many as one event can make.
abbrev pub attempts : ℕ
attempts = 2

module _ (submit_establish : EstRequest → EstResult) (submit_release : RelRequest → RelResult) where
  unfoldable pub handle : Event → SmCtx → Option SmCtx
  handle (Event.profile d p) sm = some (set_profile sm d p)
  handle (Event.radio on) sm = some (on_radio sm on)
  handle (Event.connect dnn) sm = some (request_connect sm dnn)
  handle Event.disconnect sm = some (request_disconnect sm)
  handle Event.established sm = some (on_pdu_session_established sm)
  handle Event.released sm = some (on_pdu_session_released sm)
  handle (Event.reject cause) sm = on_pdu_session_reject submit_establish attempts sm cause
  handle (Event.tick_at now registered) sm =
      tick submit_establish submit_release attempts sm now registered

  pub handle-Ends : (e : Event) (sm : SmCtx) → IsSound sm → Ends (handle e sm)
  unfolding handle
  handle-Ends (Event.profile d p) sm v = unfold set_profile in ground arith
  handle-Ends (Event.radio on) sm v = unfold on_radio enter_inactive in ground arith
  handle-Ends (Event.connect dnn) sm v = unfold request_connect in ground arith
  handle-Ends Event.disconnect sm v = unfold request_disconnect in ground arith
  handle-Ends Event.established sm v = unfold on_pdu_session_established in ground arith
  handle-Ends Event.released sm v = unfold on_pdu_session_released enter_inactive in ground arith
  handle-Ends (Event.reject cause) sm v =
      on_pdu_session_reject-Ends submit_establish 2 cause v (omega arith)
  handle-Ends (Event.tick_at now registered) sm v =
      tick-Ends submit_establish submit_release 2 sm now registered v (omega arith)

  -- The contexts that a run of events leads to from an initialised one.
  pub data Reach : SmCtx → Type 0 where
    start : (dnn : Option CString) → Reach (init dnn)
    next : {sm : SmCtx} (e : Event) (sm' : SmCtx) → handle e sm ≡ some sm' → Reach sm → Reach sm'

  some-IsSound : {r : Option SmCtx} (sm : SmCtx) → r ≡ some sm → Ends r → IsSound sm
  some-IsSound {r} sm e v = ground arith

  -- Whatever happens after `ue_sm_init`, state, procedure and step agree, there is at most one retry
  -- and at most four retransmissions, and the transaction identity and its cursor are at most 254.
  pub Reach-IsSound : {sm : SmCtx} → Reach sm → IsSound sm
  Reach-IsSound (start dnn) = unfold init in ground arith
  Reach-IsSound (next {sm} e sm' h r) = some-IsSound sm' h (handle-Ends e sm (Reach-IsSound r))
