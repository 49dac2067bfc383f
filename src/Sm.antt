-- ===== src/Sm.antt =====
-- src/ue_engine/ue_sm.c: the session management of the UE, over the types of ue_types.h, ue_sm.h
-- and ue_sm_messages.h. What the network adapter answers to a request is given by the parameters
-- `submit_establish` and `submit_release`.
pub mod State
pub mod Procedure
pub mod Invariant
pub mod Session
pub mod Timeout
pub mod Events
mod Tests
use virtuallte.Common.{
  ℕ, zero, suc, ◌+◌, ◌-◌, ◌%◌, ◌^◌, Bool, true, false, not, ◌||◌, ◌&&◌, ◌==◌, ltb, leb,
  if◌then◌else◌, Option, none, some, List, [], ◌∷◌, CString, copy_string, is_empty,
}
use virtuallte.Sm.State.{
  SmState, SmProcedure, SmProcStep, SmLastCause, PduRejectCause, pdu_reject_code, PduRequestType,
  EstRequest, EstResult, RelRequest, RelResult, RuntimeIp, SmCtx, state_code, in_state, step_code,
  at_step, is_establishing, is_semantic_error, t3580_ms, t3580_max_retx, release_wait_ms,
}
use virtuallte.Sm.Procedure.{
  alloc_pti, reject_class_from_cause, enter_inactive, build_establish_request,
  build_release_request, begin_establish, record_reject, give_up, begin_retry, accept_submit,
  handle_release_submit_result, start_release, start_establish, handle_establish_reject,
  on_pdu_session_reject,
}
use virtuallte.Mm.State.{RejectClass, is_temporary}

-- `ue_sm_init`
pub init : Option CString → SmCtx
init default_dnn = record {
  state = SmState.inactive;
  procedure = SmProcedure.idle;
  proc_step = SmProcStep.none_step;
  last_cause = SmLastCause.no_cause;
  last_reject_class = RejectClass.temporary;
  last_reject_cause_code = 0;
  session_id = 0;
  active_dnn = elim default_dnn [ none ↦ [] | some s ↦ copy_string 64 s ];
  ip = record {
    ipv4_addr = 1 ∷ 2 ∷ 3 ∷ 4 ∷ [];
    ipv4_gw = 5 ∷ 6 ∷ 7 ∷ 8 ∷ [];
    dns1 = 9 ∷ 10 ∷ 11 ∷ 12 ∷ [];
    dns2 = 1 ∷ 1 ∷ 1 ∷ 1 ∷ [];
    mtu = 1500;
  };
  connect_requested = false;
  disconnect_requested = false;
  retry_count = 0;
  max_retries = 1;
  establishment_attempt_id = 0;
  pti = 0;
  next_pti = 0;
  pdu_type = b'i' ∷ b'p' ∷ b'v' ∷ b'4' ∷ [];
  s_nssai_sst = 1;
  next_step_deadline_ms = 0;
  est_retx_count = 0;
}

-- `ue_sm_set_profile`; a null pointer is the empty string, which it treats alike.
pub set_profile : SmCtx → CString → CString → SmCtx
set_profile sm default_dnn pdu_type = record sm {
  active_dnn = if is_empty default_dnn then sm.active_dnn else copy_string 64 default_dnn;
  pdu_type = if is_empty pdu_type then sm.pdu_type else copy_string 16 pdu_type;
}

-- `ue_sm_on_radio`
pub on_radio : SmCtx → Bool → SmCtx
on_radio sm on = if on then sm else record (enter_inactive sm SmLastCause.radio_off true true) {
  last_reject_class = RejectClass.temporary;
  last_reject_cause_code = 0;
  retry_count = 0;
}

-- `ue_sm_request_connect`; a null pointer is the empty string, which it treats alike.
pub request_connect : SmCtx → CString → SmCtx
request_connect sm dnn = record sm {
  active_dnn = if is_empty dnn then sm.active_dnn else copy_string 64 dnn;
  connect_requested = true;
  disconnect_requested = false;
  last_cause = SmLastCause.connect_requested;
  last_reject_class = RejectClass.temporary;
  last_reject_cause_code = 0;
  retry_count = 0;
}

-- `ue_sm_request_disconnect`
pub request_disconnect : SmCtx → SmCtx
request_disconnect sm = record sm {
  disconnect_requested = true;
  connect_requested = false;
  last_cause = SmLastCause.disconnect_requested;
  last_reject_class = RejectClass.temporary;
  last_reject_cause_code = 0;
}

-- `ue_sm_on_pdu_session_established`
pub on_pdu_session_established : SmCtx → SmCtx
on_pdu_session_established sm =
    if in_state sm SmState.establishing
    then record sm {
      state = SmState.active;
      procedure = SmProcedure.idle;
      proc_step = SmProcStep.none_step;
      last_cause = SmLastCause.establish_accepted;
      last_reject_class = RejectClass.temporary;
      last_reject_cause_code = 0;
      session_id = 0;
      connect_requested = false;
      retry_count = 0;
      next_step_deadline_ms = 0;
    }
    else sm

-- `ue_sm_on_pdu_session_released`
pub on_pdu_session_released : SmCtx → SmCtx
on_pdu_session_released sm =
    if in_state sm SmState.releasing || in_state sm SmState.active
    then record (enter_inactive sm SmLastCause.release_complete true true) {
      last_reject_class = RejectClass.temporary;
      last_reject_cause_code = 0;
      retry_count = 0;
    }
    else sm

-- The T3580 part of `ue_sm_tick`: the new context. What the adapter answers to a request that is
-- submitted again is dropped by the source.
pub tick_establishing : SmCtx → ℕ → SmCtx
tick_establishing sm now_ms =
    if in_state sm SmState.establishing && at_step sm SmProcStep.wait_establish_response
    then (if sm.next_step_deadline_ms == 0
        then record sm { next_step_deadline_ms = (now_ms + t3580_ms) % 2 ^ 64 }
        else if leb sm.next_step_deadline_ms now_ms
        then (if ltb sm.est_retx_count t3580_max_retx
            then record sm {
              est_retx_count = (sm.est_retx_count + 1) % 2 ^ 8;
              next_step_deadline_ms = (now_ms + t3580_ms) % 2 ^ 64;
            }
            else record (enter_inactive sm SmLastCause.establish_rejected true true) {
              est_retx_count = 0;
            })
        else sm)
    else sm

-- The request that the same part submits again, where it does.
pub retransmission : SmCtx → ℕ → Option EstRequest
retransmission sm now_ms =
    if in_state sm SmState.establishing && at_step sm SmProcStep.wait_establish_response
    then (if sm.next_step_deadline_ms == 0
        then none
        else if leb sm.next_step_deadline_ms now_ms && ltb sm.est_retx_count t3580_max_retx
        then some (
            build_establish_request (record sm {
              est_retx_count = (sm.est_retx_count + 1) % 2 ^ 8;
              next_step_deadline_ms = (now_ms + t3580_ms) % 2 ^ 64;
            }))
        else none)
    else none

-- The last part of `ue_sm_tick`.
pub tick_releasing : SmCtx → ℕ → SmCtx
tick_releasing sm now_ms =
    if in_state sm SmState.releasing && at_step sm SmProcStep.wait_release_complete
    then (if sm.next_step_deadline_ms == 0
        then record sm { next_step_deadline_ms = (now_ms + release_wait_ms) % 2 ^ 64 }
        else if leb sm.next_step_deadline_ms now_ms
        then enter_inactive sm SmLastCause.release_complete true true
        else sm)
    else sm

-- The disconnect part of `ue_sm_tick`.
pub tick_disconnect : (RelRequest → RelResult) → SmCtx → SmCtx
tick_disconnect submit_release sm =
    if sm.disconnect_requested
    then (if in_state sm SmState.active
        then start_release submit_release sm
        else enter_inactive sm SmLastCause.disconnect_requested false true)
    else sm

-- The connect part of `ue_sm_tick`.
pub tick_connect : (EstRequest → EstResult) → ℕ → SmCtx → Option SmCtx
tick_connect submit_establish fuel sm =
    if sm.connect_requested && in_state sm SmState.inactive
    then start_establish submit_establish fuel (record sm { connect_requested = false })
    else some sm

-- `ue_sm_tick`
pub tick : (EstRequest → EstResult) → (RelRequest → RelResult) → ℕ → SmCtx → ℕ → Bool → Option SmCtx
tick submit_establish submit_release fuel sm now_ms mm_registered =
    if not mm_registered
    then some (record (enter_inactive sm SmLastCause.mm_not_registered true true) {
      last_reject_class = RejectClass.temporary;
      last_reject_cause_code = 0;
      retry_count = 0;
    })
    else elim (tick_connect submit_establish fuel (tick_disconnect submit_release sm)) [
      | none ↦ none
      | some sm' ↦ some (tick_releasing (tick_establishing sm' now_ms) now_ms)
    ]
