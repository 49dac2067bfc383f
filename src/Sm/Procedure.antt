-- ===== src/Sm/Procedure.antt =====
-- The procedures of src/ue_engine/ue_sm.c: establishment, its rejects and retries, and release.
use virtuallte.Common.{
  ℕ, zero, suc, ◌+◌, ◌%◌, ◌^◌, Bool, true, false, not, ◌||◌, ◌&&◌, ◌==◌, ltb, if◌then◌else◌, Option,
  none, some, copy_string,
}
use virtuallte.Mm.State.{RejectClass, is_temporary}
use virtuallte.Sm.State.{
  SmState, SmProcedure, SmProcStep, SmLastCause, PduRejectCause, pdu_reject_code, PduRequestType,
  EstRequest, EstResult, RelRequest, RelResult, SmCtx, in_state, at_step, is_establishing,
  is_semantic_error,
}

-- `sm_alloc_pti`
unfoldable pub alloc_pti : SmCtx → SmCtx
alloc_pti sm =
    let cursor = if ltb sm.next_pti 1 || ltb 254 sm.next_pti then 1 else sm.next_pti in
    record sm { pti = cursor; next_pti = (cursor % 254 + 1) % 2 ^ 8 }

-- `sm_reject_class_from_cause`
unfoldable pub reject_class_from_cause : PduRejectCause → RejectClass
reject_class_from_cause PduRejectCause.insufficient_resources = RejectClass.temporary
reject_class_from_cause PduRejectCause.missing_dnn = RejectClass.permanent
reject_class_from_cause PduRejectCause.unknown_pdu_session_type = RejectClass.permanent
reject_class_from_cause PduRejectCause.semantic_error = RejectClass.permanent
reject_class_from_cause PduRejectCause.no_reject = RejectClass.temporary

-- `sm_enter_inactive`
unfoldable pub enter_inactive : SmCtx → SmLastCause → Bool → Bool → SmCtx
enter_inactive sm cause clear_connect clear_disconnect = record sm {
  state = SmState.inactive;
  procedure = SmProcedure.idle;
  proc_step = SmProcStep.none_step;
  last_cause = cause;
  connect_requested = if clear_connect then false else sm.connect_requested;
  disconnect_requested = if clear_disconnect then false else sm.disconnect_requested;
  next_step_deadline_ms = 0;
  pti = 0;
}

-- `sm_build_establish_request`; it fails on null pointers only.
unfoldable pub build_establish_request : SmCtx → EstRequest
build_establish_request sm = record {
  attempt_id = sm.establishment_attempt_id;
  pdu_session_id = if sm.session_id == 0 then 1 else sm.session_id;
  pti = if sm.pti == 0 then 1 else sm.pti;
  request_type = PduRequestType.initial;
  dnn = copy_string 64 sm.active_dnn;
  pdu_type = copy_string 16 sm.pdu_type;
  s_nssai_sst = sm.s_nssai_sst;
  has_existing_session = not (sm.session_id == 0);
}

-- `sm_build_release_request`; it fails on null pointers only.
unfoldable pub build_release_request : SmCtx → RelRequest
build_release_request sm = record {
  attempt_id = sm.establishment_attempt_id;
  pdu_session_id = sm.session_id;
  pti = sm.pti;
}

-- The assignments at the head of `sm_start_establish_procedure`.
unfoldable pub begin_establish : SmCtx → SmCtx
begin_establish sm = record (alloc_pti sm) {
  establishment_attempt_id = (sm.establishment_attempt_id + 1) % 2 ^ 32;
  state = SmState.establishing;
  procedure = SmProcedure.establish_pdu;
  proc_step = SmProcStep.wait_establish_response;
  next_step_deadline_ms = 0;
  est_retx_count = 0;
}

-- The head of `sm_handle_establish_reject_by_procedure`: the reject is recorded, the PTI is freed.
unfoldable pub record_reject : SmCtx → PduRejectCause → SmCtx
record_reject sm cause = record sm {
  last_reject_class = reject_class_from_cause cause;
  last_reject_cause_code = pdu_reject_code cause;
  pti = 0;
}

-- The ways in which `sm_handle_establish_reject_by_procedure` gives up.
unfoldable pub give_up : SmCtx → SmCtx
give_up sm = record sm { connect_requested = false; retry_count = 0 }

-- The head of `sm_retry_establish_procedure`.
unfoldable pub begin_retry : SmCtx → SmCtx
begin_retry sm = record sm {
  retry_count = (sm.retry_count + 1) % 2 ^ 8;
  connect_requested = true;
  disconnect_requested = false;
}

-- The branch of `sm_handle_establish_submit_result` for a request that was sent.
unfoldable pub accept_submit : SmCtx → EstResult → SmCtx
accept_submit sm result = record sm {
  session_id = result.selected_psi;
  ip = record (sm.ip) {
    ipv4_addr = result.assigned_ipv4;
    mtu = if result.assigned_mtu == 0 then sm.ip.mtu else result.assigned_mtu;
  };
  last_reject_cause_code = 0;
  pti = 0;
}

module _ (submit_establish : EstRequest → EstResult) where
  -- `sm_start_establish_procedure`, `sm_handle_establish_submit_result`,
  -- `sm_handle_establish_reject_by_procedure` and `sm_retry_establish_procedure` call one another:
  -- a request that is not sent is rejected at once, and a reject may start the next attempt. The
  -- fuel counts the attempts; `none` is a fuel too small.
  unfoldable pub start_establish : ℕ → SmCtx → Option SmCtx
  start_establish zero sm = none
  start_establish (suc fuel) sm =
      let sm' = begin_establish sm in
      let result = submit_establish (build_establish_request sm') in
      let cause = result.reject_cause in
      let off =
        enter_inactive (record_reject sm' cause) SmLastCause.establish_rejected false true in
      let again = start_establish fuel (begin_retry off) in
      if result.submitted
      then some (accept_submit sm' result)
      else if is_semantic_error cause
      then some (give_up off)
      else if is_temporary off.last_reject_class && ltb off.retry_count off.max_retries
      then again
      else some (give_up off)

  -- `sm_handle_establish_reject_by_procedure` on a reject of the network.
  unfoldable pub handle_establish_reject : ℕ → SmCtx → PduRejectCause → Option SmCtx
  handle_establish_reject fuel sm cause =
      let sm' = record_reject sm cause in
      if not (is_establishing sm.procedure) || not (at_step sm SmProcStep.wait_establish_response)
      then some
          (record (enter_inactive sm' SmLastCause.establish_rejected true true) { retry_count = 0 })
      else (let off = enter_inactive sm' SmLastCause.establish_rejected false true in
          if is_semantic_error cause
          then some (give_up off)
          else if is_temporary off.last_reject_class && ltb off.retry_count off.max_retries
          then start_establish fuel (begin_retry off)
          else some (give_up off))

  -- `ue_sm_on_pdu_session_reject`
  unfoldable pub on_pdu_session_reject : ℕ → SmCtx → PduRejectCause → Option SmCtx
  on_pdu_session_reject fuel sm cause =
      if in_state sm SmState.establishing && at_step sm SmProcStep.wait_establish_response
      then handle_establish_reject fuel sm cause
      else some sm

-- `sm_handle_release_submit_result`
unfoldable pub handle_release_submit_result : SmCtx → RelResult → SmCtx
handle_release_submit_result sm result =
    if result.submitted
    then record sm { last_reject_cause_code = 0 }
    else record (enter_inactive
        (record sm {
          last_reject_class = reject_class_from_cause result.reject_cause;
          last_reject_cause_code = pdu_reject_code result.reject_cause;
        })
        SmLastCause.release_complete true true) { retry_count = 0 }

-- `sm_start_release_procedure`
unfoldable pub start_release : (RelRequest → RelResult) → SmCtx → SmCtx
start_release submit_release sm =
    let sm' : SmCtx = record (alloc_pti sm) {
      state = SmState.releasing;
      procedure = SmProcedure.release_pdu;
      proc_step = SmProcStep.wait_release_complete;
      next_step_deadline_ms = 0;
    } in
    handle_release_submit_result sm' (submit_release (build_release_request sm'))
