-- ===== src/Mm/Procedure.antt =====
-- The static functions of src/ue_engine/ue_mm.c: how a registration starts, is retried and ends.
use virtuallte.Common.{
  ℕ, ◌+◌, ◌%◌, ◌^◌, Bool, true, false, not, ◌||◌, ◌&&◌, ◌==◌, ltb, if◌then◌else◌, copy_string,
}
use virtuallte.Mm.State.{
  MmState, MmProcedure, MmProcStep, MmLastCause, RejectClass, RegRejectCause, reject_cause_code,
  RegAcceptResult, RegistrationRequest, RegistrationResult, MmCtx, in_state, at_step,
  in_registration, is_temporary, timeout_ms,
}

-- `mm_reject_class_from_cause`
unfoldable pub reject_class_from_cause : RegRejectCause → RejectClass
reject_class_from_cause RegRejectCause.congestion = RejectClass.temporary
reject_class_from_cause RegRejectCause.illegal_ue = RejectClass.permanent
reject_class_from_cause RegRejectCause.plmn_not_allowed = RejectClass.permanent
reject_class_from_cause RegRejectCause.ta_not_allowed = RejectClass.permanent
reject_class_from_cause RegRejectCause.no_reject = RejectClass.temporary

-- `mm_enter_deregistered`
unfoldable pub enter_deregistered : MmCtx → MmLastCause → Bool → MmCtx
enter_deregistered mm cause clear_request = record mm {
  state = MmState.deregistered;
  procedure = MmProcedure.idle;
  proc_step = MmProcStep.none_step;
  last_cause = cause;
  register_requested = if clear_request then false else mm.register_requested;
  retry_count = if clear_request then 0 else mm.retry_count;
  last_reject_cause_code = 0;
  next_step_deadline_ms = 0;
}

-- `mm_start_registration_procedure`
unfoldable pub start_registration_procedure : MmCtx → MmCtx
start_registration_procedure mm = record mm {
  registration_attempt_id = (mm.registration_attempt_id + 1) % 2 ^ 32;
  state = MmState.searching;
  procedure = MmProcedure.registration;
  proc_step = MmProcStep.wait_cell_selection;
  last_cause = MmLastCause.register_requested;
  last_reject_class = RejectClass.temporary;
  last_reject_cause_code = 0;
  next_step_deadline_ms = 0;
}

-- `mm_invoke_pending_registration`
unfoldable pub invoke_pending_registration : MmCtx → MmCtx
invoke_pending_registration mm =
    if not mm.register_requested
    then mm
    else if not (in_state mm MmState.deregistered) && not (in_state mm MmState.registered_home)
    then mm
    else start_registration_procedure mm

-- `mm_retry_registration_attempt`
unfoldable pub retry_registration_attempt : MmCtx → ℕ → MmCtx
retry_registration_attempt mm next_deadline_ms = record mm {
  retry_count = (mm.retry_count + 1) % 2 ^ 8;
  registration_attempt_id = (mm.registration_attempt_id + 1) % 2 ^ 32;
  state = MmState.searching;
  procedure = MmProcedure.registration;
  proc_step = MmProcStep.wait_cell_selection;
  last_cause = MmLastCause.registration_retry;
  last_reject_class = RejectClass.temporary;
  last_reject_cause_code = 0;
  next_step_deadline_ms = next_deadline_ms;
}

-- `mm_handle_reject_by_procedure`
unfoldable pub handle_reject_by_procedure : MmCtx → RegRejectCause → MmCtx
handle_reject_by_procedure mm reject_cause =
    let cls = reject_class_from_cause reject_cause in
    let mm' : MmCtx = record mm {
      last_reject_class = cls;
      last_reject_cause_code = reject_cause_code reject_cause;
    } in
    if not (in_registration mm.procedure) || not (at_step mm MmProcStep.wait_registration_response)
    then enter_deregistered mm' MmLastCause.registration_rejected true
    else if is_temporary cls && ltb mm.retry_count mm.max_retries
    then retry_registration_attempt mm' 0
    else enter_deregistered mm' MmLastCause.registration_rejected true

-- `mm_build_registration_request`; it fails on null pointers only.
unfoldable pub build_registration_request : MmCtx → RegistrationRequest
build_registration_request mm = record {
  attempt_id = mm.registration_attempt_id;
  reg_type = mm.pending_reg_type;
  trigger = mm.pending_reg_trigger;
  with_sim = true;
  suci = copy_string 32 mm.imsi;
  plmn_mcc = copy_string 8 mm.mcc;
  plmn_mnc = copy_string 8 mm.mnc;
}

abbrev pub is_non_3gpp : RegAcceptResult → Bool
is_non_3gpp RegAcceptResult.accept_3gpp = false
is_non_3gpp RegAcceptResult.accept_non_3gpp = true

-- `mm_handle_registration_submit_result`
unfoldable pub handle_registration_submit_result : MmCtx → RegistrationResult → MmCtx
handle_registration_submit_result mm result =
    if result.submitted
    then (if is_non_3gpp result.accept_result
        then enter_deregistered
            (record mm {
              last_reject_class = RejectClass.permanent;
              last_reject_cause_code = reject_cause_code RegRejectCause.plmn_not_allowed;
            })
            MmLastCause.registration_rejected true
        else record mm {
          last_assigned_guti = copy_string 32 result.assigned_guti;
          last_reject_class = RejectClass.temporary;
          last_reject_cause_code = 0;
        })
    else handle_reject_by_procedure
        (record mm {
          last_reject_class = result.reject_class;
          last_reject_cause_code = reject_cause_code result.reject_cause;
        })
        result.reject_cause

-- `mm_handle_wait_cell_selection` and `mm_handle_wait_registration_response`, whose bodies are one.
unfoldable pub handle_wait : MmCtx → ℕ → MmCtx
handle_wait mm now_ms =
    let deadline : ℕ =
      if mm.next_step_deadline_ms == 0
      then (now_ms + timeout_ms) % 2 ^ 64
      else mm.next_step_deadline_ms in
    let armed : MmCtx = record mm { next_step_deadline_ms = deadline } in
    if ltb now_ms deadline
    then armed
    else if ltb mm.retry_count mm.max_retries
    then retry_registration_attempt armed ((now_ms + timeout_ms) % 2 ^ 64)
    else record (enter_deregistered armed MmLastCause.registration_timeout true) {
      last_reject_class = RejectClass.temporary;
    }
