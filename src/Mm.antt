-- ===== src/Mm.antt =====
-- src/ue_engine/ue_mm.c: the mobility management of the UE, a state machine with retries and
-- timeouts, over the types of ue_types.h, ue_mm.h and ue_mm_messages.h.
-- The network adapter that submits a registration is the parameter `submit` of the one operation
-- that calls it.
pub mod State
pub mod Procedure
pub mod Invariant
pub mod Registration
pub mod Events
mod Tests
use virtuallte.Common.{
  ℕ, ◌+◌, ◌%◌, ◌^◌, Bool, true, false, not, ◌||◌, ◌&&◌, ◌==◌, ltb, if◌then◌else◌, Option, none,
  some, [], CString, copy_string,
}
use virtuallte.Mm.State.{
  MmState, MmProcedure, MmProcStep, MmLastCause, RejectClass, RegType, RegTrigger, RegRejectCause,
  reject_cause_code, RegAcceptResult, RegistrationRequest, RegistrationResult, MmCtx, state_code,
  in_state, step_code, at_step, in_registration, is_temporary, timeout_ms, default_max_retries,
}
use virtuallte.Mm.Procedure.{
  reject_class_from_cause, enter_deregistered, start_registration_procedure,
  invoke_pending_registration, retry_registration_attempt, handle_reject_by_procedure,
  build_registration_request, is_non_3gpp, handle_registration_submit_result, handle_wait,
}

-- `ue_mm_init`. What it leaves alone (the attempt counter and the profile) is kept.
pub init : MmCtx → Bool → Bool → MmCtx
init mm radio_on sim_present = record mm {
  procedure = MmProcedure.idle;
  proc_step = MmProcStep.none_step;
  last_cause =
      if not radio_on
      then MmLastCause.radio_off
      else if sim_present
      then MmLastCause.power_on
      else MmLastCause.sim_missing;
  last_reject_class = RejectClass.temporary;
  last_reject_cause_code = 0;
  register_requested = false;
  pending_reg_type = RegType.initial;
  pending_reg_trigger = RegTrigger.explicit_request;
  last_assigned_guti = [];
  retry_count = 0;
  max_retries = default_max_retries;
  next_step_deadline_ms = 0;
  state =
      if not radio_on
      then MmState.powered_off
      else if sim_present
      then MmState.deregistered
      else MmState.sim_not_ready;
}

-- What `ue_mm_on_radio` and `ue_mm_on_sim` do when the radio or the SIM goes away.
pub shut_down : MmCtx → MmState → MmLastCause → MmCtx
shut_down mm s cause = record mm {
  state = s;
  procedure = MmProcedure.idle;
  proc_step = MmProcStep.none_step;
  last_cause = cause;
  last_reject_class = RejectClass.temporary;
  last_reject_cause_code = 0;
  register_requested = false;
  retry_count = 0;
  next_step_deadline_ms = 0;
}

-- `ue_mm_on_radio`
pub on_radio : MmCtx → Bool → MmCtx
on_radio mm on =
    if not on
    then shut_down mm MmState.powered_off MmLastCause.radio_off
    else if in_state mm MmState.sim_not_ready
    then mm
    else record (enter_deregistered mm MmLastCause.power_on true) {
      last_reject_class = RejectClass.temporary;
      last_reject_cause_code = 0;
    }

-- `ue_mm_on_sim`
pub on_sim : MmCtx → Bool → MmCtx
on_sim mm sim_ready =
    if not sim_ready
    then shut_down mm MmState.sim_not_ready MmLastCause.sim_missing
    else record mm {
      state = if in_state mm MmState.sim_not_ready then MmState.deregistered else mm.state;
      last_cause = MmLastCause.sim_became_ready;
    }

-- `ue_mm_set_profile`; a null pointer is `none`.
pub set_profile : MmCtx → Option CString → Option CString → Option CString → MmCtx
set_profile mm imsi mcc mnc = record mm {
  imsi = elim imsi [ none ↦ mm.imsi | some s ↦ copy_string 32 s ];
  mcc = elim mcc [ none ↦ mm.mcc | some s ↦ copy_string 8 s ];
  mnc = elim mnc [ none ↦ mm.mnc | some s ↦ copy_string 8 s ];
}

-- `ue_mm_request_register`, `ue_mm_request_mobility_update` and `ue_mm_request_periodic_update`
-- differ in the pending type and trigger, which the `mm_set_pending_…` helpers set.
pub request : RegType → RegTrigger → MmCtx → MmCtx
request reg_type trigger mm = invoke_pending_registration (record mm {
  register_requested = true;
  retry_count = 0;
  pending_reg_type = reg_type;
  pending_reg_trigger = trigger;
})

pub request_register : MmCtx → MmCtx
request_register = request RegType.initial RegTrigger.explicit_request

pub request_mobility_update : MmCtx → MmCtx
request_mobility_update = request RegType.mobility_update RegTrigger.mobility_change

pub request_periodic_update : MmCtx → MmCtx
request_periodic_update = request RegType.mobility_update RegTrigger.periodic_update

-- `ue_mm_on_cell_found`
pub on_cell_found : (RegistrationRequest → RegistrationResult) → MmCtx → MmCtx
on_cell_found submit mm =
    if in_state mm MmState.searching
      && mm.register_requested
      && at_step mm MmProcStep.wait_cell_selection
    then (let mm' : MmCtx =
          handle_registration_submit_result mm (submit (build_registration_request mm)) in
        if not (in_state mm' MmState.searching) then mm' else record mm' {
          state = MmState.registering;
          proc_step = MmProcStep.wait_registration_response;
          next_step_deadline_ms = 0;
        })
    else mm

-- `ue_mm_transition_to_registering`
pub transition_to_registering : MmCtx → MmCtx
transition_to_registering mm = record mm {
  state = MmState.registering;
  proc_step = MmProcStep.wait_registration_response;
  next_step_deadline_ms = 0;
}

-- `ue_mm_on_registration_accept`
pub on_registration_accept : MmCtx → MmCtx
on_registration_accept mm =
    if in_state mm MmState.registering && mm.register_requested
    then record mm {
      state = MmState.registered_home;
      procedure = MmProcedure.idle;
      proc_step = MmProcStep.none_step;
      last_cause = MmLastCause.registration_accepted;
      last_reject_class = RejectClass.temporary;
      last_reject_cause_code = 0;
      register_requested = false;
      retry_count = 0;
      next_step_deadline_ms = 0;
    }
    else mm

-- `ue_mm_on_registration_reject`
pub on_registration_reject : MmCtx → RegRejectCause → MmCtx
on_registration_reject mm reject_cause =
    if in_state mm MmState.registering && mm.register_requested
    then handle_reject_by_procedure mm reject_cause
    else mm

-- `ue_mm_tick`
pub tick : MmCtx → ℕ → MmCtx
tick mm now_ms =
    if in_state mm MmState.searching
      && mm.register_requested
      && at_step mm MmProcStep.wait_cell_selection
    then handle_wait mm now_ms
    else if in_state mm MmState.registering
        && mm.register_requested
        && at_step mm MmProcStep.wait_registration_response
    then handle_wait mm now_ms
    else if not (in_state mm MmState.registering) && not (in_state mm MmState.searching)
    then record mm {
      procedure = MmProcedure.idle;
      proc_step = MmProcStep.none_step;
      next_step_deadline_ms = 0;
    }
    else record mm { next_step_deadline_ms = 0 }
