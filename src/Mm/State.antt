-- ===== src/Mm/State.antt =====
-- The types of src/ue_engine/ue_types.h, ue_mm.h and ue_mm_messages.h that ue_mm.c works on.
use virtuallte.Common.{ℕ, Bool, true, false, ◌==◌, CString}

-- `enum ue_mm_state`
pub data MmState : Type 0 where
  powered_off sim_not_ready deregistered searching registering registered_home : MmState

-- `enum ue_mm_procedure`
pub data MmProcedure : Type 0 where
  idle registration : MmProcedure

-- `enum ue_mm_proc_step`
pub data MmProcStep : Type 0 where
  none_step wait_cell_selection wait_registration_response : MmProcStep

-- `enum ue_mm_last_cause`
pub data MmLastCause : Type 0 where
  no_cause power_on sim_became_ready register_requested registration_accepted : MmLastCause
  registration_rejected registration_timeout registration_retry radio_off sim_missing : MmLastCause

-- `enum ue_reject_class`
pub data RejectClass : Type 0 where
  temporary permanent : RejectClass

-- `enum ue_mm_reg_type`
pub data RegType : Type 0 where
  initial mobility_update : RegType

-- `enum ue_mm_reg_trigger`
pub data RegTrigger : Type 0 where
  explicit_request mobility_change periodic_update : RegTrigger

-- `enum ue_mm_reg_reject_cause`
pub data RegRejectCause : Type 0 where
  no_reject illegal_ue congestion plmn_not_allowed ta_not_allowed : RegRejectCause

abbrev pub reject_cause_code : RegRejectCause → ℕ
reject_cause_code RegRejectCause.no_reject = 0
reject_cause_code RegRejectCause.illegal_ue = 3
reject_cause_code RegRejectCause.congestion = 22
reject_cause_code RegRejectCause.plmn_not_allowed = 11
reject_cause_code RegRejectCause.ta_not_allowed = 12

-- `enum ue_mm_reg_accept_result`
pub data RegAcceptResult : Type 0 where
  accept_3gpp accept_non_3gpp : RegAcceptResult

-- `struct ue_mm_registration_request`
pub record RegistrationRequest : Type 0 where
  pub attempt_id : ℕ
  pub reg_type : RegType
  pub trigger : RegTrigger
  pub with_sim : Bool
  pub suci : CString
  pub plmn_mcc : CString
  pub plmn_mnc : CString

-- `struct ue_mm_registration_result`, less `t3512_seconds`, which this file does not read.
pub record RegistrationResult : Type 0 where
  pub submitted : Bool
  pub reject_class : RejectClass
  pub reject_cause : RegRejectCause
  pub accept_result : RegAcceptResult
  pub assigned_guti : CString

-- `struct ue_mm_ctx`
pub record MmCtx : Type 0 where
  pub state : MmState
  pub procedure : MmProcedure
  pub proc_step : MmProcStep
  pub last_cause : MmLastCause
  pub last_reject_class : RejectClass
  pub last_reject_cause_code : ℕ
  pub register_requested : Bool
  pub retry_count : ℕ
  pub max_retries : ℕ
  pub registration_attempt_id : ℕ
  pub last_assigned_guti : CString
  pub imsi : CString
  pub mcc : CString
  pub mnc : CString
  pub pending_reg_type : RegType
  pub pending_reg_trigger : RegTrigger
  pub next_step_deadline_ms : ℕ

abbrev pub state_code : MmState → ℕ
state_code MmState.powered_off = 0
state_code MmState.sim_not_ready = 1
state_code MmState.deregistered = 2
state_code MmState.searching = 3
state_code MmState.registering = 4
state_code MmState.registered_home = 5

abbrev pub in_state : MmCtx → MmState → Bool
in_state mm s = state_code mm.state == state_code s

abbrev pub step_code : MmProcStep → ℕ
step_code MmProcStep.none_step = 0
step_code MmProcStep.wait_cell_selection = 1
step_code MmProcStep.wait_registration_response = 2

abbrev pub at_step : MmCtx → MmProcStep → Bool
at_step mm s = step_code mm.proc_step == step_code s

abbrev pub in_registration : MmProcedure → Bool
in_registration MmProcedure.idle = false
in_registration MmProcedure.registration = true

abbrev pub is_temporary : RejectClass → Bool
is_temporary RejectClass.temporary = true
is_temporary RejectClass.permanent = false

abbrev pub timeout_ms : ℕ
timeout_ms = 1200

abbrev pub default_max_retries : ℕ
default_max_retries = 2
