-- ===== src/Sm/State.antt =====
-- The types of src/ue_engine/ue_types.h, ue_sm.h and ue_sm_messages.h that ue_sm.c works on.
use virtuallte.Common.{ℕ, Bool, true, false, ◌==◌, List, CString}
use virtuallte.Mm.State.{RejectClass}

-- `enum ue_sm_state`
pub data SmState : Type 0 where
  inactive establishing active releasing : SmState

-- `enum ue_sm_procedure`
pub data SmProcedure : Type 0 where
  idle establish_pdu release_pdu : SmProcedure

-- `enum ue_sm_proc_step`
pub data SmProcStep : Type 0 where
  none_step wait_establish_response wait_release_complete : SmProcStep

-- `enum ue_sm_last_cause`
pub data SmLastCause : Type 0 where
  no_cause connect_requested establish_accepted establish_rejected : SmLastCause
  disconnect_requested release_complete mm_not_registered radio_off : SmLastCause

-- `enum ue_sm_pdu_reject_cause`
pub data PduRejectCause : Type 0 where
  no_reject insufficient_resources missing_dnn unknown_pdu_session_type : PduRejectCause
  semantic_error : PduRejectCause

abbrev pub pdu_reject_code : PduRejectCause → ℕ
pdu_reject_code PduRejectCause.no_reject = 0
pdu_reject_code PduRejectCause.insufficient_resources = 26
pdu_reject_code PduRejectCause.missing_dnn = 27
pdu_reject_code PduRejectCause.unknown_pdu_session_type = 28
pdu_reject_code PduRejectCause.semantic_error = 95

-- `enum ue_sm_pdu_request_type`
pub data PduRequestType : Type 0 where
  initial existing : PduRequestType

-- `struct ue_sm_pdu_session_est_request`
pub record EstRequest : Type 0 where
  pub attempt_id : ℕ
  pub pdu_session_id : ℕ
  pub pti : ℕ
  pub request_type : PduRequestType
  pub dnn : CString
  pub pdu_type : CString
  pub s_nssai_sst : ℕ
  pub has_existing_session : Bool

-- `struct ue_sm_pdu_session_est_result`, less `reject_class`, which ue_sm.c does not read.
pub record EstResult : Type 0 where
  pub submitted : Bool
  pub reject_cause : PduRejectCause
  pub selected_psi : ℕ
  pub assigned_ipv4 : List ℕ
  pub assigned_mtu : ℕ

-- `struct ue_sm_pdu_session_rel_request`
pub record RelRequest : Type 0 where
  pub attempt_id : ℕ
  pub pdu_session_id : ℕ
  pub pti : ℕ

-- `struct ue_sm_pdu_session_rel_result`, less `reject_class`, which ue_sm.c does not read.
pub record RelResult : Type 0 where
  pub submitted : Bool
  pub reject_cause : PduRejectCause

-- `struct ue_engine_runtime_ip`; an address is the list of its four bytes.
pub record RuntimeIp : Type 0 where
  pub ipv4_addr : List ℕ
  pub ipv4_gw : List ℕ
  pub dns1 : List ℕ
  pub dns2 : List ℕ
  pub mtu : ℕ

-- `struct ue_sm_ctx`
pub record SmCtx : Type 0 where
  pub state : SmState
  pub procedure : SmProcedure
  pub proc_step : SmProcStep
  pub last_cause : SmLastCause
  pub last_reject_class : RejectClass
  pub last_reject_cause_code : ℕ
  pub session_id : ℕ
  pub active_dnn : CString
  pub ip : RuntimeIp
  pub connect_requested : Bool
  pub disconnect_requested : Bool
  pub retry_count : ℕ
  pub max_retries : ℕ
  pub establishment_attempt_id : ℕ
  pub pti : ℕ
  pub next_pti : ℕ
  pub pdu_type : CString
  pub s_nssai_sst : ℕ
  pub next_step_deadline_ms : ℕ
  pub est_retx_count : ℕ

abbrev pub state_code : SmState → ℕ
state_code SmState.inactive = 0
state_code SmState.establishing = 1
state_code SmState.active = 2
state_code SmState.releasing = 3

abbrev pub in_state : SmCtx → SmState → Bool
in_state sm s = state_code sm.state == state_code s

abbrev pub step_code : SmProcStep → ℕ
step_code SmProcStep.none_step = 0
step_code SmProcStep.wait_establish_response = 1
step_code SmProcStep.wait_release_complete = 2

abbrev pub at_step : SmCtx → SmProcStep → Bool
at_step sm s = step_code sm.proc_step == step_code s

abbrev pub is_establishing : SmProcedure → Bool
is_establishing SmProcedure.idle = false
is_establishing SmProcedure.establish_pdu = true
is_establishing SmProcedure.release_pdu = false

abbrev pub is_semantic_error : PduRejectCause → Bool
is_semantic_error cause = pdu_reject_code cause == 95

abbrev pub t3580_ms : ℕ
t3580_ms = 16000

abbrev pub t3580_max_retx : ℕ
t3580_max_retx = 4

abbrev pub release_wait_ms : ℕ
release_wait_ms = 16000
