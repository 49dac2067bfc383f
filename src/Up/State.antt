-- ===== src/Up/State.antt =====
-- The state of the user plane of src/ue_engine/ue_up.h.
use virtuallte.Common.{
  ℕ, Bool, false, ◌||◌, ◌==◌, ltb, Option, none, List, [], get_or, replicate, CString,
}

-- `enum ue_up_state`
pub data UpState : Type 0 where
  idle binding active suspended : UpState

abbrev pub state_code : UpState → ℕ
state_code UpState.idle = 0
state_code UpState.binding = 1
state_code UpState.active = 2
state_code UpState.suspended = 3

-- `struct ue_up_session`
pub record UpSession : Type 0 where
  pub used : Bool
  pub host_visible : Bool
  pub psi : ℕ
  pub dnn : CString
  pub pdu_type : CString
  pub ipv4_addr : List ℕ
  pub ipv4_gw : List ℕ
  pub dns1 : List ℕ
  pub dns2 : List ℕ
  pub mtu : ℕ

abbrev pub empty_session : UpSession
empty_session = record {
  used = false;
  host_visible = false;
  psi = 0;
  dnn = [];
  pdu_type = [];
  ipv4_addr = replicate 4 0;
  ipv4_gw = replicate 4 0;
  dns1 = replicate 4 0;
  dns2 = replicate 4 0;
  mtu = 0;
}

abbrev pub Callback : Type 0
Callback = ℕ → List ℕ → Bool

-- `struct ue_up_ctx`
pub record UpCtx : Type 0 where
  pub state : UpState
  pub session : UpSession
  pub has_session : Bool
  pub sessions : List UpSession
  pub host_psi : ℕ
  pub has_transport : Bool
  pub dl_callback : Option Callback
  pub internal_dl_callback : Option Callback
  pub ul_packets : ℕ
  pub dl_packets : ℕ
  pub ul_bytes : ℕ
  pub dl_bytes : ℕ
  pub ul_drops : ℕ
  pub dl_drops : ℕ

unfoldable pub init : UpCtx
init = record {
  state = UpState.idle;
  session = empty_session;
  has_session = false;
  sessions = replicate 16 empty_session;
  host_psi = 0;
  has_transport = false;
  dl_callback = none;
  internal_dl_callback = none;
  ul_packets = 0;
  dl_packets = 0;
  ul_bytes = 0;
  dl_bytes = 0;
  ul_drops = 0;
  dl_drops = 0;
}

abbrev pub in_state : UpCtx → UpState → Bool
in_state up s = state_code up.state == state_code s

abbrev pub session_at : UpCtx → ℕ → UpSession
session_at up psi = get_or up.sessions psi empty_session

abbrev pub out_of_range : ℕ → Bool
out_of_range psi = ltb psi 1 || ltb 15 psi
