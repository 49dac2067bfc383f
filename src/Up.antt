-- ===== src/Up.antt =====
-- src/ue_engine/ue_up.c: the user plane of the UE, which takes IP packets between the host, the
-- internal services and the RAN transport.
-- The transport is seen through what this file asks it: `connected` is the answer of
-- `ue_ran_transport_is_connected`, `accepts` that of `ue_ran_transport_send_data_pdu`, and the list
-- of the downlink operation holds the entries of its data queue, oldest first. A callback is the
-- function from a session id and a packet to its success. What a call hands to the transport or to
-- a callback is part of its result. Logging is left out, and so are the two bit rates of a session,
-- which nothing sets. A session id below 0 is refused wherever 0 is, and is not represented.
pub mod State
pub mod Packets
pub mod Invariant
pub mod Events
pub mod Downlink
pub mod Uplink
mod Tests
use virtuallte.Common.{
  ℕ, zero, suc, ◌+◌, ◌%◌, ◌^◌, Bool, true, false, not, ◌||◌, ◌&&◌, ◌==◌, ltb, leb, if◌then◌else◌,
  Option, none, some, List, [], ◌∷◌, length, take, set, get_or, replicate, CString, copy_string,
  Outcome, ok, reject,
}
use virtuallte.Up.State.{
  UpState, state_code, UpSession, empty_session, Callback, UpCtx, init, in_state, session_at,
  out_of_range,
}
use virtuallte.Up.Packets.{
  Datagram, Sent, refuse, ul_drop, offer, send_uplink, send_internal_uplink, Delivery, Routed,
  dl_drop, route, Drained, add_delivery, drain, any_used, tail_sessions, process_downlink,
}
use virtuallte.Sm.State.{RuntimeIp}

pub set_transport : UpCtx → Bool → UpCtx
set_transport up present = record up { has_transport = present }

pub set_downlink_callback : UpCtx → Option Callback → UpCtx
set_downlink_callback up cb = record up { dl_callback = cb }

pub set_internal_downlink_callback : UpCtx → Option Callback → UpCtx
set_internal_downlink_callback up cb = record up { internal_dl_callback = cb }

abbrev pub string_field : ℕ → Option CString → CString
string_field size none = []
string_field size (some s) = copy_string size s

-- The session that a binding leaves in the table.
pub new_session : ℕ → Option CString → Option CString → Option RuntimeIp → Bool → UpSession
new_session psi dnn pdu_type ip host_visible =
    let s : UpSession = record empty_session {
      used = true;
      host_visible = host_visible;
      psi = psi;
      dnn = string_field 64 dnn;
      pdu_type = string_field 16 pdu_type;
    } in
    elim ip [
      | none ↦ s
      | some a ↦ record s {
        ipv4_addr = a.ipv4_addr;
        ipv4_gw = a.ipv4_gw;
        dns1 = a.dns1;
        dns2 = a.dns2;
        mtu = a.mtu;
      }
    ]

-- The state after a binding.
abbrev pub bound_state : UpCtx → Bool → UpState
bound_state up connected =
    if up.has_session && up.has_transport && connected
    then UpState.active
    else if up.has_session
    then UpState.binding
    else up.state

-- What `ue_up_bind_session_ex` does with the session that it built.
pub store_session : UpCtx → Bool → ℕ → UpSession → UpCtx
store_session up connected psi s =
    (let up1 : UpCtx = record up { sessions = set up.sessions psi s } in
      let up2 : UpCtx =
        if s.host_visible
        then record up1 { session = s; has_session = true; host_psi = psi }
        else up1 in
      record up2 { state = bound_state up2 connected })

-- `ue_up_bind_session_ex`; it fails out of range.
pub bind_session_ex :
    UpCtx → Bool → ℕ → Option CString → Option CString → Option RuntimeIp → Bool → Outcome UpCtx
bind_session_ex up connected psi dnn pdu_type ip host_visible =
    if out_of_range psi
    then reject
    else ok (store_session up connected psi (new_session psi dnn pdu_type ip host_visible))

pub bind_session :
    UpCtx → Bool → ℕ → Option CString → Option CString → Option RuntimeIp → Outcome UpCtx
bind_session up connected psi dnn pdu_type ip =
    bind_session_ex up connected psi dnn pdu_type ip true

pub unbind_session : UpCtx → UpCtx
unbind_session up = record up {
  sessions =
      if leb 1 up.host_psi && leb up.host_psi 15
      then set up.sessions up.host_psi empty_session
      else up.sessions;
  session = empty_session;
  has_session = false;
  host_psi = 0;
  state = UpState.idle;
}

pub unbind_session_psi : UpCtx → ℕ → UpCtx
unbind_session_psi up psi =
    if out_of_range psi
    then up
    else if not (session_at up psi).used
    then up
    else (let up1 : UpCtx = record up { sessions = set up.sessions psi empty_session } in
        if up.host_psi == psi
        then record up1 {
          session = empty_session;
          has_session = false;
          host_psi = 0;
          state = UpState.idle;
        }
        else up1)

-- `ue_up_tick`
pub tick : UpCtx → Bool → UpCtx
tick up connected =
    if not (up.has_session && up.has_transport)
    then up
    else if in_state up UpState.binding && connected
    then record up { state = UpState.active }
    else if in_state up UpState.active && not connected
    then record up { state = UpState.suspended }
    else if in_state up UpState.suspended && connected
    then record up { state = UpState.active }
    else up

pub suspend : UpCtx → UpCtx
suspend up = if in_state up UpState.active then record up { state = UpState.suspended } else up

pub resume : UpCtx → UpCtx
resume up = if in_state up UpState.suspended then record up { state = UpState.active } else up

-- `ue_up_deinit`: the session is unbound, and the whole context is cleared.
pub deinit : UpCtx → UpCtx
deinit up = record (unbind_session up) {
  sessions = replicate 16 empty_session;
  has_transport = false;
  dl_callback = none;
  internal_dl_callback = none;
  ul_packets = 0;
  dl_packets = 0;
  ul_bytes = 0;
  dl_bytes = 0;
  ul_drops = 0;
  dl_drops = 0;
}

abbrev pub is_active : UpCtx → Bool
is_active up = in_state up UpState.active && up.has_session

pub get_session : UpCtx → Option UpSession
get_session up = if up.has_session then some up.session else none
