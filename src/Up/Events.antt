-- ===== src/Up/Events.antt =====
-- What can happen to the user plane of ue_up.c: its operations as events, and runs of them.
use virtuallte.Common.{ℕ, Bool, List, Option, Outcome, ok, reject, fault, arith, Safe, CString}
use virtuallte.Sm.State.{RuntimeIp}
use virtuallte.Up.State.{UpCtx, Callback, init}
use virtuallte.Up.Packets.{Datagram, send_uplink, send_internal_uplink, process_downlink}
use virtuallte.Up.{
  set_transport, set_downlink_callback, set_internal_downlink_callback, bind_session_ex, deinit,
  unbind_session, unbind_session_psi, tick, suspend, resume,
}
use virtuallte.Up.Invariant.{
  IsBound, init-IsBound, deinit-IsBound, bind_session_ex-Safe, unbind_session-IsBound,
  unbind_session_psi-IsBound, send_uplink-IsBound, send_internal_uplink-IsBound, tick-IsBound,
  suspend-IsBound, resume-IsBound, drain-IsBound,
}

pub data Event : Type 0 where
  transport : Bool → Event
  host_callback internal_callback : Option Callback → Event
  bind :
      (connected : Bool) (psi : ℕ) (dnn pdu_type : Option CString) (ip : Option RuntimeIp)
      (host_visible : Bool)
      → Event
  unbind paused resumed end : Event
  unbind_psi : ℕ → Event
  uplink : Callback → List ℕ → Event
  internal_uplink : Callback → ℕ → List ℕ → Event
  downlink : (connected : Bool) → List Datagram → Event
  tick_with : (connected : Bool) → Event

-- The context after a call that may fail: a failed one leaves it.
abbrev after {ℓ} : {A : Type ℓ} → (A → UpCtx) → UpCtx → Outcome A → UpCtx
after f up (ok a) = f a
after f up reject = up
after f up fault = up

pub handle : Event → UpCtx → UpCtx
handle (Event.transport t) up = set_transport up t
handle (Event.host_callback cb) up = set_downlink_callback up cb
handle (Event.internal_callback cb) up = set_internal_downlink_callback up cb
handle (Event.bind connected psi dnn pdu_type ip visible) up =
    after (λ r. r) up (bind_session_ex up connected psi dnn pdu_type ip visible)
handle Event.unbind up = unbind_session up
handle (Event.unbind_psi psi) up = unbind_session_psi up psi
handle Event.paused up = suspend up
handle Event.end up = deinit up
handle Event.resumed up = resume up
handle (Event.uplink accepts packet) up = (send_uplink up accepts packet).up
handle (Event.internal_uplink accepts psi packet) up =
    (send_internal_uplink up accepts psi packet).up
handle (Event.downlink connected queue) up =
    after (λ r. r.up) up (process_downlink up connected queue)
handle (Event.tick_with connected) up = tick up connected

pub data Reach : UpCtx → Type 0 where
  start : Reach init
  next : {up : UpCtx} (e : Event) → Reach up → Reach (handle e up)

after-IsBound :
    (up : UpCtx) (m : Outcome UpCtx) → IsBound up → Safe IsBound m → IsBound (after (λ r. r) up m)
after-IsBound up (ok a) h k = k
after-IsBound up reject h k = h
after-IsBound up fault h k = h

handle-IsBound : (e : Event) {up : UpCtx} → IsBound up → IsBound (handle e up)
unfolding handle
handle-IsBound (Event.transport t) h = unfold set_transport in ground (arith, h)
handle-IsBound (Event.host_callback cb) h = unfold set_downlink_callback in ground (arith, h)
handle-IsBound (Event.internal_callback cb) h =
    unfold set_internal_downlink_callback in ground (arith, h)
handle-IsBound (Event.bind connected psi dnn pdu_type ip visible) h =
    after-IsBound _ _ h (bind_session_ex-Safe h connected psi dnn pdu_type ip visible)
handle-IsBound Event.unbind h = unbind_session-IsBound h
handle-IsBound (Event.unbind_psi psi) h = unbind_session_psi-IsBound h psi
handle-IsBound Event.end h = deinit-IsBound h
handle-IsBound Event.paused h = suspend-IsBound h
handle-IsBound Event.resumed h = resume-IsBound h
handle-IsBound (Event.uplink accepts packet) h = send_uplink-IsBound h accepts packet
handle-IsBound (Event.internal_uplink accepts psi packet) h =
    send_internal_uplink-IsBound h accepts psi packet
handle-IsBound (Event.downlink connected queue) {up} h =
    unfold process_downlink in ground (arith, h, drain-IsBound queue up h)
handle-IsBound (Event.tick_with connected) h = tick-IsBound h connected

-- In every run of the operations from an initialised context, the table keeps its 16 entries, a
-- host session has an id from 1 to 15, and the state is IDLE exactly while there is no host
-- session, which then has the id 0.
pub Reach-IsBound : {up : UpCtx} → Reach up → IsBound up
Reach-IsBound Reach.start = init-IsBound
Reach-IsBound (Reach.next e r) = handle-IsBound e (Reach-IsBound r)
