-- ===== src/Up/Invariant.antt =====
-- What the operations of ue_up.c keep true of the user plane.
use virtuallte.Common.{
  ℕ, ◌≤◌, ◌≡◌, ◌≢◌, Bool, true, false, List, [], ◌∷◌, take, length, length-set, arith, CString,
  Option, Safe, Safe-if,
}
use virtuallte.Sm.State.{RuntimeIp}
use virtuallte.Up.State.{UpState, UpSession, UpCtx, Callback, init, out_of_range, empty_session}
use virtuallte.Up.{
  store_session, bind_session_ex, new_session, deinit, unbind_session, unbind_session_psi, tick,
  suspend, resume,
}
use virtuallte.Up.Packets.{send_uplink, send_internal_uplink, offer, route, drain, Datagram}

-- A host session has its id, and a data path exists for a host session only.
pub record IsBound (up : UpCtx) : Type 0 where
  pub table_size : length up.sessions ≡ 16
  pub id_of_session : up.has_session ≡ true → (1 ≤ up.host_psi) × (up.host_psi ≤ 15)
  pub no_id : up.has_session ≡ false → up.host_psi ≡ 0
  pub no_path : up.has_session ≡ false → up.state ≡ UpState.idle
  pub path : up.has_session ≡ true → up.state ≢ UpState.idle

pub init-IsBound : IsBound init
unfolding init
init-IsBound = ground arith

module _ {up : UpCtx} (h : IsBound up) where
  store_session-IsBound :
      (connected : Bool) (psi : ℕ) (s : UpSession)
      → 1 ≤ psi
      → psi ≤ 15
      → IsBound (store_session up connected psi s)
  unfolding store_session
  store_session-IsBound connected psi s low high =
      ground (arith, h, length-set {0} up.sessions psi s)

  pub bind_session_ex-Safe :
      (connected : Bool) (psi : ℕ) (dnn pdu_type : Option CString) (ip : Option RuntimeIp)
      (host_visible : Bool)
      → Safe IsBound (bind_session_ex up connected psi dnn pdu_type ip host_visible)
  unfolding bind_session_ex
  bind_session_ex-Safe connected psi dnn pdu_type ip host_visible =
      Safe-if _ (out_of_range psi) _ _ (λ _. tt)
        (λ inside.
          store_session-IsBound connected psi (new_session psi dnn pdu_type ip host_visible)
            (ground arith) (ground arith))

  pub deinit-IsBound : IsBound (deinit up)
  unfolding deinit unbind_session
  deinit-IsBound = ground (arith, h)

  pub unbind_session-IsBound : IsBound (unbind_session up)
  unfolding unbind_session
  unbind_session-IsBound = ground (arith, h, length-set {0} up.sessions up.host_psi empty_session)

  pub unbind_session_psi-IsBound : (psi : ℕ) → IsBound (unbind_session_psi up psi)
  unfolding unbind_session_psi
  unbind_session_psi-IsBound psi = ground (arith, h, length-set {0} up.sessions psi empty_session)

  pub send_uplink-IsBound :
      (accepts : Callback) (packet : List ℕ) → IsBound (send_uplink up accepts packet).up
  unfolding send_uplink offer
  send_uplink-IsBound accepts packet = ground (arith, h)

  pub send_internal_uplink-IsBound :
      (accepts : Callback) (psi : ℕ) (packet : List ℕ)
      → IsBound (send_internal_uplink up accepts psi packet).up
  unfolding send_internal_uplink offer
  send_internal_uplink-IsBound accepts psi packet = ground (arith, h)

  pub tick-IsBound : (connected : Bool) → IsBound (tick up connected)
  unfolding tick
  tick-IsBound connected = ground (arith, h)

  pub suspend-IsBound : IsBound (suspend up)
  unfolding suspend
  suspend-IsBound = ground (arith, h)

  pub resume-IsBound : IsBound (resume up)
  unfolding resume
  resume-IsBound = ground (arith, h)

  pub route-IsBound : (d : Datagram) → IsBound (route up d).up
  unfolding route
  route-IsBound d = ground (arith, h)

pub drain-IsBound : (queue : List Datagram) (up : UpCtx) → IsBound up → IsBound (drain up queue).up
unfolding drain
drain-IsBound [] up h = h
drain-IsBound (d ∷ queue) up h =
    let cut : Datagram = record d { packet = take 16384 d.packet } in
    let rest = drain-IsBound queue (route up cut).up (route-IsBound h cut) in
    ground (arith, h, rest)
