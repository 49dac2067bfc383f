-- ===== src/Ran/Ticks.antt =====
-- Starting, stopping and a tick keep the transport of src/ue_engine/ue_ran_transport.c valid.
use virtuallte.Common.{
  ℕ, ◌≡◌, refl, ◌∙◌, Bool, true, false, ◌||◌, Option, none, some, List, arith, Bool-cases, inl, inr,
  if_both, option_both, CString,
}
use virtuallte.Ran.State.{TransportState, is_state, SockAddr, Transport}
use virtuallte.Ran.Cells.{best_from}
use virtuallte.Ran.Send.{Packet}
use virtuallte.Ran.Receive.{Receipt}
use virtuallte.Ran.Control.{
  start, stop, transition, heartbeat_cycle, ack_cycle, after_receive, tick,
}
use virtuallte.Ran.Invariant.{IsValid, expire_cells-IsValid}
use virtuallte.Ran.Traffic.{
  receive_pending-IsValid, send_heartbeats-IsValid, send_pending_acks-IsValid,
}
use virtuallte.Ran.Events.{Left, Opened, emptied-IsQueue}

-- Another state, in which the socket is as open as before.
with_state :
    {opened : Bool} (t : Transport) (state : TransportState)
    → IsValid opened t
    → is_state state TransportState.idle ≡ is_state t.state TransportState.idle
    → IsValid opened (record t { state = state })
with_state t state h same = record {
  table_size = h.table_size;
  counted = h.counted;
  serving_best = h.serving_best;
  nas_queue = h.nas_queue;
  data_queue = h.data_queue;
  acks_bounded = h.acks_bounded;
  gnbs_bounded = h.gnbs_bounded;
  open_unless_idle = same ∙ h.open_unless_idle;
  as_opened = h.as_opened;
}

waiting_state :
    (s : TransportState)
    → (is_state s TransportState.searching || is_state s TransportState.lost) ≡ true
    → false ≡ is_state s TransportState.idle
waiting_state TransportState.idle h = h
waiting_state TransportState.searching h = refl
waiting_state TransportState.connected h = refl
waiting_state TransportState.lost h = refl

connected_state :
    (s : TransportState)
    → is_state s TransportState.connected ≡ true
    → false ≡ is_state s TransportState.idle
connected_state TransportState.idle h = h
connected_state TransportState.searching h = refl
connected_state TransportState.connected h = refl
connected_state TransportState.lost h = refl

pub transition-IsValid :
    {opened : Bool} (t : Transport) → IsValid opened t → IsValid opened (transition t)
unfolding transition
transition-IsValid {opened} t h =
    option_both (IsValid opened) t.serving_cell_id _ _
      (elim (Bool-cases (is_state t.state TransportState.connected)) [
        | inl was ↦ rw was (with_state t TransportState.lost h (connected_state t.state was))
        | inr other ↦ rw other h
      ])
      (λ id.
        elim (Bool-cases
          (is_state t.state TransportState.searching || is_state t.state TransportState.lost)) [
            | inl was ↦ rw was (with_state t TransportState.connected h (waiting_state t.state was))
            | inr other ↦ rw other h
          ])

pub stop-IsValid : {opened : Bool} (t : Transport) → IsValid opened t → IsValid false (stop t)
unfolding stop best_from
stop-IsValid t h = record {
  table_size = refl;
  counted = refl;
  serving_best = refl;
  nas_queue = emptied-IsQueue t.nas_queue h.nas_queue;
  data_queue = emptied-IsQueue t.data_queue h.data_queue;
  acks_bounded = omega arith;
  gnbs_bounded = h.gnbs_bounded;
  open_unless_idle = refl;
  as_opened = refl;
}

pub start-IsValid :
    {opened : Bool} (t : Transport) (success : Bool)
    → IsValid opened t
    → Opened ((start t success).0)
unfolding start best_from
start-IsValid {opened} t success h =
    if_both (λ (s : Transport × Bool). Opened s.0) _ _ _ (opened, h)
      (
        true,
        record {
          table_size = refl;
          counted = refl;
          serving_best = refl;
          nas_queue = emptied-IsQueue t.nas_queue h.nas_queue;
          data_queue = emptied-IsQueue t.data_queue h.data_queue;
          acks_bounded = omega arith;
          gnbs_bounded = h.gnbs_bounded;
          open_unless_idle = refl;
          as_opened = refl;
        },
      )

module _ (resolve : CString → ℕ → Option SockAddr) (sendto : SockAddr → List ℕ → Option ℕ) where
  pub heartbeat_cycle-IsValid :
      {opened : Bool} (t : Transport) (now_ms : ℕ)
      → IsValid opened t
      → Left opened (heartbeat_cycle resolve sendto t now_ms)
  unfolding heartbeat_cycle
  heartbeat_cycle-IsValid {opened} t now_ms h =
      if_both (Left opened) _ _ _ (send_heartbeats-IsValid resolve sendto t now_ms h) h

  pub ack_cycle-IsValid :
      {opened : Bool} (t : Transport) (now_ms : ℕ)
      → IsValid opened t
      → Left opened (ack_cycle resolve sendto t now_ms)
  unfolding ack_cycle
  ack_cycle-IsValid {opened} t now_ms h =
      if_both (Left opened) _ _ _ (send_pending_acks-IsValid resolve sendto t now_ms h) h

  after_receive-IsValid :
      {opened : Bool} (received : Transport × Option ℕ) (packets : List Packet) (events now_ms : ℕ)
      → Left opened received
      → Left opened (after_receive resolve sendto received packets events now_ms)
  unfolding after_receive
  after_receive-IsValid (t, none) packets events now_ms h = h
  after_receive-IsValid (t, some rx) packets events now_ms h =
      transition-IsValid ((ack_cycle resolve sendto t now_ms).0) (ack_cycle-IsValid t now_ms h)

  pub tick-IsValid :
      {opened : Bool} (t : Transport) (now_ms : ℕ) (receipts : List Receipt)
      → IsValid opened t
      → Left opened (tick resolve sendto t now_ms receipts)
  unfolding tick
  tick-IsValid t now_ms receipts h = elim (Bool-cases (is_state t.state TransportState.idle)) [
    | inl idle ↦ rw idle h
    | inr busy ↦
        let up : t.socket_open ≡ true = ground (arith, h.open_unless_idle) in
        rw busy (
          after_receive-IsValid _ _ _ now_ms (
            receive_pending-IsValid resolve receipts _ now_ms
              (heartbeat_cycle-IsValid _ now_ms (expire_cells-IsValid t now_ms up h))))
  ]
