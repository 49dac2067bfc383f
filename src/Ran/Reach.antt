-- ===== src/Ran/Reach.antt =====
-- The states that the transport of src/ue_engine/ue_ran_transport.c can get to, and the state that a tick
-- leaves it in.
use virtuallte.Common.{
  ℕ, ◌≡◌, refl, ap, ◌∙◌, Bool, true, false, not, Option, none, some, List, inl, inr, CString,
  option_cases,
}
use virtuallte.Ran.State.{TransportState, is_state, SockAddr, Transport}
use virtuallte.Ran.Send.{Packet, send_nas_pdu, send_data_pdu}
use virtuallte.Ran.Receive.{Receipt, receive_pending}
use virtuallte.Ran.Cells.{expire_cells}
use virtuallte.Ran.Control.{
  init, refresh_sti, add_gnb, configure, start, stop, deinit, transition, heartbeat_cycle,
  ack_cycle, after_receive, tick, recv_nas_pdu, recv_data_pdu, is_connected,
}
use virtuallte.Ran.Best.{IsBest, best_from-IsBest}
use virtuallte.Ran.Invariant.{IsValid, expire_cells-IsValid}
use virtuallte.Ran.Traffic.{send_nas_pdu-IsValid, send_data_pdu-IsValid, receive_pending-IsValid}
use virtuallte.Ran.Events.{
  Left, Opened, cleared-IsValid, add_gnb-IsValid, configure-IsValid, recv_nas_pdu-IsValid,
  recv_data_pdu-IsValid,
}
use virtuallte.Ran.Ticks.{
  start-IsValid, stop-IsValid, tick-IsValid, heartbeat_cycle-IsValid, ack_cycle-IsValid,
}

-- The calls, with what the system answers in them.
pub data Event : Type 0 where
  identity : (hi lo : ℕ) → Event
  endpoint : CString → (port : ℕ) → Event
  endpoints : List CString → (port : ℕ) → Event
  starting : (success : Bool) → Event
  stopping ending : Event
  time : (now_ms : ℕ) → List Receipt → Event
  nas_out : List ℕ → (rrc_channel : ℕ) → Event
  data_out : (psi : ℕ) → List ℕ → Event
  nas_in data_in : (buf_len : ℕ) → Event

module _ (resolve : CString → ℕ → Option SockAddr) (sendto : SockAddr → List ℕ → Option ℕ) where
  unfoldable pub handle : Event → Transport → Transport
  handle (Event.identity hi lo) t = refresh_sti t hi lo
  handle (Event.endpoint address port) t = (add_gnb t address port).0
  handle (Event.endpoints addresses port) t = (configure t addresses port).0
  handle (Event.starting success) t = (start t success).0
  handle Event.stopping t = stop t
  handle Event.ending t = deinit t
  handle (Event.time now_ms receipts) t = (tick resolve sendto t now_ms receipts).0
  handle (Event.nas_out pdu rrc_channel) t = (send_nas_pdu resolve sendto t pdu rrc_channel).0
  handle (Event.data_out psi pdu) t = (send_data_pdu resolve sendto t psi pdu).0
  handle (Event.nas_in buf_len) t = (recv_nas_pdu t buf_len).0
  handle (Event.data_in buf_len) t = (recv_data_pdu t buf_len).0

  pub data Reach : Transport → Type 0 where
    initial : (hi lo : ℕ) → Reach (init hi lo)
    next : {t : Transport} (event : Event) → Reach t → Reach (handle event t)

  handle-Opened : (event : Event) (t : Transport) → Opened t → Opened (handle event t)
  unfolding handle refresh_sti deinit
  handle-Opened (Event.identity hi lo) t h = h
  handle-Opened (Event.endpoint address port) t (o, h) = (o, add_gnb-IsValid t address port h)
  handle-Opened (Event.endpoints addresses port) t (o, h) =
      (o, configure-IsValid t addresses port h)
  handle-Opened (Event.starting success) t (o, h) = start-IsValid t success h
  handle-Opened Event.stopping t (o, h) = (false, stop-IsValid t h)
  handle-Opened Event.ending t h = (false, cleared-IsValid)
  handle-Opened (Event.time now_ms receipts) t (o, h) =
      (o, tick-IsValid resolve sendto t now_ms receipts h)
  handle-Opened (Event.nas_out pdu rrc_channel) t (o, h) =
      (o, send_nas_pdu-IsValid resolve sendto t pdu rrc_channel h)
  handle-Opened (Event.data_out psi pdu) t (o, h) =
      (o, send_data_pdu-IsValid resolve sendto t psi pdu h)
  handle-Opened (Event.nas_in buf_len) t (o, h) = (o, recv_nas_pdu-IsValid t buf_len h)
  handle-Opened (Event.data_in buf_len) t (o, h) = (o, recv_data_pdu-IsValid t buf_len h)

  reached-Opened : {t : Transport} → Reach t → Opened t
  unfolding init
  reached-Opened (initial hi lo) = (false, cleared-IsValid)
  reached-Opened (next event before) = handle-Opened event _ (reached-Opened before)

  -- After any calls in any order, whatever the peers send and the system answers: the table has 16
  -- cells and `cell_count` is how many are in use, both queues are well formed, at most 64 ids wait
  -- and 8 endpoints are kept, and the socket is open just if the state is not idle. The serving cell
  -- is one of the table, in use, whose level is above -999 dBm and below that of no cell in use, and
  -- there is none only if no cell in use has a level above -999 dBm.
  pub Reach-Kept : {t : Transport} → Reach t → Opened t × IsBest t.cells t.serving_cell_id
  Reach-Kept r = let o = reached-Opened r in (o, best_from-IsBest _ _ o.1.serving_best)

-- There is a serving cell.
abbrev pub has_serving : Transport → Bool
has_serving t = elim t.serving_cell_id [ none ↦ false | some id ↦ true ]

transition-agrees :
    (state : TransportState) (t : Transport)
    → t.state ≡ state
    → is_state state TransportState.idle ≡ false
    → is_connected (transition t) ≡ has_serving (transition t)
unfolding transition
transition-agrees TransportState.idle t e busy = absurd (cc busy)
transition-agrees TransportState.searching t e busy = elim (option_cases t.serving_cell_id) [
  | inl gone ↦ rw (gone, e, transition, gone) refl
  | inr (id, there) ↦ rw (there, e, transition, there) refl
]
transition-agrees TransportState.connected t e busy = elim (option_cases t.serving_cell_id) [
  | inl gone ↦ rw (gone, e, transition, gone) refl
  | inr (id, there) ↦ rw (there, e, transition, there) refl
]
transition-agrees TransportState.lost t e busy = elim (option_cases t.serving_cell_id) [
  | inl gone ↦ rw (gone, e, transition, gone) refl
  | inr (id, there) ↦ rw (there, e, transition, there) refl
]

module _ (resolve : CString → ℕ → Option SockAddr) (sendto : SockAddr → List ℕ → Option ℕ) where
  after_receive-agrees :
      (received : Transport × Option ℕ) (packets : List Packet) (events now_ms n : ℕ)
      → Left true received
      → (after_receive resolve sendto received packets events now_ms).1.1 ≡ some n
      → is_connected ((after_receive resolve sendto received packets events now_ms).0)
        ≡ has_serving ((after_receive resolve sendto received packets events now_ms).0)
  unfolding after_receive
  after_receive-agrees (t, none) packets events now_ms n h good = absurd (cc good)
  after_receive-agrees (t, some rx) packets events now_ms n h good =
      let acked = ack_cycle-IsValid resolve sendto t now_ms h in
      transition-agrees _ ((ack_cycle resolve sendto t now_ms).0) refl
        (acked.open_unless_idle ∙ ap not acked.as_opened)

  -- After a tick of a started transport, in which `recvfrom` had no error, the transport is connected
  -- if it has a serving cell, and only then.
  pub tick-agrees :
      (t : Transport) (now_ms : ℕ) (receipts : List Receipt) (n : ℕ)
      → IsValid true t
      → (tick resolve sendto t now_ms receipts).1.1 ≡ some n
      → is_connected ((tick resolve sendto t now_ms receipts).0)
        ≡ has_serving ((tick resolve sendto t now_ms receipts).0)
  unfolding tick
  tick-agrees t now_ms receipts n h good =
      let busy : is_state t.state TransportState.idle ≡ false =
        h.open_unless_idle ∙ ap not h.as_opened in
      let beat = heartbeat_cycle resolve sendto (expire_cells t now_ms) now_ms in
      let valid =
        heartbeat_cycle-IsValid resolve sendto _ now_ms
          (expire_cells-IsValid t now_ms h.as_opened h) in
      rw (busy, tick)
        (after_receive-agrees (receive_pending resolve receipts beat.0 now_ms) beat.1.0 beat.1.1
          now_ms n (receive_pending-IsValid resolve receipts beat.0 now_ms valid)
          (rw (busy, tick) at good))
