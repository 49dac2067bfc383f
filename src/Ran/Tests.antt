-- ===== src/Ran/Tests.antt =====
-- The transport with one endpoint and one cell, step by step.
use virtuallte.Common.{
  ℕ, ◌-◌, ◌^◌, ◌≤◌, ◌≡◌, refl, true, false, ◌==◌, Option, none, some, List, [], ◌∷◌, ◌++◌, length,
  replicate, arith, if◌then◌else◌, CString, ok,
}
use virtuallte.Ran.State.{TransportState, SockAddr, CellInfo, no_cell, RxEntry, Transport}
use virtuallte.Ran.Queue.{rx_queue_push, rx_queue_peek}
use virtuallte.Ran.Cells.{find_from, find_cell_by_id, best_from, expire_from, expire_cells}
use virtuallte.Ran.Send.{cell_addr, send_data_pdu}
use virtuallte.Ran.Receive.{
  Receipt, receive_pending, receive_from, receive_one, peer_is_known, is_cell_addr, is_gnb_addr,
  sa_in_equal,
}
use virtuallte.Ran.Control.{
  init, cleared, no_queue, tick, heartbeat_cycle, after_receive, ack_cycle, is_connected,
  recv_data_pdu,
}
use virtuallte.Ran.Fifo.{
  IsQueue, contents, contents-push, push-IsQueue, put_last, drop_front, front, behind,
  queue-Refines,
}
use virtuallte.Ran.Best.{IsBest}
use virtuallte.Ran.Invariant.{IsValid, used}
use virtuallte.Ran.Events.{Opened}
use virtuallte.Ran.Reach.{Event, Reach, handle, Reach-Kept, has_serving, tick-agrees}
use virtuallte.Ran.Ages.{AllAged, expire_cells_lem}
use virtuallte.Ran.Delivery.{data_entry, data_pdu-delivered, recv_data_pdu-oldest}

abbrev gnb : SockAddr
gnb = record { family = 2; s_addr = 0x0100007F; port = 4997 }

abbrev stranger : SockAddr
stranger = record { family = 2; s_addr = 0x0100000A; port = 4997 }

abbrev resolve : CString → ℕ → Option SockAddr
resolve address port = none

abbrev sendto : SockAddr → List ℕ → Option ℕ
sendto addr bytes = some (length bytes)

-- Two cells of -80 and of -60 dBm.
abbrev far : CellInfo
far = record {
  valid = true;
  sti = 7;
  cell_id = 1;
  dbm = 2 ^ 32 - 80;
  last_seen_ms = 1000;
  addr = some gnb;
}

abbrev near : CellInfo
near = record {
  valid = true;
  sti = 8;
  cell_id = 2;
  dbm = 2 ^ 32 - 60;
  last_seen_ms = 3000;
  addr = some gnb;
}

abbrev linked : Transport
linked = record cleared {
  state = TransportState.connected;
  cells = far ∷ near ∷ replicate 14 no_cell;
  cell_count = 2;
  serving_cell_id = some 2;
  next_cell_id = 3;
  socket_open = true;
  sti = 99;
  last_heartbeat_ms = 3000;
  heartbeat_interval_ms = 1000;
  heartbeat_timeout_ms = 2000;
}

no_queue-IsQueue : IsQueue no_queue
no_queue-IsQueue = record { size = refl; head_below = omega arith; tail_below = omega arith }

linked-IsValid : IsValid true linked
unfolding best_from
linked-IsValid = record {
  table_size = refl;
  counted = refl;
  serving_best = refl;
  nas_queue = no_queue-IsQueue;
  data_queue = no_queue-IsQueue;
  acks_bounded = omega arith;
  gnbs_bounded = omega arith;
  open_unless_idle = refl;
  as_opened = refl;
}

-- After 3500 ms the far cell is given up.
expire_run :
    (expire_cells linked 3500).cells ≡ record far { valid = false } ∷ near ∷ replicate 14 no_cell
unfolding expire_cells expire_from
expire_run = refl

abbrev packet_entry : RxEntry
packet_entry = data_entry 5 (0x45 ∷ 0 ∷ [])

queue-Refines_example :
    (length (contents no_queue) ≤ 31)
    × (contents (put_last no_queue packet_entry) ≡ (
        if length (contents no_queue) == 31
        then contents no_queue
        else contents no_queue ++ (packet_entry ∷ [])))
    × (rx_queue_peek no_queue ≡ front (contents no_queue))
    × (contents (drop_front no_queue) ≡ behind (contents no_queue))
queue-Refines_example = queue-Refines no_queue packet_entry no_queue-IsQueue

abbrev started : Transport
started =
    handle resolve sendto (Event.starting true)
      (handle resolve sendto (Event.endpoint (0x61 ∷ []) 0) (init 1 2))

Reach-Kept_example : Opened started × IsBest started.cells started.serving_cell_id
Reach-Kept_example = Reach-Kept resolve sendto (
    Reach.next (Event.starting true)
      (Reach.next (Event.endpoint (0x61 ∷ []) 0) (Reach.initial 1 2)))

tick_answers :
    (tick resolve sendto linked 3500 (Receipt.datagram stranger (1 ∷ 2 ∷ []) ∷ [])).1.1 ≡ some 0
unfolding tick heartbeat_cycle after_receive ack_cycle receive_pending receive_from receive_one
    peer_is_known is_cell_addr is_gnb_addr sa_in_equal expire_cells expire_from
tick_answers = refl

tick-agrees_example :
    is_connected ((tick resolve sendto linked 3500 (Receipt.datagram stranger (1 ∷ 2 ∷ []) ∷ [])).0)
    ≡ has_serving
        ((tick resolve sendto linked 3500 (Receipt.datagram stranger (1 ∷ 2 ∷ []) ∷ [])).0)
tick-agrees_example =
    tick-agrees resolve sendto linked 3500 (Receipt.datagram stranger (1 ∷ 2 ∷ []) ∷ []) 0
      linked-IsValid tick_answers

expire_cells_lem_example :
    AllAged 3500 2000 linked.cells ((expire_cells linked 3500).cells)
    × ((expire_cells linked 3500).cell_count ≡ used ((expire_cells linked 3500).cells))
    × IsBest ((expire_cells linked 3500).cells) ((expire_cells linked 3500).serving_cell_id)
expire_cells_lem_example = expire_cells_lem linked 3500 linked-IsValid

gnb_known : peer_is_known resolve linked gnb ≡ true
unfolding peer_is_known is_cell_addr sa_in_equal
gnb_known = refl

serving_addr : cell_addr linked (some 2) ≡ some gnb
unfolding cell_addr find_cell_by_id find_from
serving_addr = refl

data_pdu-delivered_example :
    (bytes : List ℕ) × ((send_data_pdu resolve sendto linked 5 (0x45 ∷ 0 ∷ [])).1
      ≡ ((record { addr = gnb; bytes = bytes } ∷ []), true))
    × (contents ((receive_one resolve linked gnb bytes 3500).0.data_queue)
        ≡ contents no_queue ++ (packet_entry ∷ []))
data_pdu-delivered_example =
    data_pdu-delivered resolve sendto linked linked 5 (0x45 ∷ 0 ∷ []) gnb gnb 3500 refl refl
      serving_addr (λ bytes. refl) (omega arith) (omega arith) (omega arith) (omega arith)
      (omega arith) no_queue-IsQueue refl gnb_known

abbrev waiting : Transport
waiting = record linked { data_queue = rx_queue_push no_queue packet_entry }

recv_data_pdu-oldest_example :
    ((recv_data_pdu waiting 2048).1 ≡ ok (some (5, 0x45 ∷ 0 ∷ [])))
    × (contents ((recv_data_pdu waiting 2048).0.data_queue) ≡ [])
recv_data_pdu-oldest_example =
    recv_data_pdu-oldest waiting 2048 packet_entry []
      (push-IsQueue no_queue packet_entry no_queue-IsQueue)
      (contents-push no_queue packet_entry no_queue-IsQueue refl) (omega arith) (omega arith)
      (omega arith)
