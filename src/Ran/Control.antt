-- ===== src/Ran/Control.antt =====
-- The operations of src/ue_engine/ue_ran_transport.c on the whole transport. The numbers that `rand`
-- gives and the answer of the system to opening a socket are arguments.
use virtuallte.Common.{
  ℕ, ◌+◌, ◌-◌, ◌*◌, ◌%◌, ◌^◌, Bool, true, false, not, ◌||◌, ◌&&◌, ◌==◌, ltb, leb, if◌then◌else◌,
  Option, none, some, List, [], ◌∷◌, ◌++◌, length, take, replicate, get_or, Outcome, ok, reject,
  CString, copy_string,
}
use virtuallte.Ran.State.{
  max_gnb, max_cells, rx_queue_size, default_rls_port, default_hb_interval, default_hb_timeout,
  ack_send_interval, TransportState, is_state, SockAddr, no_cell, no_entry, RxQueue, Transport,
}
use virtuallte.Ran.Queue.{rx_queue_peek, rx_queue_pop}
use virtuallte.Ran.Cells.{find_cell_by_id, expire_cells, no_dbm}
use virtuallte.Ran.Send.{Packet, send_heartbeats, send_pending_acks}
use virtuallte.Ran.Receive.{Receipt, receive_pending}

abbrev pub no_queue : RxQueue
no_queue = record { slots = replicate rx_queue_size no_entry; head = 0; tail = 0 }

-- `memset(t, 0, sizeof(*t))` with the socket closed and no serving cell.
abbrev pub cleared : Transport
cleared = record {
  state = TransportState.idle;
  gnb_list = [];
  cells = replicate max_cells no_cell;
  cell_count = 0;
  serving_cell_id = none;
  next_cell_id = 0;
  sti = 0;
  socket_open = false;
  last_heartbeat_ms = 0;
  heartbeat_interval_ms = 0;
  heartbeat_timeout_ms = 0;
  next_pdu_id = 0;
  nas_queue = no_queue;
  data_queue = no_queue;
  pending_ack_ids = [];
  last_ack_send_ms = 0;
  tx_pdu_count = 0;
  rx_pdu_count = 0;
  tx_bytes = 0;
  rx_bytes = 0;
}

-- The random identity, from two numbers.
abbrev pub random_sti : ℕ → ℕ → ℕ
random_sti hi lo = hi % 2 ^ 32 * 2 ^ 32 + lo % 2 ^ 32

unfoldable pub init : ℕ → ℕ → Transport
init hi lo = record cleared {
  next_cell_id = 1;
  heartbeat_interval_ms = default_hb_interval;
  heartbeat_timeout_ms = default_hb_timeout;
  next_pdu_id = 1;
  sti = random_sti hi lo;
}

unfoldable pub refresh_sti : Transport → ℕ → ℕ → Transport
refresh_sti t hi lo = record t { sti = random_sti hi lo }

abbrev pub or_default_port : ℕ → ℕ
or_default_port port = if port == 0 then default_rls_port else port

-- The transport, and whether the call succeeded.
unfoldable pub add_gnb : Transport → CString → ℕ → Transport × Bool
add_gnb t address port = if leb max_gnb (length t.gnb_list) then (t, false) else (
  record t {
    gnb_list =
        t.gnb_list
        ++ ((record { address = copy_string 64 address; port = or_default_port port }) ∷ []);
  },
  true,
)

-- The loop over the addresses, which ends at the first that is refused.
unfoldable pub add_gnbs : Transport → List CString → ℕ → Transport × Bool
add_gnbs t [] port = (t, true)
add_gnbs t (address ∷ addresses) port =
    let added = add_gnb t address port in
    let rest = add_gnbs added.0 addresses port in if added.1 then rest else (added.0, false)

unfoldable pub configure : Transport → List CString → ℕ → Transport × Bool
configure t gnb_addresses default_port =
    if length gnb_addresses == 0
    then (t, false)
    else add_gnbs t (take max_gnb gnb_addresses) (or_default_port default_port)

abbrev pub emptied : RxQueue → RxQueue
emptied q = record q { head = 0; tail = 0 }

-- `opened` tells whether the socket was opened and set non-blocking.
unfoldable pub start : Transport → Bool → Transport × Bool
start t opened = if length t.gnb_list == 0 || not opened then (t, false) else (
  record t {
    last_heartbeat_ms = 0;
    last_ack_send_ms = 0;
    pending_ack_ids = [];
    data_queue = emptied t.data_queue;
    nas_queue = emptied t.nas_queue;
    cells = replicate max_cells no_cell;
    cell_count = 0;
    serving_cell_id = none;
    socket_open = true;
    state = TransportState.searching;
  },
  true,
)

unfoldable pub stop : Transport → Transport
stop t = record t {
  socket_open = false;
  state = TransportState.idle;
  cells = replicate max_cells no_cell;
  cell_count = 0;
  serving_cell_id = none;
  nas_queue = emptied t.nas_queue;
  data_queue = emptied t.data_queue;
  pending_ack_ids = [];
}

-- What is stopped first is wiped as a whole.
unfoldable pub deinit : Transport → Transport
deinit t = cleared

-- The state transitions at the end of a tick.
unfoldable pub transition : Transport → Transport
transition t = elim t.serving_cell_id [
  | some id ↦
      if is_state t.state TransportState.searching || is_state t.state TransportState.lost
      then record t { state = TransportState.connected }
      else t
  | none ↦
      if is_state t.state TransportState.connected
      then record t { state = TransportState.lost }
      else t
]

-- A time has come: never before, or `interval` ago, in 64 bits.
abbrev pub is_due : ℕ → ℕ → ℕ → Bool
is_due last now_ms interval = last == 0 || leb interval ((now_ms + 2 ^ 64 - last) % 2 ^ 64)

module _ (resolve : CString → ℕ → Option SockAddr) (sendto : SockAddr → List ℕ → Option ℕ) where
  -- The heartbeats, and the event that they count for.
  unfoldable pub heartbeat_cycle : Transport → ℕ → Transport × (List Packet × ℕ)
  heartbeat_cycle t now_ms =
      let sent = send_heartbeats resolve sendto t now_ms in
      if is_due t.last_heartbeat_ms now_ms t.heartbeat_interval_ms
      then (sent.0, (sent.1, 1))
      else (t, ([], 0))

  unfoldable pub ack_cycle : Transport → ℕ → Transport × List Packet
  ack_cycle t now_ms =
      let sent = send_pending_acks resolve sendto t now_ms in
      if ltb 0 (length t.pending_ack_ids) && is_due t.last_ack_send_ms now_ms ack_send_interval
      then sent
      else (t, [])

  -- What follows the receipt: an error of it ends the tick.
  unfoldable pub after_receive :
      Transport × Option ℕ → List Packet → ℕ → ℕ → Transport × (List Packet × Option ℕ)
  after_receive (t, none) packets events now_ms = (t, (packets, none))
  after_receive (t, some rx) packets events now_ms =
      let acked = ack_cycle t now_ms in
      (transition acked.0, (packets ++ acked.1, some (events + rx)))

  -- The transport, what went out, and the number of events, or `none` for an error.
  unfoldable pub tick : Transport → ℕ → List Receipt → Transport × (List Packet × Option ℕ)
  tick t now_ms receipts =
      if is_state t.state TransportState.idle
      then (t, ([], some 0))
      else let beat = heartbeat_cycle (expire_cells t now_ms) now_ms in
        after_receive (receive_pending resolve receipts beat.0 now_ms) beat.1.0 beat.1.1 now_ms

-- The number of bytes that are copied to a buffer of `buf_len` bytes.
abbrev pub copy_len : ℕ → ℕ → ℕ
copy_len len buf_len = if leb len (buf_len % 2 ^ 32) then len else buf_len % 2 ^ 32

-- The answer is refused, nothing, or a channel with the bytes of the PDU.
unfoldable pub recv_nas_pdu : Transport → ℕ → Transport × Outcome (Option (ℕ × List ℕ))
recv_nas_pdu t buf_len = if buf_len == 0 then (t, reject) else elim (rx_queue_peek t.nas_queue) [
  | none ↦ (t, ok none)
  | some e ↦ (
    record t { nas_queue = rx_queue_pop t.nas_queue },
    ok (some (e.rrc_channel, take (copy_len (length e.bytes) buf_len) e.bytes)),
  )
]

unfoldable pub recv_data_pdu : Transport → ℕ → Transport × Outcome (Option (ℕ × List ℕ))
recv_data_pdu t buf_len = if buf_len == 0 then (t, reject) else elim (rx_queue_peek t.data_queue) [
  | none ↦ (t, ok none)
  | some e ↦ (
    record t { data_queue = rx_queue_pop t.data_queue },
    ok (some (e.psi, take (copy_len (length e.bytes) buf_len) e.bytes)),
  )
]

abbrev pub is_connected : Transport → Bool
is_connected t = is_state t.state TransportState.connected

unfoldable pub serving_cell_dbm : Transport → ℕ
serving_cell_dbm t = elim (find_cell_by_id t t.serving_cell_id) [
  | none ↦ no_dbm
  | some i ↦ (get_or t.cells i no_cell).dbm
]
