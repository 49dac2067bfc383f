-- ===== src/Ran/Receive.antt =====
-- What src/ue_engine/ue_ran_transport.c receives. `resolve` stands for `resolve_endpoint`. What
-- `recvfrom` answers call after call is a list of receipts, at whose end no datagram is waiting.
use virtuallte.Common.{
  ℕ, zero, suc, ◌+◌, ◌%◌, ◌^◌, Bool, true, false, not, ◌||◌, ◌&&◌, ◌==◌, ltb, leb, if◌then◌else◌,
  Option, none, some, List, [], ◌∷◌, ◌++◌, length, take, Outcome, ok, reject, fault, CString,
}
use virtuallte.Rls.{PduType, Message, decode}
use virtuallte.Ran.State.{
  SockAddr, af_inet, GnbEndpoint, CellInfo, RxEntry, Transport, pending_ack_max, rx_pdu_max,
}
use virtuallte.Ran.Queue.{rx_queue_full, rx_queue_push}
use virtuallte.Ran.Cells.{handle_heartbeat_ack}

-- The entry for a PDU, cut to the room of an entry.
abbrev pub rx_entry : PduType → ℕ → ℕ → List ℕ → RxEntry
rx_entry pdu_type psi rrc_channel pdu = record {
  valid = true;
  pdu_type = some pdu_type;
  psi = psi;
  rrc_channel = rrc_channel;
  bytes = if leb (length pdu) rx_pdu_max then pdu else take rx_pdu_max pdu;
}

unfoldable pub enqueue_pdu : Transport → PduType → ℕ → List ℕ → Transport
enqueue_pdu t PduType.rrc payload pdu =
    if rx_queue_full t.nas_queue.head t.nas_queue.tail
    then t
    else record t { nas_queue = rx_queue_push t.nas_queue (rx_entry PduType.rrc 0 payload pdu) }
enqueue_pdu t PduType.user_plane payload pdu =
    if rx_queue_full t.data_queue.head t.data_queue.tail then t else record t {
      data_queue = rx_queue_push t.data_queue (rx_entry PduType.user_plane payload 0 pdu);
    }

-- The id of a PDU that wants an acknowledgement.
unfoldable pub track_ack : Transport → ℕ → Transport
track_ack t pdu_id =
    if not (pdu_id == 0) && ltb (length t.pending_ack_ids) pending_ack_max
    then record t { pending_ack_ids = t.pending_ack_ids ++ (pdu_id ∷ []) }
    else t

unfoldable pub handle_pdu_transmission : Transport → PduType → ℕ → ℕ → List ℕ → Transport
handle_pdu_transmission t pdu_type pdu_id payload pdu =
    enqueue_pdu
      (track_ack
        (record t {
          rx_pdu_count = (t.rx_pdu_count + 1) % 2 ^ 64;
          rx_bytes = (t.rx_bytes + length pdu) % 2 ^ 64;
        })
        pdu_id)
      pdu_type payload pdu

unfoldable pub sa_in_equal : SockAddr → SockAddr → Bool
sa_in_equal a b =
    if not (a.family == af_inet) || not (b.family == af_inet)
    then false
    else a.s_addr == b.s_addr && a.port == b.port

-- The first loop of `peer_is_known`.
unfoldable pub is_cell_addr : List CellInfo → SockAddr → Bool
is_cell_addr [] sa = false
is_cell_addr (cell ∷ cells) sa =
    (cell.valid && elim cell.addr [ none ↦ false | some addr ↦ sa_in_equal addr sa ])
    || is_cell_addr cells sa

pub data Receipt : Type 0 where
  datagram : SockAddr → List ℕ → Receipt
  failed : Receipt

-- The `switch` over a decoded message, and the events it counts for; `decode` never faults.
unfoldable pub handle_message : Transport → Outcome Message → SockAddr → ℕ → Transport × ℕ
handle_message t (ok (Message.heartbeat sti x y z)) peer now_ms = (t, 0)
handle_message t (ok (Message.heartbeat_ack sti dbm)) peer now_ms =
    (handle_heartbeat_ack t sti dbm peer now_ms, 1)
handle_message t (ok (Message.pdu_transmission sti pdu_type pdu_id payload pdu)) peer now_ms =
    (handle_pdu_transmission t pdu_type pdu_id payload pdu, 1)
handle_message t (ok (Message.pdu_transmission_ack sti ids)) peer now_ms = (t, 1)
handle_message t reject peer now_ms = (t, 0)
handle_message t fault peer now_ms = (t, 0)

module _ (resolve : CString → ℕ → Option SockAddr) where
  -- The second loop of `peer_is_known`.
  unfoldable pub is_gnb_addr : List GnbEndpoint → SockAddr → Bool
  is_gnb_addr [] sa = false
  is_gnb_addr (gnb ∷ gnbs) sa =
      elim (resolve gnb.address gnb.port) [ none ↦ false | some ss ↦ sa_in_equal ss sa ]
      || is_gnb_addr gnbs sa

  unfoldable pub peer_is_known : Transport → SockAddr → Bool
  peer_is_known t sa = is_cell_addr t.cells sa || is_gnb_addr t.gnb_list sa

  -- One datagram of the loop.
  unfoldable pub receive_one : Transport → SockAddr → List ℕ → ℕ → Transport × ℕ
  receive_one t peer bytes now_ms =
      let t : Transport = record t { rx_bytes = (t.rx_bytes + length bytes) % 2 ^ 64 } in
      if not (peer_is_known t peer) then (t, 0) else handle_message t (decode bytes) peer now_ms

  -- The loop, with the rounds that are left and the events so far; an error of `recvfrom` is `none`.
  unfoldable pub receive_from : ℕ → List Receipt → Transport → ℕ → ℕ → Transport × Option ℕ
  receive_from zero receipts t now_ms events = (t, some events)
  receive_from (suc n) [] t now_ms events = (t, some events)
  receive_from (suc n) (Receipt.failed ∷ receipts) t now_ms events = (t, none)
  receive_from (suc n) (Receipt.datagram peer [] ∷ receipts) t now_ms events = (t, some events)
  receive_from (suc n) (Receipt.datagram peer (b ∷ bytes) ∷ receipts) t now_ms events =
      let one = receive_one t peer (b ∷ bytes) now_ms in
      receive_from n receipts one.0 now_ms (events + one.1)

  unfoldable pub receive_pending : List Receipt → Transport → ℕ → Transport × Option ℕ
  receive_pending receipts t now_ms =
      if not t.socket_open then (t, some 0) else receive_from 64 receipts t now_ms 0
