-- ===== src/Ran/Traffic.antt =====
-- Sending and receiving keep the transport of src/ue_engine/ue_ran_transport.c valid.
use virtuallte.Common.{
  ℕ, zero, suc, ◌≤◌, ◌<◌, Bool, not, ◌&&◌, ◌==◌, ltb, Option, none, some, List, [], ◌∷◌, ◌++◌,
  length, length-append, arith, Bool-cases, inl, inr, if_both, option_both, option_cases, CString,
  Outcome, ok, reject, fault,
}
use virtuallte.Rls.{PduType, Message, decode, encode_pdu_ack}
use virtuallte.Ran.Cells.{find_cell_by_id}
use virtuallte.Ran.State.{SockAddr, GnbEndpoint, RxQueue, Transport, pending_ack_max}
use virtuallte.Ran.Fifo.{IsQueue, push-IsQueue}
use virtuallte.Ran.Invariant.{Holds, IsValid}
use virtuallte.Ran.Heard.{handle_heartbeat_ack-IsValid}
use virtuallte.Ran.Send.{
  Packet, SendResult, encoded, tx_buf, send_to_addr, send_to_cell, send_heartbeat, heartbeats_to,
  send_heartbeats, send_ack, send_pending_acks, send_pdu, send_nas_pdu, send_data_pdu,
}
use virtuallte.Ran.Receive.{
  Receipt, enqueue_pdu, track_ack, handle_pdu_transmission, handle_message, receive_one,
  receive_from, receive_pending,
}

-- Other queues and other ids to acknowledge.
pub with_queues :
    {opened : Bool} (t : Transport) (nas data_pdus : RxQueue) (acks : List ℕ)
    → IsValid opened t
    → IsQueue nas
    → IsQueue data_pdus
    → length acks ≤ 64
    → Holds opened t.state t.gnb_list t.cells t.cell_count t.serving_cell_id t.socket_open nas
        data_pdus acks
with_queues t nas data_pdus acks h nas_ok data_ok few = record {
  table_size = h.table_size;
  counted = h.counted;
  serving_best = h.serving_best;
  nas_queue = nas_ok;
  data_queue = data_ok;
  acks_bounded = few;
  gnbs_bounded = h.gnbs_bounded;
  open_unless_idle = h.open_unless_idle;
  as_opened = h.as_opened;
}

enqueue_pdu-IsValid :
    {opened : Bool} (t : Transport) (pdu_type : PduType) (payload : ℕ) (pdu : List ℕ)
    → IsValid opened t
    → IsValid opened (enqueue_pdu t pdu_type payload pdu)
unfolding enqueue_pdu
enqueue_pdu-IsValid {opened} t PduType.rrc payload pdu h = if_both (IsValid opened) _ _ _ h (
    with_queues t _ t.data_queue t.pending_ack_ids h (push-IsQueue _ _ h.nas_queue) h.data_queue
      h.acks_bounded)
enqueue_pdu-IsValid {opened} t PduType.user_plane payload pdu h = if_both (IsValid opened) _ _ _ h (
    with_queues t t.nas_queue _ t.pending_ack_ids h h.nas_queue (push-IsQueue _ _ h.data_queue)
      h.acks_bounded)

track_ack-IsValid :
    {opened : Bool} (t : Transport) (pdu_id : ℕ)
    → IsValid opened t
    → IsValid opened (track_ack t pdu_id)
unfolding track_ack
track_ack-IsValid t pdu_id h =
    elim (Bool-cases (not (pdu_id == 0) && ltb (length t.pending_ack_ids) pending_ack_max)) [
      | inl wanted ↦
          let below : length t.pending_ack_ids < 64 = ground arith in
          rw wanted (
            with_queues t t.nas_queue t.data_queue (t.pending_ack_ids ++ (pdu_id ∷ [])) h
              h.nas_queue h.data_queue
              (omega (arith, length-append t.pending_ack_ids (pdu_id ∷ []))))
      | inr unwanted ↦ rw unwanted h
    ]

handle_message-IsValid :
    {opened : Bool} (t : Transport) (m : Outcome Message) (peer : SockAddr) (now_ms : ℕ)
    → IsValid opened t
    → IsValid opened ((handle_message t m peer now_ms).0)
unfolding handle_message handle_pdu_transmission
handle_message-IsValid t (ok (Message.heartbeat sti x y z)) peer now_ms h = h
handle_message-IsValid t (ok (Message.heartbeat_ack sti dbm)) peer now_ms h =
    handle_heartbeat_ack-IsValid t sti dbm peer now_ms h
handle_message-IsValid t (ok (Message.pdu_transmission sti pdu_type pdu_id payload pdu)) peer now_ms
      h =
    enqueue_pdu-IsValid _ pdu_type payload pdu (track_ack-IsValid _ pdu_id h)
handle_message-IsValid t (ok (Message.pdu_transmission_ack sti ids)) peer now_ms h = h
handle_message-IsValid t reject peer now_ms h = h
handle_message-IsValid t fault peer now_ms h = h

module _ (resolve : CString → ℕ → Option SockAddr) where
  receive_one-IsValid :
      {opened : Bool} (t : Transport) (peer : SockAddr) (bytes : List ℕ) (now_ms : ℕ)
      → IsValid opened t
      → IsValid opened ((receive_one resolve t peer bytes now_ms).0)
  unfolding receive_one
  receive_one-IsValid {opened} t peer bytes now_ms h =
      if_both (λ (s : Transport × ℕ). IsValid opened s.0) _ _ _ h
        (handle_message-IsValid _ (decode bytes) peer now_ms h)

  receive_from-IsValid :
      {opened : Bool} (n : ℕ) (receipts : List Receipt) (t : Transport) (now_ms events : ℕ)
      → IsValid opened t
      → IsValid opened ((receive_from resolve n receipts t now_ms events).0)
  unfolding receive_from
  receive_from-IsValid zero receipts t now_ms events h = h
  receive_from-IsValid (suc n) [] t now_ms events h = h
  receive_from-IsValid (suc n) (Receipt.failed ∷ receipts) t now_ms events h = h
  receive_from-IsValid (suc n) (Receipt.datagram peer [] ∷ receipts) t now_ms events h = h
  receive_from-IsValid (suc n) (Receipt.datagram peer (b ∷ bytes) ∷ receipts) t now_ms events h =
      receive_from-IsValid n receipts _ now_ms _ (receive_one-IsValid t peer (b ∷ bytes) now_ms h)

  pub receive_pending-IsValid :
      {opened : Bool} (receipts : List Receipt) (t : Transport) (now_ms : ℕ)
      → IsValid opened t
      → IsValid opened ((receive_pending resolve receipts t now_ms).0)
  unfolding receive_pending
  receive_pending-IsValid {opened} receipts t now_ms h =
      if_both (λ (s : Transport × Option ℕ). IsValid opened s.0) _ _ _ h
        (receive_from-IsValid 64 receipts t now_ms 0 h)

-- What a sender leaves is valid.
abbrev pub Leaves : Bool → SendResult → Type 0
Leaves opened s = IsValid opened s.0

abbrev pub After : Bool → Transport × List Packet → Type 0
After opened s = IsValid opened s.0

module _ (resolve : CString → ℕ → Option SockAddr) (sendto : SockAddr → List ℕ → Option ℕ) where
  send_to_addr-IsValid :
      {opened : Bool} (t : Transport) (addr : SockAddr) (bytes : List ℕ)
      → IsValid opened t
      → Leaves opened (send_to_addr resolve sendto t addr bytes)
  unfolding send_to_addr
  send_to_addr-IsValid {opened} t addr bytes h =
      if_both (Leaves opened) _ _ _ h
        (option_both (Leaves opened) (sendto addr bytes) _ _ h (λ rc. h))

  send_to_cell-IsValid :
      {opened : Bool} (t : Transport) (addr : Option SockAddr) (bytes : List ℕ)
      → IsValid opened t
      → Leaves opened (send_to_cell resolve sendto t addr bytes)
  unfolding send_to_cell
  send_to_cell-IsValid t none bytes h = h
  send_to_cell-IsValid t (some addr) bytes h = send_to_addr-IsValid t addr bytes h

  send_heartbeat-IsValid :
      {opened : Bool} (t : Transport) (gnb : GnbEndpoint)
      → IsValid opened t
      → Leaves opened (send_heartbeat resolve sendto t gnb)
  unfolding send_heartbeat
  send_heartbeat-IsValid {opened} t gnb h =
      option_both (Leaves opened) (resolve gnb.address gnb.port) _ _ h
        (λ addr. option_both (Leaves opened) _ _ _ h (λ bytes. send_to_addr-IsValid t addr bytes h))

  heartbeats_to-IsValid :
      {opened : Bool} (t : Transport) (gnbs : List GnbEndpoint)
      → IsValid opened t
      → IsValid opened ((heartbeats_to resolve sendto t gnbs).0)
  unfolding heartbeats_to
  heartbeats_to-IsValid t [] h = h
  heartbeats_to-IsValid t (gnb ∷ gnbs) h =
      heartbeats_to-IsValid ((send_heartbeat resolve sendto t gnb).0) gnbs
        (send_heartbeat-IsValid t gnb h)

  pub send_heartbeats-IsValid :
      {opened : Bool} (t : Transport) (now_ms : ℕ)
      → IsValid opened t
      → IsValid opened ((send_heartbeats resolve sendto t now_ms).0)
  unfolding send_heartbeats
  send_heartbeats-IsValid t now_ms h = heartbeats_to-IsValid t t.gnb_list h

  send_ack-IsValid :
      {opened : Bool} (t : Transport) → IsValid opened t → After opened (send_ack resolve sendto t)
  unfolding send_ack
  send_ack-IsValid t h = elim (option_cases (find_cell_by_id t t.serving_cell_id)) [
    | inl gone ↦ rw (gone, send_ack) h
    | inr (i, there) ↦
        elim (option_cases
          (encoded (encode_pdu_ack tx_buf t.sti t.pending_ack_ids (length t.pending_ack_ids)))) [
            | inl refused ↦ rw (there, refused, send_ack) h
            | inr (bytes, written) ↦
                rw (there, written, send_ack) (send_to_cell-IsValid t _ bytes h)
          ]
  ]

  pub send_pending_acks-IsValid :
      {opened : Bool} (t : Transport) (now_ms : ℕ)
      → IsValid opened t
      → After opened (send_pending_acks resolve sendto t now_ms)
  unfolding send_pending_acks
  send_pending_acks-IsValid {opened} t now_ms h =
      let sent = (send_ack resolve sendto t).0 in
      let valid = send_ack-IsValid t h in
      if_both (After opened) _ _ _ h (
        with_queues sent sent.nas_queue sent.data_queue [] valid valid.nas_queue valid.data_queue
          (omega arith))

  send_pdu-IsValid :
      {opened : Bool} (t : Transport) (addr : SockAddr) (bytes : Option (List ℕ))
      → IsValid opened t
      → Leaves opened (send_pdu resolve sendto t addr bytes)
  unfolding send_pdu
  send_pdu-IsValid t addr none h = h
  send_pdu-IsValid {opened} t addr (some bytes) h =
      if_both (Leaves opened) _ _ _ (send_to_addr-IsValid t addr bytes h)
        (send_to_addr-IsValid t addr bytes h)

  pub send_nas_pdu-IsValid :
      {opened : Bool} (t : Transport) (pdu : List ℕ) (rrc_channel : ℕ)
      → IsValid opened t
      → Leaves opened (send_nas_pdu resolve sendto t pdu rrc_channel)
  unfolding send_nas_pdu
  send_nas_pdu-IsValid {opened} t pdu rrc_channel h =
      if_both (Leaves opened) _ _ _ h
        (option_both (Leaves opened) _ _ _ h (λ addr. send_pdu-IsValid _ addr _ h))

  pub send_data_pdu-IsValid :
      {opened : Bool} (t : Transport) (psi : ℕ) (pdu : List ℕ)
      → IsValid opened t
      → Leaves opened (send_data_pdu resolve sendto t psi pdu)
  unfolding send_data_pdu
  send_data_pdu-IsValid {opened} t psi pdu h =
      if_both (Leaves opened) _ _ _ h
        (option_both (Leaves opened) _ _ _ h (λ addr. send_pdu-IsValid t addr _ h))
