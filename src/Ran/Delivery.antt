-- ===== src/Ran/Delivery.antt =====
-- A DATA PDU on its way through src/ue_engine/ue_ran_transport.c.
use virtuallte.Common.{
  ℕ, ◌+◌, ◌%◌, ◌^◌, ◌≤◌, ◌<◌, ◌≡◌, ◌≢◌, refl, ap, sym, ◌∙◌, true, false, ◌||◌, ◌==◌, ltb, leb,
  Option, some, List, [], ◌∷◌, ◌++◌, length, length-replicate, take, take-append, take_all, drop,
  arith, if_false, CString, ok, IsU64,
}
use virtuallte.Rls.{PduType, Message, decode, encode_pdu_transmission}
use virtuallte.Rls.RoundTrip.{decode-encode_pdu_transmission}
use virtuallte.Ran.State.{SockAddr, RxEntry, Transport}
use virtuallte.Ran.Queue.{rx_queue_full, rx_queue_peek}
use virtuallte.Ran.Fifo.{
  IsQueue, contents, contents-push, peek-contents, contents-pop, length-contents, front, behind,
}
use virtuallte.Ran.Send.{
  tx_buf, encoded, cell_addr, not_connected, send_to_addr, send_pdu, send_data_pdu,
}
use virtuallte.Ran.Receive.{
  rx_entry, enqueue_pdu, track_ack, handle_pdu_transmission, handle_message, peer_is_known,
  receive_one,
}
use virtuallte.Ran.Control.{copy_len, recv_data_pdu}

data_message :
    (sti psi : ℕ) (pdu : List ℕ)
    → 1 ≤ psi
    → psi ≤ 15
    → length pdu ≤ 8192
    → IsU64 sti
    → (bytes : List ℕ) × (encoded
          (encode_pdu_transmission tx_buf sti PduType.user_plane 0 psi pdu (length pdu % 2 ^ 32))
        ≡ some bytes)
      × (decode bytes ≡ ok (Message.pdu_transmission sti PduType.user_plane 0 psi pdu))
data_message sti psi pdu low high small hs =
    let len : length pdu % 2 ^ 32 ≡ length pdu = omega arith in
    let room : 26 + length pdu ≤ length tx_buf =
      omega (arith, length-replicate {A = ℕ} (16384 + 64) 0) in
    let (bytes, written, size, read_back) =
      decode-encode_pdu_transmission tx_buf sti PduType.user_plane 0 psi pdu room (omega arith) hs
        (omega arith) (omega arith) in
    (
      bytes,
      ap (λ n. encoded (encode_pdu_transmission tx_buf sti PduType.user_plane 0 psi pdu n)) len
          ∙ (ap encoded written
              ∙ ap some
                  (take-append bytes (drop (26 + length pdu) tx_buf) (26 + length pdu) (sym size))),
      read_back,
    )

-- The entry of a PDU that fits.
abbrev pub data_entry : ℕ → List ℕ → RxEntry
data_entry psi pdu = record {
  valid = true;
  pdu_type = some PduType.user_plane;
  psi = psi;
  rrc_channel = 0;
  bytes = pdu;
}

rx_entry-whole :
    (psi : ℕ) (pdu : List ℕ)
    → length pdu ≤ 8192
    → rx_entry PduType.user_plane psi 0 pdu ≡ data_entry psi pdu
rx_entry-whole psi pdu small =
    let whole : leb (length pdu) 8192 ≡ true = ground arith in rw whole refl

handle_message-enqueues :
    (t : Transport) (sti psi : ℕ) (pdu : List ℕ) (peer : SockAddr) (now_ms : ℕ)
    → length pdu ≤ 8192
    → IsQueue t.data_queue
    → rx_queue_full t.data_queue.head t.data_queue.tail ≡ false
    → contents (
        (handle_message t
          (ok (Message.pdu_transmission sti PduType.user_plane 0 psi pdu))
          peer
          now_ms).0.data_queue)
      ≡ contents t.data_queue ++ (data_entry psi pdu ∷ [])
unfolding handle_message handle_pdu_transmission track_ack enqueue_pdu
handle_message-enqueues t sti psi pdu peer now_ms small q room =
    ap (λ (r : Transport). contents r.data_queue) (if_false _ _ _ room refl)
    ∙ (contents-push t.data_queue (rx_entry PduType.user_plane psi 0 pdu) q room
        ∙ ap (λ e. contents t.data_queue ++ (e ∷ [])) (rx_entry-whole psi pdu small))

module _ (resolve : CString → ℕ → Option SockAddr) (sendto : SockAddr → List ℕ → Option ℕ) where
  send_pdu-sent :
      (t : Transport) (addr : SockAddr) (bytes : List ℕ)
      → t.socket_open ≡ true
      → sendto addr bytes ≡ some (length bytes)
      → (send_pdu resolve sendto t addr (some bytes)).1
        ≡ ((record { addr = addr; bytes = bytes } ∷ []), true)
  unfolding send_pdu send_to_addr
  send_pdu-sent t addr bytes up sent = rw (up, sent) refl

  -- A connected transport with the address of its serving cell sends a DATA PDU of 1 to 8192 bytes for
  -- a session from 1 to 15 as one datagram to that address, if the system sends all that it is given;
  -- a transport that gets the datagram from a known peer, and has room in its queue, has that session
  -- and those bytes at the end of its queue of DATA PDUs.
  pub data_pdu-delivered :
      (s r : Transport) (psi : ℕ) (pdu : List ℕ) (addr peer : SockAddr) (now_ms : ℕ)
      → s.socket_open ≡ true
      → not_connected s ≡ false
      → cell_addr s s.serving_cell_id ≡ some addr
      → ((bytes : List ℕ) → sendto addr bytes ≡ some (length bytes))
      → IsU64 s.sti
      → 1 ≤ psi
      → psi ≤ 15
      → 1 ≤ length pdu
      → length pdu ≤ 8192
      → IsQueue r.data_queue
      → rx_queue_full r.data_queue.head r.data_queue.tail ≡ false
      → peer_is_known resolve r peer ≡ true
      → (bytes : List ℕ) × ((send_data_pdu resolve sendto s psi pdu).1
          ≡ ((record { addr = addr; bytes = bytes } ∷ []), true))
        × (contents ((receive_one resolve r peer bytes now_ms).0.data_queue)
            ≡ contents r.data_queue ++ (data_entry psi pdu ∷ []))
  unfolding send_data_pdu receive_one peer_is_known
  data_pdu-delivered s r psi pdu addr peer now_ms up connected address all_sent hs low high
        some_bytes small q room known =
      let (bytes, written, read_back) = data_message s.sti psi pdu low high small hs in
      let wanted : (length pdu == 0 || (ltb psi 1 || ltb 15 psi) || not_connected s) ≡ false =
        ground (arith, connected) in
      (
        bytes,
        rw (wanted, address, written) (send_pdu-sent s addr bytes up (all_sent bytes)),
        rw (known, read_back) (handle_message-enqueues _ s.sti psi pdu peer now_ms small q room),
      )

-- From a queue that is not empty, a reader whose buffer is large enough gets the session and all the
-- bytes of the oldest entry, which is taken from the queue; the others stay in order.
pub recv_data_pdu-oldest :
    (t : Transport) (buf_len : ℕ) (e : RxEntry) (es : List RxEntry)
    → IsQueue t.data_queue
    → contents t.data_queue ≡ e ∷ es
    → length e.bytes ≤ buf_len
    → 1 ≤ buf_len
    → buf_len < 2 ^ 32
    → ((recv_data_pdu t buf_len).1 ≡ ok (some (e.psi, e.bytes)))
      × (contents ((recv_data_pdu t buf_len).0.data_queue) ≡ es)
unfolding recv_data_pdu
recv_data_pdu-oldest t buf_len e es q shown enough some_room small =
    let seen : rx_queue_peek t.data_queue ≡ some e =
      peek-contents t.data_queue q ∙ ap front shown in
    let wanted : (buf_len == 0) ≡ false = ground arith in
    let apart : t.data_queue.head ≢ t.data_queue.tail =
      λ same. absurd (omega (arith, length-contents t.data_queue, ap length shown, same)) in
    let len : copy_len (length e.bytes) buf_len ≡ length e.bytes = ground arith in
    (
      rw (wanted, seen)
          (ap (λ n. ok (some (e.psi, take n e.bytes))) len
            ∙ ap (λ bs. ok (some (e.psi, bs))) (take_all e.bytes)),
      rw (wanted, seen) (contents-pop t.data_queue q apart ∙ ap behind shown),
    )
