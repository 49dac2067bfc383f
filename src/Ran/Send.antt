-- ===== src/Ran/Send.antt =====
-- What src/ue_engine/ue_ran_transport.c sends. `resolve` stands for `resolve_endpoint`, which asks the
-- resolver of the system, and `sendto` for the system call: the number of bytes sent, or `none` for
-- an error. A sender returns what went out beside the new state.
use virtuallte.Common.{
  ℕ, ◌+◌, ◌%◌, ◌^◌, Bool, true, false, not, ◌||◌, ◌==◌, ltb, if◌then◌else◌, Option, none, some,
  List, [], ◌∷◌, ◌++◌, length, take, get_or, replicate, Outcome, ok, reject, fault, CString,
}
use virtuallte.Rls.{PduType, encode_heartbeat, encode_pdu_ack, encode_pdu_transmission}
use virtuallte.Ran.State.{SockAddr, GnbEndpoint, no_cell, Transport, TransportState, is_state}
use virtuallte.Ran.Cells.{find_cell_by_id}

pub record Packet : Type 0 where
  pub addr : SockAddr
  pub bytes : List ℕ

-- The transport, what went out, and whether the call succeeded.
abbrev pub SendResult : Type 0
SendResult = Transport × (List Packet × Bool)

-- `tx_buf`, and the buffers of the senders.
abbrev pub tx_buf : List ℕ
tx_buf = replicate (16384 + 64) 0

-- The bytes of a message that was encoded; no length is 0. A write past the end of the buffer, which
-- C leaves undefined, is taken for a failure here.
abbrev pub encoded : Outcome (List ℕ × ℕ) → Option (List ℕ)
encoded (ok (buf, enc_len)) = some (take enc_len buf)
encoded reject = none
encoded fault = none

-- The address of a cell, unless there is none.
unfoldable pub cell_addr : Transport → Option ℕ → Option SockAddr
cell_addr t id = elim (find_cell_by_id t id) [
  | none ↦ none
  | some i ↦ (get_or t.cells i no_cell).addr
]

-- `t->state != UE_RAN_TRANSPORT_CONNECTED || t->serving_cell_id < 0`
abbrev pub not_connected : Transport → Bool
not_connected t =
    not (is_state t.state TransportState.connected)
    || elim t.serving_cell_id [ none ↦ true | some id ↦ false ]

module _ (resolve : CString → ℕ → Option SockAddr) (sendto : SockAddr → List ℕ → Option ℕ) where
  unfoldable pub send_to_addr : Transport → SockAddr → List ℕ → SendResult
  send_to_addr t addr bytes =
      if not t.socket_open then (t, ([], false)) else elim (sendto addr bytes) [
        | none ↦ (t, ([], false))
        | some rc ↦ (
          record t { tx_bytes = (t.tx_bytes + rc) % 2 ^ 64 },
          ((record { addr = addr; bytes = bytes } ∷ []), true),
        )
      ]

  unfoldable pub send_to_cell : Transport → Option SockAddr → List ℕ → SendResult
  send_to_cell t none bytes = (t, ([], false))
  send_to_cell t (some addr) bytes = send_to_addr t addr bytes

  -- One round of the loop over the endpoints.
  unfoldable pub send_heartbeat : Transport → GnbEndpoint → SendResult
  send_heartbeat t gnb = elim (resolve gnb.address gnb.port) [
    | none ↦ (t, ([], false))
    | some addr ↦ elim (encoded (encode_heartbeat tx_buf t.sti 0 0 0)) [
      | none ↦ (t, ([], false))
      | some bytes ↦ send_to_addr t addr bytes
    ]
  ]

  unfoldable pub heartbeats_to : Transport → List GnbEndpoint → Transport × List Packet
  heartbeats_to t [] = (t, [])
  heartbeats_to t (gnb ∷ gnbs) =
      let sent = send_heartbeat t gnb in
      let rest = heartbeats_to sent.0 gnbs in (rest.0, sent.1.0 ++ rest.1)

  unfoldable pub send_heartbeats : Transport → ℕ → Transport × List Packet
  send_heartbeats t now_ms =
      let sent = heartbeats_to t t.gnb_list in
      (record sent.0 { last_heartbeat_ms = now_ms }, sent.1)

  -- The acknowledgement to the serving cell, where there is one.
  unfoldable pub send_ack : Transport → Transport × List Packet
  send_ack t = elim (find_cell_by_id t t.serving_cell_id) [
    | none ↦ (t, [])
    | some i ↦
        elim (encoded (encode_pdu_ack tx_buf t.sti t.pending_ack_ids (length t.pending_ack_ids))) [
          | none ↦ (t, [])
          | some bytes ↦
              let sent = send_to_cell t ((get_or t.cells i no_cell).addr) bytes in
              (sent.0, sent.1.0)
        ]
  ]

  unfoldable pub send_pending_acks : Transport → ℕ → Transport × List Packet
  send_pending_acks t now_ms =
      if length t.pending_ack_ids == 0
      then (t, [])
      else let sent = send_ack t in
        (record sent.0 { pending_ack_ids = []; last_ack_send_ms = now_ms }, sent.1)

  -- The message that is sent, and counted when it went out.
  unfoldable pub send_pdu : Transport → SockAddr → Option (List ℕ) → SendResult
  send_pdu t addr none = (t, ([], false))
  send_pdu t addr (some bytes) =
      let sent = send_to_addr t addr bytes in
      if sent.1.1
      then (record sent.0 { tx_pdu_count = (sent.0.tx_pdu_count + 1) % 2 ^ 64 }, sent.1)
      else sent

  unfoldable pub send_nas_pdu : Transport → List ℕ → ℕ → SendResult
  send_nas_pdu t pdu rrc_channel =
      if length pdu == 0 || not_connected t
      then (t, ([], false))
      else elim (cell_addr t t.serving_cell_id) [
        | none ↦ (t, ([], false))
        | some addr ↦
            send_pdu (record t { next_pdu_id = (t.next_pdu_id + 1) % 2 ^ 32 }) addr
              (encoded (
                encode_pdu_transmission tx_buf t.sti PduType.rrc t.next_pdu_id rrc_channel pdu
                  (length pdu % 2 ^ 32)))
      ]

  unfoldable pub send_data_pdu : Transport → ℕ → List ℕ → SendResult
  send_data_pdu t psi pdu =
      if length pdu == 0 || (ltb psi 1 || ltb 15 psi) || not_connected t
      then (t, ([], false))
      else elim (cell_addr t t.serving_cell_id) [
        | none ↦ (t, ([], false))
        | some addr ↦ send_pdu t addr (
            encoded (
              encode_pdu_transmission tx_buf t.sti PduType.user_plane 0 psi pdu
                (length pdu % 2 ^ 32)))
      ]
