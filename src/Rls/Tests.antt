-- ===== src/Rls/Tests.antt =====
-- Runs of ue_rls.c, and its theorems at concrete messages.
use virtuallte.Common.{
  ℕ, ◌≡◌, ◌≢◌, refl, List, [], ◌∷◌, ◌++◌, length, drop, replicate, ok, reject, fault, arith,
}
use virtuallte.Rls.{
  PduType, Message, encode_pdu_transmission, encode_pdu_ack, decode, decode_body, decode_heartbeat,
  get_be32, get_be64,
}
use virtuallte.Rls.Safety.{decode-ne-fault}
use virtuallte.Rls.RoundTrip.{decode-encode_pdu_transmission}
use virtuallte.Rls.Acks.{decode-encode_pdu_ack}

abbrev buffer : ℕ → List ℕ
buffer n = replicate n 0xAA

abbrev heartbeat_packet : List ℕ
heartbeat_packet =
    3 ∷ 3 ∷ 2 ∷ 8 ∷ 4 ∷ 0 ∷ 0 ∷ 0 ∷ 0 ∷ 0 ∷ 0 ∷ 1 ∷ 2 ∷ 0 ∷ 0 ∷ 0 ∷ 1 ∷ 0 ∷ 0 ∷ 0 ∷ 2 ∷ 0 ∷ 0 ∷ 0
    ∷ 3 ∷ []

heartbeat_run : decode heartbeat_packet ≡ ok (Message.heartbeat 258 1 2 3)
unfolding decode decode_body decode_heartbeat get_be32 get_be64
heartbeat_run = refl

wrong_version_run : decode (3 ∷ 3 ∷ 3 ∷ replicate 22 0) ≡ reject
unfolding decode decode_body decode_heartbeat get_be32 get_be64
wrong_version_run = refl

decode-ne-fault_example : decode heartbeat_packet ≢ fault
decode-ne-fault_example = decode-ne-fault heartbeat_packet

abbrev payload : List ℕ
payload = 0x7E ∷ 0x00 ∷ 0x43 ∷ []

decode-encode_pdu_transmission_example :
    (bytes : List ℕ) × (encode_pdu_transmission (buffer 32) 7 PduType.rrc 41 3 payload 3
      ≡ ok (bytes ++ drop 29 (buffer 32), 29))
    × (length bytes ≡ 29)
    × (decode bytes ≡ ok (Message.pdu_transmission 7 PduType.rrc 41 3 payload))
decode-encode_pdu_transmission_example =
    decode-encode_pdu_transmission (buffer 32) 7 PduType.rrc 41 3 payload (omega arith)
      (omega arith) (omega arith) (omega arith) (omega arith)

decode-encode_pdu_ack_example :
    (bytes : List ℕ) × (encode_pdu_ack (buffer 30) 7 (5 ∷ 6 ∷ []) 2
      ≡ ok (bytes ++ drop 25 (buffer 30), 25))
    × (length bytes ≡ 25)
    × (decode bytes ≡ ok (Message.pdu_transmission_ack 7 (5 ∷ 6 ∷ [])))
decode-encode_pdu_ack_example =
    decode-encode_pdu_ack (buffer 30) 7 (5 ∷ 6 ∷ []) (omega arith) (omega arith) (omega arith)
      (omega arith, (omega arith, tt))

abbrev many_ids : List ℕ
many_ids = replicate 65 9
