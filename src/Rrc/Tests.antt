-- ===== src/Rrc/Tests.antt =====
-- RRC messages as they go over the air.
use virtuallte.Common.{ℕ, ◌≡◌, refl, some, List, [], ◌∷◌, replicate, ok, Safe, arith}
use virtuallte.Rrc.Stream.{
  BitStream, bw_init, put_bits, put_loop, put_bit, put_bytes, put_length, get_bits,
}
use virtuallte.Rrc.Messages.{
  MsgType, encode_ul_info_transfer, encode_setup_complete, decode_dl_dcch,
}
use virtuallte.Rrc.BitString.{to_bits}
use virtuallte.Rrc.Writer.{Writes, put_bits-Writes, bw_init-Holds}
use virtuallte.Rrc.Encode.{Encodes, setup_complete_bits, encode_setup_complete-Encodes}
use virtuallte.Rrc.Decode.{decode-dl_info_transfer}
use virtuallte.Rrc.Safety.{get_bits-put_bits, Carries, decode_dl_dcch-Safe}

abbrev nas : List ℕ
nas = 0x7E ∷ 0x00 ∷ 0x43 ∷ []

abbrev buffer : List ℕ
buffer = replicate 8 7

encode_run :
    encode_ul_info_transfer buffer nas
    ≡ ok (0x3A ∷ 0x01 ∷ 0xBF ∷ 0x00 ∷ 0x21 ∷ 0x80 ∷ 0 ∷ 0 ∷ [], 6)
unfolding encode_ul_info_transfer bw_init put_bits put_loop put_bit put_bytes put_length
encode_run = refl

-- A DLInformationTransfer of transaction 2 with the same NAS message.
abbrev downlink : List ℕ
downlink = 0x2C ∷ 0x80 ∷ 0x6F ∷ 0xC0 ∷ 0x08 ∷ 0x60 ∷ []

put_bits-Writes_example : Writes (λ w. put_bits w 5 4) (to_bits 4 5)
put_bits-Writes_example = put_bits-Writes 5 4 (omega arith) (omega arith)

get_bits-put_bits_example :
    (w' : BitStream) × (put_bits (bw_init buffer) 5 4 ≡ ok w')
    × (get_bits (record w' { bit_pos = 0 }) 4 ≡ ok (w', 5))
unfolding bw_init
get_bits-put_bits_example =
    get_bits-put_bits (bw_init buffer) [] 5 4 (bw_init-Holds buffer) (omega arith) (omega arith)
      (omega arith) (omega arith) (omega arith)

encode_setup_complete-Encodes_example :
    Encodes (encode_setup_complete buffer 1 1 nas) buffer (setup_complete_bits 1 1 nas)
encode_setup_complete-Encodes_example =
    encode_setup_complete-Encodes buffer 1 1 nas (omega arith) (omega arith) (omega arith)
      (omega arith)

decode-dl_info_transfer_example :
    decode_dl_dcch downlink
    ≡ ok
        (record { msg_type = MsgType.dl_info_transfer; nas_pdu = some nas; rrc_transaction_id = 2 })
decode-dl_info_transfer_example =
    decode-dl_info_transfer downlink 2 0 nas (replicate 5 0) (omega arith) (omega arith)
      (omega arith) (omega arith) refl

decode_dl_dcch-Safe_example : Safe Carries (decode_dl_dcch downlink)
decode_dl_dcch-Safe_example = decode_dl_dcch-Safe downlink
