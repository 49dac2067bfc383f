-- ===== src/Rrc/Messages.antt =====
-- The messages of src/ue_engine/ue_rrc.c.
-- A decoded NAS message is the list of its bytes: in the source a pointer into the packet, or into a
-- static buffer that the next decoding overwrites. The null pointer of a message without one is `none`.
use virtuallte.Common.{
  ℕ, ◌+◌, ◌-◌, ◌/◌, ◌%◌, ◌^◌, not, ◌||◌, ◌==◌, ltb, if◌then◌else◌, Option, none, some, List, length,
  Outcome, ok, reject, ◌>>=◌, read_bytes,
}
use virtuallte.Rrc.Stream.{
  BitStream, bw_init, put_bits, put_bytes, byte_len, br_init, get_bits, get_bytes, put_length,
  get_length,
}

abbrev pub max_nas_size : ℕ
max_nas_size = 8192

-- `enum ue_rrc_msg_type`
pub data MsgType : Type 0 where
  unknown ul_info_transfer dl_info_transfer setup_request setup setup_complete : MsgType

-- `struct ue_rrc_message`; its last two fields are written by no decoder.
pub record RrcMessage : Type 0 where
  pub msg_type : MsgType
  pub nas_pdu : Option (List ℕ)
  pub rrc_transaction_id : ℕ

abbrev finish : BitStream → Outcome (List ℕ × ℕ)
finish w = ok (w.buf, byte_len w)

unfoldable pub encode_ul_info_transfer : List ℕ → List ℕ → Outcome (List ℕ × ℕ)
encode_ul_info_transfer buf nas_pdu =
    if length nas_pdu == 0 || ltb max_nas_size (length nas_pdu) then reject else do
      w ← put_bits (bw_init buf) 0 1
      w ← put_bits w 7 4
      w ← put_bits w 0 1
      w ← put_bits w 4 3
      w ← put_length w (length nas_pdu)
      w ← put_bytes w nas_pdu
      finish w

unfoldable pub encode_setup_request : List ℕ → ℕ → ℕ → Outcome (List ℕ × ℕ)
encode_setup_request buf ue_identity establishment_cause = do
  w ← put_bits (bw_init buf) 0 1
  w ← put_bits w 0 2
  w ← put_bits w 1 1
  w ← put_bits w (ue_identity % 2 ^ 39) 39
  w ← put_bits w (establishment_cause % 16) 4
  w ← put_bits w 0 1
  finish w

unfoldable pub encode_setup_complete : List ℕ → ℕ → ℕ → List ℕ → Outcome (List ℕ × ℕ)
encode_setup_complete buf rrc_transaction_id selected_plmn_id nas_pdu =
    if length nas_pdu == 0 || ltb max_nas_size (length nas_pdu)
    then reject
    else if ltb selected_plmn_id 1 || ltb 12 selected_plmn_id
    then reject
    else do
      w ← put_bits (bw_init buf) 0 1
      w ← put_bits w 2 4
      w ← put_bits w (rrc_transaction_id % 4) 2
      w ← put_bits w 0 1
      w ← put_bits w 0 6
      w ← put_bits w (selected_plmn_id - 1) 4
      w ← put_length w (length nas_pdu)
      w ← put_bytes w nas_pdu
      finish w

-- The NAS bytes behind their length. Where they start on a byte they are not copied.
unfoldable pub get_nas : BitStream → List ℕ → ℕ → Outcome (List ℕ)
get_nas r raw_buf nas_len =
    if r.bit_pos % 8 == 0
    then (if ltb (length r.buf) (r.bit_pos / 8 + nas_len)
        then reject
        else read_bytes raw_buf (r.bit_pos / 8) nas_len)
    else (do bytes ← get_bytes r nas_len; ok bytes.1)

unfoldable pub decode_dl_info_transfer : BitStream → List ℕ → Outcome RrcMessage
decode_dl_info_transfer r raw_buf = do
  tx ← get_bits r 2
  crit ← get_bits tx.0 1
  if not (crit.1 == 0) then reject else do
    opt ← get_bits crit.0 3
    if opt.1 / 4 % 2 == 0
        then ok (record {
          msg_type = MsgType.dl_info_transfer;
          nas_pdu = none;
          rrc_transaction_id = tx.1;
        })
        else do
          len ← get_length opt.0
          if ltb max_nas_size len.1 then reject else do
            nas ← get_nas len.0 raw_buf len.1
            ok (record {
              msg_type = MsgType.dl_info_transfer;
              nas_pdu = some nas;
              rrc_transaction_id = tx.1;
            })

unfoldable pub decode_dl_dcch : List ℕ → Outcome RrcMessage
decode_dl_dcch pdu = if ltb (length pdu) 1 then reject else do
  choice ← get_bits (br_init pdu) 1
  if not (choice.1 == 0) then reject else do
    c1 ← get_bits choice.0 4
    if c1.1 == 5 then decode_dl_info_transfer c1.0 pdu else reject

unfoldable pub decode_dl_ccch : List ℕ → Outcome RrcMessage
decode_dl_ccch pdu = if ltb (length pdu) 1 then reject else do
  choice ← get_bits (br_init pdu) 1
  if not (choice.1 == 0) then reject else do
    c1 ← get_bits choice.0 2
    if c1.1 == 1
        then (do
          tx ← get_bits c1.0 2
          ok (record { msg_type = MsgType.setup; nas_pdu = none; rrc_transaction_id = tx.1 }))
        else reject
