-- ===== src/Rrc/Decode.antt =====
-- What the decoders of ue_rrc.c make of messages in the notation of the standard.
use mathlib.Core.Path.{subst}
use virtuallte.Common.{
  ℕ, ◌+◌, ◌*◌, ◌/◌, ◌%◌, ◌^◌, ◌≤◌, ◌<◌, ◌≡◌, refl, sym, ap, true, false, ◌==◌, ltb, none, some,
  List, [], ◌∷◌, ◌++◌, append_assoc, length, ok, bind_ok, le→not-ltb, Bool-cases, ltb→lt, inl, inr,
  arith, IsBytes,
}
use virtuallte.Rrc.Stream.{BitStream, br_init, get_bits, get_length}
use virtuallte.Rrc.Messages.{
  MsgType, get_nas, decode_dl_info_transfer, decode_dl_dcch, decode_dl_ccch,
}
use virtuallte.Rrc.BitString.{to_bits, bits_of, to_bits-long, length-bits_of, length-to_bits}
use virtuallte.Rrc.Reader.{Before, advance, advance-Before, get_bits_lem, get_bytes_lem}
use virtuallte.Rrc.Encode.{length_bits, octet_string}

-- A field of `n` bits is read, and the stream stands before what follows it.
record Field (r : BitStream) (n v : ℕ) (bs : List ℕ) : Type 0 where
  reads : get_bits r n ≡ ok (advance r n, v)
  after : Before (advance r n) bs

-- A field that fits its width.
abbrev IsField : ℕ → ℕ → Type 0
IsField n v = (0 < n) × (n ≤ 16) × (v < 2 ^ n) × (v < 2 ^ 64)

next-Field :
    (n v : ℕ) (r : BitStream) (bs : List ℕ)
    → IsField n v
    → Before r (to_bits n v ++ bs)
    → Field r n v bs
next-Field n v r bs f h = record {
  reads = get_bits_lem n v r bs f.0 (omega arith) f.2 f.3 h;
  after = advance-Before r (to_bits n v) bs n (sym (length-to_bits n v)) h;
}

long_bits :
    (len : ℕ)
    → len < 16384
    → ltb len 128 ≡ false
    → length_bits len ≡ to_bits 8 (128 + len / 256) ++ to_bits 8 (len % 256)
long_bits len h long = rw long (to_bits-long len h)

short_bits : (len : ℕ) → ltb len 128 ≡ true → length_bits len ≡ to_bits 8 len
short_bits len short = rw short refl

get_length_lem :
    (r : BitStream) (len : ℕ) (bs : List ℕ)
    → len < 16384
    → Before r (length_bits len ++ bs)
    → (n : ℕ) × (n % 8 ≡ 0) × (get_length r ≡ ok (advance r n, len)) × Before (advance r n) bs
unfolding get_length
get_length_lem r len bs h b = elim (Bool-cases (ltb len 128)) [
  | inl short ↦
      let small : len < 128 = ltb→lt _ _ short in
      let here : Before r (to_bits 8 len ++ bs) =
        subst (λ (t : List ℕ). Before r (t ++ bs)) (short_bits len short) b in
      let f = next-Field 8 len r bs (omega arith) here in
      (8, omega arith, bind_ok _ _ f.reads (ground arith), f.after)
  | inr long ↦
      let hi : ℕ = 128 + len / 256 in
      let lo : ℕ = len % 256 in
      let here : Before r (to_bits 8 hi ++ (to_bits 8 lo ++ bs)) =
        subst (λ (t : List ℕ). Before r (t ++ bs)) (long_bits len h long) b in
      let f = next-Field 8 hi r (to_bits 8 lo ++ bs) (omega arith) here in
      let g = next-Field 8 lo (advance r 8) bs (omega arith) f.after in
      let top : (hi / 128 % 2 == 0) ≡ false = ground arith in
      let mid : (hi / 64 % 4 == 2) ≡ true = ground arith in
      let value : hi % 64 * 256 + lo ≡ len = omega arith in
      let end : r.bit_pos + 8 + 8 ≡ r.bit_pos + 16 = omega arith in
      (
        16,
        omega arith,
        bind_ok _ _ f.reads (rw (top, mid) (bind_ok _ _ g.reads (rw (value, end) refl))),
        record {
          past = g.after.past;
          position = omega (arith, g.after.position);
          content = g.after.content;
        },
      )
]

-- A NAS message that does not start on a byte is copied.
get_nas_lem :
    (r : BitStream) (raw nas bs : List ℕ)
    → IsBytes nas
    → r.bit_pos % 8 ≡ 3
    → Before r (bits_of nas ++ bs)
    → get_nas r raw (length nas) ≡ ok nas
unfolding get_nas
get_nas_lem r raw nas bs bytes shift h =
    let odd : (r.bit_pos % 8 == 0) ≡ false = ground arith in
    rw odd (bind_ok _ _ (get_bytes_lem nas r bs bytes h) refl)

start : (pdu bs : List ℕ) → bits_of pdu ≡ bs → Before (br_init pdu) bs
unfolding br_init
start pdu bs e = record { past = []; position = refl; content = e }

-- The fields of a DLInformationTransfer behind its index, with a bitmap that names a NAS message.
abbrev dl_info_bits : ℕ → ℕ → List ℕ → List ℕ
dl_info_bits tx opt nas = to_bits 2 tx ++ (0 ∷ (to_bits 3 (4 + opt) ++ octet_string nas))

decode_dl_info_lem :
    (r : BitStream) (raw : List ℕ) (tx opt : ℕ) (nas bs : List ℕ)
    → r.bit_pos ≡ 5
    → tx < 4
    → opt < 4
    → IsBytes nas
    → length nas ≤ 8192
    → Before r (dl_info_bits tx opt nas ++ bs)
    → decode_dl_info_transfer r raw
      ≡ ok (record {
        msg_type = MsgType.dl_info_transfer;
        nas_pdu = some nas;
        rrc_transaction_id = tx;
      })
unfolding decode_dl_info_transfer
decode_dl_info_lem r raw tx opt nas bs pos ht ho bytes small h =
    let behind_len : List ℕ = bits_of nas ++ bs in
    let string : List ℕ = length_bits (length nas) ++ behind_len in
    let f = next-Field 2 tx r (0 ∷ (to_bits 3 (4 + opt) ++ string)) (omega arith) (regroup h) in
    let g = next-Field 1 0 (advance r 2) (to_bits 3 (4 + opt) ++ string) (omega arith) f.after in
    let k = next-Field 3 (4 + opt) (advance (advance r 2) 1) string (omega arith) g.after in
    let r' : BitStream = advance (advance (advance r 2) 1) 3 in
    let l = get_length_lem r' (length nas) behind_len (omega arith) k.after in
    let aligned : l.0 % 8 ≡ 0 = l.1 in
    let bitmap : ((4 + opt) / 4 % 2 == 0) ≡ false = ground arith in
    let copied = get_nas_lem (advance r' l.0) raw nas bs bytes (omega arith) l.3 in
    bind_ok _ _ f.reads (
      bind_ok _ _ g.reads (
        bind_ok _ _ k.reads (
          rw bitmap
            (bind_ok _ _ l.2 (rw (le→not-ltb 8192 (length nas) small) (bind_ok _ _ copied refl))))))
  where
    regroup :
        Before r (dl_info_bits tx opt nas ++ bs)
        → Before r (
            to_bits 2 tx
            ++ (0 ∷ (to_bits 3 (4 + opt) ++ (length_bits (length nas) ++ (bits_of nas ++ bs)))))
    regroup h =
        subst (λ (t : List ℕ). Before r (to_bits 2 tx ++ (0 ∷ (to_bits 3 (4 + opt) ++ t))))
          (append_assoc (length_bits (length nas)) (bits_of nas) bs) h

-- A DLInformationTransfer with a NAS message of bytes, up to 8192 of them, is decoded to its
-- transaction and that message, whatever its other fields are and whatever follows.
pub decode-dl_info_transfer :
    (pdu : List ℕ) (tx opt : ℕ) (nas bs : List ℕ)
    → tx < 4
    → opt < 4
    → IsBytes nas
    → length nas ≤ 8192
    → bits_of pdu ≡ 0 ∷ 0 ∷ 1 ∷ 0 ∷ 1 ∷ (dl_info_bits tx opt nas ++ bs)
    → decode_dl_dcch pdu
      ≡ ok (record {
        msg_type = MsgType.dl_info_transfer;
        nas_pdu = some nas;
        rrc_transaction_id = tx;
      })
unfolding decode_dl_dcch
decode-dl_info_transfer pdu tx opt nas bs ht ho bytes small e =
    let message : List ℕ = dl_info_bits tx opt nas ++ bs in
    let f = next-Field 1 0 (br_init pdu) (to_bits 4 5 ++ message) (omega arith) (start pdu _ e) in
    let g = next-Field 4 5 (advance (br_init pdu) 1) message (omega arith) f.after in
    let some_byte : ltb (length pdu) 1 ≡ false =
      le→not-ltb (length pdu) 1 (omega (arith, length-bits_of pdu, ap length e)) in
    rw some_byte (
      bind_ok _ _ f.reads (
        bind_ok _ _ g.reads (
          unfold br_init in
          decode_dl_info_lem (advance (advance (br_init pdu) 1) 4) pdu tx opt nas bs refl ht ho
            bytes small g.after)))

-- An RRCSetup is decoded to its transaction, whatever follows it.
pub decode-setup :
    (pdu : List ℕ) (tx : ℕ) (bs : List ℕ)
    → tx < 4
    → bits_of pdu ≡ 0 ∷ 0 ∷ 1 ∷ (to_bits 2 tx ++ bs)
    → decode_dl_ccch pdu
      ≡ ok (record { msg_type = MsgType.setup; nas_pdu = none; rrc_transaction_id = tx })
unfolding decode_dl_ccch
decode-setup pdu tx bs ht e =
    let f =
      next-Field 1 0 (br_init pdu) (to_bits 2 1 ++ (to_bits 2 tx ++ bs)) (omega arith)
        (start pdu _ e) in
    let g = next-Field 2 1 (advance (br_init pdu) 1) (to_bits 2 tx ++ bs) (omega arith) f.after in
    let k = next-Field 2 tx (advance (advance (br_init pdu) 1) 2) bs (omega arith) g.after in
    let some_byte : ltb (length pdu) 1 ≡ false =
      le→not-ltb (length pdu) 1 (omega (arith, length-bits_of pdu, ap length e)) in
    rw some_byte (bind_ok _ _ f.reads (bind_ok _ _ g.reads (bind_ok _ _ k.reads refl)))
