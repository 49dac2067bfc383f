-- ===== src/Rls/Acks.antt =====
-- Acknowledgements of ue_rls.c: the list of ids, written by one loop and read by another.
use virtuallte.Common.{
  ℕ, ◌+◌, ◌*◌, ◌%◌, ◌^◌, ◌≤◌, ◌<◌, ◌≡◌, refl, ap, sym, ◌∙◌, List, [], ◌∷◌, ◌++◌, length, ok, reject,
  arith, IsU32, IsU64, All, drop, bind_ok, le→not-ltb, append-nil, get_elem?-append, length-append,
  append_assoc, read,
}
use virtuallte.Rls.{
  Message, be32, put_be32, put_ids, encode_pdu_ack, get_ids, decode_pdu_transmission_ack,
  decode_body, decode,
}
use virtuallte.Rls.Wire.{header, put_be32_next, get_be32-append, write_header_lem, decode-header}

-- The body of an acknowledgement, behind its count.
abbrev ids_bytes : List ℕ → List ℕ
ids_bytes [] = []
ids_bytes (id ∷ ids) = be32 id ++ ids_bytes ids

length-ids_bytes : (ids : List ℕ) → length (ids_bytes ids) ≡ 4 * length ids
length-ids_bytes [] = refl
length-ids_bytes (id ∷ ids) = omega (arith, length-ids_bytes ids)

-- `seen` are the ids already written, and `done` is the buffer up to the next one.
put_ids_lem :
    (todo seen ids done buf now : List ℕ) (i n : ℕ)
    → ids ≡ seen ++ todo
    → i ≡ length seen
    → now ≡ done ++ drop n buf
    → n ≡ 17 + i * 4
    → n ≡ length done
    → i + length todo < 2 ^ 30
    → n + 4 * length todo ≤ length buf
    → put_ids (length todo) i ids now
      ≡ ok (done ++ (ids_bytes todo ++ drop (n + 4 * length todo) buf))
unfolding put_ids
put_ids_lem [] seen ids done buf now i n q p w e d small room =
    ap ok (w ∙ ap (λ k. done ++ drop k buf) (omega arith))
put_ids_lem (id ∷ todo) seen ids done buf now i n q p w e d small room =
    let here : read ids i ≡ ok id = ground (arith, get_elem?-append seen (id ∷ todo) 0 i) in
    let at : 17 + i * 4 % 2 ^ 32 ≡ n = omega arith in
    let store : put_be32 now n id ≡ ok (done ++ (be32 id ++ drop (n + 4) buf)) =
      rw w (put_be32_next done buf n n id d (omega arith)) in
    let rest =
      put_ids_lem todo (seen ++ (id ∷ [])) ids (done ++ be32 id) buf
        (done ++ (be32 id ++ drop (n + 4) buf)) (i + 1) (n + 4)
        (q ∙ sym (append_assoc seen (id ∷ []) todo))
        (omega (arith, p, length-append {0} seen (id ∷ [])))
        (sym (append_assoc done (be32 id) (drop (n + 4) buf))) (omega arith)
        (omega (arith, length-append {0} done (be32 id))) (omega arith) (omega arith) in
    let end =
      append_assoc done (be32 id) (ids_bytes todo ++ drop (n + 4 + 4 * length todo) buf)
      ∙ ap (λ k. done ++ (be32 id ++ (ids_bytes todo ++ drop k buf))) (omega arith) in
    bind_ok _ _ here (rw at (bind_ok _ _ store (rest ∙ ap ok end)))

get_ids_lem :
    (ids done tail : List ℕ) (i : ℕ)
    → length done ≡ 17 + i * 4
    → All IsU32 ids
    → get_ids (length ids) i (done ++ (ids_bytes ids ++ tail)) ≡ ok ids
unfolding get_ids
get_ids_lem [] done tail i e h = refl
get_ids_lem (id ∷ ids) done tail i e h =
    let behind : get_ids (length ids) (i + 1) (done ++ (be32 id ++ (ids_bytes ids ++ tail)))
        ≡ ok ids =
      rw (← append_assoc done (be32 id) (ids_bytes ids ++ tail)) (
        get_ids_lem ids (done ++ be32 id) tail (i + 1)
          (omega (arith, length-append {0} done (be32 id))) h.1) in
    bind_ok _ _ (get_be32-append done (ids_bytes ids ++ tail) (17 + i * 4) id (omega arith) h.0)
      (bind_ok _ _ behind refl)

abbrev ack_head : ℕ → ℕ → List ℕ
ack_head sti count = header 7 sti ++ be32 count

encode_pdu_ack_lem :
    (buf : List ℕ) (sti : ℕ) (ids : List ℕ)
    → 17 + length ids * 4 ≤ length buf
    → length ids < 2 ^ 30
    → encode_pdu_ack buf sti ids (length ids)
      ≡ ok (
        ack_head sti (length ids) ++ (ids_bytes ids ++ drop (17 + length ids * 4) buf),
        17 + length ids * 4,
      )
unfolding encode_pdu_ack
encode_pdu_ack_lem buf sti ids room small =
    let n = length ids in
    let fill =
      put_ids_lem ids [] ids (ack_head sti n) buf (ack_head sti n ++ drop 17 buf) 0 17 refl refl
        refl refl refl (omega arith) (omega arith) in
    let total : 17 + 4 * n ≡ 17 + n * 4 = omega arith in
    rw (le→not-ltb (length buf) (17 + n * 4) room) (
      bind_ok _ _ (write_header_lem buf 7 sti (omega arith)) (
        bind_ok _ _ (put_be32_next (header 7 sti) buf 13 13 n refl (omega arith)) (
          bind_ok _ _ fill
            (ap (λ k. ok (ack_head sti n ++ (ids_bytes ids ++ drop k buf), 17 + n * 4)) total))))

decode-ack_bytes :
    (sti : ℕ) (ids : List ℕ)
    → length ids ≤ 64
    → IsU64 sti
    → All IsU32 ids
    → decode (ack_head sti (length ids) ++ ids_bytes ids)
      ≡ ok (Message.pdu_transmission_ack sti ids)
unfolding decode_body decode_pdu_transmission_ack
decode-ack_bytes sti ids h hs hi = ground (
  arith,
  decode-header 7 sti (be32 (length ids) ++ ids_bytes ids),
  get_be32-append (header 7 sti) (ids_bytes ids) 13 (length ids),
  get_ids_lem ids (ack_head sti (length ids)) [] 0,
  append-nil (ids_bytes ids),
  length-ids_bytes ids,
)

-- With room for it, an acknowledgement of at most 64 ids takes the first 17 + 4 * `length ids` bytes
-- of the buffer and leaves the others; those bytes decode to the ids in their order.
pub decode-encode_pdu_ack :
    (buf : List ℕ) (sti : ℕ) (ids : List ℕ)
    → 17 + length ids * 4 ≤ length buf
    → length ids ≤ 64
    → IsU64 sti
    → All IsU32 ids
    → (bytes : List ℕ) × (encode_pdu_ack buf sti ids (length ids)
        ≡ ok (bytes ++ drop (17 + length ids * 4) buf, 17 + length ids * 4))
      × (length bytes ≡ 17 + length ids * 4)
      × (decode bytes ≡ ok (Message.pdu_transmission_ack sti ids))
decode-encode_pdu_ack buf sti ids room few hs hi = (
  ack_head sti (length ids) ++ ids_bytes ids,
  encode_pdu_ack_lem buf sti ids room (omega arith),
  omega (arith, length-ids_bytes ids),
  decode-ack_bytes sti ids few hs hi,
)

-- The limit of 64 is the decoder's alone: an acknowledgement of more ids is encoded, and what is
-- encoded is refused by the decoder.
pub decode-encode_pdu_ack_over :
    (buf : List ℕ) (sti : ℕ) (ids : List ℕ)
    → 17 + length ids * 4 ≤ length buf
    → 64 < length ids
    → length ids < 2 ^ 30
    → IsU64 sti
    → (bytes : List ℕ) × (encode_pdu_ack buf sti ids (length ids)
        ≡ ok (bytes ++ drop (17 + length ids * 4) buf, 17 + length ids * 4))
      × (decode bytes ≡ reject)
unfolding decode_body decode_pdu_transmission_ack
decode-encode_pdu_ack_over buf sti ids room many small hs = (
  ack_head sti (length ids) ++ ids_bytes ids,
  encode_pdu_ack_lem buf sti ids room small,
  ground (
    arith,
    decode-header 7 sti (be32 (length ids) ++ ids_bytes ids),
    get_be32-append (header 7 sti) (ids_bytes ids) 13 (length ids),
    length-ids_bytes ids,
  ),
)
