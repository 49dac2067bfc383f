-- ===== src/Ntb/RoundTrip.antt =====
-- What mbim_ntb.c frames, it takes apart again.
use virtuallte.Common.{
  ℕ, ◌+◌, ◌-◌, ◌%◌, ◌^◌, ◌≤◌, ◌≡◌, ◌∙◌, ap, sym, refl, ◌||◌, List, [], ◌∷◌, ◌++◌, length, ok, arith,
  replicate, length-replicate, take, drop, length-take, length-drop, take-append-drop, drop-drop,
  drop-append, length-append, append_assoc, blit, blit_next, bind_ok, if_false, ltb, ◌==◌,
}
use virtuallte.Ntb.{
  le16, le32, deframe, align4, write_block, write_header, write_table, frame_single,
  nth16_signature, ndp16_signature,
}
use virtuallte.Ntb.Block.{block, length-block, deframe-block}

-- The header of the block.
abbrev head : ℕ → ℕ → ℕ → List ℕ
head sequence end off =
    le32 nth16_signature ++ (le16 12 ++ (le16 sequence ++ (le16 end ++ le16 off)))

abbrev ndp : ℕ → List ℕ
ndp ip_len =
    le32 ndp16_signature
    ++ (le16 16 ++ (le16 0 ++ (le16 12 ++ (le16 ip_len ++ (le16 0 ++ le16 0)))))

write_header_lem :
    (buf : List ℕ) (sequence off end : ℕ)
    → 12 ≤ length buf
    → write_header buf sequence off end ≡ ok (head sequence end off ++ drop 12 buf)
unfolding write_header
write_header_lem buf sequence off end h =
    let s : List ℕ = le32 nth16_signature in
    bind_ok _ _ (blit_next [] buf s 0 0 refl (omega arith)) (
      bind_ok _ _ (blit_next s buf (le16 12) 4 4 refl (omega arith)) (
        bind_ok _ _ (blit_next (s ++ le16 12) buf (le16 sequence) 6 6 refl (omega arith)) (
          bind_ok _ _
            (blit_next (s ++ (le16 12 ++ le16 sequence)) buf (le16 end) 8 8 refl (omega arith))
            (blit_next (s ++ (le16 12 ++ (le16 sequence ++ le16 end))) buf (le16 off) 10 10 refl
              (omega arith)))))

-- A store behind `front` and what was stored behind it.
store :
    (front done buf new : List ℕ) (n i : ℕ)
    → i ≡ length front + length done
    → n + length new ≤ length buf
    → blit (front ++ (done ++ drop n buf)) i new
      ≡ ok (front ++ (done ++ (new ++ drop (n + length new) buf)))
store front done buf new n i e h =
    ap (λ t. blit t i new) (sym (append_assoc front done (drop n buf)))
    ∙ blit_next (front ++ done) buf new n i (omega (arith, length-append {0} front done)) h
    ∙ ap ok (append_assoc front done (new ++ drop (n + length new) buf))

write_table_lem :
    (front buf : List ℕ) (ip_len off n : ℕ)
    → off ≡ length front
    → n + 16 ≤ length buf
    → write_table (front ++ drop n buf) ip_len off ≡ ok (front ++ (ndp ip_len ++ drop (n + 16) buf))
unfolding write_table
write_table_lem front buf ip_len off n e h =
    let s : List ℕ = le32 ndp16_signature in
    let t6 : List ℕ = s ++ le16 16 in
    let t8 : List ℕ = s ++ (le16 16 ++ le16 0) in
    let t10 : List ℕ = s ++ (le16 16 ++ (le16 0 ++ le16 12)) in
    let t12 : List ℕ = s ++ (le16 16 ++ (le16 0 ++ (le16 12 ++ le16 ip_len))) in
    let t14 : List ℕ = s ++ (le16 16 ++ (le16 0 ++ (le16 12 ++ (le16 ip_len ++ le16 0)))) in
    bind_ok _ _ (store front [] buf s n off (omega arith) (omega arith)) (
      bind_ok _ _ (store front s buf (le16 16) (n + 4) (off + 4) (omega arith) (omega arith)) (
        bind_ok _ _ (store front t6 buf (le16 0) (n + 4 + 2) (off + 6) (omega arith) (omega arith))
          (bind_ok _ _
            (store front t8 buf (le16 12) (n + 4 + 2 + 2) (off + 8) (omega arith) (omega arith))
            (bind_ok _ _
              (store front t10 buf (le16 ip_len) (n + 4 + 2 + 2 + 2) (off + 10) (omega arith)
                (omega arith))
              (bind_ok _ _
                (store front t12 buf (le16 0) (n + 4 + 2 + 2 + 2 + 2) (off + 12) (omega arith)
                  (omega arith))
                (store front t14 buf (le16 0) (n + 4 + 2 + 2 + 2 + 2 + 2) (off + 14) (omega arith)
                    (omega arith)
                  ∙ ap (λ k. ok (front ++ (ndp ip_len ++ drop k buf))) (omega arith)))))))

-- The stores in order, into a buffer with room for the block: they leave the block in front of what
-- the buffer held behind it, with padding in its gap.
module _ (out ip : List ℕ) (sequence gap : ℕ) where
  abbrev off : ℕ
  off = 12 + length ip + gap

  abbrev zeros : List ℕ
  zeros = replicate (off + 16) 0 ++ drop (off + 16) out

  abbrev gap_bytes : List ℕ
  gap_bytes = take gap (drop (12 + length ip) zeros)

  module _ (room : off + 16 ≤ length out) where
    length-zeros : length zeros ≡ length out
    length-zeros = omega (
      arith,
      length-append {0} (replicate (off + 16) 0) (drop (off + 16) out),
      length-replicate {0} {A = ℕ} (off + 16) 0,
      length-drop {0} (off + 16) out,
    )

    length-gap : length gap_bytes ≡ gap
    length-gap =
        length-take gap (drop (12 + length ip) zeros)
          (omega (arith, length-zeros, length-drop {0} (12 + length ip) zeros))

    cleared : blit out 0 (replicate (off + 16) 0) ≡ ok zeros
    cleared =
        blit_next [] out (replicate (off + 16) 0) 0 0 refl
          (omega (arith, length-replicate {0} {A = ℕ} (off + 16) 0))
        ∙ ap (λ n. ok (replicate (off + 16) 0 ++ drop n out))
            (omega (arith, length-replicate {0} {A = ℕ} (off + 16) 0))

    split_gap : drop (12 + length ip) zeros ≡ gap_bytes ++ drop off zeros
    split_gap =
        sym (take-append-drop gap (drop (12 + length ip) zeros))
        ∙ ap (λ t. gap_bytes ++ t) (drop-drop gap (12 + length ip) zeros)

    write_block_lem :
        write_block out ip sequence off (off + 16)
        ≡ ok (block ip gap_bytes sequence ++ drop (off + 16) out)
    unfolding write_block
    write_block_lem =
        let h : List ℕ = head sequence (off + 16) off in
        bind_ok _ _ cleared (
          bind_ok _ _ (write_header_lem zeros sequence off (off + 16) (omega (arith, length-zeros)))
            (bind_ok _ _ (blit_next h zeros ip 12 12 refl (omega (arith, length-zeros))) (
              ap (λ t. write_table (h ++ (ip ++ t)) (length ip) off) split_gap
              ∙ ap (λ t. write_table (h ++ t) (length ip) off)
                  (sym (append_assoc ip gap_bytes (drop off zeros)))
              ∙ write_table_lem (h ++ (ip ++ gap_bytes)) zeros (length ip) off off length-front
                  (omega (arith, length-zeros))
              ∙ ap (λ t. ok ((h ++ (ip ++ gap_bytes)) ++ (ndp (length ip) ++ t))) behind
              ∙ ap (λ (g : ℕ). ok (body_at g ++ (ndp (length ip) ++ drop (off + 16) out)))
                  (sym length-gap)
              ∙ ap ok (
                  sym (
                    append_assoc (body_at (length gap_bytes)) (ndp (length ip))
                      (drop (off + 16) out))))))
      where
        length-front : off ≡ length (head sequence (off + 16) off ++ (ip ++ gap_bytes))
        length-front = omega (
          arith,
          length-append {0} (head sequence (off + 16) off) (ip ++ gap_bytes),
          length-append {0} ip gap_bytes,
          length-gap,
        )

        behind : drop (off + 16) zeros ≡ drop (off + 16) out
        behind =
            drop-append (replicate (off + 16) 0) (drop (off + 16) out) (off + 16)
              (omega (arith, length-replicate {0} {A = ℕ} (off + 16) 0))

        body_at : ℕ → List ℕ
        body_at g =
            head sequence (12 + length ip + g + 16) (12 + length ip + g) ++ (ip ++ gap_bytes)

-- With room for it and no more than 0xFFFF bytes in all, framing an IP packet takes the block at the
-- start of the buffer and leaves what is behind it, and the deframer reads that block back to
-- exactly that packet.
pub deframe-frame_single :
    (out ip : List ℕ) (sequence : ℕ)
    → 1 ≤ length ip
    → length ip ≤ 0xFFFF
    → align4 (12 + length ip) + 16 ≤ 0xFFFF
    → align4 (12 + length ip) + 16 ≤ length out
    → (bytes : List ℕ) × (frame_single out ip sequence
        ≡ ok (bytes ++ drop (length bytes) out, length bytes))
      × (length bytes ≡ align4 (12 + length ip) + 16)
      × (deframe bytes ≡ ok (ip ∷ []))
unfolding frame_single
deframe-frame_single out ip sequence some_byte short small room = (
  bytes,
  if_false (length ip == 0 || ltb (length out) end || ltb 0xFFFF end) _ _ (ground arith) (
      bind_ok _ _
        (ap (λ n. write_block out ip sequence n ((n + 16) % 2 ^ 32)) wraps
          ∙ ap (write_block out ip sequence (off out ip sequence gap)) no_wrap
          ∙ write_block_lem out ip sequence gap fits)
        (ap (λ (n : ℕ). ok (bytes ++ drop (12 + length ip + gap + 16) out, n))
            (omega (arith, aligned))
          ∙ ap (λ (n : ℕ). ok (bytes ++ drop n out, n)) (sym size))),
  size ∙ omega arith,
  deframe-block ip (gap_bytes out ip sequence gap) sequence
      (omega (arith, aligned, length-gap out ip sequence gap fits)) some_byte,
)
  where
    gap : ℕ
    gap = align4 (12 + length ip) - (12 + length ip)

    aligned : 12 + length ip + gap ≡ align4 (12 + length ip)
    aligned = omega arith

    end : ℕ
    end = (align4 ((12 + length ip) % 2 ^ 32) + 16) % 2 ^ 32

    fits : 12 + length ip + gap + 16 ≤ length out
    fits = omega (arith, aligned)

    bytes : List ℕ
    bytes = block ip (gap_bytes out ip sequence gap) sequence

    size : length bytes ≡ 12 + length ip + gap + 16
    size = omega (
      arith,
      length-block ip (gap_bytes out ip sequence gap) sequence,
      length-gap out ip sequence gap fits,
    )

    wraps : align4 ((12 + length ip) % 2 ^ 32) ≡ 12 + length ip + gap
    wraps = omega arith

    no_wrap : (12 + length ip + gap + 16) % 2 ^ 32 ≡ 12 + length ip + gap + 16
    no_wrap = omega (arith, aligned)
