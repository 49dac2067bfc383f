-- ===== src/Rrc/Safety.antt =====
-- The decoders of ue_rrc.c on any packet, and the bit streams read where they were written.
use virtuallte.Common.{
  ℕ, zero, suc, ◌+◌, ◌-◌, ◌*◌, ◌/◌, ◌%◌, ◌^◌, ◌≤◌, ◌<◌, ◌≡◌, refl, sym, ap, ◌∙◌, not, ◌||◌, ◌==◌,
  ltb, inl, inr, none, some, List, ◌++◌, append_assoc, length, replicate, ok, Safe, Safe-bind,
  Safe-if, Safe-read, read_bytes_ok, drop, length-drop, length-append, length-take, arith,
}
use virtuallte.Rrc.Stream.{
  BitStream, br_init, get_bit, get_loop, get_bits, get_bytes, get_length, put_bits,
}
use virtuallte.Rrc.Messages.{RrcMessage, get_nas, decode_dl_info_transfer, decode_dl_dcch}
use virtuallte.Rrc.BitString.{to_bits, length-to_bits}
use virtuallte.Rrc.Writer.{Holds, put_bits-Writes}
use virtuallte.Rrc.Reader.{get_bits_lem}

-- A number that has room in a stream is written, and is read back from where it was written.
pub get_bits-put_bits :
    (w : BitStream) (bs : List ℕ) (v n : ℕ)
    → Holds w bs
    → 0 < n
    → n ≤ 64
    → v < 2 ^ n
    → v < 2 ^ 64
    → length bs + n ≤ 8 * length w.buf
    → (w' : BitStream) × (put_bits w v n ≡ ok w')
      × (get_bits (record w' { bit_pos = length bs }) n ≡ ok (w', v))
get_bits-put_bits w bs v n h pos small low fits room = elim (put_bits-Writes v n pos small w bs h) [
  | inr (full, e) ↦ absurd (omega (arith, length-to_bits n v))
  | inl (free, w', e, a) ↦
      let zeros : List ℕ = replicate (8 * length w'.buf - length (bs ++ to_bits n v)) 0 in
      let r : BitStream = record w' { bit_pos = length bs } in
      let end : length bs + n ≡ w'.bit_pos =
        omega
          (arith, a.holds.position, length-append {A = ℕ} bs (to_bits n v), length-to_bits n v) in
      (
        w',
        e,
        get_bits_lem n v r zeros pos small low fits (record {
          past = bs;
          position = refl;
          content = a.holds.content ∙ append_assoc bs (to_bits n v) zeros;
        })
            ∙ ap (λ k. ok (record w' { bit_pos = k }, v)) end,
      )
]

-- Reading keeps the buffer.
abbrev SameBuf {ℓ} : {A : Type ℓ} → BitStream → BitStream × A → Type 0
SameBuf r x = x.0.buf ≡ r.buf

get_bit-Safe : (r : BitStream) → Safe (SameBuf r) (get_bit r)
unfolding get_bit
get_bit-Safe r =
    Safe-if (SameBuf r) (not (ltb (r.bit_pos / 8) (length r.buf))) _ _ (λ e. tt)
      (λ e. Safe-read (SameBuf r) r.buf (r.bit_pos / 8) _ (ground arith) (λ b. refl))

get_loop-Safe : (n : ℕ) (r : BitStream) (v : ℕ) → Safe (SameBuf r) (get_loop n r v)
unfolding get_loop
get_loop-Safe zero r v = refl
get_loop-Safe (suc n) r v =
    Safe-bind (SameBuf r) (SameBuf r) (get_bit r) _ (get_bit-Safe r)
      (λ b same. rw (sym same) (get_loop-Safe n b.0 (v * 2 % 2 ^ 64 + b.1)))

get_bits-Safe : (r : BitStream) (n : ℕ) → Safe (SameBuf r) (get_bits r n)
unfolding get_bits
get_bits-Safe r n =
    Safe-if (SameBuf r) (n == 0 || ltb 64 n) _ _ (λ e. tt) (λ e. get_loop-Safe n r 0)

get_bytes-Safe : (n : ℕ) (r : BitStream) → Safe (λ x. length x.1 ≡ n) (get_bytes r n)
unfolding get_bytes
get_bytes-Safe zero r = refl
get_bytes-Safe (suc n) r =
    Safe-bind (SameBuf r) (λ x. length x.1 ≡ suc n) (get_bits r 8) _ (get_bits-Safe r 8)
      (λ b same.
        Safe-bind (λ x. length x.1 ≡ n) (λ x. length x.1 ≡ suc n) (get_bytes b.0 n) _
          (get_bytes-Safe n b.0) (λ rest size. ap suc size))

get_length-Safe : (r : BitStream) → Safe (SameBuf r) (get_length r)
unfolding get_length
get_length-Safe r =
    Safe-bind (SameBuf r) (SameBuf r) (get_bits r 8) _ (get_bits-Safe r 8) (λ b same.
      Safe-if (SameBuf r) (b.1 / 128 % 2 == 0) _ _ (λ e. same)
        (λ e.
          Safe-if (SameBuf r) (b.1 / 64 % 4 == 2) _ _
            (λ e'.
              Safe-bind (SameBuf b.0) (SameBuf r) (get_bits b.0 8) _ (get_bits-Safe b.0 8)
                (λ c same'. same' ∙ same))
            (λ e'. tt)))

get_nas-Safe :
    (r : BitStream) (raw : List ℕ) (n : ℕ)
    → r.buf ≡ raw
    → Safe (λ nas. length nas ≡ n) (get_nas r raw n)
unfolding get_nas
get_nas-Safe r raw n same =
    let Sized : List ℕ → Type 0 = λ nas. length nas ≡ n in
    let off : ℕ = r.bit_pos / 8 in
    Safe-if Sized (r.bit_pos % 8 == 0) _ _
      (λ e.
        Safe-if Sized (ltb (length r.buf) (off + n)) _ _ (λ long. tt)
          (λ fits.
            let size : length r.buf ≡ length raw = ap length same in
            let room : off + n ≤ length raw = ground arith in
            rw (read_bytes_ok raw off n room)
              (length-take n (drop off raw) (omega (arith, length-drop {A = ℕ} off raw)))))
      (λ e.
        Safe-bind (λ x. length x.1 ≡ n) Sized (get_bytes r n) _ (get_bytes-Safe n r)
          (λ x size. size))

-- A message without a NAS message, or with one of 8192 bytes at most.
abbrev pub Carries : RrcMessage → Type 0
Carries m = elim m.nas_pdu [ none ↦ Unit {0} | some nas ↦ length nas ≤ 8192 ]

decode_dl_info-Safe :
    (r : BitStream) (raw : List ℕ) → r.buf ≡ raw → Safe Carries (decode_dl_info_transfer r raw)
unfolding decode_dl_info_transfer
decode_dl_info-Safe r raw same =
    Safe-bind (SameBuf r) Carries (get_bits r 2) _ (get_bits-Safe r 2) (λ tx same1.
      Safe-bind (SameBuf tx.0) Carries (get_bits tx.0 1) _ (get_bits-Safe tx.0 1) (λ crit same2.
        Safe-if Carries (not (crit.1 == 0)) _ _ (λ e. tt)
          (λ e.
            Safe-bind (SameBuf crit.0) Carries (get_bits crit.0 3) _ (get_bits-Safe crit.0 3)
              (λ opt same3.
                Safe-if Carries (opt.1 / 4 % 2 == 0) _ _ (λ absent. tt)
                  (λ present.
                    Safe-bind (SameBuf opt.0) Carries (get_length opt.0) _ (get_length-Safe opt.0)
                      (λ len same4.
                        Safe-if Carries (ltb 8192 len.1) _ _ (λ long. tt)
                          (λ short.
                            let whole : len.0.buf ≡ raw =
                              same4 ∙ (same3 ∙ (same2 ∙ (same1 ∙ same))) in
                            let limit : len.1 ≤ 8192 = ground arith in
                            Safe-bind (λ nas. length nas ≡ len.1) Carries (get_nas len.0 raw len.1)
                              _ (get_nas-Safe len.0 raw len.1 whole)
                              (λ nas size. omega arith))))))))

-- No packet is read outside its bytes, and no decoded NAS message is longer than the static buffer
-- of 8192 bytes that it is copied to.
pub decode_dl_dcch-Safe : (pdu : List ℕ) → Safe Carries (decode_dl_dcch pdu)
unfolding decode_dl_dcch br_init
decode_dl_dcch-Safe pdu =
    Safe-if Carries (ltb (length pdu) 1) _ _ (λ e. tt)
      (λ e.
        let r : BitStream = record { buf = pdu; bit_pos = 0 } in
        Safe-bind (SameBuf r) Carries (get_bits r 1) _ (get_bits-Safe r 1) (λ choice same.
          Safe-if Carries (not (choice.1 == 0)) _ _ (λ e. tt)
            (λ e.
              Safe-bind (SameBuf choice.0) Carries (get_bits choice.0 4) _
                (get_bits-Safe choice.0 4)
                (λ c1 same'.
                  Safe-if Carries (c1.1 == 5) _ _ (λ e. decode_dl_info-Safe c1.0 pdu (same' ∙ same))
                    (λ e. tt)))))
