-- ===== src/NasSecurity/Uplink.antt =====
-- What `ue_nas_security_protect_with_sht` writes.
use virtuallte.Common.{
  ℕ, ◌+◌, ◌*◌, ◌%◌, ◌^◌, ◌≤◌, ◌≡◌, ◌≢◌, ◌⊎◌, inl, inr, Bool-cases, refl, ap, sym, ◌∙◌, true, false,
  not, ◌||◌, ◌==◌, le→not-ltb, if◌then◌else◌, if_false, if_both, List, [], ◌∷◌, ◌++◌, append_assoc,
  length, length-append, length-take, length-drop, take, drop, take-append-drop, drop-drop,
  replicate, arith, ok, bind_ok, blit_next, blit_at, blit_over, read_bytes, read_bytes-append,
}
use virtuallte.NasSecurity.Words.{be32_bytes}
use virtuallte.NasSecurity.Protection.{
  count_value, count_increment, CipheringAlg, SecurityCtx, NasCount, count_header, compute_mac,
  cipher, is_protected, is_ciphered, protect_with_sht,
}
use virtuallte.NasSecurity.Stream.{length-aes128_ctr}
use virtuallte.NasSecurity.Downlink.{IsCount}

length-cipher :
    (alg : CipheringAlg) (count bearer direction : ℕ) (key bytes : List ℕ)
    → length (cipher alg count bearer direction key bytes) ≡ length bytes
unfolding cipher
length-cipher CipheringAlg.nea0 count bearer direction key bytes = refl
length-cipher CipheringAlg.nea1 count bearer direction key bytes = refl
length-cipher CipheringAlg.nea2 count bearer direction key bytes =
    length-aes128_ctr key (count_header count bearer direction ++ replicate 8 0) bytes

-- What the code writes of a message.
abbrev sealed : SecurityCtx → List ℕ → ℕ → List ℕ
sealed ctx plain sht =
    if is_ciphered sht
    then cipher ctx.enc_alg (count_value ctx.ul_count) ctx.bearer 0 ctx.keys.knas_enc plain
    else plain

length-sealed :
    (ctx : SecurityCtx) (plain : List ℕ) (sht : ℕ) → length (sealed ctx plain sht) ≡ length plain
length-sealed ctx plain sht =
    if_both (λ (t : List ℕ). length t ≡ length plain) (is_ciphered sht) _ _
      (length-cipher ctx.enc_alg (count_value ctx.ul_count) ctx.bearer 0 ctx.keys.knas_enc plain)
      refl

abbrev uplink_body : SecurityCtx → List ℕ → ℕ → List ℕ
uplink_body ctx plain sht = ctx.ul_count.sqn ∷ sealed ctx plain sht

abbrev uplink_mac : SecurityCtx → List ℕ → ℕ → List ℕ
uplink_mac ctx plain sht = be32_bytes (
    compute_mac ctx.int_alg (count_value ctx.ul_count) ctx.bearer 0 ctx.keys.knas_int
      (uplink_body ctx plain sht))

abbrev uplink_message : SecurityCtx → List ℕ → ℕ → List ℕ
uplink_message ctx plain sht = 0x7E ∷ sht ∷ (uplink_mac ctx plain sht ++ uplink_body ctx plain sht)

protect-written :
    (buf : List ℕ) (ctx : SecurityCtx) (plain : List ℕ) (sht : ℕ)
    → ctx.active ≡ true
    → 1 ≤ length plain
    → is_protected sht ≡ true
    → 7 + length plain ≤ length buf
    → protect_with_sht buf ctx plain sht
      ≡ ok (
        (uplink_message ctx plain sht ++ drop (7 + length plain) buf, 7 + length plain),
        record ctx { ul_count = count_increment ctx.ul_count },
      )
unfolding protect_with_sht
protect-written buf ctx plain sht on some_bytes sort room =
    let n = length plain in
    let head : List ℕ = 0x7E ∷ sht ∷ [] in
    let old : List ℕ = take 4 (drop 2 buf) in
    let four : length old ≡ 4 = length-take 4 (drop 2 buf) (omega (arith, length-drop 2 buf)) in
    let sqn = ctx.ul_count.sqn in
    let rest = drop (7 + n) buf in
    let payload = sealed ctx plain sht in
    let mac = uplink_mac ctx plain sht in
    let apart : head ++ drop 2 buf ≡ (head ++ old) ++ drop 6 buf =
      ap (λ t. head ++ t)
        (sym (take-append-drop 4 (drop 2 buf)) ∙ ap (λ t. old ++ t) (drop-drop 4 2 buf)) in
    let done = (head ++ old) ++ (sqn ∷ []) in
    let seven : 7 ≡ length done = omega (arith, length-append old (sqn ∷ []), four) in
    let size = length-sealed ctx plain sht in
    let whole : done ++ (payload ++ rest) ≡ (head ++ old) ++ ((sqn ∷ payload) ++ rest) =
      append_assoc (head ++ old) (sqn ∷ []) (payload ++ rest) in
    let read_body =
      ap (λ t. read_bytes t 6 (1 + n)) whole
      ∙ read_bytes-append (head ++ old) (sqn ∷ payload) rest 6 (1 + n) (omega (arith, four))
          (omega (arith, size)) in
    let front : done ++ (payload ++ rest) ≡ head ++ (old ++ ((sqn ∷ payload) ++ rest)) =
      whole ∙ append_assoc head old ((sqn ∷ payload) ++ rest) in
    let wanted : (not ctx.active || (length plain == 0 || not (is_protected sht))) ≡ false =
      ap (λ b. not b || (length plain == 0 || not (is_protected sht))) on
      ∙ (ap (λ b. length plain == 0 || not b) sort ∙ ground arith) in
    if_false _ _ _ wanted (
      if_false _ _ _ (le→not-ltb (length buf) (7 + n) room) (
        bind_ok _ _ (blit_next [] buf head 0 0 refl (omega arith)) (
          bind_ok _ _
            (blit_at _ (head ++ old) buf (sqn ∷ []) 6 6 apart (omega (arith, four)) (omega arith))
            (bind_ok _ _
              (blit_at _ done buf plain 7 7
                (sym (append_assoc (head ++ old) (sqn ∷ []) (drop 7 buf))) seven room)
              (bind_ok _ _ (read_bytes-append done plain rest 7 n seven refl) (
                bind_ok _ _ (blit_over _ done plain rest payload 7 refl seven size) (
                  bind_ok _ _ read_body (
                    bind_ok _ _
                      (blit_over _ head old ((sqn ∷ payload) ++ rest) mac 2 front refl (sym four))
                      (ap
                        (λ (t : List ℕ). ok (
                          (head ++ t, 7 + n),
                          record ctx { ul_count = count_increment ctx.ul_count },
                        ))
                        (sym (append_assoc mac (sqn ∷ payload) rest)))))))))))

-- The 24 bits of a count.
abbrev pub nas_count : NasCount → ℕ
nas_count c = c.overflow * 256 + c.sqn

-- A protected message: its header type, the MAC of its sequence number and payload, that number, and
-- the payload.
abbrev pub protected_message : SecurityCtx → ℕ → List ℕ → List ℕ
protected_message ctx sht payload =
    0x7E
    ∷ sht
    ∷ (be32_bytes (
          compute_mac ctx.int_alg (nas_count ctx.ul_count) ctx.bearer 0 ctx.keys.knas_int
            (ctx.ul_count.sqn ∷ payload))
        ++ (ctx.ul_count.sqn ∷ payload))

-- The message was written with that payload, and the next one has the next count.
abbrev pub Protected : List ℕ → SecurityCtx → List ℕ → ℕ → List ℕ → Type 0
Protected buf ctx plain sht payload =
    (next : NasCount) × IsCount next
    × (nas_count next ≡ (nas_count ctx.ul_count + 1) % 2 ^ 24)
    × (protect_with_sht buf ctx plain sht
        ≡ ok (
          (protected_message ctx sht payload ++ drop (7 + length plain) buf, 7 + length plain),
          record ctx { ul_count = next },
        ))

next_count :
    (c : NasCount)
    → IsCount c
    → IsCount (count_increment c) × (nas_count (count_increment c) ≡ (nas_count c + 1) % 2 ^ 24)
unfolding count_increment
next_count c h =
    let low = h.sqn_below in
    let high = h.overflow_below in
    elim (Bool-cases ((c.sqn + 1) % 2 ^ 8 == 0)) [
      | inl wraps ↦
          let zero_next : (c.sqn + 1) % 2 ^ 8 ≡ 0 = ground arith in
          rw wraps (record { overflow_below = omega arith; sqn_below = omega arith }, omega arith)
      | inr stays ↦
          let nonzero : (c.sqn + 1) % 2 ^ 8 ≢ 0 = ground arith in
          rw stays (record { overflow_below = omega arith; sqn_below = omega arith }, omega arith)
    ]

-- With an active context, whose counts are within their widths, and room for 7 bytes more, a message
-- that is not empty is written with its header type, from 1 to 4, the MAC of its sequence number and
-- payload under its count, that number and the payload: the ciphered message for the types 2 and 4,
-- and the message itself for the types 1 and 3. The rest of the buffer is left alone, and the next
-- message has the next of the 2 ^ 24 counts.
pub protect_with_sht_lem :
    (buf : List ℕ) (ctx : SecurityCtx) (plain : List ℕ) (sht : ℕ)
    → ctx.active ≡ true
    → IsCount ctx.ul_count
    → 1 ≤ length plain
    → (1 ≤ sht) × (sht ≤ 4)
    → 7 + length plain ≤ length buf
    → (((sht ≡ 2) ⊎ (sht ≡ 4))
        × Protected buf ctx plain sht
            (cipher ctx.enc_alg (nas_count ctx.ul_count) ctx.bearer 0 ctx.keys.knas_enc plain))
      ⊎ (((sht ≡ 1) ⊎ (sht ≡ 3)) × Protected buf ctx plain sht plain)
protect_with_sht_lem buf ctx plain sht on counts some_bytes kinds room =
    let sort : is_protected sht ≡ true = ground arith in
    let (within, next) = next_count ctx.ul_count counts in
    let written = protect-written buf ctx plain sht on some_bytes sort room in
    elim (Bool-cases (is_ciphered sht)) [
      | inl hidden ↦
          inl (ground arith, (count_increment ctx.ul_count, within, next, rw hidden at written))
      | inr open_text ↦
          inr (ground arith, (count_increment ctx.ul_count, within, next, rw open_text at written))
    ]
