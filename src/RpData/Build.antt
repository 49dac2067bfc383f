-- ===== src/RpData/Build.antt =====
-- What `ims_build_rp_data` writes.
use virtuallte.Common.{
  ℕ, suc, ◌+◌, ◌-◌, ◌%◌, ◌≤◌, ◌≡◌, ◌⊎◌, inl, inr, refl, List, [], ◌∷◌, ◌++◌, length, take, drop, ok,
  reject, arith, length-append, length-drop, length-take, blit_next, bind_ok, read_bytes,
  take-append-drop, ltb, leb, ◌||◌, if◌then◌else◌, ◌==◌, Bool-cases, append_assoc,
  read_bytes-append, read_bytes_end, blit_at,
}
use virtuallte.RpData.{build_rp_data, write_rp_data}

-- The octets of an RP-DATA from the mobile: type 0, reference, no originator, the service centre
-- as destination, and the user data with its length.
abbrev pub rp_data : ℕ → ℕ → List ℕ → List ℕ → List ℕ
rp_data rp_mr n sca tpdu = 0 ∷ rp_mr ∷ 0 ∷ n ∷ (sca ++ (length tpdu ∷ tpdu))

-- The destination address is copied with its length octet, and an empty one is that octet alone.
address_lem :
    (n : ℕ) (sca tpdu : List ℕ)
    → length sca ≡ n
    → (if n == 0 then ok (0 ∷ []) else read_bytes (n ∷ (sca ++ tpdu)) 0 (1 + n)) ≡ ok (n ∷ sca)
address_lem n [] tpdu h = ground arith
address_lem n (x ∷ sca) tpdu h = ground (arith, read_bytes-append [] (n ∷ x ∷ sca) tpdu 0 (1 + n))

size_lem : (n : ℕ) → (if n == 0 then 1 else 1 + n) ≡ 1 + n
size_lem n = ground arith

module _ (rp_mr n : ℕ) (sca tpdu out : List ℕ) (address : length sca ≡ n) where
  -- The writes behind the checks, for a PDU of the address `sca` and the message `tpdu`.
  write_rp_data_lem :
      length tpdu ≤ 255
      → 5 + n + length tpdu ≤ length out
      → write_rp_data (n ∷ (sca ++ tpdu)) rp_mr out n (length tpdu)
        ≡ ok (rp_data rp_mr n sca tpdu ++ drop (5 + n + length tpdu) out, 5 + n + length tpdu)
  unfolding write_rp_data
  write_rp_data_lem small room =
      let k : ℕ = length tpdu in
      let front : List ℕ = 0 ∷ rp_mr ∷ 0 ∷ n ∷ sca in
      let len : length front ≡ 4 + n = omega arith in
      let p3 : 3 + suc (length sca) ≡ 4 + n = omega arith in
      let end1 : 4 + n + 1 + k ≡ 5 + n + k = omega arith in
      let end2 : 3 + (1 + n) + 1 + k ≡ 5 + n + k = omega arith in
      let byte : k % 256 ≡ k = omega arith in
      rw (size_lem n, byte)
        (bind_ok _ _ (blit_next [] out (0 ∷ rp_mr ∷ 0 ∷ []) 0 0 refl (omega arith)) (
          bind_ok _ _ (address_lem n sca tpdu address) (
            bind_ok _ _ (blit_next (0 ∷ rp_mr ∷ 0 ∷ []) out (n ∷ sca) 3 3 refl (omega arith)) (
              rw p3 (
                bind_ok _ _
                  (blit_next front out (k ∷ []) (4 + n) (3 + (1 + n)) (omega arith) (omega arith))
                  (bind_ok _ _ (read_bytes_end (n ∷ sca) tpdu (1 + n) k (omega arith) refl) (
                    bind_ok _ _
                      (blit_at _ (front ++ (k ∷ [])) out tpdu (4 + n + 1) (3 + (1 + n) + 1)
                        (regroup (k ∷ []) (drop (4 + n + 1) out))
                        (omega (arith, length-append {0} front (k ∷ []))) (omega arith))
                      (rw (end1, end2) (simp append_assoc)))))))))
    where
      regroup :
          (x y : List ℕ)
          → (0 ∷ rp_mr ∷ 0 ∷ n ∷ sca) ++ (x ++ y) ≡ ((0 ∷ rp_mr ∷ 0 ∷ n ∷ sca) ++ x) ++ y
      regroup x y = cc (append_assoc (0 ∷ rp_mr ∷ 0 ∷ n ∷ sca) x y)

-- A PDU that `ims_build_rp_data` can send: an address of `n` octets, and a message of 1 to 255.
pub record Sendable (pdu : List ℕ) (n : ℕ) (sca tpdu : List ℕ) : Type 0 where
  pub parts : pdu ≡ n ∷ (sca ++ tpdu)
  pub address : length sca ≡ n
  pub some_text : 1 ≤ length tpdu
  pub short : length tpdu ≤ 255

-- A PDU that is an address and a message of 1 to 255 octets is written as one RP-DATA, and the rest
-- of the buffer is left alone, if the buffer holds 5 octets more than the two parts.
pub build_rp_data_lem :
    (pdu : List ℕ) (n rp_mr : ℕ) (sca tpdu out : List ℕ)
    → Sendable pdu n sca tpdu
    → 5 + n + length tpdu ≤ length out
    → build_rp_data pdu rp_mr out
      ≡ ok (rp_data rp_mr n sca tpdu ++ drop (5 + n + length tpdu) out, 5 + n + length tpdu)
unfolding build_rp_data
build_rp_data_lem pdu n rp_mr sca tpdu out s room =
    let left : suc (length (sca ++ tpdu)) - (1 + n) ≡ length tpdu =
      omega (arith, length-append {0} sca tpdu) in
    rw (s.parts) (
      ground (
        arith,
        left,
        length-append sca tpdu,
        size_lem n,
        write_rp_data_lem rp_mr n sca tpdu out s.address s.short room,
      ))

-- Every other call is refused, and no call reaches outside the two buffers.
pub build_rp_data_cases :
    (pdu : List ℕ) (rp_mr : ℕ) (out : List ℕ)
    → ((n : ℕ) × (sca : List ℕ) × (tpdu : List ℕ) × Sendable pdu n sca tpdu
        × (5 + n + length tpdu ≤ length out)
        × (build_rp_data pdu rp_mr out
            ≡ ok (rp_data rp_mr n sca tpdu ++ drop (5 + n + length tpdu) out, 5 + n + length tpdu)))
      ⊎ (build_rp_data pdu rp_mr out ≡ reject)
unfolding build_rp_data
build_rp_data_cases [] rp_mr out = inr refl
build_rp_data_cases (n ∷ rest) rp_mr out =
    elim (Bool-cases
      (leb (length rest) n || ltb (255 + n) (length rest) || ltb (length out) (5 + length rest))) [
        | inl bad ↦ inr (ground (arith, size_lem n))
        | inr good ↦
            let parts : take n rest ++ drop n rest ≡ rest = take-append-drop n rest in
            let here : length (take n rest) ≡ n = length-take n rest (ground arith) in
            let there = length-drop {0} n rest in
            let s : Sendable (n ∷ rest) n (take n rest) (drop n rest) = record {
              parts = cc;
              address = here;
              some_text = ground arith;
              short = ground arith;
            } in
            let room : 5 + n + length (drop n rest) ≤ length out = ground (arith, there) in
            inl (
              n,
              take n rest,
              drop n rest,
              s,
              room,
              build_rp_data_lem (n ∷ rest) n rp_mr (take n rest) (drop n rest) out s room,
            )
      ]
