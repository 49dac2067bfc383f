-- ===== src/NasEncode/Suci.antt =====
-- The concealed identity of src/ue_engine/ue_nas_encode.c, with the null scheme.
-- `digit_val` is `none` where the source has -1.
use virtuallte.Common.{
  ℕ, ◌+◌, ◌-◌, ◌*◌, ◌/◌, ◌%◌, Bool, true, not, ◌&&◌, ◌||◌, ◌==◌, ltb, leb, if◌then◌else◌, Option,
  none, some, List, [], ◌∷◌, length, get_or, take, drop, Outcome, ok, reject, ◌>>=◌, CString,
}
use virtuallte.NasEncode.Cursor.{Cursor, at_start, put}

unfoldable pub digit_val : ℕ → Option ℕ
digit_val c = if leb 48 c && leb c 57 then some (c - 48) else none

-- The nibble of a digit, or the filler.
unfoldable pub nibble : Option ℕ → ℕ
nibble none = 15
nibble (some d) = d % 16

unfoldable pub bcd_pack : Option ℕ → Option ℕ → ℕ
bcd_pack a b = nibble b * 16 + nibble a

unfoldable pub bcd_validate_strict : ℕ → Bool
bcd_validate_strict byte = not (ltb 9 (byte % 16) || ltb 9 (byte / 16 % 16))

unfoldable pub bcd_validate_plmn : ℕ → ℕ → ℕ → Bool
bcd_validate_plmn p0 p1 p2 =
    not (ltb 9 (p0 % 16) || ltb 9 (p0 / 16 % 16))
    && (not (ltb 9 (p1 % 16) || (ltb 9 (p1 / 16 % 16) && not (p1 / 16 % 16 == 15)))
        && not (ltb 9 (p2 % 16) || ltb 9 (p2 / 16 % 16)))

-- The loop over the MSIN, from byte 8 on.
unfoldable pub all_strict : List ℕ → Bool
all_strict [] = true
all_strict (b ∷ bytes) = bcd_validate_strict b && all_strict bytes

unfoldable pub suci_validate_bcd : List ℕ → Bool
suci_validate_bcd suci =
    bcd_validate_plmn (get_or suci 1 0) (get_or suci 2 0) (get_or suci 3 0)
    && (bcd_validate_strict (get_or suci 4 0)
        && (bcd_validate_strict (get_or suci 5 0) && all_strict (drop 8 suci)))

-- The loop that writes the MSIN, two digits to a byte.
unfoldable pub put_msin : Cursor → CString → Outcome Cursor
put_msin c [] = ok c
put_msin c (a ∷ []) = put c (bcd_pack (digit_val a) none ∷ [])
put_msin c (a ∷ b ∷ msin) = do
  c ← put c (bcd_pack (digit_val a) (digit_val b) ∷ [])
  put_msin c msin

-- The writes behind the checks on the lengths, and the check of what was written.
unfoldable pub write_suci : List ℕ → CString → CString → CString → Outcome (List ℕ × ℕ)
write_suci buf mcc mnc msin = do
  let mcc1 = digit_val (get_or mcc 0 0)
  let mcc2 = digit_val (get_or mcc 1 0)
  let mcc3 = digit_val (get_or mcc 2 0)
  let mnc1 = digit_val (get_or mnc 0 0)
  let mnc2 = digit_val (get_or mnc 1 0)
  let mnc3 : Option ℕ = if length mnc == 3 then digit_val (get_or mnc 2 0) else none
  c ← put (at_start buf) (1 ∷ [])
  c ← put c (bcd_pack mcc1 mcc2 ∷ bcd_pack mcc3 mnc3 ∷ bcd_pack mnc1 mnc2 ∷ [])
  c ← put c (0 ∷ 0 ∷ 0 ∷ 0 ∷ [])
  c ← put_msin c msin
  if suci_validate_bcd (take c.pos c.buf) then ok (c.buf, c.pos) else reject

unfoldable pub encode_suci : List ℕ → CString → CString → CString → Outcome (List ℕ × ℕ)
encode_suci buf imsi mcc mnc =
    if not (length mcc == 3) || (not (length mnc == 2) && not (length mnc == 3))
    then reject
    else if ltb (length imsi) (length mcc + length mnc)
    then reject
    else let msin : CString = drop (length mcc + length mnc) imsi in
      if ltb (length buf) (8 + (length msin + 1) / 2) then reject else write_suci buf mcc mnc msin
