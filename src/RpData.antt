-- ===== src/RpData.antt =====
-- src/ims_service/ims_rpdata.c: short messages as RP-DATA (TS 24.011) and as MBIM PDUs.
-- An MBIM PDU is the service centre address, a length and as many octets, and the TPDU behind it.
pub mod Build
pub mod Parse
mod Tests
use virtuallte.Common.{
  ℕ, ◌+◌, ◌-◌, ◌%◌, ◌^◌, Bool, ◌||◌, ◌&&◌, not, List, [], ◌∷◌, length, ltb, leb, ◌==◌,
  if◌then◌else◌, Outcome, ok, reject, ◌>>=◌, read, read_bytes, blit, bit_and,
}

-- The part of `ims_build_rp_data` behind its checks.
pub write_rp_data : List ℕ → ℕ → List ℕ → ℕ → ℕ → Outcome (List ℕ × ℕ)
write_rp_data mbim_pdu rp_mr out sca_len tpdu_len =
    let sca_total : ℕ = 1 + sca_len in
    let pos : ℕ = 3 + (if sca_len == 0 then 1 else sca_total) in
    do
      out ← blit out 0 (0x00 ∷ rp_mr ∷ 0x00 ∷ [])
      address ← if sca_len == 0 then ok (0x00 ∷ []) else read_bytes mbim_pdu 0 sca_total
      out ← blit out 3 address
      out ← blit out pos ((tpdu_len % 2 ^ 8) ∷ [])
      tpdu ← read_bytes mbim_pdu sca_total tpdu_len
      out ← blit out (pos + 1) tpdu
      ok (out, pos + 1 + tpdu_len)

-- `ims_build_rp_data`: the buffer and the number of bytes written.
pub build_rp_data : List ℕ → ℕ → List ℕ → Outcome (List ℕ × ℕ)
build_rp_data mbim_pdu rp_mr out =
    let mbim_len = length mbim_pdu in
    if ltb mbim_len 1 then reject else do
      sca_len ← read mbim_pdu 0
      let sca_total = 1 + sca_len
      let tpdu_len = mbim_len - sca_total
      if leb mbim_len sca_total
          then reject
          else if tpdu_len == 0 || ltb 255 tpdu_len
          then reject
          else if ltb (length out) (3 + (if sca_len == 0 then 1 else sca_total) + 1 + tpdu_len)
          then reject
          else write_rp_data mbim_pdu rp_mr out sca_len tpdu_len

-- The end of `ims_rp_data_to_mbim_pdu`: the user data length stands at `pos`, and the originator
-- address, with its length octet, at 2 in `oa_lv` octets.
pub copy_mbim_pdu : List ℕ → List ℕ → ℕ → ℕ → Outcome (List ℕ × ℕ)
copy_mbim_pdu rp out oa_lv pos = do
  ud_len ← read rp pos
  let pos = pos + 1
  if ud_len == 0 || ltb (length rp) (pos + ud_len)
      then reject
      else if ltb (length out) (oa_lv + ud_len)
      then reject
      else do
        oa ← read_bytes rp 2 oa_lv
        out ← blit out 0 oa
        ud ← read_bytes rp pos ud_len
        out ← blit out oa_lv ud
        ok (out, oa_lv + ud_len)

-- `ims_rp_data_to_mbim_pdu`: the buffer, the number of bytes written, and what goes through
-- `out_rp_mr` of a call that succeeds.
pub rp_data_to_mbim_pdu : List ℕ → List ℕ → Outcome ((List ℕ × ℕ) × ℕ)
rp_data_to_mbim_pdu rp out =
    let rp_len = length rp in
    if ltb rp_len 3 then reject else do
      mti ← read rp 0
      if not (bit_and mti 0x07 == 0x01) then reject else do
        rp_mr ← read rp 1
        oa_len ← read rp 2
        let oa_lv = 1 + oa_len
        if leb rp_len (2 + oa_lv) then reject else do
          let pos = 2 + oa_lv
          da_len ← read rp pos
          if leb rp_len (pos + 1 + da_len) then reject else do
            let pos = pos + 1 + da_len
            iei ← read rp pos
            let pos = if iei == 0x41 && ltb (pos + 1) rp_len then pos + 1 else pos
            written ← copy_mbim_pdu rp out oa_lv pos
            ok (written, rp_mr)
