-- ===== src/Ntb.antt =====
-- src/mbim_frontend/mbim_ntb.c: IP datagrams in NCM transfer blocks, little-endian.
-- The callback of the deframer becomes the list of the datagrams that it is given. Every sum of the
-- deframer is one of two 16-bit fields and a constant, so that none wraps in 32 bits. The two loops
-- take fuel, and a loop that runs out of it is a `fault`.
pub mod Deframe
pub mod Block
pub mod RoundTrip
mod Tests
use virtuallte.Common.{
  ℕ, zero, suc, ◌+◌, ◌*◌, ◌/◌, ◌%◌, ◌^◌, Bool, ◌||◌, ◌&&◌, not, List, [], ◌∷◌, ◌++◌, length, ltb,
  leb, ◌==◌, if◌then◌else◌, replicate, Outcome, ok, reject, fault, ◌>>=◌, read, read_bytes, blit,
  bit_and,
}

abbrev pub nth16_signature : ℕ
nth16_signature = 0x484D434E

abbrev pub ndp16_signature : ℕ
ndp16_signature = 0x00535049

abbrev pub ndp16_sig_mask : ℕ
ndp16_sig_mask = 0x00FFFFFF

-- The bytes that `wr16` and `wr32` store.
abbrev pub le16 : ℕ → List ℕ
le16 v = (v % 256) ∷ (v / 2 ^ 8 % 256) ∷ []

abbrev pub le32 : ℕ → List ℕ
le32 v = (v % 256) ∷ (v / 2 ^ 8 % 256) ∷ (v / 2 ^ 16 % 256) ∷ (v / 2 ^ 24 % 256) ∷ []

-- The fields that `|` joins do not overlap, so their union is their sum.
pub rd16 : List ℕ → ℕ → Outcome ℕ
rd16 p off = do a ← read p off; b ← read p (off + 1); ok ((a + b * 2 ^ 8) % 2 ^ 16)

pub rd32 : List ℕ → ℕ → Outcome ℕ
rd32 p off = do
  a ← read p off
  b ← read p (off + 1)
  c ← read p (off + 2)
  d ← read p (off + 3)
  ok ((a + b * 2 ^ 8 + c * 2 ^ 16 + d * 2 ^ 24) % 2 ^ 32)

-- One round of the inner loop of `mbim_ntb16_deframe`, on an entry that was read; `rest` is what
-- the rounds behind it deliver.
pub entry : List ℕ → ℕ → ℕ → ℕ → Outcome (List (List ℕ)) → Outcome (List (List ℕ))
entry ntb block_len dg_index dg_len rest =
    if dg_index == 0 && dg_len == 0
    then ok []
    else if dg_len == 0 || ltb block_len (dg_index + dg_len)
    then rest
    else do dg ← read_bytes ntb dg_index dg_len; dgs ← rest; ok (dg ∷ dgs)

-- The inner loop, over the entries from `p` on.
pub scan_entries : ℕ → List ℕ → ℕ → ℕ → ℕ → Outcome (List (List ℕ))
scan_entries zero ntb block_len ndp_end p = fault
scan_entries (suc fuel) ntb block_len ndp_end p =
    let rest = scan_entries fuel ntb block_len ndp_end (p + 4) in
    if leb (p + 4) ndp_end
    then (do
      dg_index ← rd16 ntb p
      dg_len ← rd16 ntb (p + 2)
      entry ntb block_len dg_index dg_len rest)
    else ok []

-- The end of an NDP, as far as its block allows.
abbrev pub ndp_limit : ℕ → ℕ → ℕ → ℕ
ndp_limit block_len ndp_index ndp_len =
    if ltb ndp_len 8 || ltb block_len (ndp_index + ndp_len) then block_len else ndp_index + ndp_len

-- How the chain of NDPs goes on behind one of them.
pub chain : ℕ → ℕ → List (List ℕ) → Outcome (List (List ℕ)) → Outcome (List (List ℕ))
chain ndp_index next_ndp dgs rest =
    if next_ndp == 0 || leb next_ndp ndp_index then ok dgs else do more ← rest; ok (dgs ++ more)

-- The outer loop of `mbim_ntb16_deframe`, over the NDPs from `ndp_index` on.
pub scan_ndps : ℕ → List ℕ → ℕ → ℕ → Outcome (List (List ℕ))
scan_ndps zero ntb block_len ndp_index = fault
scan_ndps (suc fuel) ntb block_len ndp_index =
    if not (ndp_index == 0) && leb (ndp_index + 8) block_len
    then (do
      sig ← rd32 ntb ndp_index
      ndp_len ← rd16 ntb (ndp_index + 4)
      next_ndp ← rd16 ntb (ndp_index + 6)
      if not (bit_and sig ndp16_sig_mask == ndp16_signature) then ok [] else do
        dgs ←
            scan_entries (block_len + 1) ntb block_len (ndp_limit block_len ndp_index ndp_len)
              (ndp_index + 8)
        let rest = scan_ndps fuel ntb block_len next_ndp
        chain ndp_index next_ndp dgs rest)
    else ok []

-- `mbim_ntb16_deframe`: the datagrams; what the function returns is their number.
pub deframe : List ℕ → Outcome (List (List ℕ))
deframe ntb =
    let len = length ntb in
    if ltb len 12 then reject else do
      signature ← rd32 ntb 0
      if not (signature == nth16_signature) then reject else do
        length_field ← rd16 ntb 8
        let block_len = if length_field == 0 || ltb len length_field then len else length_field
        ndp_index ← rd16 ntb 10
        scan_ndps (2 ^ 16 + 1) ntb block_len ndp_index

-- `(v + 3u) & ~3u`
abbrev pub align4 : ℕ → ℕ
align4 v = (v + 3) % 2 ^ 32 / 4 * 4

-- The stores of `mbim_ntb16_frame_single`: its header, its table, and the whole block.
pub write_header : List ℕ → ℕ → ℕ → ℕ → Outcome (List ℕ)
write_header out sequence ndp_off total = do
  out ← blit out 0 (le32 nth16_signature)
  out ← blit out 4 (le16 12)
  out ← blit out 6 (le16 sequence)
  out ← blit out 8 (le16 total)
  blit out 10 (le16 ndp_off)

pub write_table : List ℕ → ℕ → ℕ → Outcome (List ℕ)
write_table out ip_len ndp_off = do
  out ← blit out ndp_off (le32 ndp16_signature)
  out ← blit out (ndp_off + 4) (le16 16)
  out ← blit out (ndp_off + 6) (le16 0)
  out ← blit out (ndp_off + 8) (le16 12)
  out ← blit out (ndp_off + 10) (le16 ip_len)
  out ← blit out (ndp_off + 12) (le16 0)
  blit out (ndp_off + 14) (le16 0)

pub write_block : List ℕ → List ℕ → ℕ → ℕ → ℕ → Outcome (List ℕ)
write_block out ip sequence ndp_off total = do
  out ← blit out 0 (replicate total 0)
  out ← write_header out sequence ndp_off total
  out ← blit out 12 ip
  write_table out (length ip) ndp_off

-- `mbim_ntb16_frame_single`: the buffer and the length of the block. It answers 0 for an error.
pub frame_single : List ℕ → List ℕ → ℕ → Outcome (List ℕ × ℕ)
frame_single out ip sequence =
    let ip_len = length ip in
    let ndp_off = align4 ((12 + ip_len) % 2 ^ 32) in
    let total = (ndp_off + 16) % 2 ^ 32 in
    if ip_len == 0 || ltb (length out) total || ltb 0xFFFF total
    then reject
    else do out ← write_block out ip sequence ndp_off total; ok (out, total)
