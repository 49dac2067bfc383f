-- ===== src/MbimWire/Strings.antt =====
-- What `mbim_wire_append_string` stores, and where.
use virtuallte.Common.{
  ℕ, ◌+◌, ◌-◌, ◌*◌, ◌%◌, ◌^◌, ◌≤◌, ◌<◌, ◌≡◌, Bool, true, false, List, [], ◌∷◌, ◌++◌, length, take,
  drop, replicate, ok, length-replicate, arith, CString,
}
use virtuallte.MbimWire.{WireBuilder, MbimString, mbim_align4, reserve}

-- A string in UTF-16, little endian, as far as ASCII needs it.
abbrev pub utf16 : CString → List ℕ
utf16 [] = []
utf16 (c ∷ src) = c % 256 ∷ 0 ∷ utf16 src

-- A builder that has not overflowed.
pub record IsOpen (b : WireBuilder) : Type 0 where
  pub within : b.len ≤ b.cap
  pub room : b.cap ≤ length b.buf
  pub width : b.cap < 2 ^ 32
  pub frame : b.frame_base ≤ b.len
  pub no_overflow : b.overflow ≡ false

-- What reserving does: the old bytes stay, and `n` zeros follow them.
pub reserve_lem :
    (b : WireBuilder) (n : ℕ)
    → IsOpen b
    → 0 < n
    → b.len + n ≤ b.cap
    → reserve b n
      ≡ ok (
        record b {
          buf = take b.len b.buf ++ (replicate n 0 ++ drop (b.len + n) b.buf);
          len = b.len + n;
        },
        b.len,
      )
unfolding reserve
reserve_lem b n o some fits =
    let size = length-replicate {A = ℕ} n 0 in
    let e : (b.len + n) % 2 ^ 32 ≡ b.len + n = omega (arith, o.within, o.width) in
    let ok_room : b.cap ≤ length b.buf = o.room in ground (arith, size, e)

abbrev nothing : MbimString
nothing = record { offset = 0; string_length = 0 }

-- A string that went in: it is found behind the old bytes, at its offset from the frame's start.
pub record Appended (b : WireBuilder) (s : CString) (r : (WireBuilder × MbimString) × Bool)
    : Type 0 where
  pub done : r.1 ≡ true
  pub still_open : IsOpen r.0.0
  pub advance : r.0.0.len ≡ b.len + mbim_align4 (2 * length s)
  pub kept : take b.len r.0.0.buf ≡ take b.len b.buf
  pub size : r.0.1.string_length ≡ 2 * length s
  pub text : take (2 * length s) (drop (r.0.0.frame_base + r.0.1.offset) r.0.0.buf) ≡ utf16 s

module _ (b : WireBuilder) (s : CString) (o : IsOpen b) (short : length s < 2 ^ 30) where
  abbrev padded : ℕ
  padded = mbim_align4 (2 * length s)

  abbrev zeros : List ℕ
  zeros = replicate padded 0 ++ drop (b.len + padded) b.buf

  abbrev filled : List ℕ
  filled = take b.len b.buf ++ (utf16 s ++ drop (2 * length s) zeros)

  abbrev appended : (WireBuilder × MbimString) × Bool
  appended = (
    (
      record b { buf = filled; len = b.len + padded },
      record { offset = b.len - b.frame_base; string_length = 2 * length s },
    ),
    true,
  )
