-- ===== src/Ntb/Tests.antt =====
-- Runs of mbim_ntb.c, and its theorems at concrete packets.
use virtuallte.Common.{ℕ, ◌≡◌, List, [], ◌∷◌, ◌++◌, length, drop, replicate, ok, arith}
use virtuallte.Ntb.{frame_single, deframe}
use virtuallte.Ntb.Deframe.{Deframed, deframe-Deframed}
use virtuallte.Ntb.RoundTrip.{deframe-frame_single}

abbrev ip : List ℕ
ip = 0x45 ∷ 0 ∷ 0 ∷ 5 ∷ 1 ∷ []

abbrev out : List ℕ
out = replicate 40 0xAA

-- A table whose entry reaches behind the block.
abbrev bogus : List ℕ
bogus =
    0x4E ∷ 0x43 ∷ 0x4D ∷ 0x48 ∷ 12 ∷ 0 ∷ 0 ∷ 0 ∷ 0 ∷ 0 ∷ 12 ∷ 0 ∷ 0x49 ∷ 0x50 ∷ 0x53 ∷ 0 ∷ 16 ∷ 0
    ∷ 0 ∷ 0 ∷ 200 ∷ 0 ∷ 9 ∷ 0 ∷ []

deframe-Deframed_example : Deframed bogus (deframe bogus)
deframe-Deframed_example = deframe-Deframed bogus

deframe-frame_single_example :
    (bytes : List ℕ) × (frame_single out ip 7 ≡ ok (bytes ++ drop (length bytes) out, length bytes))
    × (length bytes ≡ 36)
    × (deframe bytes ≡ ok (ip ∷ []))
deframe-frame_single_example =
    deframe-frame_single out ip 7 (omega arith) (omega arith) (omega arith) (omega arith)
