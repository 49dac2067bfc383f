-- ===== src/RpData/Tests.antt =====
-- Runs of ims_rpdata.c, and its theorems at concrete messages.
use virtuallte.Common.{ℕ, ◌≡◌, refl, List, [], ◌∷◌, ◌++◌, replicate, ok}
use virtuallte.RpData.{build_rp_data, write_rp_data}

abbrev address : List ℕ
address = 0x91 ∷ 0x33 ∷ 0x06 ∷ []

abbrev message : List ℕ
message = 0x01 ∷ 0x00 ∷ 0x0B ∷ 0x91 ∷ []

abbrev mbim_pdu : List ℕ
mbim_pdu = 3 ∷ (address ++ message)

abbrev out : List ℕ
out = replicate 16 0

build_run :
    build_rp_data mbim_pdu 5 (replicate 12 0)
    ≡ ok (0 ∷ 5 ∷ 0 ∷ 3 ∷ 0x91 ∷ 0x33 ∷ 0x06 ∷ 4 ∷ message, 12)
unfolding build_rp_data write_rp_data
build_run = refl

-- 65 octets of a message, of which the first says 64.
abbrev long_message : List ℕ
long_message = 64 ∷ replicate 64 7
