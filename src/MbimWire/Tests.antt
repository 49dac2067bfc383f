-- ===== src/MbimWire/Tests.antt =====
-- Strings in a builder.
use virtuallte.Common.{◌≡◌, refl, true, false, [], ◌∷◌, replicate, CString}
use virtuallte.MbimWire.{WireBuilder, init, finalize}

abbrev ims : CString
ims = b'i' ∷ b'm' ∷ b's' ∷ []

abbrev empty_builder : WireBuilder
empty_builder = record { buf = replicate 12 7; cap = 8; len = 0; frame_base = 0; overflow = false }

init_run : finalize (init (replicate 12 7) 8) ≡ true
unfolding finalize init
init_run = refl
