-- ===== src/NasDecode.antt =====
-- src/ue_engine/ue_nas_decode.c: the fields that the UE takes from the NAS messages of the network.
-- `size_t` is wide enough for the sums of an offset and a 16-bit length, so they are not wrapped.
-- Logging is left out. A pointer into the message becomes the bytes that it points at, and the
-- event of a call that fails is left out: ue_engine.c drops it.
pub mod Event
pub mod Mobility
pub mod Session
pub mod Dispatch
mod Tests
