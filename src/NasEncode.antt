-- ===== src/NasEncode.antt =====
-- src/ue_engine/ue_nas_encode.c: the messages of the UE to the core network.
-- Cursor has the writes to a buffer, Suci the identity, Mobility and Session the messages; the
-- others are about what they write.
pub mod Cursor
pub mod Suci
pub mod Mobility
pub mod Session
pub mod Writes
pub mod Registration
pub mod Digits
pub mod Subscriber
pub mod Identity
pub mod Establishment
pub mod Messages
mod Tests
