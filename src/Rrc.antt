-- ===== src/Rrc.antt =====
-- src/ue_engine/ue_rrc.c: the RRC messages between the UE and the gNB, in unaligned packed encoding.
-- Stream has the bit writer and reader, Messages the encoders and decoders.
pub mod Stream
pub mod Messages
pub mod BitString
pub mod Writer
pub mod Reader
pub mod Encode
pub mod Decode
pub mod Safety
mod Tests
