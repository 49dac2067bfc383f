-- ===== src/NasSecurity.antt =====
-- src/ue_engine/ue_nas_security.c and .h: the keys of NAS and the protection of its messages.
-- Words has the operations on machine words, Aes the block cipher with its counter mode and its MAC,
-- Sha the hash, Keys the derivation of keys with Milenage, Protection the messages; the others are about
-- them.
pub mod Words
pub mod Aes
pub mod Sha
pub mod Keys
pub mod Protection
pub mod Stream
pub mod Counter
pub mod Downlink
pub mod Uplink
mod Tests
