-- ===== src/Encrypt.antt =====
-- fma-common/encrypt.h: the Blowfish cipher and the envelope `Encryptor`, Base64 and Base16.
pub mod Blowfish
pub mod Base16
pub mod Base64
pub mod Envelope
pub mod Md5
mod Tests
