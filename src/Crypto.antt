-- ===== src/Crypto.antt =====
-- internal/crypto/crypto.go: the framed, authenticated stream of an artifact.
pub mod Stream
pub mod Cipher
pub mod Format
pub mod Steps
pub mod Decrypting
pub mod Encrypting
pub mod Total
pub mod Keyed
pub mod RoundTrip
pub mod Tag
mod Tests
