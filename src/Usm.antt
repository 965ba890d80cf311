-- ===== src/Usm.antt =====
-- src/usm.rs: the protocols of the User-based Security Model, keys from passwords, signing and
-- encryption, over the cryptography of external crates.
pub mod Types
pub mod Names
pub mod Crypto
pub mod Keys
