-- ===== src/Payload.antt =====
-- The payloads of src/lib.rs.
pub mod Arguments
pub mod Security
pub mod Build
pub mod Laws
pub mod Reserved
pub mod Written
pub mod Typed
pub mod Secrets
pub mod Host
pub mod WellFormed
pub mod Accepted
pub mod Decrypted
pub mod WrittenV1
pub mod Total
pub mod Calm
