-- ===== src/Tests.antt =====
-- Concrete runs of the theorems, and toy parameters for them.
pub mod Varbind
pub mod Engine
pub mod Transport
pub mod Run
pub mod Host
pub mod Written
pub mod Secured
pub mod Typed
pub mod WellFormed
pub mod Toy
pub mod Usm
pub mod V3
pub mod Cli
pub mod Payload
