-- ===== src/Engine.antt =====
-- src/engine.rs: engine identifiers, the parser of those that the user gives, the address of the
-- host's network interface, and the cascade that chooses the authoritative identifier.
pub mod Id
pub mod Parse
pub mod Mac
pub mod Resolve
pub mod Host
pub mod Total
