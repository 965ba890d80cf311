-- ===== src/Varbind.antt =====
-- src/varbind.rs: the typed values of variable bindings and the parsers of their text.
pub mod Oid
pub mod Hex
pub mod Bits
pub mod Value
pub mod Total
pub mod RoundTrip
pub mod Typed
