-- ===== src/Cli.antt =====
-- The command line of src/cli.rs.
pub mod Types
pub mod Args
pub mod Agent
pub mod Laws
pub mod Accepts
pub mod Total
