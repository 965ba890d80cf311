-- ===== src/Transport.antt =====
-- src/transport: the ordinary UDP socket and the raw socket with a chosen source address.
pub mod Checksum
pub mod Packet
pub mod Reply
pub mod Unprivileged
pub mod Raw
pub mod Live
pub mod Ends
