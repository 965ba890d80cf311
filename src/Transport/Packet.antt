-- ===== src/Transport/Packet.antt =====
-- The packet builders of src/transport/raw.rs. `u16` sums wrap, as in a release build.
pub mod Laws
use snmptrap_rs.Prelude.{
  ℕ, ◌+◌, ◌-◌, ◌*◌, ◌/◌, ◌%◌, ◌^◌, bit_or, Bool, true, false, List, [], ◌∷◌, ◌++◌, Bytes, length,
  ◌==◌, if◌then◌else◌,
}
use snmptrap_rs.Prelude.Words.{be16}
use snmptrap_rs.Text.Net.{Ipv4Addr, octets}
use snmptrap_rs.Transport.Checksum.{ip_checksum}

-- Where the program runs: a BSD kernel wants two fields in the order of the host.
pub data Kernel : Type 0 where
  network_order : Kernel
  host_order : Bool → Kernel

-- For a BSD, whether the host is little-endian.
abbrev pub iphdr_u16_to_kernel : Kernel → ℕ → Bytes
iphdr_u16_to_kernel network_order val = be16 val
iphdr_u16_to_kernel (host_order true) val = (val % 256) ∷ (val / 256 % 256) ∷ []
iphdr_u16_to_kernel (host_order false) val = be16 val

module _ (k : Kernel) (src dst : Ipv4Addr) (payload_len identification : ℕ) where
  -- The header with the given checksum bytes.
  abbrev pub ipv4_header : Bytes → Bytes
  ipv4_header checksum =
      let total_length = (20 + payload_len) % 65536 in
      bit_or (4 * 16) 5
      ∷ 0
      ∷ (iphdr_u16_to_kernel k total_length
          ++ (be16 identification
              ++ (iphdr_u16_to_kernel k 0x4000
                  ++ (64 ∷ 17 ∷ (checksum ++ (octets src ++ octets dst))))))

  unfoldable pub build_ipv4_header : Bytes
  build_ipv4_header = ipv4_header (be16 (ip_checksum (ipv4_header (0 ∷ 0 ∷ []))))

-- `8u16 + (payload.len() as u16)`
abbrev pub udp_len : Bytes → ℕ
udp_len payload = (8 + length payload % 65536) % 65536

-- The pseudo-header of RFC 768.
abbrev pub pseudo_header : Ipv4Addr → Ipv4Addr → Bytes → Bytes
pseudo_header src dst payload = octets src ++ (octets dst ++ (0 ∷ 17 ∷ be16 (udp_len payload)))

-- The datagram with the given checksum bytes.
abbrev pub udp_datagram : ℕ → ℕ → Bytes → Bytes → Bytes
udp_datagram src_port dst_port payload checksum =
    be16 src_port ++ (be16 dst_port ++ (be16 (udp_len payload) ++ (checksum ++ payload)))

-- What the checksum is computed over.
abbrev pub summed : Ipv4Addr → Ipv4Addr → ℕ → ℕ → Bytes → Bytes → Bytes
summed src dst src_port dst_port payload checksum =
    pseudo_header src dst payload ++ udp_datagram src_port dst_port payload checksum

unfoldable pub udp_checksum : Ipv4Addr → Ipv4Addr → ℕ → ℕ → Bytes → ℕ
udp_checksum src dst src_port dst_port payload =
    let csum = ip_checksum (summed src dst src_port dst_port payload (0 ∷ 0 ∷ [])) in
    if csum == 0 then 0xFFFF else csum

unfoldable pub build_udp_datagram : Ipv4Addr → Ipv4Addr → ℕ → ℕ → Bytes → Bytes
unfolding udp_checksum
build_udp_datagram src dst src_port dst_port payload =
    udp_datagram src_port dst_port payload (be16 (udp_checksum src dst src_port dst_port payload))
