-- ===== src/Transport/Raw/Received.antt =====
-- What a receiver makes of the checksum of a packet of src/transport/raw.rs.
use snmptrap_rs.Prelude.{
  ℕ, ◌+◌, ◌*◌, ◌≤◌, ◌≡◌, ◌≢◌, refl, sym, ◌∙◌, ap, arith, inl, inr, true, false, List, ◌∷◌, ◌++◌,
  Option, none, some, Bytes, AreBytes, All, length, take, drop, get_or, ltb, Bool-cases,
}
use snmptrap_rs.Prelude.Words.{be16}
use snmptrap_rs.Text.Net.{Ipv4Addr, IsAddr, octets}
use snmptrap_rs.Errors.{IoError}
use snmptrap_rs.Transport.Checksum.{ones_sum}
use snmptrap_rs.Transport.Packet.{
  Kernel, network_order, host_order, build_ipv4_header, udp_len, pseudo_header, build_udp_datagram,
}
use snmptrap_rs.Transport.Packet.Laws.{ones_sum-build_udp_datagram, build_udp_datagram_len}
use snmptrap_rs.Transport.Raw.{
  Host, Attempt, chosen_port, spoofed_packet, max_udp_payload, open_then, send_all, send_spoofed,
}
use snmptrap_rs.Transport.Raw.Laws.{spoofed_loop-All, spoofed_packet-IsPacketOf}

-- The pseudo-header of RFC 768 as a receiver reads it off the packet: the source and the destination
-- of the IP header, a zero, the protocol of the IP header, and the length of what is behind it.
abbrev pub seen : Bytes → Bytes
seen p = take 8 (drop 12 p) ++ (0 ∷ get_or p 9 0 ∷ be16 (length (drop 20 p)))

-- A packet of UDP from one address to another whose checksum is there and verifies.
abbrev pub IsReceived : Ipv4Addr → Ipv4Addr → Bytes → Type 0
IsReceived src dst p =
    (ones_sum (seen p ++ drop 20 p) ≡ 65535)
    × (get_or p 26 0 * 256 + get_or p 27 0 ≢ 0)
    × (get_or p 9 0 ≡ 17)
    × (take 8 (drop 12 p) ≡ octets src ++ octets dst)

module _ (src dst : Ipv4Addr) (src_port dst_port : ℕ) (payload : Bytes) (hs : IsAddr src)
    (hd : IsAddr dst) (hp : AreBytes payload) (fits : length payload ≤ max_udp_payload) where
  abbrev datagram : Bytes
  datagram = build_udp_datagram src dst src_port dst_port payload

  protocol : (k : Kernel) (ident : ℕ) → get_or (spoofed_packet k src dst datagram ident) 9 0 ≡ 17
  unfolding spoofed_packet build_ipv4_header
  protocol network_order ident = refl
  protocol (host_order true) ident = refl
  protocol (host_order false) ident = refl

  checksum_field :
      (k : Kernel) (ident : ℕ)
      → let p = spoofed_packet k src dst datagram ident in
        get_or p 26 0 * 256 + get_or p 27 0 ≡ get_or datagram 6 0 * 256 + get_or datagram 7 0
  unfolding spoofed_packet build_ipv4_header build_udp_datagram
  checksum_field network_order ident = refl
  checksum_field (host_order true) ident = refl
  checksum_field (host_order false) ident = refl

  seen-pseudo_header :
      (k : Kernel) (ident : ℕ)
      → seen (spoofed_packet k src dst datagram ident) ≡ pseudo_header src dst payload
  seen-pseudo_header k ident =
      let p = spoofed_packet k src dst datagram ident in
      let (sums, ends, behind) = spoofed_packet-IsPacketOf k src dst datagram ident hs hd in
      let (len, field, rest) = build_udp_datagram_len src dst src_port dst_port payload fits in
      let measured : length (drop 20 p) ≡ udp_len payload =
        ap length behind ∙ len ∙ omega (arith, fits) in
      rw (ends, protocol k ident, measured)

  spoofed_packet-IsReceived :
      (k : Kernel) (ident : ℕ) → IsReceived src dst (spoofed_packet k src dst datagram ident)
  spoofed_packet-IsReceived k ident =
      let p = spoofed_packet k src dst datagram ident in
      let (sums, ends, behind) = spoofed_packet-IsPacketOf k src dst datagram ident hs hd in
      let (verified, there) =
        ones_sum-build_udp_datagram src dst src_port dst_port payload hs hd hp fits in
      (
        rw (seen-pseudo_header k ident, behind) verified,
        λ h. there (sym (checksum_field k ident) ∙ h),
        protocol k ident,
        ends,
      )

module _ (h : Host) (dst : Ipv4Addr) (dst_port : ℕ) (src : Ipv4Addr) (src_port : Option ℕ)
    (retries : ℕ) (payload : Bytes) (calls : List Attempt) where
  -- A receiver verifies the UDP checksum of every packet that reaches the kernel, retransmissions
  -- included: with the pseudo-header of RFC 768 read off the packet, the source address in its IP
  -- header being the forged one, the one's complement sum over pseudo-header and datagram is all ones,
  -- and the field itself is not zero, which would mean that there is no checksum. Both addresses are
  -- four octets, and the payload consists of bytes.
  pub send_spoofed-IsReceived :
      IsAddr src
      → IsAddr dst
      → AreBytes payload
      → All (IsReceived src dst) (send_spoofed h dst dst_port src src_port retries payload calls).0
  unfolding send_spoofed
  send_spoofed-IsReceived hs hd hp = elim (Bool-cases (ltb max_udp_payload (length payload))) [
    | inl big ↦ rw big tt
    | inr fits ↦ rw fits (opened h.opened (ground arith))
  ]
    where
      opened :
          (o : Option IoError)
          → length payload ≤ max_udp_payload
          → All
              (IsReceived src dst)
              (open_then h o (send_all h dst dst_port src src_port retries payload calls)).0
      opened (some e) fits = tt
      opened none fits =
          spoofed_loop-All _ (IsReceived src dst)
            (spoofed_packet-IsReceived src dst (chosen_port src_port h.ephemeral_port) dst_port
              payload hs hd hp fits h.kernel)
            calls none (retries + 1)
