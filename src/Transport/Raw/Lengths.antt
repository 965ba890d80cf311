-- ===== src/Transport/Raw/Lengths.antt =====
-- The lengths in the packets of src/transport/raw.rs, and the length that src/error.rs reports.
use snmptrap_rs.Prelude.{
  ℕ, ◌+◌, ◌*◌, ◌%◌, ◌≤◌, ◌≡◌, ◌≢◌, subst, sym, ◌∙◌, ap, inl, inr, arith, true, false, List, [], ◌∷◌,
  Option, none, some, Outcome, ok, err, panic, Bytes, All, length, get_or, ltb, Bool-cases,
}
use snmptrap_rs.Text.Net.{Ipv4Addr}
use snmptrap_rs.Errors.{
  Error, IoError, payload_exceeds_mtu, no_raw_os_error, other_io, custom, other_kind,
  payload_too_long, Platform,
}
use snmptrap_rs.Errors.Display.{wire_total}
use snmptrap_rs.Transport.Packet.{
  Kernel, network_order, host_order, iphdr_u16_to_kernel, build_udp_datagram, udp_len,
}
use snmptrap_rs.Transport.Raw.{
  Host, Attempt, chosen_port, spoofed_packet, max_udp_payload, finish_spoofed, classify_raw_send,
  classify_raw_open, End, open_then, send_all, send_spoofed,
}
use snmptrap_rs.Transport.Unprivileged.{last_or_default}
use snmptrap_rs.Transport.Raw.Laws.{spoofed_loop-All}

-- The number that a kernel reads in two octets of the IP header: in network order, or, on a BSD, in
-- the order of the host, which may be little-endian.
abbrev pub field_read : Kernel → ℕ → ℕ → ℕ
field_read network_order a b = a * 256 + b
field_read (host_order true) a b = b * 256 + a
field_read (host_order false) a b = a * 256 + b

-- A packet of 28 octets and the payload, at most 65535 in all, whose length both length fields give
-- without wrapping around: the kernel reads the length of the packet in the one, and in the other is
-- the length of the datagram in network order.
abbrev pub IsMeasured : Kernel → Bytes → Bytes → Type 0
IsMeasured k payload p =
    (length p ≡ 28 + length payload)
    × (length p ≤ 65535)
    × (field_read k (get_or p 2 0) (get_or p 3 0) ≡ length p)
    × (20 + (get_or p 24 0 * 256 + get_or p 25 0) ≡ length p)

module _ (src dst : Ipv4Addr) (src_port dst_port : ℕ) (payload : Bytes) where
  abbrev datagram : Bytes
  datagram = build_udp_datagram src dst src_port dst_port payload

  length-datagram : length datagram ≡ 8 + length payload
  unfolding build_udp_datagram
  length-datagram = omega arith

  length-packet :
      (k : Kernel) (ident : ℕ)
      → length (spoofed_packet k src dst datagram ident) ≡ 20 + length datagram
  unfolding spoofed_packet snmptrap_rs.Transport.Packet.build_ipv4_header
  length-packet network_order ident = omega arith
  length-packet (host_order true) ident = omega arith
  length-packet (host_order false) ident = omega arith

  total_field :
      (k : Kernel) (ident : ℕ)
      → let p = spoofed_packet k src dst datagram ident in
        field_read k (get_or p 2 0) (get_or p 3 0) ≡ (20 + length datagram) % 65536
  unfolding spoofed_packet snmptrap_rs.Transport.Packet.build_ipv4_header
  total_field network_order ident = omega arith
  total_field (host_order true) ident = omega arith
  total_field (host_order false) ident = omega arith

  udp_field :
      (k : Kernel) (ident : ℕ)
      → let p = spoofed_packet k src dst datagram ident in
        get_or p 24 0 * 256 + get_or p 25 0 ≡ udp_len payload
  unfolding spoofed_packet snmptrap_rs.Transport.Packet.build_ipv4_header build_udp_datagram
  udp_field network_order ident = omega arith
  udp_field (host_order true) ident = omega arith
  udp_field (host_order false) ident = omega arith

  spoofed_packet-IsMeasured :
      (k : Kernel) (ident : ℕ)
      → length payload ≤ max_udp_payload
      → IsMeasured k payload (spoofed_packet k src dst datagram ident)
  spoofed_packet-IsMeasured k ident fits =
      let n = length-packet k ident in
      let d = length-datagram in
      let total : (20 + length datagram) % 65536
          ≡ length (spoofed_packet k src dst datagram ident) =
        omega (arith, n, d, fits) in
      let udp : 20 + udp_len payload ≡ length (spoofed_packet k src dst datagram ident) =
        omega (arith, n, d, fits) in
      (
        omega (arith, n, d),
        omega (arith, n, d, fits),
        total_field k ident ∙ total,
        ap (λ m. 20 + m) (udp_field k ident) ∙ udp,
      )

classify_raw_send_mtu :
    (x : IoError) (len n : ℕ) (e : IoError)
    → classify_raw_send x len ≡ payload_exceeds_mtu n e
    → n ≡ len
unfolding classify_raw_send
classify_raw_send_mtu x len n e d = ground arith

classify_raw_open_mtu :
    (platform : Platform) (x : IoError) (n : ℕ) (e : IoError)
    → classify_raw_open platform x ≢ payload_exceeds_mtu n e
unfolding classify_raw_open
classify_raw_open_mtu platform x n e = ground arith

finish_spoofed_mtu :
    (len : ℕ) (end : End) (n : ℕ) (e : IoError)
    → finish_spoofed len end ≡ some (err (payload_exceeds_mtu n e))
    → n ≡ len
unfolding finish_spoofed
finish_spoofed_mtu len none n e h = cc
finish_spoofed_mtu len (some (ok t)) n e h = cc
finish_spoofed_mtu len (some (err last)) n e h =
    classify_raw_send_mtu (last_or_default no_raw_os_error last) len n e cc
finish_spoofed_mtu len (some panic) n e h = cc

module _ (h : Host) (dst : Ipv4Addr) (dst_port : ℕ) (src : Ipv4Addr) (src_port : Option ℕ)
    (retries : ℕ) (payload : Bytes) (calls : List Attempt) where
  -- No length wraps around: whatever the payload, every packet that reaches the kernel is the payload
  -- and 28 octets, at most 65535 in all; the kernel reads the length of the packet in full in the IP
  -- header, in the order of octets that it wants there, and the UDP header gives in network order the
  -- length of the datagram in full.
  pub send_spoofed-IsMeasured :
      All
        (IsMeasured h.kernel payload)
        (send_spoofed h dst dst_port src src_port retries payload calls).0
  unfolding send_spoofed
  send_spoofed-IsMeasured = elim (Bool-cases (ltb max_udp_payload (length payload))) [
    | inl big ↦ rw big tt
    | inr fits ↦ rw fits (opened h.opened (within fits))
  ]
    where
      within : ltb max_udp_payload (length payload) ≡ false → length payload ≤ max_udp_payload
      within fits = ground arith

      opened :
          (o : Option IoError)
          → length payload ≤ max_udp_payload
          → All
              (IsMeasured h.kernel payload)
              (open_then h o (send_all h dst dst_port src src_port retries payload calls)).0
      opened (some e) fits = tt
      opened none fits =
          spoofed_loop-All _ (IsMeasured h.kernel payload)
            (λ ident.
              spoofed_packet-IsMeasured src dst (chosen_port src_port h.ephemeral_port) dst_port
                payload h.kernel ident fits)
            calls none (retries + 1)

  reported :
      (n : ℕ) (e : IoError)
      → (send_spoofed h dst dst_port src src_port retries payload calls).1
        ≡ some (err (payload_exceeds_mtu n e))
      → n ≡ length payload
  unfolding send_spoofed
  reported n e d = elim (Bool-cases (ltb max_udp_payload (length payload))) [
    | inl big ↦ absurd (too_big (rw big at d))
    | inr fits ↦ opened_mtu h.opened (rw fits at d)
  ]
    where
      too_big :
          ◌≡◌ {A = Option (Outcome Error (Unit {0}))}
            (some (
              err
                (other_io (custom other_kind (payload_too_long (length payload) max_udp_payload)))))
            (some (err (payload_exceeds_mtu n e)))
          → ⊥
      too_big x = cc

      opened_mtu :
          (o : Option IoError)
          → (open_then h o (send_all h dst dst_port src src_port retries payload calls)).1
            ≡ some (err (payload_exceeds_mtu n e))
          → n ≡ length payload
      opened_mtu (some x) y = absurd (classify_raw_open_mtu h.platform x n e (ground arith))
      opened_mtu none y = finish_spoofed_mtu (length payload) _ n e y

  total_of :
      (packets : List Bytes)
      → All (IsMeasured h.kernel payload) packets
      → All (λ p. length p ≡ wire_total (length payload)) packets
  total_of [] m = tt
  total_of (p ∷ packets) (m, ms) = (omega (arith, m.0), total_of packets ms)

  -- A report that the packet is too large for the path names the length of the payload, and the
  -- length on the wire that it names is that of every packet that reached the kernel.
  pub send_spoofed_exceeds :
      (n : ℕ) (e : IoError)
      → (send_spoofed h dst dst_port src src_port retries payload calls).1
        ≡ some (err (payload_exceeds_mtu n e))
      → (n ≡ length payload)
        × All
            (λ p. length p ≡ wire_total n)
            (send_spoofed h dst dst_port src src_port retries payload calls).0
  send_spoofed_exceeds n e d =
      let named = reported n e d in
      let packets = (send_spoofed h dst dst_port src src_port retries payload calls).0 in
      (
        named,
        subst (λ (m : ℕ). All (λ p. length p ≡ wire_total m) packets) (sym named)
            (total_of packets send_spoofed-IsMeasured),
      )
