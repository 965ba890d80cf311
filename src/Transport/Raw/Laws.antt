-- ===== src/Transport/Raw/Laws.antt =====
-- What leaves the raw socket.
use snmptrap_rs.Prelude.{
  ℕ, zero, suc, ◌+◌, ◌≤◌, ◌≡◌, ◌≢◌, refl, sym, ◌∙◌, ap, ◌⊎◌, inl, inr, true, false, List, [], ◌∷◌,
  ◌++◌, map, Option, none, some, arith, Outcome, ok, err, panic, All, Bytes, length, take, drop,
  take-append, drop-append, ltb, Bool-cases,
}
use snmptrap_rs.Text.Net.{octets, Ipv4Addr, IsAddr}
use snmptrap_rs.Errors.{
  Error, other_io, raw_socket_denied, IoError, custom, other_kind, kind, payload_too_long,
  no_raw_os_error, Platform, raw_os_error, eperm, eacces,
}
use snmptrap_rs.Transport.Reply.{Reply, sent, failed, is_interrupted, promised}
use snmptrap_rs.Transport.Unprivileged.{send_loop, last_or_default}
use snmptrap_rs.Transport.Unprivileged.Laws.{send_loop-promised}
use snmptrap_rs.Transport.Checksum.{ip_checksum}
use snmptrap_rs.Transport.Packet.{
  Kernel, network_order, host_order, build_ipv4_header, build_udp_datagram,
}
use snmptrap_rs.Transport.Packet.Laws.{ip_checksum-build_ipv4_header}
use snmptrap_rs.Transport.Raw.{
  Attempt, spoofed_loop, classify_raw_open, classify_raw_send, spoofed_packet, Host, chosen_port,
  send_spoofed, max_udp_payload, open_then, send_all, finish_spoofed, End,
}

abbrev pub reply_of : Attempt → Reply
reply_of (ident, r) = r

module _ (packet : ℕ → Bytes) where
  -- The loop ends as that of the ordinary socket does.
  pub spoofed_loop-send_loop :
      (calls : List Attempt) (last : Option IoError) (budget : ℕ)
      → (spoofed_loop packet calls last budget).1 ≡ send_loop (map reply_of calls) last budget
  unfolding spoofed_loop send_loop
  spoofed_loop-send_loop calls last zero = refl
  spoofed_loop-send_loop [] last (suc budget) = refl
  spoofed_loop-send_loop ((ident, sent) ∷ calls) last (suc budget) = refl
  spoofed_loop-send_loop ((ident, failed e) ∷ calls) last (suc budget) = ground (
    arith,
    spoofed_loop-send_loop calls last (suc budget),
    spoofed_loop-send_loop calls (some e) budget,
  )

  module _ (P : Bytes → Type 0) (each : (ident : ℕ) → P (packet ident)) where
    pub spoofed_loop-All :
        (calls : List Attempt) (last : Option IoError) (budget : ℕ)
        → All P (spoofed_loop packet calls last budget).0
    unfolding spoofed_loop
    spoofed_loop-All calls last zero = tt
    spoofed_loop-All [] last (suc budget) = tt
    spoofed_loop-All ((ident, sent) ∷ calls) last (suc budget) = (each ident, tt)
    spoofed_loop-All ((ident, failed e) ∷ calls) last (suc budget) =
        elim (Bool-cases (is_interrupted (kind e))) [
          | inl h ↦ rw h (each ident, spoofed_loop-All calls last (suc budget))
          | inr h ↦ rw h (each ident, spoofed_loop-All calls (some e) budget)
        ]

length-build_ipv4_header :
    (k : Kernel) (src dst : Ipv4Addr) (len ident : ℕ)
    → length (build_ipv4_header k src dst len ident) ≡ 20
unfolding build_ipv4_header
length-build_ipv4_header network_order src dst len ident = refl
length-build_ipv4_header (host_order true) src dst len ident = refl
length-build_ipv4_header (host_order false) src dst len ident = refl

-- A valid header of 20 octets in front of the datagram.
abbrev pub IsPacketOf : Ipv4Addr → Ipv4Addr → Bytes → Bytes → Type 0
IsPacketOf src dst udp p =
    (ip_checksum (take 20 p) ≡ 0)
    × (take 8 (drop 12 p) ≡ octets src ++ octets dst)
    × (drop 20 p ≡ udp)

pub spoofed_packet_addresses :
    (k : Kernel) (src dst : Ipv4Addr) (udp : Bytes) (ident : ℕ)
    → take 8 (drop 12 (spoofed_packet k src dst udp ident)) ≡ octets src ++ octets dst
unfolding spoofed_packet build_ipv4_header
spoofed_packet_addresses network_order src dst udp ident = refl
spoofed_packet_addresses (host_order true) src dst udp ident = refl
spoofed_packet_addresses (host_order false) src dst udp ident = refl

pub spoofed_packet-IsPacketOf :
    (k : Kernel) (src dst : Ipv4Addr) (udp : Bytes) (ident : ℕ)
    → IsAddr src
    → IsAddr dst
    → IsPacketOf src dst udp (spoofed_packet k src dst udp ident)
unfolding spoofed_packet
spoofed_packet-IsPacketOf k src dst udp ident hs hd =
    let hdr = build_ipv4_header k src dst (length udp) ident in
    let n = length-build_ipv4_header k src dst (length udp) ident in
    (
      ap (λ m. ip_checksum (take m (hdr ++ udp))) (sym n)
          ∙ ap ip_checksum (take-append hdr udp)
          ∙ ip_checksum-build_ipv4_header k src dst (length udp) ident hs hd,
      spoofed_packet_addresses k src dst udp ident,
      ap (λ m. drop m (hdr ++ udp)) (sym n) ∙ drop-append hdr udp,
    )

classify_raw_open_denied :
    (platform : Platform) (x : IoError) (p : Platform) (e : IoError)
    → classify_raw_open platform x ≡ raw_socket_denied p e
    → (◌≡◌ {A = Option IoError} (some x) (some e))
      × (p ≡ platform)
      × ((raw_os_error e ≡ some eperm) ⊎ (raw_os_error e ≡ some eacces))
unfolding classify_raw_open
classify_raw_open_denied platform x p e d = ground arith

classify_raw_send_not_denied :
    (x : IoError) (n : ℕ) (p : Platform) (e : IoError)
    → classify_raw_send x n ≢ raw_socket_denied p e
unfolding classify_raw_send
classify_raw_send_not_denied x n p e = ground arith

finish_not_denied :
    (n : ℕ) (end : End) (p : Platform) (e : IoError)
    → finish_spoofed n end ≢ some (err (raw_socket_denied p e))
unfolding finish_spoofed
finish_not_denied n none p e h = cc
finish_not_denied n (some (ok t)) p e h = cc
finish_not_denied n (some (err last)) p e h =
    ground (arith, classify_raw_send_not_denied (last_or_default no_raw_os_error last) n p e)
finish_not_denied n (some panic) p e h = cc

module _ (h : Host) (dst : Ipv4Addr) (dst_port : ℕ) (src : Ipv4Addr) (src_port : Option ℕ)
    (retries : ℕ) (payload : Bytes) (calls : List Attempt) where
  -- Every packet that reaches the kernel, retransmissions included, is an IP header whose checksum
  -- verifies, with the forged source and the destination as its addresses, in front of one and the
  -- same datagram. Both addresses are four octets.
  pub send_spoofed-packets :
      IsAddr src
      → IsAddr dst
      → All
          (IsPacketOf src dst
            (build_udp_datagram src dst (chosen_port src_port h.ephemeral_port) dst_port payload))
          (send_spoofed h dst dst_port src src_port retries payload calls).0
  unfolding send_spoofed
  send_spoofed-packets hs hd = elim (Bool-cases (ltb max_udp_payload (length payload))) [
    | inl big ↦ rw big tt
    | inr fits ↦ rw fits (opened h.opened)
  ]
    where
      opened :
          (o : Option IoError)
          → All
              (IsPacketOf src dst (
                build_udp_datagram src dst
                  (chosen_port src_port h.ephemeral_port)
                  dst_port
                  payload))
              (open_then h o (send_all h dst dst_port src src_port retries payload calls)).0
      opened (some e) = tt
      opened none =
          spoofed_loop-All _ (IsPacketOf src dst _)
            (λ ident. spoofed_packet-IsPacketOf h.kernel src dst _ ident hs hd) calls none
            (retries + 1)

  -- With the socket open and a payload that fits, the result is what is promised of `retries + 1`
  -- attempts, with the last error classified.
  pub send_spoofed-promised :
      length payload ≤ max_udp_payload
      → h.opened ≡ none
      → (send_spoofed h dst dst_port src src_port retries payload calls).1
        ≡ finish_spoofed (length payload) (promised (retries + 1) none (map reply_of calls))
  unfolding send_spoofed
  send_spoofed-promised fits opened = rw within (go h.opened opened)
    where
      within : ltb max_udp_payload (length payload) ≡ false
      within = ground arith

      go :
          (o : Option IoError)
          → o ≡ none
          → (open_then h o (send_all h dst dst_port src src_port retries payload calls)).1
            ≡ finish_spoofed (length payload) (promised (retries + 1) none (map reply_of calls))
      go (some e) e' = cc
      go none e' = ap (finish_spoofed (length payload)) (
          spoofed_loop-send_loop _ calls none (retries + 1)
          ∙ send_loop-promised (map reply_of calls) none (retries + 1))

  -- A report that the capability is missing comes from opening the socket alone: the kernel refused
  -- that for want of permission. No answer to a send is reported so.
  pub send_spoofed_denied :
      (p : Platform) (e : IoError)
      → (send_spoofed h dst dst_port src src_port retries payload calls).1
        ≡ some (err (raw_socket_denied p e))
      → (h.opened ≡ some e)
        × (p ≡ h.platform)
        × ((raw_os_error e ≡ some eperm) ⊎ (raw_os_error e ≡ some eacces))
  unfolding send_spoofed
  send_spoofed_denied p e d = elim (Bool-cases (ltb max_udp_payload (length payload))) [
    | inl big ↦ absurd (too_big (rw big at d))
    | inr fits ↦ opened_denied h.opened (rw fits at d)
  ]
    where
      too_big :
          ◌≡◌ {A = Option (Outcome Error (Unit {0}))}
            (some (
              err
                (other_io (custom other_kind (payload_too_long (length payload) max_udp_payload)))))
            (some (err (raw_socket_denied p e)))
          → ⊥
      too_big x = cc

      opened_denied :
          (o : Option IoError)
          → (open_then h o (send_all h dst dst_port src src_port retries payload calls)).1
            ≡ some (err (raw_socket_denied p e))
          → (o ≡ some e)
            × (p ≡ h.platform)
            × ((raw_os_error e ≡ some eperm) ⊎ (raw_os_error e ≡ some eacces))
      opened_denied (some x) y = classify_raw_open_denied h.platform x p e (ground arith)
      opened_denied none y = absurd (finish_not_denied (length payload) _ p e y)
