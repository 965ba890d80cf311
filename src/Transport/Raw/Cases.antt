-- ===== src/Transport/Raw/Cases.antt =====
-- The two ends of `send_spoofed` of src/transport/raw.rs: refused before the first call, or the loop's.
use snmptrap_rs.Prelude.{
  ℕ, ◌+◌, ◌≡◌, refl, ap, ◌⊎◌, inl, inr, List, map, Option, none, some, Outcome, err, Bytes, All,
  length, ltb, Bool-cases,
}
use snmptrap_rs.Text.Net.{Ipv4Addr}
use snmptrap_rs.Errors.{Error, IoError}
use snmptrap_rs.Transport.Packet.{build_udp_datagram}
use snmptrap_rs.Transport.Unprivileged.{send_loop}
use snmptrap_rs.Transport.Raw.{
  Host, Attempt, chosen_port, spoofed_packet, max_udp_payload, finish_spoofed, open_then, send_all,
  send_spoofed,
}
use snmptrap_rs.Transport.Raw.Laws.{reply_of, spoofed_loop-send_loop, spoofed_loop-All}

module _ (h : Host) (dst : Ipv4Addr) (dst_port : ℕ) (src : Ipv4Addr) (src_port : Option ℕ)
    (retries : ℕ) (payload : Bytes) (calls : List Attempt) where
  abbrev pub Ended : Option (Outcome Error (Unit {0})) → Type 0
  Ended o =
      ((x : Error) × (o ≡ some (err x)))
      ⊎ (o ≡ finish_spoofed (length payload) (send_loop (map reply_of calls) none (retries + 1)))

  opened_cases :
      (o : Option IoError)
      → Ended (open_then h o (send_all h dst dst_port src src_port retries payload calls)).1
  unfolding open_then send_all
  opened_cases (some x) = inl (_, refl)
  opened_cases none =
      inr (ap (finish_spoofed (length payload)) (spoofed_loop-send_loop _ calls none (retries + 1)))

  pub send_spoofed-cases : Ended (send_spoofed h dst dst_port src src_port retries payload calls).1
  unfolding send_spoofed
  send_spoofed-cases = elim (Bool-cases (ltb max_udp_payload (length payload))) [
    | inl big ↦ rw big (inl (_, refl))
    | inr fits ↦ rw fits (opened_cases h.opened)
  ]

  module _ (P : Bytes → Type 0) where
    abbrev EachPacket : Type 0
    EachPacket =
        let udp =
          build_udp_datagram src dst (chosen_port src_port h.ephemeral_port) dst_port payload in
        (ident : ℕ) → P (spoofed_packet h.kernel src dst udp ident)

    opened-All :
        EachPacket
        → (o : Option IoError)
        → All P (open_then h o (send_all h dst dst_port src src_port retries payload calls)).0
    unfolding open_then send_all
    opened-All each (some x) = tt
    opened-All each none = spoofed_loop-All _ P each calls none (retries + 1)

    -- What holds of the packet of each attempt holds of all that reach the kernel.
    pub send_spoofed-All :
        EachPacket → All P (send_spoofed h dst dst_port src src_port retries payload calls).0
    unfolding send_spoofed
    send_spoofed-All each = elim (Bool-cases (ltb max_udp_payload (length payload))) [
      | inl big ↦ rw big tt
      | inr fits ↦ rw fits (opened-All each h.opened)
    ]
