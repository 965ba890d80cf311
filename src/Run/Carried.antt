-- ===== src/Run/Carried.antt =====
-- What a run of src/lib.rs puts on the wire: the payload of the command line, for the agent named.
use snmptrap_rs.Prelude.{
  ℕ, ◌≡◌, refl, subst, true, false, ◌++◌, All, Option, none, some, Outcome, ok, >>=-eq-ok, Bytes,
  take, drop,
}
use snmptrap_rs.Prelude.Words.{be16}
use snmptrap_rs.Text.Net.{Ipv4Addr, octets}
use snmptrap_rs.Errors.{Error}
use snmptrap_rs.Cli.Args.{Cli, validate, src_addr_v4}
use snmptrap_rs.Cli.Agent.{resolve_agent}
use snmptrap_rs.Payload.Build.{build_payload}
use snmptrap_rs.Transport.Packet.{Kernel, network_order, host_order, build_udp_datagram}
use snmptrap_rs.Transport.Raw.{Sent, send_spoofed_on-All, spoofed_packet}
use snmptrap_rs.Transport.Raw.Cases.{send_spoofed-All}
use snmptrap_rs.Run.{
  System, command, Route, spoofed, ordinary, Report, exited, stopped, went, prepare, debug_text,
  transmit, run,
}
use snmptrap_rs.Run.Cases.{run-All}

-- A packet from one address to another and to a port, with the payload behind both headers.
abbrev pub IsSentTo : Ipv4Addr → Ipv4Addr → ℕ → Bytes → Bytes → Type 0
IsSentTo src dst port payload p =
    (take 8 (drop 12 p) ≡ octets src ++ octets dst)
    × (take 2 (drop 22 p) ≡ be16 port)
    × (drop 28 p ≡ payload)

pub spoofed_packet-IsSentTo :
    (k : Kernel) (src dst : Ipv4Addr) (src_port port : ℕ) (payload : Bytes) (ident : ℕ)
    → IsSentTo src dst port payload
        (spoofed_packet k src dst (build_udp_datagram src dst src_port port payload) ident)
unfolding spoofed_packet snmptrap_rs.Transport.Packet.build_ipv4_header build_udp_datagram
spoofed_packet-IsSentTo network_order src dst src_port port payload ident = (refl, refl, refl)
spoofed_packet-IsSentTo (host_order true) src dst src_port port payload ident = (refl, refl, refl)
spoofed_packet-IsSentTo (host_order false) src dst src_port port payload ident = (refl, refl, refl)

abbrev pub IsRouteOf : Ipv4Addr → ℕ → Bytes → Route → Type 0
IsRouteOf dst port payload (spoofed src packets) = All (IsSentTo src dst port payload) packets
IsRouteOf dst port payload (ordinary d p x) = (d ≡ dst) × (p ≡ port) × (x ≡ payload)

module _ (s : System) where
  -- What is sent on a command line: the payload that is built for the agent that is resolved, shown
  -- before it is sent if that was asked for.
  abbrev pub IsCarried : Cli → Report → Type 0
  IsCarried cli (exited n) = Unit
  IsCarried cli (stopped o) = Unit
  IsCarried cli (went text route end) =
      (out : Cli) × (dst : Ipv4Addr) × (port : ℕ) × (payload : Bytes) × (validate s.is_ipv6 cli
        ≡ ok out)
      × (resolve_agent s.resolver out ≡ ok (dst, port))
      × (build_payload s.world s.crypto s.codec s.codec3 out dst port ≡ ok payload)
      × (text ≡ debug_text s out dst port payload)
      × IsRouteOf dst port payload route

  prepare-eq-ok :
      (cli : Cli) (dst : Ipv4Addr) (port : ℕ) (payload : Bytes)
      → prepare s cli ≡ ok (dst, port, payload)
      → (resolve_agent s.resolver cli ≡ ok (dst, port))
        × (build_payload s.world s.crypto s.codec s.codec3 cli dst port ≡ ok payload)
  unfolding prepare
  prepare-eq-ok cli dst port payload h =
      let ((d, p), hd, h1) = >>=-eq-ok (resolve_agent s.resolver cli) _ h in
      let (x, hx, e) = >>=-eq-ok (build_payload s.world s.crypto s.codec s.codec3 cli d p) _ h1 in
      let e' : ◌≡◌ {A = Outcome Error (Ipv4Addr × ℕ × Bytes)} (ok (d, p, x))
          (ok (dst, port, payload)) =
        e in
      let same : ◌≡◌ {A = Ipv4Addr × ℕ × Bytes} (d, p, x) (dst, port, payload) = cc in
      subst
        (λ (t : Ipv4Addr × ℕ × Bytes).
          (resolve_agent s.resolver cli ≡ ok (t.0, t.1))
          × (build_payload s.world s.crypto s.codec s.codec3 cli t.0 t.1 ≡ ok t.2))
        same (hd, hx)

  module _ (cli out : Cli) (dst : Ipv4Addr) (port : ℕ) (payload : Bytes)
      (valid : validate s.is_ipv6 cli ≡ ok out)
      (prepared : prepare s out ≡ ok (dst, port, payload)) where
    transmit-IsCarried :
        (src : Option Ipv4Addr) → IsCarried cli (transmit s src out dst port payload)
    unfolding transmit
    transmit-IsCarried none =
        let (resolved, built) = prepare-eq-ok out dst port payload prepared in
        (out, dst, port, payload, valid, resolved, built, refl, (refl, refl, refl))
    transmit-IsCarried (some src) =
        let (resolved, built) = prepare-eq-ok out dst port payload prepared in
        let packets =
          send_spoofed_on-All (λ (x : Sent). All (IsSentTo src dst port payload) x.0)
            s.host.platform s.host dst port src out.src_port out.retries payload s.calls
            (send_spoofed-All s.host dst port src out.src_port out.retries payload s.calls _
              (spoofed_packet-IsSentTo s.host.kernel src dst _ port payload))
            tt in
        (out, dst, port, payload, valid, resolved, built, refl, packets)

  pub run-IsCarried : (cli : Cli) → IsCarried cli (run s (command cli))
  run-IsCarried cli =
      run-All s (IsCarried cli) (command cli) (λ t h. tt) (λ e. tt) (λ c out valid h. tt)
        λ c out dst port payload same valid prepared.
          let as_given : c ≡ cli = cc in
          subst (λ (a : Cli). IsCarried a (transmit s (src_addr_v4 out) out dst port payload))
            as_given (transmit-IsCarried c out dst port payload valid prepared (src_addr_v4 out))
