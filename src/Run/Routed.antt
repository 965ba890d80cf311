-- ===== src/Run/Routed.antt =====
-- Which socket `run` of src/lib.rs sends over, and from which address.
use snmptrap_rs.Prelude.{
  ℕ, ◌≡◌, refl, sym, ◌∙◌, ap, subst, true, false, Option, none, some, Bytes, All, take, drop,
}
use snmptrap_rs.Text.{Str}
use snmptrap_rs.Text.Net.{Ipv4Addr, octets}
use snmptrap_rs.Cli.Args.{Cli, parsed_addr, src_addr_v4}
use snmptrap_rs.Cli.Laws.{IsRead}
use snmptrap_rs.Transport.Raw.{Sent, send_spoofed_on-All, spoofed_packet}
use snmptrap_rs.Transport.Raw.Cases.{send_spoofed-All}
use snmptrap_rs.Transport.Packet.{Kernel, network_order, host_order}
use snmptrap_rs.Run.{Parsed, command, help, misused, System, transmit, run}
use snmptrap_rs.Run.Laws.{validate-Checked, IsRouted}
use snmptrap_rs.Run.Cases.{run-All}

spoofed_packet_source :
    (k : Kernel) (src dst : Ipv4Addr) (udp : Bytes) (ident : ℕ)
    → take 4 (drop 12 (spoofed_packet k src dst udp ident)) ≡ octets src
unfolding spoofed_packet snmptrap_rs.Transport.Packet.build_ipv4_header
spoofed_packet_source network_order src dst udp ident = refl
spoofed_packet_source (host_order true) src dst udp ident = refl
spoofed_packet_source (host_order false) src dst udp ident = refl

module _ (s : System) where
  transmit-IsRouted :
      (given : Option Str) (cli : Cli) (dst : Ipv4Addr) (port : ℕ) (payload : Bytes)
      → IsRead given
      → IsRouted given (transmit s (parsed_addr given) cli dst port payload)
  unfolding transmit
  transmit-IsRouted none cli dst port payload read = refl
  transmit-IsRouted (some t) cli dst port payload read =
      let (src, e) = read refl in
      rw e (
        (t, refl, e),
        send_spoofed_on-All (λ (x : Sent). All (λ p. take 4 (drop 12 p) ≡ octets src) x.0)
            s.host.platform s.host dst port src cli.src_port cli.retries payload s.calls
            (send_spoofed-All s.host dst port src cli.src_port cli.retries payload s.calls _
              (spoofed_packet_source s.host.kernel src dst _))
            tt,
      )

  -- A run never sends from another address than the one asked for: if a source address was given,
  -- the run goes over the raw socket and every packet carries that address as its source; it goes
  -- over the ordinary socket only if none was given.
  pub run-IsRouted : (cli : Cli) → IsRouted cli.src_addr (run s (command cli))
  run-IsRouted cli =
      run-All s (IsRouted cli.src_addr) (command cli) (λ t h. tt) (λ e. tt) (λ c out valid h. tt)
        λ c out dst port payload same valid prepared.
          let (ready, (timely, port_set, read), addr, retries) =
            validate-Checked s.is_ipv6 c out valid in
          let as_given : out.src_addr ≡ cli.src_addr = addr ∙ ap given_addr (sym same) in
          subst (λ o. IsRouted o (transmit s (src_addr_v4 out) out dst port payload)) as_given
            (transmit-IsRouted out.src_addr out dst port payload read)
    where
      given_addr : Parsed → Option Str
      given_addr (command c) = c.src_addr
      given_addr (help text) = none
      given_addr (misused text) = none
