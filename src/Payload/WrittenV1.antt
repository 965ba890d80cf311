-- ===== src/Payload/WrittenV1.antt =====
-- The positional arguments of src/lib.rs that write out a trap of version 1, and the payload they give.
use snmptrap_rs.Prelude.{
  ℕ, ◌≤◌, ◌<◌, ◌^◌, ◌≡◌, refl, sym, arith, true, false, List, [], ◌∷◌, Option, some, Outcome, ok,
  is_empty,
}
use snmptrap_rs.Prelude.Int.{ℤ, pos}
use snmptrap_rs.Text.{Str, as_bytes}
use snmptrap_rs.Text.Net.{Ipv4Addr, IsAddr, show_ipv4, parse_ipv4}
use snmptrap_rs.Text.Net.RoundTrip.{parse_ipv4-show_ipv4}
use snmptrap_rs.Text.Number.{print, parse_i32, max_u32}
use snmptrap_rs.Errors.{IoError}
use snmptrap_rs.Varbind.Oid.{parse_oid}
use snmptrap_rs.Varbind.Oid.Laws.{IsOid, print_oid, parse_oid-print_oid}
use snmptrap_rs.Varbind.RoundTrip.{print_i32, parse_i32-print_i32}
use snmptrap_rs.Usm.Crypto.{Crypto}
use snmptrap_rs.Cli.Args.{Cli, src_addr_v4}
use snmptrap_rs.Pdu.{V1Trap, Codec, build_v1_trap}
use snmptrap_rs.Payload.Arguments.{resolve_v1_agent_addr}
use snmptrap_rs.Payload.Build.{
  World, enterprise_or_default, in_0_6, is_negative, build_v1_args, build_v1_payload,
}
use snmptrap_rs.Payload.Written.{binding_args, AreWritable, uptime-print, trailing-binding_args}

-- The arguments that write out a trap of version 1.
abbrev pub v1_args_of : V1Trap → List Str
v1_args_of t =
    print_oid t.enterprise
    ∷ show_ipv4 t.agent_addr
    ∷ print_i32 t.generic
    ∷ print_i32 t.specific
    ∷ print t.uptime_centiseconds
    ∷ binding_args t.varbinds

-- The numbers that the positional arguments may have.
abbrev pub IsGeneric : ℤ → Type 0
IsGeneric z = (n : ℕ) × (z ≡ pos n) × (n ≤ 6)

abbrev pub IsSpecific : ℤ → Type 0
IsSpecific z = (n : ℕ) × (z ≡ pos n) × (n < 2 ^ 31)

-- Every part of the trap can be written out.
abbrev pub IsWritable : V1Trap → Type 0
IsWritable t =
    IsOid t.enterprise
    × IsAddr t.agent_addr
    × IsGeneric t.generic
    × IsSpecific t.specific
    × (t.uptime_centiseconds ≤ max_u32)
    × AreWritable t.varbinds

oid_text : (s : Str) {arcs : List ℕ} → parse_oid s ≡ ok arcs → is_empty s ≡ false
unfolding parse_oid
oid_text [] e = cc
oid_text (c ∷ s) e = refl

address_text : (s : Str) {ip : Ipv4Addr} → parse_ipv4 s ≡ some ip → is_empty s ≡ false
unfolding parse_ipv4
address_text [] e = cc
address_text (c ∷ s) e = refl

enterprise-print_oid :
    (arcs : List ℕ) → IsOid arcs → enterprise_or_default (print_oid arcs) ≡ ok arcs
enterprise-print_oid arcs h =
    let read = parse_oid-print_oid arcs h in rw (oid_text (print_oid arcs) read, read)

agent-show_ipv4 :
    (egress : Outcome IoError Ipv4Addr) (src : Option Ipv4Addr) (ip : Ipv4Addr)
    → IsAddr ip
    → resolve_v1_agent_addr egress (show_ipv4 ip) src ≡ ok ip
unfolding resolve_v1_agent_addr
agent-show_ipv4 egress src ip h =
    let read = parse_ipv4-show_ipv4 ip h in rw (address_text (show_ipv4 ip) read, read)

generic-print : (z : ℤ) → IsGeneric z → (parse_i32 (print_i32 z) ≡ ok z) × (in_0_6 z ≡ true)
generic-print z (n, e, le) = rw e (parse_i32-print_i32 (pos n) (omega arith), (ground arith))

specific-print : (z : ℤ) → IsSpecific z → (parse_i32 (print_i32 z) ≡ ok z) × (is_negative z ≡ false)
specific-print z (n, e, lt) = rw e (parse_i32-print_i32 (pos n) lt, refl)

-- Arguments that write out a trap of version 1 give the encoding of exactly that trap, with the
-- community of the command line, whatever the agent and the source address are.
pub build_v1_payload-v1_args_of :
    (w : World) (c : Crypto) (codec : Codec) (cli : Cli) (dst : Ipv4Addr) (port : ℕ) (t : V1Trap)
    → cli.trap_args ≡ v1_args_of t
    → t.community ≡ as_bytes cli.community
    → IsWritable t
    → build_v1_payload w c codec cli dst port ≡ build_v1_trap codec t
unfolding build_v1_payload build_v1_args
build_v1_payload-v1_args_of w c codec cli dst port t e same (he, ha, hg, hs, hu, hv) =
    let (g, in_range) = generic-print t.generic hg in
    let (sp, positive) = specific-print t.specific hs in
    rw (
      e,
      enterprise-print_oid t.enterprise he,
      agent-show_ipv4 (w.egress_ipv4_for dst port) (src_addr_v4 cli) t.agent_addr ha,
      g,
      in_range,
      sp,
      positive,
      uptime-print w.host_uptime t.uptime_centiseconds hu,
      trailing-binding_args t.varbinds hv,
      sym same,
    )
