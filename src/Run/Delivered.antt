-- ===== src/Run/Delivered.antt =====
-- The runs of src/lib.rs that succeed.
use snmptrap_rs.Prelude.{
  ℕ, ◌≤◌, ◌≡◌, ◌≢◌, refl, sym, ◌∙◌, ap, subst, false, List, [], ◌∷◌, ◌++◌, map, Option, none, some,
  ok, err, panic, map_err, Bytes, length, take, keep, is_empty, All,
}
use snmptrap_rs.Text.Net.{Ipv4Addr}
use snmptrap_rs.Text.Number.{max_u32}
use snmptrap_rs.Errors.{Platform, linux, macos, other}
use snmptrap_rs.Varbind.Oid.Laws.{IsOid}
use snmptrap_rs.Cli.Types.{v2c}
use snmptrap_rs.Cli.Args.{Cli, is_v3, v3_flags, validate, src_addr_v4}
use snmptrap_rs.Cli.Agent.{resolve_agent}
use snmptrap_rs.Cli.Laws.{Common}
use snmptrap_rs.Cli.Accepts.{validate_accepts}
use snmptrap_rs.Pdu.{VarBinds}
use snmptrap_rs.Payload.Reserved.{Unreserved}
use snmptrap_rs.Payload.Written.{trap_args_of, AreWritable, build_v2c_payload-trap_args_of}
use snmptrap_rs.Payload.Build.{build_payload}
use snmptrap_rs.Transport.Reply.{Reply, sent, counts}
use snmptrap_rs.Transport.Raw.{Host, Attempt, Sent, max_udp_payload, send_spoofed, send_spoofed_on}
use snmptrap_rs.Transport.Raw.Laws.{reply_of}
use snmptrap_rs.Transport.Raw.Once.{send_spoofed_once, sent_count, delivered}
use snmptrap_rs.Transport.Live.{send_taken, send_delivers}
use snmptrap_rs.Run.{
  System, command, Route, spoofed, ordinary, Report, exited, stopped, went, prepare, transmit,
  run_command, run_parsed, parse_argv, run, main, exit_status,
}
use snmptrap_rs.Run.Carried.{IsSentTo, IsRouteOf, spoofed_packet-IsSentTo}
use snmptrap_rs.Transport.Raw.Cases.{send_spoofed-All}
use snmptrap_rs.Run.Written.{Encodes, build_payload_v2c}

-- The socket that the source address asks for can be opened, and the payload fits in its packets.
abbrev pub IsOpen : System → Bytes → Option Ipv4Addr → Type 0
IsOpen s payload none = s.bound ≡ none
IsOpen s payload (some src) =
    (s.host.platform ≢ other) × (s.host.opened ≡ none) × (length payload ≤ max_udp_payload)

-- At least one packet was handed to the kernel.
abbrev pub IsUsed : Route → Type 0
IsUsed (spoofed src packets) = packets ≢ []
IsUsed (ordinary dst port payload) = Unit

-- The run reports a success, after it sent this payload to this address and port.
abbrev pub IsDelivered : Ipv4Addr → ℕ → Bytes → Report → Type 0
IsDelivered dst port payload (exited n) = ⊥
IsDelivered dst port payload (stopped o) = ⊥
IsDelivered dst port payload (went text route end) =
    (end ≡ some (ok tt)) × IsUsed route × IsRouteOf dst port payload route

send_spoofed_built :
    (platform : Platform) (h : Host) (dst : Ipv4Addr) (dst_port : ℕ) (src : Ipv4Addr)
    (src_port : Option ℕ) (retries : ℕ) (payload : Bytes) (calls : List Attempt)
    → platform ≢ other
    → send_spoofed_on platform h dst dst_port src src_port retries payload calls
      ≡ send_spoofed h dst dst_port src src_port retries payload calls
unfolding send_spoofed_on
send_spoofed_built linux h dst dst_port src src_port retries payload calls n = refl
send_spoofed_built macos h dst dst_port src src_port retries payload calls n = refl
send_spoofed_built other h dst dst_port src src_port retries payload calls n = absurd (n refl)

counted_used :
    (x : Sent) (rs : List Reply)
    → sent_count (take (length x.0) rs) ≡ delivered x.1
    → x.1 ≡ some (ok tt)
    → x.0 ≢ []
counted_used (packets, end) rs e done none_sent =
    let one : 0 ≡ 1 =
      ap (λ (ps : List Bytes). sent_count (take (length ps) rs)) (sym none_sent)
      ∙ e
      ∙ ap delivered done in
    cc

-- A call that the kernel takes, among the first `retries + 1` that were not interrupted.
abbrev pub IsTaken : System → ℕ → Type 0
IsTaken s retries =
    (before : List Reply) × (after : List Reply) × (keep counts (map reply_of s.calls)
      ≡ before ++ sent ∷ after)
    × (length before ≤ retries)

module _ (s : System) where
  transmit-IsDelivered :
      (src : Option Ipv4Addr) (cli : Cli) (dst : Ipv4Addr) (port : ℕ) (payload : Bytes)
      → IsOpen s payload src
      → IsTaken s cli.retries
      → IsDelivered dst port payload (transmit s src cli dst port payload)
  unfolding transmit
  transmit-IsDelivered none cli dst port payload bound (before, after, e, le) = (
    send_taken s.bound cli.src_port cli.retries (map reply_of s.calls) before after bound e le,
    tt,
    (refl, refl, refl),
  )
  transmit-IsDelivered (some src) cli dst port payload (built, opened, fits)
        (before, after, e, le) =
      let same =
        send_spoofed_built s.host.platform s.host dst port src cli.src_port cli.retries payload
          s.calls built in
      let done =
        (send_delivers s.host dst port src cli.src_port cli.retries payload s.calls before after e
          le opened fits).1 in
      subst
        (λ (x : Sent). (x.1 ≡ some (ok tt)) × (x.0 ≢ []) × All (IsSentTo src dst port payload) x.0)
        (sym same)
        (
          done,
          counted_used _ (map reply_of s.calls)
              (send_spoofed_once s.host dst port src cli.src_port cli.retries payload s.calls) done,
          send_spoofed-All s.host dst port src cli.src_port cli.retries payload s.calls _
              (spoofed_packet-IsSentTo s.host.kernel src dst _ port payload),
        )

  module _ (cli out : Cli) (dst : Ipv4Addr) (port : ℕ) (payload : Bytes)
      (valid : validate s.is_ipv6 cli ≡ ok out)
      (resolved : resolve_agent s.resolver out ≡ ok (dst, port))
      (built : build_payload s.world s.crypto s.codec s.codec3 out dst port ≡ ok payload) where
    run-transmit : run s (command cli) ≡ transmit s (src_addr_v4 out) out dst port payload
    unfolding run run_parsed parse_argv run_command prepare
    run-transmit = rw (valid, resolved, built)

    -- Whatever the version: a run whose payload could be built succeeds, if its socket opens and the
    -- kernel takes a call.
    pub run-IsDelivered :
        IsOpen s payload (src_addr_v4 out)
        → IsTaken s out.retries
        → IsDelivered dst port payload (run s (command cli))
    run-IsDelivered ready taken =
        subst (IsDelivered dst port payload) (sym run-transmit)
          (transmit-IsDelivered (src_addr_v4 out) out dst port payload ready taken)

IsDelivered-exit_status :
    (dst : Ipv4Addr) (port : ℕ) (payload : Bytes) (r : Report)
    → IsDelivered dst port payload r
    → exit_status r ≡ some 0
unfolding exit_status
IsDelivered-exit_status dst port payload (exited n) h = absurd h
IsDelivered-exit_status dst port payload (stopped o) h = absurd h
IsDelivered-exit_status dst port payload (went text route none) (e, used, h) = cc
IsDelivered-exit_status dst port payload (went text route (some (ok t))) h = refl
IsDelivered-exit_status dst port payload (went text route (some (err x))) (e, used, h) = cc
IsDelivered-exit_status dst port payload (went text route (some panic)) (e, used, h) = cc

-- A whole run of version 2c delivers: with a command line that passes the checks, whose arguments
-- write out an uptime, a trap's name and bindings of any number and any types but BITS, an agent that
-- resolves, and an encoder that gives bytes for the message with exactly these, the process exits
-- with the status 0 and has sent these bytes to the agent's address and port, in one packet or more.
-- The names are valid and none is one of the two that are put in front; the numbers are in the range
-- of their types; the socket opens, and a forged source finds a platform that can forge and a payload
-- that fits; and the kernel takes a call among the first `retries + 1` that are not interrupted.
pub main_delivers :
    (s : System) (cli : Cli) (uptime : ℕ) (trap_oid : List ℕ) (vs : VarBinds) (dst : Ipv4Addr)
    (port : ℕ) (wire : Bytes)
    → cli.version ≡ v2c
    → cli.trap_args ≡ trap_args_of uptime trap_oid vs
    → (uptime ≤ max_u32) × IsOid trap_oid × AreWritable vs × Unreserved vs
    → (is_empty cli.community ≡ false)
      × All (λ p. p.1 ≡ false) (v3_flags cli)
      × Common s.is_ipv6 cli
    → resolve_agent s.resolver cli ≡ ok (dst, port)
    → Encodes s cli uptime trap_oid vs wire
    → IsOpen s wire (src_addr_v4 cli)
    → IsTaken s cli.retries
    → (main s (command cli) ≡ some 0) × IsDelivered dst port wire (run s (command cli))
unfolding main
main_delivers s cli uptime trap_oid vs dst port wire version args (hu, ho, hv, free)
      (community, flags, common) resolved encodes ready taken =
    let valid = validate_accepts s.is_ipv6 cli (ap is_v3 version) community flags common in
    let built =
      build_payload_v2c s cli dst port version
      ∙ build_v2c_payload-trap_args_of s.world s.crypto s.codec cli uptime trap_oid vs args hu ho hv
          free
      ∙ ap (map_err _) encodes in
    let arrived = run-IsDelivered s cli cli dst port wire valid resolved built ready taken in
    (IsDelivered-exit_status dst port wire (run s (command cli)) arrived, arrived)
