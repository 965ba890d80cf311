-- ===== src/Payload/Build.antt =====
-- The three payloads of src/lib.rs. What is read of the host or drawn at random, the
-- encoders, and the cryptography are parameters.
use snmptrap_rs.Prelude.{
  ℕ, min, Bool, true, false, List, [], ◌∷◌, Option, none, some, Outcome, ok, err, ◌>>=◌, ◌>>◌,
  map_err, reject_if, expect, leb, Bytes, if◌then◌else◌, is_empty,
}
use snmptrap_rs.Prelude.Int.{ℤ, pos, negsuc}
use snmptrap_rs.Text.{Str, as_bytes}
use snmptrap_rs.Text.Net.{Ipv4Addr}
use snmptrap_rs.Text.Number.{parse_i32}
use snmptrap_rs.Errors.{
  Error, usage, IoError, EngineIdParseError, Usage, v1_arguments, v2c_arguments, v3_arguments, oid,
  bad_authoritative_id, bad_context_id, bad_generic, bad_specific, generic_range, specific_negative,
}
use snmptrap_rs.Varbind.Oid.{parse_oid}
use snmptrap_rs.Engine.Id.{EngineId}
use snmptrap_rs.Engine.Parse.{parse_user_input}
use snmptrap_rs.Engine.Resolve.{resolve}
use snmptrap_rs.Usm.Crypto.{Crypto}
use snmptrap_rs.Cli.Types.{SnmpVersion, v1, v2c, v3}
use snmptrap_rs.Cli.Args.{Cli, src_addr_v4}
use snmptrap_rs.Pdu.{V2cTrap, VarBinds, default_v1_enterprise_oid, build_v2c_trap, build_v1_trap}
use snmptrap_rs.V3.{V3TrapMessage, build_v3_trap_message}
use snmptrap_rs.Payload.Arguments.{
  parse_uptime_or_default, parse_trailing_varbinds, refuse_reserved, resolve_v1_agent_addr,
}
use snmptrap_rs.Payload.Security.{build_v3_security}

-- The host and the dice.
pub record World : Type 0 where
  pub host_uptime : Outcome IoError ℕ
  pub egress_ipv4_for : Ipv4Addr → ℕ → Outcome IoError Ipv4Addr
  pub fresh_request_id : ℤ
  pub fresh_msg_id : ℤ
  pub fresh_salt : ℕ
  pub elapsed_seconds : ℕ
  pub mac : Option Bytes
  pub hostname : Option Str

abbrev pub engine_boots_per_invocation : ℕ
engine_boots_per_invocation = 1

-- The seconds since the start, at most the largest `i32`.
abbrev pub process_uptime_seconds : World → ℕ
process_uptime_seconds w = min w.elapsed_seconds 2147483647

abbrev pub parsed_id : (EngineIdParseError → Usage) → Str → Outcome Error EngineId
parsed_id note s = map_err (λ e. usage (note e)) (parse_user_input s)

abbrev pub user_id : Option Str → Outcome Error (Option EngineId)
user_id (some s) = parsed_id bad_authoritative_id s >>= λ eid. ok (some eid)
user_id none = ok none

abbrev pub context_id : Option Str → EngineId → Outcome Error EngineId
context_id (some s) eid = parsed_id bad_context_id s
context_id none eid = ok eid

abbrev pub context_bytes : Option Str → Bytes
context_bytes (some s) = as_bytes s
context_bytes none = []

abbrev pub in_0_6 : ℤ → Bool
in_0_6 (pos n) = leb n 6
in_0_6 (negsuc n) = false

abbrev pub is_negative : ℤ → Bool
is_negative (pos n) = false
is_negative (negsuc n) = true

abbrev pub enterprise_or_default : Str → Outcome Error (List ℕ)
enterprise_or_default s =
    if is_empty s then ok default_v1_enterprise_oid else map_err (λ e. usage (oid e)) (parse_oid s)

-- What versions 2c and 3 read of the arguments: the uptime, the trap's name and the bindings.
abbrev pub read_v2 : World → Usage → List Str → Outcome Error (ℕ × List ℕ × VarBinds)
read_v2 w missing [] = err (usage missing)
read_v2 w missing (a ∷ []) = err (usage missing)
read_v2 w missing (a ∷ b ∷ rest) = do
  uptime ← parse_uptime_or_default w.host_uptime a
  trap_oid ← map_err (λ e. usage (oid e)) (parse_oid b)
  varbinds ← parse_trailing_varbinds rest
  refuse_reserved varbinds
  ok (uptime, trap_oid, varbinds)

module _ (w : World) (c : Crypto) where
  unfoldable pub build_v2c_payload : snmptrap_rs.Pdu.Codec → Cli → Outcome Error Bytes
  build_v2c_payload codec cli = do
    (uptime, trap_oid, varbinds) ← read_v2 w v2c_arguments cli.trap_args
    build_v2c_trap codec (record {
      community = as_bytes cli.community;
      request_id = w.fresh_request_id;
      uptime_centiseconds = uptime;
      trap_oid = trap_oid;
      varbinds = varbinds;
    })

  unfoldable pub build_v3_payload : snmptrap_rs.V3.Codec → Cli → Outcome Error Bytes
  build_v3_payload codec cli = do
    (uptime, trap_oid, varbinds) ← read_v2 w v3_arguments cli.trap_args
    user ← user_id cli.authoritative_engine_id
    let eid = resolve user (src_addr_v4 cli) w.mac w.hostname
    context ← context_id cli.context_engine_id eid
    level ← expect cli.security_level
    security ← build_v3_security c w.fresh_salt cli level eid
    name ← expect cli.user_name
    build_v3_trap_message c codec (record {
      authoritative_engine_id = eid;
      context_engine_id = context;
      context_name = context_bytes cli.context_name;
      user_name = as_bytes name;
      engine_boots = engine_boots_per_invocation;
      engine_time = process_uptime_seconds w;
      msg_id = w.fresh_msg_id;
      security = security;
      trap = record {
        community = [];
        request_id = w.fresh_request_id;
        uptime_centiseconds = uptime;
        trap_oid = trap_oid;
        varbinds = varbinds;
      };
    })

  -- The arguments of version 1, five at least.
  unfoldable pub build_v1_args :
      snmptrap_rs.Pdu.Codec → Cli → Ipv4Addr → ℕ → List Str → Outcome Error Bytes
  build_v1_args codec cli dst dst_port (a ∷ b ∷ g ∷ s ∷ u ∷ rest) = do
    enterprise ← enterprise_or_default a
    agent_addr ← resolve_v1_agent_addr (w.egress_ipv4_for dst dst_port) b (src_addr_v4 cli)
    generic ← map_err (λ e. usage (bad_generic g e)) (parse_i32 g)
    reject_if (if in_0_6 generic then false else true) (usage (generic_range generic))
    specific ← map_err (λ e. usage (bad_specific s e)) (parse_i32 s)
    reject_if (is_negative specific) (usage (specific_negative specific))
    uptime ← parse_uptime_or_default w.host_uptime u
    varbinds ← parse_trailing_varbinds rest
    build_v1_trap codec (record {
      community = as_bytes cli.community;
      enterprise = enterprise;
      agent_addr = agent_addr;
      generic = generic;
      specific = specific;
      uptime_centiseconds = uptime;
      varbinds = varbinds;
    })
  build_v1_args codec cli dst dst_port [] = err (usage v1_arguments)
  build_v1_args codec cli dst dst_port (a ∷ []) = err (usage v1_arguments)
  build_v1_args codec cli dst dst_port (a ∷ b ∷ []) = err (usage v1_arguments)
  build_v1_args codec cli dst dst_port (a ∷ b ∷ g ∷ []) = err (usage v1_arguments)
  build_v1_args codec cli dst dst_port (a ∷ b ∷ g ∷ s ∷ []) = err (usage v1_arguments)

  unfoldable pub build_v1_payload : snmptrap_rs.Pdu.Codec → Cli → Ipv4Addr → ℕ → Outcome Error Bytes
  build_v1_payload codec cli dst dst_port = build_v1_args codec cli dst dst_port cli.trap_args

  abbrev pub payload_of :
      SnmpVersion
      → snmptrap_rs.Pdu.Codec
      → snmptrap_rs.V3.Codec
      → Cli
      → Ipv4Addr
      → ℕ
      → Outcome Error Bytes
  payload_of v1 codec codec3 cli dst dst_port = build_v1_payload codec cli dst dst_port
  payload_of v2c codec codec3 cli dst dst_port = build_v2c_payload codec cli
  payload_of v3 codec codec3 cli dst dst_port = build_v3_payload codec3 cli

  unfoldable pub build_payload :
      snmptrap_rs.Pdu.Codec → snmptrap_rs.V3.Codec → Cli → Ipv4Addr → ℕ → Outcome Error Bytes
  build_payload codec codec3 cli dst dst_port = payload_of cli.version codec codec3 cli dst dst_port
