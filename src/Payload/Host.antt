-- ===== src/Payload/Host.antt =====
-- The surroundings of the payloads of src/lib.rs, as src/helpers.rs and src/engine.rs make them of the
-- answers of the system.
use snmptrap_rs.Prelude.{
  ℕ, ◌≤◌, ◌≡◌, refl, subst, map_err-eq-ok, none, some, Option, List, All, Outcome, ok, >>=-eq-ok,
}
use snmptrap_rs.Prelude.Calm.{Calm}
use snmptrap_rs.Prelude.Int.{ℤ}
use snmptrap_rs.Text.{Str}
use snmptrap_rs.Text.Number.{max_u32}
use snmptrap_rs.Text.Net.{Ipv4Addr, IsAddr, parse_ipv4}
use snmptrap_rs.Text.Net.Range.{parse_ipv4-IsAddr}
use snmptrap_rs.Errors.{IoError, EngineIdParseError, Usage, bad_authoritative_id, bad_context_id}
use snmptrap_rs.Helpers.{Uptime, host_uptime_centiseconds, egress_ipv4_for}
use snmptrap_rs.Helpers.Laws.{
  CalmUptime, host_uptime_centiseconds-Calm, host_uptime_centiseconds-le, egress_ipv4_for-Calm,
}
use snmptrap_rs.Engine.Id.{EngineId, IsEngineId}
use snmptrap_rs.Engine.Parse.Laws.{parse_user_input-IsEngineId}
use snmptrap_rs.Engine.Resolve.{resolve, IfSome}
use snmptrap_rs.Engine.Host.{Answers, primary_mac, host_name}
use snmptrap_rs.Engine.Host.Laws.{resolve_on-IsEngineId}
use snmptrap_rs.Cli.Agent.{SocketAddr}
use snmptrap_rs.Cli.Args.{Cli, parsed_addr, src_addr_v4}
use snmptrap_rs.Payload.Total.{IsSound}
use snmptrap_rs.Payload.Build.{World, parsed_id, user_id, context_id, read_v2}
use snmptrap_rs.Payload.Typed.{IsTrapText, read_v2-IsTrapText}
use snmptrap_rs.Pdu.{VarBinds}
use snmptrap_rs.Engine.Id.Laws.{AreChars}

-- The answers to the questions about the uptime and about the route to an address, and the rest.
pub record HostAnswers (F : Type 0) : Type 0 where
  pub engine : Answers
  pub uptime : Uptime
  pub parse_f64 : Str → Outcome Str F
  pub hundredfold_as_u64 : F → ℕ
  pub bound : Outcome IoError (Unit {0})
  pub connected : Ipv4Addr → ℕ → Outcome IoError (Unit {0})
  pub local_addr : Ipv4Addr → ℕ → Outcome IoError SocketAddr
  pub request_id : ℤ
  pub msg_id : ℤ
  pub salt : ℕ
  pub elapsed : ℕ

abbrev pub world_of : {F : Type 0} → HostAnswers F → World
world_of h = record {
  host_uptime = host_uptime_centiseconds h.parse_f64 h.hundredfold_as_u64 h.uptime;
  egress_ipv4_for =
      λ addr port. egress_ipv4_for h.bound (h.connected addr port) (h.local_addr addr port);
  fresh_request_id = h.request_id;
  fresh_msg_id = h.msg_id;
  fresh_salt = h.salt;
  elapsed_seconds = h.elapsed;
  mac = primary_mac h.engine;
  hostname = host_name h.engine.name_buffer;
}

-- No answer is a panic.
pub record AreCalm {F : Type 0} (h : HostAnswers F) : Type 0 where
  pub uptime : CalmUptime h.uptime
  pub floats : (s : Str) → Calm (h.parse_f64 s)
  pub bound : Calm h.bound
  pub connected : (addr : Ipv4Addr) (port : ℕ) → Calm (h.connected addr port)
  pub local_addr : (addr : Ipv4Addr) (port : ℕ) → Calm (h.local_addr addr port)

module _ {F : Type 0} (h : HostAnswers F) where
  pub world_of-IsSound : AreCalm h → IsSound (world_of h)
  world_of-IsSound calm = record {
    uptime =
        host_uptime_centiseconds-Calm h.parse_f64 h.hundredfold_as_u64 h.uptime calm.floats
          calm.uptime;
    egress = λ addr port.
        egress_ipv4_for-Calm h.bound (h.connected addr port) (h.local_addr addr port) calm.bound
          (calm.connected addr port) (calm.local_addr addr port);
  }

  pub world_of-le : (n : ℕ) → (world_of h).host_uptime ≡ ok n → n ≤ max_u32
  world_of-le n e = host_uptime_centiseconds-le h.parse_f64 h.hundredfold_as_u64 h.uptime e

parsed_id-IsEngineId :
    (note : EngineIdParseError → Usage) (s : Str) (eid : EngineId)
    → parsed_id note s ≡ ok eid
    → IsEngineId eid
parsed_id-IsEngineId note s eid e = parse_user_input-IsEngineId s eid (map_err-eq-ok _ _ e)

user_id-IsEngineId :
    (given : Option Str) (user : Option EngineId) → user_id given ≡ ok user → IfSome IsEngineId user
user_id-IsEngineId none user e =
    let same : ◌≡◌ {A = Option EngineId} none user = cc in subst (IfSome IsEngineId) same tt
user_id-IsEngineId (some s) user e =
    let (eid, read, given) = >>=-eq-ok (parsed_id bad_authoritative_id s) _ e in
    let same : some eid ≡ user = cc in
    subst (IfSome IsEngineId) same (parsed_id-IsEngineId bad_authoritative_id s eid read)

context_id-IsEngineId :
    (given : Option Str) (eid context : EngineId)
    → IsEngineId eid
    → context_id given eid ≡ ok context
    → IsEngineId context
context_id-IsEngineId none eid context h e =
    let same : eid ≡ context = cc in subst IsEngineId same h
context_id-IsEngineId (some s) eid context h e = parsed_id-IsEngineId bad_context_id s context e

parsed_addr-IsAddr : (o : Option Str) → IfSome IsAddr (parsed_addr o)
parsed_addr-IsAddr none = tt
parsed_addr-IsAddr (some s) = go (parse_ipv4 s) (λ ip. parse_ipv4-IsAddr s)
  where
    go : (o : Option Ipv4Addr) → ((ip : Ipv4Addr) → o ≡ some ip → IsAddr ip) → IfSome IsAddr o
    go none f = tt
    go (some ip) f = f ip refl

-- Both engine identifiers of a message of version 3 have 5 to 32 octets, as RFC 3411 wants: the
-- authoritative one, whether it is the user's, made of the source address, or made of whatever the
-- host answers about its hardware address and its name, and the one of the context, whether it is
-- given or not.
pub engine_ids-IsEngineId :
    {F : Type 0} (h : HostAnswers F) (cli : Cli) (user : Option EngineId) (context : EngineId)
    → user_id cli.authoritative_engine_id ≡ ok user
    → context_id cli.context_engine_id
        (resolve user (src_addr_v4 cli) (world_of h).mac (world_of h).hostname)
      ≡ ok context
    → IsEngineId (resolve user (src_addr_v4 cli) (world_of h).mac (world_of h).hostname)
      × IsEngineId context
engine_ids-IsEngineId h cli user context eu ec =
    let authoritative =
      resolve_on-IsEngineId h.engine user (src_addr_v4 cli)
        (user_id-IsEngineId cli.authoritative_engine_id user eu)
        (parsed_addr-IsAddr cli.src_addr) in
    (authoritative, context_id-IsEngineId cli.context_engine_id _ context authoritative ec)

-- What versions 2c and 3 read of the arguments is well-typed, whatever the host answers: the uptime is
-- within 32 bits, the trap's name is one that can be encoded, and there is one binding for each three
-- arguments, in their order, with a name that can be encoded and a value of the type that the letter
-- between them names. The texts consist of characters.
pub read_v2-world_of :
    {F : Type 0} (h : HostAnswers F) (missing : Usage) (args : List Str) (uptime : ℕ)
    (trap_oid : List ℕ) (vs : VarBinds)
    → All AreChars args
    → read_v2 (world_of h) missing args ≡ ok (uptime, trap_oid, vs)
    → IsTrapText args uptime trap_oid vs
read_v2-world_of h missing args uptime trap_oid vs chars e =
    read_v2-IsTrapText (world_of h) missing args uptime trap_oid vs (world_of-le h) chars e
