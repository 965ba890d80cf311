-- ===== src/Payload/Total.antt =====
-- Panics in the helpers of the three payloads of src/lib.rs.
use snmptrap_rs.Prelude.{
  ℕ, ◌%◌, ◌≡◌, true, false, List, [], ◌∷◌, Option, none, some, arith, Outcome, ok, err, reject_if,
  length, ◌==◌, if◌then◌else◌,
}
use snmptrap_rs.Prelude.Calm.{
  Calm, calm_rules, Calm-ok, Calm-err, Calm-if, Calm->>=, Calm-then, Calm-map_err, Calm-reject_if,
}
use snmptrap_rs.Text.{Str}
use snmptrap_rs.Text.Net.{Ipv4Addr}
use snmptrap_rs.Errors.{
  Error, usage, IoError, Usage, not_triplets, sys_uptime_repeated, trap_oid_repeated,
}
use snmptrap_rs.Varbind.Total.{parse_uint-Calm, parse_oid-Calm, parse_typed_value-Calm}
use snmptrap_rs.Engine.Id.{EngineId}
use snmptrap_rs.Engine.Total.{parse_user_input-Calm}
use snmptrap_rs.Pdu.{VarBinds, sys_uptime_oid, snmp_trap_oid_oid}
use snmptrap_rs.Payload.Arguments.{
  parse_uptime_or_default, type_letter, parse_triplet, triplets, parse_trailing_varbinds, arcs_eq,
  refuse_reserved, resolve_v1_agent_addr,
}
use snmptrap_rs.Payload.Build.{World, user_id, context_id, enterprise_or_default, read_v2}

-- What is read of the host is a result.
pub record IsSound (w : World) : Type 0 where
  pub uptime : Calm w.host_uptime
  pub egress : (addr : Ipv4Addr) (port : ℕ) → Calm (w.egress_ipv4_for addr port)

pub parse_uptime-Calm :
    (u : Outcome IoError ℕ) (s : Str) → Calm u → Calm (parse_uptime_or_default u s)
parse_uptime-Calm u s h = search (calm_rules, parse_uint-Calm)

type_letter-Calm : (name kind : Str) → Calm (type_letter name kind)
type_letter-Calm name [] = Calm-err _
type_letter-Calm name (c ∷ []) = Calm-ok c
type_letter-Calm name (c ∷ d ∷ s) = Calm-err _

parse_triplet-Calm : (name kind value : Str) → Calm (parse_triplet name kind value)
parse_triplet-Calm name kind value =
    search (calm_rules, parse_oid-Calm, type_letter-Calm, parse_typed_value-Calm) depth 12

-- Whole triplets are read to the end.
triplets-Calm : (args : List Str) → length args % 3 ≡ 0 → Calm (triplets args)
unfolding triplets
triplets-Calm [] h = Calm-ok []
triplets-Calm (a ∷ []) h = absurd (omega arith)
triplets-Calm (a ∷ b ∷ []) h = absurd (omega arith)
triplets-Calm (a ∷ b ∷ c ∷ rest) h =
    let others = triplets-Calm rest (omega arith) in
    Calm->>= (parse_triplet a b c) _ (parse_triplet-Calm a b c)
      (λ first. Calm->>= (triplets rest) _ others (λ binds. Calm-ok _))

whole : (n : ℕ) (e : Error) → reject_if (if n % 3 == 0 then false else true) e ≡ ok tt → n % 3 ≡ 0
whole n e h = ground arith

pub parse_trailing_varbinds-Calm : (rest : List Str) → Calm (parse_trailing_varbinds rest)
unfolding parse_trailing_varbinds
parse_trailing_varbinds-Calm rest =
    Calm-then _ _ (Calm-reject_if _ _)
      (λ done h. triplets-Calm rest (whole (length rest) (usage (not_triplets (length rest))) h))

refuse_reserved-Calm : (vs : VarBinds) → Calm (refuse_reserved vs)
unfolding refuse_reserved
refuse_reserved-Calm [] = Calm-ok tt
refuse_reserved-Calm ((arcs, v) ∷ rest) =
    let others = refuse_reserved-Calm rest in
    Calm-if (arcs_eq arcs sys_uptime_oid) (err (usage sys_uptime_repeated)) _ (Calm-err _) (
      Calm-if (arcs_eq arcs snmp_trap_oid_oid) (err (usage trap_oid_repeated)) _ (Calm-err _)
        others)

pub read_v2-Calm :
    (w : World) (missing : Usage) (args : List Str)
    → Calm w.host_uptime
    → Calm (read_v2 w missing args)
read_v2-Calm w missing [] h = Calm-err _
read_v2-Calm w missing (a ∷ []) h = Calm-err _
read_v2-Calm w missing (a ∷ b ∷ rest) h =
    Calm->>= _ _ (parse_uptime-Calm w.host_uptime a h) (λ uptime.
      Calm->>= _ _ (Calm-map_err _ _ (parse_oid-Calm b)) (λ trap_oid.
        Calm->>= _ _ (parse_trailing_varbinds-Calm rest)
          (λ varbinds. Calm->>= _ _ (refuse_reserved-Calm varbinds) (λ done. Calm-ok _))))

pub user_id-Calm : (o : Option Str) → Calm (user_id o)
user_id-Calm none = Calm-ok none
user_id-Calm (some s) = Calm->>= _ _ (Calm-map_err _ _ (parse_user_input-Calm s)) (λ eid. Calm-ok _)

pub context_id-Calm : (o : Option Str) (eid : EngineId) → Calm (context_id o eid)
context_id-Calm none eid = Calm-ok eid
context_id-Calm (some s) eid = Calm-map_err _ _ (parse_user_input-Calm s)

pub enterprise-Calm : (s : Str) → Calm (enterprise_or_default s)
enterprise-Calm s = search (calm_rules, parse_oid-Calm)

pub resolve_v1_agent_addr-Calm :
    (egress : Outcome IoError Ipv4Addr) (s : Str) (src : Option Ipv4Addr)
    → Calm egress
    → Calm (resolve_v1_agent_addr egress s src)
unfolding resolve_v1_agent_addr
resolve_v1_agent_addr-Calm egress s none h = search calm_rules
resolve_v1_agent_addr-Calm egress s (some a) h = search calm_rules
