-- ===== src/Payload/Arguments.antt =====
-- The positional arguments of a trap: `parse_uptime_or_default`, `parse_trailing_varbinds` and
-- `resolve_v1_agent_addr` of src/lib.rs. The host's uptime and its egress address are parameters.
use snmptrap_rs.Prelude.{
  ℕ, ◌%◌, Bool, true, false, List, [], ◌∷◌, Option, none, some, Outcome, ok, err, panic, ◌>>=◌,
  ◌>>◌, map_err, reject_if, ok_or, length, ◌==◌, if◌then◌else◌, is_empty, ◌&&◌,
}
use snmptrap_rs.Text.{Str}
use snmptrap_rs.Text.Net.{Ipv4Addr, parse_ipv4}
use snmptrap_rs.Text.Number.{parse_uint, max_u32}
use snmptrap_rs.Errors.{
  Error, usage, other_io, IoError, ParseError, unknown_letter, bad_value, oid, bad_uptime,
  bad_agent_addr, not_triplets, letter_empty, letter_long, letter_unknown, value_bad,
  sys_uptime_repeated, trap_oid_repeated,
}
use snmptrap_rs.Varbind.Oid.{parse_oid}
use snmptrap_rs.Varbind.Value.{VarBindValue, parse_typed_value}
use snmptrap_rs.Pdu.{VarBinds, sys_uptime_oid, snmp_trap_oid_oid}

abbrev pub parse_uptime_or_default : Outcome IoError ℕ → Str → Outcome Error ℕ
parse_uptime_or_default host_uptime s =
    if is_empty s
    then map_err other_io host_uptime
    else map_err (λ e. usage (bad_uptime s e)) (parse_uint max_u32 s)

-- An error of `parse_typed_value`, with the OID named.
abbrev pub value_error : Str → ParseError → Error
value_error name (unknown_letter letter) = usage (letter_unknown letter name)
value_error name (bad_value letter detail) = usage (value_bad letter name detail)

-- The one letter of the middle argument.
abbrev pub type_letter : Str → Str → Outcome Error ℕ
type_letter name [] = err (usage (letter_empty name))
type_letter name (letter ∷ []) = ok letter
type_letter name (letter ∷ c ∷ more) = err (usage (letter_long name (letter ∷ c ∷ more)))

abbrev pub parse_triplet : Str → Str → Str → Outcome Error (List ℕ × VarBindValue)
parse_triplet name kind value = do
  arcs ← map_err (λ e. usage (oid e)) (parse_oid name)
  letter ← type_letter name kind
  v ← map_err (value_error name) (parse_typed_value letter value)
  ok (arcs, v)

-- The loop over the chunks of three. A last chunk of less indexes out of range.
unfoldable pub triplets : List Str → Outcome Error VarBinds
triplets [] = ok []
triplets (name ∷ []) = panic
triplets (name ∷ kind ∷ []) = panic
triplets (name ∷ kind ∷ value ∷ rest) = do
  first ← parse_triplet name kind value
  others ← triplets rest
  ok (first ∷ others)

unfoldable pub parse_trailing_varbinds : List Str → Outcome Error VarBinds
parse_trailing_varbinds rest = do
  reject_if (if length rest % 3 == 0 then false else true) (usage (not_triplets (length rest)))
  triplets rest

-- Equality of arcs.
unfoldable pub arcs_eq : List ℕ → List ℕ → Bool
arcs_eq [] [] = true
arcs_eq [] (b ∷ bs) = false
arcs_eq (a ∷ as_) [] = false
arcs_eq (a ∷ as_) (b ∷ bs) = a == b && arcs_eq as_ bs

-- The loop that refuses the two bindings that are put in front.
unfoldable pub refuse_reserved : VarBinds → Outcome Error (Unit {0})
unfolding arcs_eq
refuse_reserved [] = ok tt
refuse_reserved ((arcs, v) ∷ rest) =
    let others = refuse_reserved rest in
    if arcs_eq arcs sys_uptime_oid
    then err (usage sys_uptime_repeated)
    else if arcs_eq arcs snmp_trap_oid_oid
    then err (usage trap_oid_repeated)
    else others

unfoldable pub resolve_v1_agent_addr :
    Outcome IoError Ipv4Addr → Str → Option Ipv4Addr → Outcome Error Ipv4Addr
resolve_v1_agent_addr egress positional src =
    if is_empty positional
    then from_flag src
    else ok_or (parse_ipv4 positional) (usage (bad_agent_addr positional))
  where
    from_flag : Option Ipv4Addr → Outcome Error Ipv4Addr
    from_flag (some addr) = ok addr
    from_flag none = map_err other_io egress
