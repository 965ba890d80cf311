-- ===== src/Payload/Written.antt =====
-- The positional arguments of src/lib.rs that write out a trap, and the payload they give.
use snmptrap_rs.Prelude.{
  ℕ, ◌%◌, ◌≤◌, ◌≡◌, ◌≢◌, refl, ◌∙◌, ap, arith, true, false, List, [], ◌∷◌, All, Outcome, ok, ◌>>=◌,
  map_err, length, ◌==◌, Bool-cases, ==_iff, inl, inr,
}
use snmptrap_rs.Text.{Str, as_bytes}
use snmptrap_rs.Text.Number.{print, print-ne-nil, parse_uint-print, max_u32}
use snmptrap_rs.Errors.{Error, IoError, Usage, encode, encoder, v2c_arguments}
use snmptrap_rs.Varbind.Oid.Laws.{IsOid, print_oid, parse_oid-print_oid}
use snmptrap_rs.Varbind.Value.{VarBindValue}
use snmptrap_rs.Varbind.RoundTrip.{letter, text, IsPlain, parse_typed_value-text}
use snmptrap_rs.Usm.Crypto.{Crypto}
use snmptrap_rs.Cli.Args.{Cli}
use snmptrap_rs.Pdu.{
  VarBinds, V2cTrap, Codec, build_v2c_trap, sys_uptime_oid, snmp_trap_oid_oid, v2c_message,
}
use snmptrap_rs.Pdu.Laws.{carried, build_v2c_trap-carried}
use snmptrap_rs.Payload.Arguments.{
  arcs_eq, refuse_reserved, parse_triplet, triplets, parse_trailing_varbinds,
  parse_uptime_or_default,
}
use snmptrap_rs.Payload.Reserved.{Unreserved}
use snmptrap_rs.Payload.Build.{World, read_v2, build_v2c_payload}

-- The arguments that write out bindings: name, letter and value of each.
abbrev pub binding_args : VarBinds → List Str
binding_args [] = []
binding_args ((arcs, v) ∷ rest) = print_oid arcs ∷ (letter v ∷ []) ∷ text v ∷ binding_args rest

-- The arguments that write out a trap: the uptime, its name, and the bindings.
abbrev pub trap_args_of : ℕ → List ℕ → VarBinds → List Str
trap_args_of uptime trap_oid vs = print uptime ∷ print_oid trap_oid ∷ binding_args vs

-- Every binding has a valid name and a value in the range of its type.
abbrev pub AreWritable : VarBinds → Type 0
AreWritable = All (λ p. IsOid p.0 × IsPlain p.1)

parse_triplet-text :
    (arcs : List ℕ) (v : VarBindValue)
    → IsOid arcs
    → IsPlain v
    → parse_triplet (print_oid arcs) (letter v ∷ []) (text v) ≡ ok (arcs, v)
parse_triplet-text arcs v ha hv = rw (parse_oid-print_oid arcs ha, parse_typed_value-text v hv)

triplets-binding_args : (vs : VarBinds) → AreWritable vs → triplets (binding_args vs) ≡ ok vs
unfolding triplets
triplets-binding_args [] h = refl
triplets-binding_args ((arcs, v) ∷ rest) ((ha, hv), h) =
    rw (parse_triplet-text arcs v ha hv, triplets-binding_args rest h)

length-binding_args : (vs : VarBinds) → length (binding_args vs) % 3 ≡ 0
length-binding_args [] = refl
length-binding_args ((arcs, v) ∷ rest) = omega (arith, length-binding_args rest)

pub trailing-binding_args :
    (vs : VarBinds) → AreWritable vs → parse_trailing_varbinds (binding_args vs) ≡ ok vs
unfolding parse_trailing_varbinds
trailing-binding_args vs h = rw (length-binding_args vs, triplets-binding_args vs h)

pub uptime-print :
    (host : Outcome IoError ℕ) (n : ℕ) → n ≤ max_u32 → parse_uptime_or_default host (print n) ≡ ok n
uptime-print host n h = go (print n) (print-ne-nil n) (parse_uint-print max_u32 n h)
  where
    go :
        (s : Str)
        → s ≢ []
        → snmptrap_rs.Text.Number.parse_uint max_u32 s ≡ ok n
        → parse_uptime_or_default host s ≡ ok n
    go [] ne e = absurd (ne refl)
    go (c ∷ s) ne e = rw e

arcs_eq_lem : (xs ys : List ℕ) → arcs_eq xs ys ≡ true → xs ≡ ys
unfolding arcs_eq
arcs_eq_lem [] [] h = refl
arcs_eq_lem [] (y ∷ ys) h = cc
arcs_eq_lem (x ∷ xs) [] h = cc
arcs_eq_lem (x ∷ xs) (y ∷ ys) h =
    let (e, rest) : ((x == y) ≡ true) × (arcs_eq xs ys ≡ true) = ground arith in
    λ i. (==_iff x y).0 e i ∷ arcs_eq_lem xs ys rest i

arcs_differ : (xs ys : List ℕ) → xs ≢ ys → arcs_eq xs ys ≡ false
arcs_differ xs ys h = elim (Bool-cases (arcs_eq xs ys)) [
  | inl e ↦ absurd (h (arcs_eq_lem xs ys e))
  | inr e ↦ e
]

refuse_reserved_none : (vs : VarBinds) → Unreserved vs → refuse_reserved vs ≡ ok tt
unfolding refuse_reserved
refuse_reserved_none [] h = refl
refuse_reserved_none ((arcs, v) ∷ rest) ((a, b), h) = rw (
  arcs_differ arcs sys_uptime_oid a,
  arcs_differ arcs snmp_trap_oid_oid b,
  refuse_reserved_none rest h,
)

-- The arguments of versions 2c and 3 are read as the trap that they write out.
pub read_v2-trap_args_of :
    (w : World) (missing : Usage) (uptime : ℕ) (trap_oid : List ℕ) (vs : VarBinds)
    → uptime ≤ max_u32
    → IsOid trap_oid
    → AreWritable vs
    → Unreserved vs
    → read_v2 w missing (trap_args_of uptime trap_oid vs) ≡ ok (uptime, trap_oid, vs)
read_v2-trap_args_of w missing uptime trap_oid vs hu ho hv free = rw (
  uptime-print w.host_uptime uptime hu,
  parse_oid-print_oid trap_oid ho,
  trailing-binding_args vs hv,
  refuse_reserved_none vs free,
)

-- The trap of version 2c of a command line, with what was written out.
abbrev pub v2c_trap_of : World → Cli → ℕ → List ℕ → VarBinds → V2cTrap
v2c_trap_of w cli uptime trap_oid vs = record {
  community = as_bytes cli.community;
  request_id = w.fresh_request_id;
  uptime_centiseconds = uptime;
  trap_oid = trap_oid;
  varbinds = vs;
}

-- Arguments that write out an uptime, a trap's name and bindings, of any number and any types but
-- BITS, give the encoding of exactly the message with these: sysUpTime.0, snmpTrapOID.0 and the
-- bindings in their order. The names are valid and none is one of the two that are put in front; the
-- numbers are in the range of their types.
pub build_v2c_payload-trap_args_of :
    (w : World) (c : Crypto) (codec : Codec) (cli : Cli) (uptime : ℕ) (trap_oid : List ℕ)
    (vs : VarBinds)
    → cli.trap_args ≡ trap_args_of uptime trap_oid vs
    → uptime ≤ max_u32
    → IsOid trap_oid
    → AreWritable vs
    → Unreserved vs
    → build_v2c_payload w c codec cli ≡ (
        let t = v2c_trap_of w cli uptime trap_oid vs in
        map_err (λ e. encode (encoder e)) (codec.encode_v2c (v2c_message codec t (carried t))))
unfolding build_v2c_payload
build_v2c_payload-trap_args_of w c codec cli uptime trap_oid vs e hu ho hv free =
    let read =
      ap (read_v2 w v2c_arguments) e
      ∙ read_v2-trap_args_of w v2c_arguments uptime trap_oid vs hu ho hv free in
    ap
      (λ (m : Outcome Error (ℕ × List ℕ × VarBinds)).
        m >>= λ (u, o, b). build_v2c_trap codec (v2c_trap_of w cli u o b))
      read
    ∙ build_v2c_trap-carried codec (v2c_trap_of w cli uptime trap_oid vs)
