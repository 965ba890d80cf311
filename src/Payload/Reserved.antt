-- ===== src/Payload/Reserved.antt =====
-- Which bindings src/lib.rs lets into a trap of version 2c.
use snmptrap_rs.Prelude.{
  ℕ, ◌≡◌, ◌≢◌, refl, sym, ◌∙◌, ap, subst, Bool, true, false, List, [], ◌∷◌, Outcome, ok, err,
  >>=-eq-ok, map_err, ◌==◌, if◌then◌else◌, All, arith,
}
use snmptrap_rs.Text.{Str, as_bytes}
use snmptrap_rs.Errors.{
  Error, Usage, usage, oid, v2c_arguments, sys_uptime_repeated, trap_oid_repeated,
}
use snmptrap_rs.Varbind.Oid.{parse_oid}
use snmptrap_rs.Usm.Crypto.{Crypto}
use snmptrap_rs.Cli.Args.{Cli}
use snmptrap_rs.Pdu.{VarBinds, V2cTrap, Codec, sys_uptime_oid, snmp_trap_oid_oid, build_v2c_trap}
use snmptrap_rs.Payload.Arguments.{
  arcs_eq, refuse_reserved, parse_trailing_varbinds, parse_uptime_or_default,
}
use snmptrap_rs.Payload.Build.{World, read_v2, build_v2c_payload}

arcs_eq_refl : (xs : List ℕ) → arcs_eq xs xs ≡ true
unfolding arcs_eq
arcs_eq_refl [] = refl
arcs_eq_refl (x ∷ xs) = let same : (x == x) ≡ true = ground arith in rw (same, arcs_eq_refl xs)

arcs_ne : (xs ys : List ℕ) → arcs_eq xs ys ≡ false → xs ≢ ys
arcs_ne xs ys h e =
    let same : arcs_eq xs ys ≡ true = ap (arcs_eq xs) (sym e) ∙ arcs_eq_refl xs in cc

-- None of the bindings has the name of one that is put in front.
abbrev pub Unreserved : VarBinds → Type 0
Unreserved vs = All (λ p. (p.0 ≢ sys_uptime_oid) × (p.0 ≢ snmp_trap_oid_oid)) vs

reserved_step :
    (a b : Bool) (k : Outcome Error (Unit {0}))
    → (if a
        then err (usage sys_uptime_repeated)
        else if b
        then err (usage trap_oid_repeated)
        else k)
      ≡ ok tt
    → (a ≡ false) × (b ≡ false) × (k ≡ ok tt)
reserved_step true b k h = cc
reserved_step false true k h = cc
reserved_step false false k h = (refl, refl, h)

refuse_reserved-Unreserved : (vs : VarBinds) → refuse_reserved vs ≡ ok tt → Unreserved vs
unfolding refuse_reserved
refuse_reserved-Unreserved [] h = tt
refuse_reserved-Unreserved ((arcs, v) ∷ rest) h =
    let (a, b, k) =
      reserved_step (arcs_eq arcs sys_uptime_oid) (arcs_eq arcs snmp_trap_oid_oid)
        (refuse_reserved rest) h in
    ((arcs_ne arcs _ a, arcs_ne arcs _ b), refuse_reserved-Unreserved rest k)

pub read_v2-Unreserved :
    (w : World) (missing : Usage) (args : List Str) {uptime : ℕ} {trap_oid : List ℕ} {vs : VarBinds}
    → read_v2 w missing args ≡ ok (uptime, trap_oid, vs)
    → Unreserved vs
read_v2-Unreserved w missing [] h = cc
read_v2-Unreserved w missing (a ∷ []) h = cc
read_v2-Unreserved w missing (a ∷ b ∷ rest) {uptime} {trap_oid} {vs} h =
    let (u, e1, h1) = >>=-eq-ok (parse_uptime_or_default w.host_uptime a) _ h in
    let (o, e2, h2) = >>=-eq-ok (map_err (λ e. usage (oid e)) (parse_oid b)) _ h1 in
    let (binds, e3, h3) = >>=-eq-ok (parse_trailing_varbinds rest) _ h2 in
    let (t, e4, h4) = >>=-eq-ok (refuse_reserved binds) _ h3 in
    let same : ◌≡◌ {A = Outcome Error (ℕ × List ℕ × VarBinds)} (ok (u, o, binds))
        (ok (uptime, trap_oid, vs)) =
      h4 in
    let binds_eq : binds ≡ vs = cc in
    subst Unreserved binds_eq (refuse_reserved-Unreserved binds e4)

-- A payload of version 2c is the encoding of a trap with the community of the command line and the
-- drawn request identifier, none of whose bindings has the name sysUpTime.0 or snmpTrapOID.0.
pub build_v2c_payload-Unreserved :
    (w : World) (c : Crypto) (codec : Codec) (cli : Cli) (wire : List ℕ)
    → build_v2c_payload w c codec cli ≡ ok wire
    → (t : V2cTrap) × (build_v2c_trap codec t ≡ ok wire)
      × (t.community ≡ as_bytes cli.community)
      × (t.request_id ≡ w.fresh_request_id)
      × Unreserved t.varbinds
unfolding build_v2c_payload
build_v2c_payload-Unreserved w c codec cli wire h =
    let ((uptime, trap_oid, vs), e, b) = >>=-eq-ok (read_v2 w v2c_arguments cli.trap_args) _ h in
    (
      record {
        community = as_bytes cli.community;
        request_id = w.fresh_request_id;
        uptime_centiseconds = uptime;
        trap_oid = trap_oid;
        varbinds = vs;
      },
      b,
      refl,
      refl,
      read_v2-Unreserved w v2c_arguments cli.trap_args e,
    )
