-- ===== src/Payload/Typed.antt =====
-- The kinds and the ranges of what src/lib.rs reads of the arguments of a trap.
use snmptrap_rs.Prelude.{
  ℕ, ◌%◌, ◌≤◌, ◌≡◌, subst, true, false, List, [], ◌∷◌, All, Outcome, ok, >>=-eq-ok, map_err-eq-ok,
  map_err, reject_if, length, ◌==◌, if◌then◌else◌,
}
use snmptrap_rs.Text.{Str}
use snmptrap_rs.Text.Number.{parse_uint-le, max_u32}
use snmptrap_rs.Errors.{Error, IoError, Usage, usage, other_io, oid, bad_uptime, not_triplets}
use snmptrap_rs.Engine.Id.Laws.{AreChars}
use snmptrap_rs.Varbind.Oid.{parse_oid}
use snmptrap_rs.Varbind.Oid.Laws.{IsOid, parse_oid-IsOid}
use snmptrap_rs.Varbind.Value.{VarBindValue, parse_typed_value}
use snmptrap_rs.Varbind.Typed.{HasType, parse_typed_value-HasType}
use snmptrap_rs.Pdu.{VarBinds}
use snmptrap_rs.Payload.Arguments.{
  parse_uptime_or_default, value_error, type_letter, parse_triplet, triplets,
  parse_trailing_varbinds, refuse_reserved,
}
use snmptrap_rs.Payload.Build.{World, read_v2}

-- Three arguments for each binding: a text that is read as the name, the letter of the type that
-- the value has, and a text.
pub data Spells : List Str → VarBinds → Type 0 where
  spells_none : Spells [] []
  spells_more :
      {name value : Str} {letter : ℕ} {rest : List Str} {arcs : List ℕ} {v : VarBindValue}
      {vs : VarBinds}
      → parse_oid name ≡ ok arcs
      → IsOid arcs
      → HasType letter v
      → Spells rest vs
      → Spells (name ∷ (letter ∷ []) ∷ value ∷ rest) ((arcs, v) ∷ vs)

type_letter-eq-ok :
    (name kind : Str) {letter : ℕ} → type_letter name kind ≡ ok letter → kind ≡ letter ∷ []
type_letter-eq-ok name [] e = cc
type_letter-eq-ok name (c ∷ []) e = cc
type_letter-eq-ok name (c ∷ d ∷ more) e = cc

parse_triplet-Spells :
    (name kind value : Str) (rest : List Str) {vs : VarBinds} {arcs : List ℕ} {v : VarBindValue}
    → AreChars value
    → Spells rest vs
    → parse_triplet name kind value ≡ ok (arcs, v)
    → Spells (name ∷ kind ∷ value ∷ rest) ((arcs, v) ∷ vs)
parse_triplet-Spells name kind value rest {vs} {arcs} {v} chars more e =
    let (as_, ea, e1) = >>=-eq-ok (map_err (λ x. usage (oid x)) (parse_oid name)) _ e in
    let (letter, el, e2) = >>=-eq-ok (type_letter name kind) _ e1 in
    let (w, ew, e3) =
      >>=-eq-ok (map_err (value_error name) (parse_typed_value letter value)) _ e2 in
    let e3' : ◌≡◌ {A = Outcome Error (List ℕ × VarBindValue)} (ok (as_, w)) (ok (arcs, v)) = e3 in
    let same_arcs : as_ ≡ arcs = cc in
    let same_value : w ≡ v = cc in
    let read : parse_oid name ≡ ok arcs =
      subst (λ x. parse_oid name ≡ ok x) same_arcs (map_err-eq-ok _ _ ea) in
    let value_read : parse_typed_value letter value ≡ ok v =
      subst (λ x. parse_typed_value letter value ≡ ok x) same_value (map_err-eq-ok _ _ ew) in
    let has = parse_typed_value-HasType letter value v chars value_read in
    rw (type_letter-eq-ok name kind el) (spells_more read (parse_oid-IsOid name arcs read) has more)

triplets-Spells :
    (args : List Str) {vs : VarBinds} → All AreChars args → triplets args ≡ ok vs → Spells args vs
unfolding triplets
triplets-Spells [] {vs} h e =
    let same : ◌≡◌ {A = VarBinds} [] vs = cc in subst (Spells []) same spells_none
triplets-Spells (a ∷ []) h e = cc
triplets-Spells (a ∷ b ∷ []) h e = cc
triplets-Spells (a ∷ b ∷ c ∷ rest) {vs} (ha, (hb, (hc, h))) e =
    let (first, ef, e1) = >>=-eq-ok (parse_triplet a b c) _ e in
    let (others, eo, e2) = >>=-eq-ok (triplets rest) _ e1 in
    let e2' : ◌≡◌ {A = Outcome Error VarBinds} (ok (first ∷ others)) (ok vs) = e2 in
    let same : first ∷ others ≡ vs = cc in
    subst (Spells (a ∷ b ∷ c ∷ rest)) same
      (parse_triplet-Spells a b c rest hc (triplets-Spells rest h eo) ef)

pub parse_trailing_varbinds-Spells :
    (rest : List Str) (vs : VarBinds)
    → All AreChars rest
    → parse_trailing_varbinds rest ≡ ok vs
    → Spells rest vs
unfolding parse_trailing_varbinds
parse_trailing_varbinds-Spells rest vs h e =
    let (done, er, et) =
      >>=-eq-ok
        (reject_if (if length rest % 3 == 0 then false else true)
          (usage (not_triplets (length rest))))
        _ e in
    triplets-Spells rest h et

parse_uptime-le :
    (host : Outcome IoError ℕ) (s : Str) {n : ℕ}
    → ((m : ℕ) → host ≡ ok m → m ≤ max_u32)
    → parse_uptime_or_default host s ≡ ok n
    → n ≤ max_u32
parse_uptime-le host [] {n} h e = h n (map_err-eq-ok other_io host e)
parse_uptime-le host (c ∷ s) e h =
    parse_uint-le max_u32 (c ∷ s) (map_err-eq-ok (λ x. usage (bad_uptime (c ∷ s) x)) _ h)

-- What versions 2c and 3 read of the arguments.
pub data IsTrapText : List Str → ℕ → List ℕ → VarBinds → Type 0 where
  trap_text :
      {a b : Str} {rest : List Str} {uptime : ℕ} {trap_oid : List ℕ} {vs : VarBinds}
      → uptime ≤ max_u32
      → IsOid trap_oid
      → Spells rest vs
      → IsTrapText (a ∷ b ∷ rest) uptime trap_oid vs

-- What is read has these types, on a host whose uptime is within 32 bits.
pub read_v2-IsTrapText :
    (w : World) (missing : Usage) (args : List Str) (uptime : ℕ) (trap_oid : List ℕ) (vs : VarBinds)
    → ((n : ℕ) → w.host_uptime ≡ ok n → n ≤ max_u32)
    → All AreChars args
    → read_v2 w missing args ≡ ok (uptime, trap_oid, vs)
    → IsTrapText args uptime trap_oid vs
read_v2-IsTrapText w missing [] uptime trap_oid vs fits chars e = cc
read_v2-IsTrapText w missing (a ∷ []) uptime trap_oid vs fits chars e = cc
read_v2-IsTrapText w missing (a ∷ b ∷ rest) uptime trap_oid vs fits (ha, (hb, chars)) h =
    let (u, e1, h1) = >>=-eq-ok (parse_uptime_or_default w.host_uptime a) _ h in
    let (o, e2, h2) = >>=-eq-ok (map_err (λ e. usage (oid e)) (parse_oid b)) _ h1 in
    let (binds, e3, h3) = >>=-eq-ok (parse_trailing_varbinds rest) _ h2 in
    let (t, e4, h4) = >>=-eq-ok (refuse_reserved binds) _ h3 in
    let same : ◌≡◌ {A = Outcome Error (ℕ × List ℕ × VarBinds)} (ok (u, o, binds))
        (ok (uptime, trap_oid, vs)) =
      h4 in
    let inside : ◌≡◌ {A = ℕ × List ℕ × VarBinds} (u, o, binds) (uptime, trap_oid, vs) = cc in
    subst (λ (t : ℕ × List ℕ × VarBinds). IsTrapText (a ∷ b ∷ rest) t.0 t.1 t.2) inside
      (trap_text (parse_uptime-le w.host_uptime a fits e1)
        (parse_oid-IsOid b o (map_err-eq-ok _ _ e2))
        (parse_trailing_varbinds-Spells rest binds chars e3))
