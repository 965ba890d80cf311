-- ===== src/Payload/WellFormed.antt =====
-- The message that src/lib.rs hands to src/v3.rs, with all that stands in its fields.
use snmptrap_rs.Prelude.{
  ℕ, ◌^◌, ◌≤◌, ◌<◌, ◌≡◌, ◌≢◌, ◌⊎◌, refl, false, Option, none, some, ◌∷◌, ◌++◌, subst, sym, inl, inr,
  arith, List, [], All, ok, >>=-eq-ok, expect, Bytes,
}
use snmptrap_rs.Prelude.Int.{ℤ, pos, negsuc}
use snmptrap_rs.Text.{Str, utf8, as_bytes}
use snmptrap_rs.Text.Number.{max_u32}
use snmptrap_rs.Errors.{Error, v3_arguments}
use snmptrap_rs.Engine.Id.{EngineId, IsEngineId}
use snmptrap_rs.Engine.Id.Laws.{AreChars}
use snmptrap_rs.Engine.Resolve.{resolve}
use snmptrap_rs.Varbind.Oid.Laws.{IsOid}
use snmptrap_rs.Varbind.Typed.{HasType}
use snmptrap_rs.Usm.Crypto.{Crypto, IsLawful}
use snmptrap_rs.Cli.Types.{SecurityLevel}
use snmptrap_rs.Cli.Args.{Cli, none_or_empty, src_addr_v4}
use snmptrap_rs.Cli.Laws.{LevelReady, Ready}
use snmptrap_rs.Pdu.{VarBinds}
use snmptrap_rs.V3.{V3Security, V3TrapMessage, Codec, build_v3_trap_message}
use snmptrap_rs.V3.Receiver.{FitKeys}
use snmptrap_rs.Payload.Security.{build_v3_security}
use snmptrap_rs.Payload.Laws.{build_v3_security-cases}
use snmptrap_rs.Payload.Accepted.{level_found, user_found}
use snmptrap_rs.Payload.Reserved.{Unreserved, read_v2-Unreserved}
use snmptrap_rs.Payload.Typed.{Spells, spells_none, spells_more, IsTrapText, trap_text}
use snmptrap_rs.Payload.Host.{HostAnswers, world_of, read_v2-world_of, engine_ids-IsEngineId}
use snmptrap_rs.Payload.Build.{
  read_v2, user_id, context_id, context_bytes, engine_boots_per_invocation, process_uptime_seconds,
  build_v3_payload,
}

-- A number that `random_range(1..=i32::MAX)` can draw.
abbrev pub IsDrawn : ℤ → Type 0
IsDrawn (pos n) = (1 ≤ n) × (n < 2 ^ 31)
IsDrawn (negsuc n) = ⊥

-- A binding with a name that can be encoded, and a value in the range of some type.
abbrev pub AreTyped : VarBinds → Type 0
AreTyped = All (λ p. IsOid p.0 × ((letter : ℕ) × HasType letter p.1))

-- The identifiers, the numbers, the keys and the bindings of the message are in the range that the
-- standards give them.
pub record IsWellFormed (m : V3TrapMessage) : Type 0 where
  pub authoritative : IsEngineId m.authoritative_engine_id
  pub context : IsEngineId m.context_engine_id
  pub boots : m.engine_boots < 2 ^ 31
  pub time : m.engine_time < 2 ^ 31
  pub msg_id : IsDrawn m.msg_id
  pub request_id : IsDrawn m.trap.request_id
  pub keys : FitKeys m.security
  pub uptime : m.trap.uptime_centiseconds ≤ max_u32
  pub trap_oid : IsOid m.trap.trap_oid
  pub bindings : AreTyped m.trap.varbinds
  pub unreserved : Unreserved m.trap.varbinds

-- The bytes of the name of a context, if one is given.
abbrev pub IsContext : Option Str → Bytes → Type 0
IsContext o bytes =
    ((o ≡ none) × (bytes ≡ [])) ⊎ ((name : Str) × (o ≡ some name) × (bytes ≡ as_bytes name))

context_bytes-IsContext : (o : Option Str) → IsContext o (context_bytes o)
context_bytes-IsContext none = inl (refl, refl)
context_bytes-IsContext (some s) = inr (s, refl, refl)

-- The two names in the message are those of the command line, in UTF-8: the user's, which is not
-- empty, and that of the context, which is empty if none is given.
pub record IsNamed (cli : Cli) (m : V3TrapMessage) : Type 0 where
  pub user : (name : Str) × (cli.user_name ≡ some name) × (m.user_name ≡ as_bytes name)
  pub user_given : m.user_name ≢ []
  pub context : IsContext cli.context_name m.context_name

utf8-ne-nil : (c : ℕ) (rest : Bytes) → utf8 c ++ rest ≢ []
unfolding utf8
utf8-ne-nil c rest h = ground arith

user_named :
    (o : Option Str) (name : Str) → none_or_empty o ≡ false → o ≡ some name → as_bytes name ≢ []
unfolding as_bytes
user_named none name given e h = cc
user_named (some s) [] given e h = cc
user_named (some s) (c ∷ name) given e h = utf8-ne-nil c (as_bytes name) h

Spells-AreTyped : {args : List Str} {vs : VarBinds} → Spells args vs → AreTyped vs
Spells-AreTyped spells_none = tt
Spells-AreTyped (spells_more {letter = letter} read valid has more) =
    ((valid, (letter, has)), Spells-AreTyped more)

trap_parts :
    {args : List Str} {uptime : ℕ} {trap_oid : List ℕ} {vs : VarBinds}
    → IsTrapText args uptime trap_oid vs
    → (uptime ≤ max_u32) × IsOid trap_oid × AreTyped vs
trap_parts (trap_text fits valid spells) = (fits, valid, Spells-AreTyped spells)

module _ (c : Crypto) (law : IsLawful c) (cli : Cli) where
  keys_fit :
      (salt : ℕ) (level : SecurityLevel) (eid : EngineId) (s : V3Security)
      → LevelReady cli level
      → build_v3_security c salt cli level eid ≡ ok s
      → FitKeys s
  keys_fit salt level eid s ready h =
      elim (build_v3_security-cases c law salt cli eid level ready) [
        | inl (s', e, fit, of) ↦ let same : s' ≡ s = cc in subst FitKeys same fit
        | inr (a, p, ha, hp, less, e) ↦ cc
      ]

  -- The payload of version 3 of a command line that was checked is the encoding of a message whose
  -- identifiers, numbers, keys and bindings are in range, whatever the host answers: both engine
  -- identifiers have 5 to 32 octets, the boots and the time are below 2^31, the two identifiers drawn
  -- are positive, the keys have the lengths that the protocols want, the uptime is within 32 bits,
  -- every name of a binding can be encoded, every value is in the range of a type, and no binding has
  -- the name of one that is put in front. The user's name is that of the command line and not empty,
  -- and the context's is that of the command line or empty; the program puts no upper bound on the
  -- lengths of these two. The texts consist of characters, the cryptography is lawful, and the numbers
  -- are drawn in their range.
  pub build_v3_payload-IsWellFormed :
      {F : Type 0} (h : HostAnswers F) (codec : Codec) (wire : Bytes)
      → IsDrawn h.request_id
      → IsDrawn h.msg_id
      → All AreChars cli.trap_args
      → Ready cli
      → build_v3_payload (world_of h) c codec cli ≡ ok wire
      → (m : V3TrapMessage) × (build_v3_trap_message c codec m ≡ ok wire)
        × IsWellFormed m
        × IsNamed cli m
  unfolding build_v3_payload Ready
  build_v3_payload-IsWellFormed h codec wire request message chars (level, hl, named, ready) e =
      let w = world_of h in
      let (t, e0, h0) = >>=-eq-ok (read_v2 w v3_arguments cli.trap_args) _ e in
      let (user, e1, h1) = >>=-eq-ok (user_id cli.authoritative_engine_id) _ h0 in
      let eid = resolve user (src_addr_v4 cli) w.mac w.hostname in
      let (context, e2, h2) = >>=-eq-ok (context_id cli.context_engine_id eid) _ h1 in
      let (l, e3, h3) = >>=-eq-ok {E = Error} (expect cli.security_level) _ h2 in
      let (s, e4, h4) = >>=-eq-ok (build_v3_security c w.fresh_salt cli l eid) _ h3 in
      let (name, e5, h5) = >>=-eq-ok {E = Error} (expect cli.user_name) _ h4 in
      let ready' = subst (LevelReady cli) (sym (level_found cli.security_level hl e3)) ready in
      let (authoritative, of_context) = engine_ids-IsEngineId h cli user context e1 e2 in
      let (fits, valid, typed) =
        trap_parts (read_v2-world_of h v3_arguments cli.trap_args t.0 t.1 t.2 chars e0) in
      (
        record {
          authoritative_engine_id = eid;
          context_engine_id = context;
          context_name = context_bytes cli.context_name;
          user_name = as_bytes name;
          engine_boots = engine_boots_per_invocation;
          engine_time = process_uptime_seconds w;
          msg_id = w.fresh_msg_id;
          security = s;
          trap = record {
            community = [];
            request_id = w.fresh_request_id;
            uptime_centiseconds = t.0;
            trap_oid = t.1;
            varbinds = t.2;
          };
        },
        h5,
        record {
          authoritative = authoritative;
          context = of_context;
          boots = omega arith;
          time = omega arith;
          msg_id = message;
          request_id = request;
          keys = keys_fit w.fresh_salt l eid s ready' e4;
          uptime = fits;
          trap_oid = valid;
          bindings = typed;
          unreserved = read_v2-Unreserved w v3_arguments cli.trap_args e0;
        },
        record {
          user = (name, user_found cli.user_name e5, refl);
          user_given = user_named cli.user_name name named (user_found cli.user_name e5);
          context = context_bytes-IsContext cli.context_name;
        },
      )
