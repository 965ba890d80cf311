-- ===== src/Payload/Calm.antt =====
-- Panics on the way to the three payloads of src/lib.rs.
use snmptrap_rs.Prelude.{
  ℕ, ◌≡◌, refl, subst, inl, inr, true, false, List, [], ◌∷◌, Option, none, some, Outcome, ok, ◌>>=◌,
  expect,
}
use snmptrap_rs.Prelude.Calm.{
  Calm, Calm-ok, Calm-err, Calm->>=, Calm-then, Calm-map_err, Calm-reject_if,
}
use snmptrap_rs.Text.{Str}
use snmptrap_rs.Text.Net.{Ipv4Addr}
use snmptrap_rs.Errors.{Error}
use snmptrap_rs.Engine.Id.{EngineId}
use snmptrap_rs.Varbind.Total.{parse_i32-Calm}
use snmptrap_rs.Usm.Crypto.{Crypto, IsLawful}
use snmptrap_rs.Cli.Types.{SnmpVersion, SecurityLevel, v1, v2c, v3}
use snmptrap_rs.Cli.Args.{Cli, is_v3, none_or_empty, src_addr_v4}
use snmptrap_rs.Cli.Laws.{Ready, LevelReady}
use snmptrap_rs.Pdu.{
  VarBinds, V2cMessage, V1Message, V2cTrap, V1Trap, build_v2c_trap, build_v1_trap,
}
use snmptrap_rs.Pdu.Laws.{push_v1-cases, build_v2c_trap-carried}
use snmptrap_rs.V3.{V3TrapMessage, build_v3_trap_message}
use snmptrap_rs.V3.Receiver.{FitKeys}
use snmptrap_rs.V3.Ends.{NeverPanics, build_v3_trap_message_ends}
use snmptrap_rs.Payload.Security.{build_v3_security}
use snmptrap_rs.Payload.Laws.{build_v3_security-cases}
use snmptrap_rs.Payload.Total.{
  IsSound, parse_uptime-Calm, parse_trailing_varbinds-Calm, read_v2-Calm, user_id-Calm,
  context_id-Calm, enterprise-Calm, resolve_v1_agent_addr-Calm,
}
use snmptrap_rs.Payload.Build.{
  World, build_v2c_payload, build_v3_payload, build_v1_args, build_v1_payload, payload_of,
  build_payload,
}

-- The encoders of versions 1 and 2c do not panic.
abbrev pub EncodesCalmly : snmptrap_rs.Pdu.Codec → Type 0
EncodesCalmly codec =
    ((x : V2cMessage) → Calm (codec.encode_v2c x)) × ((x : V1Message) → Calm (codec.encode_v1 x))

module _ (w : World) (sound : IsSound w) (c : Crypto) (codec : snmptrap_rs.Pdu.Codec)
    (calm : EncodesCalmly codec) where
  build_v2c_trap-Calm : (t : V2cTrap) → Calm (build_v2c_trap codec t)
  build_v2c_trap-Calm t = rw (build_v2c_trap-carried codec t) (Calm-map_err _ _ (calm.0 _))

  build_v1_trap-Calm : (t : V1Trap) → Calm (build_v1_trap codec t)
  unfolding build_v1_trap
  build_v1_trap-Calm t = elim (push_v1-cases t.varbinds) [
    | inl (why, f, e) ↦ rw e (Calm-err _)
    | inr (f, (bs, e, r)) ↦ rw e (Calm-map_err _ _ (calm.1 _))
  ]

  pub build_v2c_payload-Calm : (cli : Cli) → Calm (build_v2c_payload w c codec cli)
  unfolding build_v2c_payload
  build_v2c_payload-Calm cli =
      Calm->>= _ _ (read_v2-Calm w _ cli.trap_args sound.uptime) (λ p. build_v2c_trap-Calm _)

  build_v1_args-Calm :
      (cli : Cli) (dst : Ipv4Addr) (port : ℕ) (args : List Str)
      → Calm (build_v1_args w c codec cli dst port args)
  unfolding build_v1_args
  build_v1_args-Calm cli dst port [] = Calm-err _
  build_v1_args-Calm cli dst port (a ∷ []) = Calm-err _
  build_v1_args-Calm cli dst port (a ∷ b ∷ []) = Calm-err _
  build_v1_args-Calm cli dst port (a ∷ b ∷ g ∷ []) = Calm-err _
  build_v1_args-Calm cli dst port (a ∷ b ∷ g ∷ s ∷ []) = Calm-err _
  build_v1_args-Calm cli dst port (a ∷ b ∷ g ∷ s ∷ u ∷ rest) =
      let agent =
        resolve_v1_agent_addr-Calm (w.egress_ipv4_for dst port) b (src_addr_v4 cli)
          (sound.egress dst port) in
      Calm->>= _ _ (enterprise-Calm a) λ enterprise. Calm->>= _ _ agent λ addr.
        Calm->>= _ _ (Calm-map_err _ _ (parse_i32-Calm g)) λ generic.
          Calm->>= _ _ (Calm-reject_if _ _) λ in_range.
            Calm->>= _ _ (Calm-map_err _ _ (parse_i32-Calm s)) λ specific.
              Calm->>= _ _ (Calm-reject_if _ _) λ positive.
                Calm->>= _ _ (parse_uptime-Calm w.host_uptime u sound.uptime) λ uptime.
                  Calm->>= _ _ (parse_trailing_varbinds-Calm rest) λ varbinds. build_v1_trap-Calm _

  pub build_v1_payload-Calm :
      (cli : Cli) (dst : Ipv4Addr) (port : ℕ) → Calm (build_v1_payload w c codec cli dst port)
  unfolding build_v1_payload
  build_v1_payload-Calm cli dst port = build_v1_args-Calm cli dst port cli.trap_args

-- An `expect` on a value that is there.
expect-Calm :
    {A B : Type 0} (o : Option A) (f : A → Outcome Error B) (a : A)
    → o ≡ some a
    → Calm (f a)
    → Calm (expect o >>= f)
expect-Calm o f a h cf = rw h cf

given : (o : Option Str) → none_or_empty o ≡ false → (s : Str) × (o ≡ some s)
given none h = cc
given (some s) h = (s, refl)

module _ (c : Crypto) (law : IsLawful c) (codec : snmptrap_rs.V3.Codec)
    (never : NeverPanics codec) where
  build_v3_trap_message-Calm :
      (m : V3TrapMessage) → FitKeys m.security → Calm (build_v3_trap_message c codec m)
  build_v3_trap_message-Calm m fit = elim (build_v3_trap_message_ends c codec m law never fit) [
    | inl (wire, e) ↦ rw e (Calm-ok wire)
    | inr (why, e) ↦ rw e (Calm-err _)
  ]

  build_v3_security-Calm :
      (salt : ℕ) (cli : Cli) (level : SecurityLevel) (eid : EngineId)
      → LevelReady cli level
      → Calm (build_v3_security c salt cli level eid)
  build_v3_security-Calm salt cli level eid ready =
      elim (build_v3_security-cases c law salt cli eid level ready) [
        | inl (s, e, fit, of) ↦ rw e (Calm-ok s)
        | inr (a, p, ha, hp, less, e) ↦ rw e (Calm-err _)
      ]

  fitted :
      (salt : ℕ) (cli : Cli) (level : SecurityLevel) (eid : EngineId)
      (s : snmptrap_rs.V3.V3Security)
      → LevelReady cli level
      → build_v3_security c salt cli level eid ≡ ok s
      → FitKeys s
  fitted salt cli level eid s ready h =
      elim (build_v3_security-cases c law salt cli eid level ready) [
        | inl (s', e, fit, of) ↦ let same : s' ≡ s = cc in subst FitKeys same fit
        | inr (a, p, ha, hp, less, e) ↦ cc
      ]

  pub build_v3_payload-Calm :
      (w : World) (cli : Cli) → IsSound w → Ready cli → Calm (build_v3_payload w c codec cli)
  unfolding build_v3_payload Ready
  build_v3_payload-Calm w cli sound (level, hl, hn, ready) =
      let (name, hname) = given cli.user_name hn in
      Calm->>= _ _ (read_v2-Calm w _ cli.trap_args sound.uptime) λ p.
        Calm->>= _ _ (user_id-Calm cli.authoritative_engine_id) λ user.
          Calm->>= _ _ (context_id-Calm cli.context_engine_id _) λ context.
            expect-Calm cli.security_level _ level hl (
              Calm-then _ _ (build_v3_security-Calm w.fresh_salt cli level _ ready)
                (λ security built. expect-Calm cli.user_name _ name hname (
                  build_v3_trap_message-Calm _
                    (fitted w.fresh_salt cli level _ security ready built))))

-- What is asked of the world: answers of the host that are results, a lawful cryptography, and
-- encoders that do not panic.
pub record IsTame (w : World) (c : Crypto) (codec : snmptrap_rs.Pdu.Codec)
    (codec3 : snmptrap_rs.V3.Codec) : Type 0 where
  pub sound : IsSound w
  pub law : IsLawful c
  pub encodes : EncodesCalmly codec
  pub encodes3 : NeverPanics codec3

module _ (w : World) (c : Crypto) (codec : snmptrap_rs.Pdu.Codec) (codec3 : snmptrap_rs.V3.Codec)
    (tame : IsTame w c codec codec3) where
  -- No payload panics, if what version 3 needs is there.
  pub build_payload-Calm :
      (cli : Cli) (dst : Ipv4Addr) (port : ℕ)
      → (is_v3 cli.version ≡ true → Ready cli)
      → Calm (build_payload w c codec codec3 cli dst port)
  unfolding build_payload
  build_payload-Calm cli dst port ready = by_version cli.version ready
    where
      by_version :
          (v : SnmpVersion)
          → (is_v3 v ≡ true → Ready cli)
          → Calm (payload_of w c v codec codec3 cli dst port)
      by_version v1 r = build_v1_payload-Calm w tame.sound c codec tame.encodes cli dst port
      by_version v2c r = build_v2c_payload-Calm w tame.sound c codec tame.encodes cli
      by_version v3 r =
          build_v3_payload-Calm c tame.law codec3 tame.encodes3 w cli tame.sound (r refl)
