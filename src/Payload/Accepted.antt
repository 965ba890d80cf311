-- ===== src/Payload/Accepted.antt =====
-- A trap of version 3 from the command line of src/lib.rs, and the receiver who knows the password.
use snmptrap_rs.Prelude.{
  ℕ, ◌≡◌, sym, ap, subst, Option, none, some, Outcome, ok, ◌>>=◌, >>=-eq-ok, expect, Bytes,
}
use snmptrap_rs.Text.{Str, as_bytes}
use snmptrap_rs.Errors.{Error, v3_arguments}
use snmptrap_rs.Engine.Id.{EngineId}
use snmptrap_rs.Engine.Resolve.{resolve}
use snmptrap_rs.Usm.Types.{AuthProtocol}
use snmptrap_rs.Usm.Crypto.{Crypto}
use snmptrap_rs.Usm.Keys.{password_to_key, priv_key_from_password}
use snmptrap_rs.Cli.Types.{SecurityLevel, no_auth_no_priv, auth_no_priv, auth_priv}
use snmptrap_rs.Cli.Args.{Cli, src_addr_v4}
use snmptrap_rs.V3.{V3Security, auth_only, auth_and_priv, auth, Codec}
use snmptrap_rs.V3.Receiver.{Sender, Decoder, IsInverse, IsAccepted}
use snmptrap_rs.V3.Accepted.{build_v3_trap_message-IsAccepted}
use snmptrap_rs.Payload.Security.{priv_proto, build_v3_security}
use snmptrap_rs.Payload.Build.{
  World, read_v2, user_id, context_id, process_uptime_seconds, build_v3_payload,
}

-- A level that signs.
abbrev pub Signs : SecurityLevel → Type 0
Signs no_auth_no_priv = ⊥
Signs auth_no_priv = Unit
Signs auth_priv = Unit

module _ (c : Crypto) (salt : ℕ) (cli : Cli) (a : AuthProtocol) (pw : Str)
    (ha : cli.auth_protocol ≡ some a) (hp : cli.auth_password ≡ some pw) where
  abbrev with_privacy : EngineId → Bytes → Outcome Error V3Security
  with_privacy eid key = do
    p ← priv_proto cli
    q ← expect cli.priv_password
    k ← priv_key_from_password c q eid a p
    ok (auth_and_priv a key p k salt)

  build_v3_security-auth :
      (eid : EngineId) (level : SecurityLevel) (s : V3Security)
      → Signs level
      → build_v3_security c salt cli level eid ≡ ok s
      → (key : Bytes) × (password_to_key c pw eid a ≡ ok key) × (auth s ≡ some (a, key))
  unfolding build_v3_security
  build_v3_security-auth eid no_auth_no_priv s v h = absurd v
  build_v3_security-auth eid auth_no_priv s v h =
      let h' : (password_to_key c pw eid a >>= λ key. ok (auth_only a key)) ≡ ok s =
        rw (ha, hp) at h in
      let (key, hk, e) = >>=-eq-ok (password_to_key c pw eid a) _ h' in
      let e' : ◌≡◌ {A = Outcome Error V3Security} (ok (auth_only a key)) (ok s) = e in
      let same : s ≡ auth_only a key = cc in (key, hk, ap auth same)
  build_v3_security-auth eid auth_priv s v h =
      let h' : (password_to_key c pw eid a >>= λ key. with_privacy eid key) ≡ ok s =
        rw (ha, hp) at h in
      let (key, hk, h1) = >>=-eq-ok (password_to_key c pw eid a) _ h' in
      let (p, e1, h2) = >>=-eq-ok (priv_proto cli) _ h1 in
      let (q, e2, h3) = >>=-eq-ok {E = Error} (expect cli.priv_password) _ h2 in
      let (k, e3, e) = >>=-eq-ok (priv_key_from_password c q eid a p) _ h3 in
      let e' : ◌≡◌ {A = Outcome Error V3Security} (ok (auth_and_priv a key p k salt)) (ok s) = e in
      let same : s ≡ auth_and_priv a key p k salt = cc in (key, hk, ap auth same)

pub user_found :
    (o : Option Str) {name : Str} → ◌≡◌ {A = Outcome Error Str} (expect o) (ok name) → o ≡ some name
user_found none e = cc
user_found (some s) e = cc

-- The sender of a trap from a command line: the engine, the user, one boot for each run of the
-- program, and the time since it began.
abbrev pub sender_at : World → EngineId → Str → Sender
sender_at w eid name = record {
  engine = eid.bytes;
  user = as_bytes name;
  boots = 1;
  time = process_uptime_seconds w;
}

pub level_found :
    (o : Option SecurityLevel) {level l : SecurityLevel}
    → o ≡ some level
    → ◌≡◌ {A = Outcome Error SecurityLevel} (expect o) (ok l)
    → l ≡ level
level_found none h e = cc
level_found (some k) h e = cc

module _ (c : Crypto) (cli : Cli) (a : AuthProtocol) (pw : Str) (ha : cli.auth_protocol ≡ some a)
    (hp : cli.auth_password ≡ some pw) where
  -- A trap of version 3 at a level with authentication, on a command line that gives the protocol and
  -- the password, is accepted by a receiver that knows the password: the key is the one that the
  -- password gives for the engine that sends, which is the one that the user names, or else the one
  -- that is made of the host. The message names that engine and the user of the command line. The
  -- decoder decodes what the encoder encodes.
  pub build_v3_payload-IsAccepted :
      (w : World) (codec : Codec) (dec : Decoder) (level : SecurityLevel) (wire : Bytes)
      → IsInverse codec dec
      → cli.security_level ≡ some level
      → Signs level
      → build_v3_payload w c codec cli ≡ ok wire
      → (user : Option EngineId) × (key : Bytes) × (name : Str) × (user_id
            cli.authoritative_engine_id
          ≡ ok user)
        × (cli.user_name ≡ some name)
        × (password_to_key c pw (resolve user (src_addr_v4 cli) w.mac w.hostname) a ≡ ok key)
        × IsAccepted c codec dec
            (sender_at w (resolve user (src_addr_v4 cli) w.mac w.hostname) name)
            a
            key
            wire
  unfolding build_v3_payload
  build_v3_payload-IsAccepted w codec dec level wire inverse hl signs h =
      let (p, e0, h0) = >>=-eq-ok (read_v2 w v3_arguments cli.trap_args) _ h in
      let (user, e1, h1) = >>=-eq-ok (user_id cli.authoritative_engine_id) _ h0 in
      let eid = resolve user (src_addr_v4 cli) w.mac w.hostname in
      let (context, e2, h2) = >>=-eq-ok (context_id cli.context_engine_id eid) _ h1 in
      let (l, e3, h3) = >>=-eq-ok {E = Error} (expect cli.security_level) _ h2 in
      let (s, e4, h4) = >>=-eq-ok (build_v3_security c w.fresh_salt cli l eid) _ h3 in
      let (name, e5, h5) = >>=-eq-ok {E = Error} (expect cli.user_name) _ h4 in
      let signing = subst Signs (sym (level_found cli.security_level hl e3)) signs in
      let (key, hk, signed) =
        build_v3_security-auth c w.fresh_salt cli a pw ha hp eid l s signing e4 in
      (
        user,
        key,
        name,
        e1,
        user_found cli.user_name e5,
        hk,
        build_v3_trap_message-IsAccepted c codec dec _ a key wire inverse signed h5,
      )
