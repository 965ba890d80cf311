-- ===== src/Payload/Decrypted.antt =====
-- A trap of version 3 from the command line of src/lib.rs, and the receiver who decrypts it.
use snmptrap_rs.Prelude.{
  ℕ, ◌≤◌, ◌≡◌, ◌∙◌, ap, subst, inl, inr, arith, List, Option, some, Outcome, ok, ◌>>=◌, >>=-eq-ok,
  expect, Bytes, length, [],
}
use snmptrap_rs.Text.{Str}
use snmptrap_rs.Text.Number.{max_u32}
use snmptrap_rs.Errors.{Error, v3_arguments}
use snmptrap_rs.Engine.Id.{EngineId}
use snmptrap_rs.Engine.Resolve.{resolve}
use snmptrap_rs.Varbind.Oid.Laws.{IsOid}
use snmptrap_rs.Usm.Types.{AuthProtocol, PrivProtocol, key_len}
use snmptrap_rs.Usm.Crypto.{Crypto, IsLawful}
use snmptrap_rs.Usm.Keys.{password_to_key, priv_key_from_password}
use snmptrap_rs.Usm.Keys.Laws.{priv_key_from_password-cases}
use snmptrap_rs.Cli.Types.{auth_priv}
use snmptrap_rs.Cli.Args.{Cli, src_addr_v4}
use snmptrap_rs.Pdu.{VarBinds}
use snmptrap_rs.Pdu.Laws.{carried}
use snmptrap_rs.V3.{V3Security, auth_and_priv, ScopedPdu, Codec}
use snmptrap_rs.V3.Receiver.{Decoder, IsInverse, IsDecrypted, scoped}
use snmptrap_rs.V3.Decrypted.{build_v3_trap_message-IsDecrypted}
use snmptrap_rs.Payload.Accepted.{level_found}
use snmptrap_rs.Payload.Security.{build_v3_security}
use snmptrap_rs.Payload.Reserved.{Unreserved}
use snmptrap_rs.Payload.Written.{trap_args_of, AreWritable, read_v2-trap_args_of}
use snmptrap_rs.Payload.Build.{World, read_v2, user_id, context_id, context_bytes, build_v3_payload}

-- The scoped PDU of a trap that was written out: for the context of the command line, with the
-- uptime, the trap's name and the bindings.
abbrev pub written_pdu : World → Codec → Cli → EngineId → ℕ → List ℕ → VarBinds → ScopedPdu
written_pdu w codec cli context uptime trap_oid vs = record {
  engine_id = context.bytes;
  name = context_bytes cli.context_name;
  trap_pdu = record {
    request_id = w.fresh_request_id;
    error_status = codec.no_error;
    error_index = 0;
    variable_bindings = carried (record {
      community = [];
      request_id = w.fresh_request_id;
      uptime_centiseconds = uptime;
      trap_oid = trap_oid;
      varbinds = vs;
    });
  };
}

priv_key_fits :
    (c : Crypto) (q : Str) (eid : EngineId) (a : AuthProtocol) (p : PrivProtocol) (key : Bytes)
    → IsLawful c
    → priv_key_from_password c q eid a p ≡ ok key
    → key_len p ≤ length key
priv_key_fits c q eid a p key law h = elim (priv_key_from_password-cases c law q eid a p) [
  | inl (short, e) ↦ cc
  | inr (inl (enough, less, e)) ↦ cc
  | inr (inr (enough, fits, (k, e, l))) ↦
      let same : k ≡ key = cc in
      let l' : length key ≡ key_len p = subst (λ (b : Bytes). length b ≡ key_len p) same l in
      omega arith
]

module _ (c : Crypto) (cli : Cli) (a : AuthProtocol) (pw : Str) (p : PrivProtocol) (q : Str)
    (ha : cli.auth_protocol ≡ some a) (hpw : cli.auth_password ≡ some pw)
    (hp : cli.priv_protocol ≡ some p) (hq : cli.priv_password ≡ some q) where
  build_v3_security-priv :
      (salt : ℕ) (eid : EngineId) (s : V3Security)
      → build_v3_security c salt cli auth_priv eid ≡ ok s
      → (key k : Bytes) × (priv_key_from_password c q eid a p ≡ ok k)
        × (s ≡ auth_and_priv a key p k salt)
  unfolding build_v3_security
  build_v3_security-priv salt eid s h =
      let h' : (do
        key ← password_to_key c pw eid a
        k ← priv_key_from_password c q eid a p
        ok (auth_and_priv a key p k salt))
          ≡ ok s =
        rw (ha, hpw, hp, hq) at h in
      let (key, hk, h1) = >>=-eq-ok (password_to_key c pw eid a) _ h' in
      let (k, e3, e) = >>=-eq-ok (priv_key_from_password c q eid a p) _ h1 in
      let e' : ◌≡◌ {A = Outcome Error V3Security} (ok (auth_and_priv a key p k salt)) (ok s) = e in
      (key, k, e3, cc)

  build_v3_payload-read :
      (w : World) (codec : Codec) (dec : Decoder) (wire : Bytes) (uptime : ℕ) (trap_oid : List ℕ)
      (vs : VarBinds)
      → IsLawful c
      → IsInverse codec dec
      → cli.security_level ≡ some auth_priv
      → read_v2 w v3_arguments cli.trap_args ≡ ok (uptime, trap_oid, vs)
      → build_v3_payload w c codec cli ≡ ok wire
      → (user : Option EngineId) × (context : EngineId) × (key plaintext : Bytes) × (user_id
            cli.authoritative_engine_id
          ≡ ok user)
        × (context_id cli.context_engine_id (resolve user (src_addr_v4 cli) w.mac w.hostname)
            ≡ ok context)
        × (priv_key_from_password c q (resolve user (src_addr_v4 cli) w.mac w.hostname) a p
            ≡ ok key)
        × (codec.encode_scoped (written_pdu w codec cli context uptime trap_oid vs) ≡ ok plaintext)
        × IsDecrypted c dec p key wire plaintext
  unfolding build_v3_payload scoped
  build_v3_payload-read w codec dec wire uptime trap_oid vs law inverse hl hr h =
      let (t, e0, h0) = >>=-eq-ok (read_v2 w v3_arguments cli.trap_args) _ h in
      let (user, e1, h1) = >>=-eq-ok (user_id cli.authoritative_engine_id) _ h0 in
      let eid = resolve user (src_addr_v4 cli) w.mac w.hostname in
      let (context, e2, h2) = >>=-eq-ok (context_id cli.context_engine_id eid) _ h1 in
      let (l, e3, h3) = >>=-eq-ok {E = Error} (expect cli.security_level) _ h2 in
      let (s, e4, h4) = >>=-eq-ok (build_v3_security c w.fresh_salt cli l eid) _ h3 in
      let (name, e5, h5) = >>=-eq-ok {E = Error} (expect cli.user_name) _ h4 in
      let e4' : build_v3_security c w.fresh_salt cli auth_priv eid ≡ ok s =
        subst (λ k. build_v3_security c w.fresh_salt cli k eid ≡ ok s)
          (level_found cli.security_level hl e3) e4 in
      let (key, k, hk, hs) = build_v3_security-priv w.fresh_salt eid s e4' in
      let (plaintext, encoded_text, decrypted) =
        build_v3_trap_message-IsDecrypted c codec dec _ a key p k w.fresh_salt wire law inverse hs
          (priv_key_fits c q eid a p k law hk) h5 in
      let same : ◌≡◌ {A = ℕ × List ℕ × VarBinds} t (uptime, trap_oid, vs) = cc in
      let written : codec.encode_scoped (written_pdu w codec cli context uptime trap_oid vs)
          ≡ ok plaintext =
        subst
          (λ (x : ℕ × List ℕ × VarBinds).
            codec.encode_scoped (written_pdu w codec cli context x.0 x.1 x.2) ≡ ok plaintext)
          same encoded_text in
      (user, context, k, plaintext, e1, e2, hk, written, decrypted)

  -- Arguments that write out an uptime, a trap's name and bindings give, at the level with privacy, a
  -- message from which a receiver that knows the privacy password decrypts the encoding of exactly
  -- the scoped PDU with these: sysUpTime.0, snmpTrapOID.0 and the bindings in their order, for the
  -- context that the command line names. The key is the one that the password gives for the engine
  -- that sends. The names are valid and none is one of the two that are put in front; the numbers are
  -- in the range of their types, the decoder decodes what the encoder encodes, and the cryptography
  -- is lawful.
  pub build_v3_payload-IsDecrypted :
      (w : World) (codec : Codec) (dec : Decoder) (wire : Bytes) (uptime : ℕ) (trap_oid : List ℕ)
      (vs : VarBinds)
      → IsLawful c
      → IsInverse codec dec
      → cli.security_level ≡ some auth_priv
      → cli.trap_args ≡ trap_args_of uptime trap_oid vs
      → uptime ≤ max_u32
      → IsOid trap_oid
      → AreWritable vs
      → Unreserved vs
      → build_v3_payload w c codec cli ≡ ok wire
      → (user : Option EngineId) × (context : EngineId) × (key plaintext : Bytes) × (user_id
            cli.authoritative_engine_id
          ≡ ok user)
        × (context_id cli.context_engine_id (resolve user (src_addr_v4 cli) w.mac w.hostname)
            ≡ ok context)
        × (priv_key_from_password c q (resolve user (src_addr_v4 cli) w.mac w.hostname) a p
            ≡ ok key)
        × (codec.encode_scoped (written_pdu w codec cli context uptime trap_oid vs) ≡ ok plaintext)
        × IsDecrypted c dec p key wire plaintext
  build_v3_payload-IsDecrypted w codec dec wire uptime trap_oid vs law inverse hl e hu ho hv free
        h =
      build_v3_payload-read w codec dec wire uptime trap_oid vs law inverse hl
        (ap (read_v2 w v3_arguments) e
          ∙ read_v2-trap_args_of w v3_arguments uptime trap_oid vs hu ho hv free)
        h
