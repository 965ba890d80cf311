-- ===== src/Payload/Secrets/Keys.antt =====
-- The refusals of the key derivation of src/lib.rs, for other passwords.
use snmptrap_rs.Prelude.{
  ℕ, ◌≤◌, ◌<◌, ◌≡◌, refl, ap, ◌⊎◌, inl, inr, arith, Bool, true, false, Option, none, some, Outcome,
  ok, panic, Bytes, expect, ◌>>=◌, reject_if, leb, ok_or, ltb, if◌then◌else◌,
}
use snmptrap_rs.Text.{Str, str_len}
use snmptrap_rs.Errors.{Error, usage, password_floor, internal_auth, internal_priv}
use snmptrap_rs.Engine.Id.{EngineId}
use snmptrap_rs.Usm.Types.{AuthProtocol, PrivProtocol, digest_len, key_len}
use snmptrap_rs.Usm.Crypto.{Crypto, IsLawful}
use snmptrap_rs.Usm.Keys.{password_to_key, priv_key_from_password, min_usm_password_len}
use snmptrap_rs.Usm.Keys.Laws.{password_to_key_short, password_to_key_ok}
use snmptrap_rs.Cli.Types.{SecurityLevel, no_auth_no_priv, auth_no_priv, auth_priv}
use snmptrap_rs.Cli.Args.{Cli}
use snmptrap_rs.V3.{auth_only, auth_and_priv}
use snmptrap_rs.Payload.Security.{build_v3_security}
use snmptrap_rs.Payload.Secrets.{Alike, SameRefusal, SameRefusal->>=, with_passwords}

floor_cases : (n : ℕ) → (n < min_usm_password_len) ⊎ (min_usm_password_len ≤ n)
floor_cases n = omega arith

expect_same :
    {B : Type 0} (pw pw' : Option Str) (f g : Str → Outcome Error B)
    → Alike pw pw'
    → ((s t : Str) → str_len s ≡ str_len t → SameRefusal (f s) (g t))
    → SameRefusal (expect pw >>= f) (expect pw' >>= g)
expect_same none none f g h next = tt
expect_same none (some t) f g h next = absurd h
expect_same (some s) none f g h next = absurd h
expect_same (some s) (some t) f g h next = next s t h

module _ (c : Crypto) (law : IsLawful c) (eid : EngineId) where
  password_to_key_same :
      (s t : Str) (a : AuthProtocol)
      → str_len s ≡ str_len t
      → SameRefusal (password_to_key c s eid a) (password_to_key c t eid a)
  password_to_key_same s t a h = elim (floor_cases (str_len s)) [
    | inl short ↦
        let short' : str_len t < min_usm_password_len = omega arith in
        rw (password_to_key_short c law s eid a short, password_to_key_short c law t eid a short')
          (ap (λ (n : ℕ). usage (password_floor n)) h)
    | inr enough ↦
        let enough' : min_usm_password_len ≤ str_len t = omega arith in
        let (k, e, l) = password_to_key_ok c law s eid a enough in
        let (k', e', l') = password_to_key_ok c law t eid a enough' in rw (e, e') tt
  ]

  priv_key_same :
      (s t : Str) (a : AuthProtocol) (p : PrivProtocol)
      → str_len s ≡ str_len t
      → SameRefusal (priv_key_from_password c s eid a p) (priv_key_from_password c t eid a p)
  unfolding priv_key_from_password
  priv_key_same s t a p h = elim (floor_cases (str_len s)) [
    | inl short ↦
        let short' : str_len t < min_usm_password_len = omega arith in
        rw (password_to_key_short c law s eid a short, password_to_key_short c law t eid a short')
          (ap (λ (n : ℕ). usage (password_floor n)) h)
    | inr enough ↦
        let enough' : min_usm_password_len ≤ str_len t = omega arith in
        let (k, e, l) = password_to_key_ok c law s eid a enough in
        let (k', e', l') = password_to_key_ok c law t eid a enough' in
        rw (e, e', l, l')
          (cut (ltb (digest_len a) (key_len p)) (leb (key_len p) (digest_len a)) _ _ _)
  ]
    where
      cut :
          (less fits : Bool) (x : Error) (b b' : Bytes)
          → SameRefusal
              (reject_if less x >>= λ done. if fits then ok b else panic)
              (reject_if less x >>= λ done. if fits then ok b' else panic)
      cut true fits x b b' = refl
      cut false true x b b' = tt
      cut false false x b b' = tt

  module _ (salt : ℕ) (cli : Cli) (pw pw' q q' : Option Str) (alike : Alike pw pw')
      (alike_q : Alike q q') where
    abbrev auth_key : Option Str → AuthProtocol → Outcome Error Bytes
    auth_key o a = expect o >>= λ s. password_to_key c s eid a

    auth_key_same : (a : AuthProtocol) → SameRefusal (auth_key pw a) (auth_key pw' a)
    auth_key_same a = expect_same pw pw' _ _ alike λ s t h. password_to_key_same s t a h

    pub build_v3_security-SameRefusal :
        (level : SecurityLevel)
        → SameRefusal
            (build_v3_security c salt (with_passwords cli pw q) level eid)
            (build_v3_security c salt (with_passwords cli pw' q') level eid)
    unfolding build_v3_security
    build_v3_security-SameRefusal no_auth_no_priv = tt
    build_v3_security-SameRefusal auth_no_priv = go cli.auth_protocol
      where
        go :
            (o : Option AuthProtocol)
            → SameRefusal
                (do a ← ok_or o (usage internal_auth); k ← auth_key pw a; ok (auth_only a k))
                (do a ← ok_or o (usage internal_auth); k ← auth_key pw' a; ok (auth_only a k))
        go none = refl
        go (some a) = SameRefusal->>= _ _ _ _ (auth_key_same a) (λ x y. tt)
    build_v3_security-SameRefusal auth_priv = go cli.auth_protocol cli.priv_protocol
      where
        go :
            (o : Option AuthProtocol) (u : Option PrivProtocol)
            → SameRefusal
                (do
                  a ← ok_or o (usage internal_auth)
                  key ← auth_key pw a
                  p ← ok_or u (usage internal_priv)
                  s ← expect q
                  k ← priv_key_from_password c s eid a p
                  ok (auth_and_priv a key p k salt))
                (do
                  a ← ok_or o (usage internal_auth)
                  key ← auth_key pw' a
                  p ← ok_or u (usage internal_priv)
                  s ← expect q'
                  k ← priv_key_from_password c s eid a p
                  ok (auth_and_priv a key p k salt))
        go none u = refl
        go (some a) none = SameRefusal->>= _ _ _ _ (auth_key_same a) (λ x y. refl)
        go (some a) (some p) = SameRefusal->>= _ _ _ _ (auth_key_same a) λ x y.
            expect_same q q' _ _ alike_q
              λ s t h. SameRefusal->>= _ _ _ _ (priv_key_same s t a p h) (λ k k'. tt)
