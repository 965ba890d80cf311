-- ===== src/Payload/Laws.antt =====
-- What src/lib.rs makes of a validated command line, and which bindings it refuses.
use snmptrap_rs.Prelude.{ℕ, ◌≤◌, ◌<◌, ◌≡◌, refl, ◌⊎◌, inl, inr, Option, none, some, arith, ok, err}
use snmptrap_rs.Text.{Str, str_len}
use snmptrap_rs.Errors.{usage, key_too_short}
use snmptrap_rs.Engine.Id.{EngineId}
use snmptrap_rs.Usm.Types.{AuthProtocol, PrivProtocol, digest_len, key_len}
use snmptrap_rs.Usm.Crypto.{Crypto, IsLawful}
use snmptrap_rs.Usm.Keys.{min_usm_password_len}
use snmptrap_rs.Usm.Keys.Laws.{password_to_key_ok, priv_key_from_password-cases}
use snmptrap_rs.Cli.Types.{SecurityLevel, no_auth_no_priv, auth_no_priv, auth_priv}
use snmptrap_rs.Cli.Args.{Cli}
use snmptrap_rs.Cli.Laws.{HasPassword, LevelReady}
use snmptrap_rs.V3.{V3Security, no_auth, auth_only, auth_and_priv, flag_byte}
use snmptrap_rs.V3.Receiver.{FitKeys}
use snmptrap_rs.Payload.Security.{build_v3_security}

-- Whether a message is signed and encrypted as the level says.
unfoldable pub IsOfLevel : SecurityLevel → V3Security → Type 0
IsOfLevel no_auth_no_priv s = flag_byte s ≡ 0
IsOfLevel auth_no_priv s = flag_byte s ≡ 1
IsOfLevel auth_priv s = flag_byte s ≡ 3

password_of :
    (o : Option Str) → HasPassword o → (s : Str) × (o ≡ some s) × (min_usm_password_len ≤ str_len s)
unfolding HasPassword
password_of none h = absurd h
password_of (some s) h = (s, refl, h)

module _ (c : Crypto) (law : IsLawful c) (salt : ℕ) (cli : Cli) (eid : EngineId) where
  abbrev pub SecurityCases : SecurityLevel → Type 0
  SecurityCases level =
      ((s : V3Security) × (build_v3_security c salt cli level eid ≡ ok s)
        × FitKeys s
        × IsOfLevel level s)
      ⊎ ((a : AuthProtocol) × (p : PrivProtocol) × (cli.auth_protocol ≡ some a)
          × (cli.priv_protocol ≡ some p)
          × (digest_len a < key_len p)
          × (build_v3_security c salt cli level eid
              ≡ err (usage (key_too_short a p (digest_len a) (key_len p)))))

  -- With what the level needs, the security of the level is built, its keys of the lengths that the
  -- protocols want; or it is refused, and then because the digest of the one protocol is shorter than
  -- the key of the other. No `expect` fails and no other error is returned.
  pub build_v3_security-cases : (level : SecurityLevel) → LevelReady cli level → SecurityCases level
  unfolding build_v3_security LevelReady FitKeys IsOfLevel
  build_v3_security-cases no_auth_no_priv h = inl (no_auth, refl, tt, refl)
  build_v3_security-cases auth_no_priv ((a, ha), pw) =
      let (s, hs, long) = password_of cli.auth_password pw in
      let (key, e, l) = password_to_key_ok c law s eid a long in
      inl (auth_only a key, rw (ha, hs, e), l, refl)
  build_v3_security-cases auth_priv ((a, ha), pw, (p, hp), qw) =
      let (s, hs, long) = password_of cli.auth_password pw in
      let (t, ht, longer) = password_of cli.priv_password qw in
      let (key, e, l) = password_to_key_ok c law s eid a long in
      elim (priv_key_from_password-cases c law t eid a p) [
        | inl (short, f) ↦ absurd (omega arith)
        | inr (inl (long', less, f)) ↦ inr (a, p, ha, hp, less, rw (ha, hs, e, hp, ht, f))
        | inr (inr (long', fits, (k, f, m))) ↦
            inl
              (auth_and_priv a key p k salt, rw (ha, hs, e, hp, ht, f), (l, omega (arith, m)), refl)
      ]
