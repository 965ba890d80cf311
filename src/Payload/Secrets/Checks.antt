-- ===== src/Payload/Secrets/Checks.antt =====
-- The refusals of the checks of src/cli.rs, for other passwords.
use snmptrap_rs.Prelude.{◌≡◌, refl, Bool, true, false, Option, ok, ◌>>◌, if◌then◌else◌}
use snmptrap_rs.Text.{Str}
use snmptrap_rs.Errors.{flag_A, flag_X}
use snmptrap_rs.Cli.Types.{SecurityLevel, no_auth_no_priv, auth_no_priv, auth_priv}
use snmptrap_rs.Cli.Args.{
  Cli, is_v3, level_required, validate_v3_required, validate_v3_flag_scope, with_level,
  level_or_default, validate_common, validate_v3, validate,
}
use snmptrap_rs.Payload.Secrets.{
  Alike, SameRefusal, SameRefusal-refl, SameRefusal->>=, require_password-Alike, is_some-Alike,
  with_passwords,
}

module _ (is_ipv6 : Str → Bool) (cli : Cli) (pw pw' q q' : Option Str) (alike : Alike pw pw')
    (alike_q : Alike q q') where
  scope_same :
      validate_v3_flag_scope (with_passwords cli pw q)
      ≡ validate_v3_flag_scope (with_passwords cli pw' q')
  scope_same = rw (is_some-Alike pw pw' alike, is_some-Alike q q' alike_q) refl

  level_same :
      (level : SecurityLevel)
      → level_required (with_level (with_passwords cli pw q)) level
        ≡ level_required (with_level (with_passwords cli pw' q')) level
  level_same no_auth_no_priv = refl
  level_same auth_no_priv = rw (require_password-Alike pw pw' flag_A auth_no_priv alike) refl
  level_same auth_priv =
      rw
        (
          require_password-Alike pw pw' flag_A auth_priv alike,
          require_password-Alike q q' flag_X auth_priv alike_q,
        )
        refl

  required_same :
      validate_v3_required (with_level (with_passwords cli pw q))
      ≡ validate_v3_required (with_level (with_passwords cli pw' q'))
  required_same = rw (level_same (level_or_default cli.security_level)) refl

  v3_same :
      SameRefusal
        (validate_v3 is_ipv6 (with_passwords cli pw q))
        (validate_v3 is_ipv6 (with_passwords cli pw' q'))
  unfolding validate_v3
  v3_same = go (is_v3 cli.version)
    where
      go :
          (b : Bool)
          → SameRefusal
              (if b
                then (validate_v3_required (with_level (with_passwords cli pw q))
                    >> ok (with_level (with_passwords cli pw q)))
                else ok (with_passwords cli pw q))
              (if b
                then (validate_v3_required (with_level (with_passwords cli pw' q'))
                    >> ok (with_level (with_passwords cli pw' q')))
                else ok (with_passwords cli pw' q'))
      go true = rw required_same (
          SameRefusal->>= _ _ _ _
            (SameRefusal-refl (validate_v3_required (with_level (with_passwords cli pw' q'))))
            (λ a b. tt))
      go false = tt

  common_same :
      SameRefusal
        (validate_common is_ipv6 (with_passwords cli pw q))
        (validate_common is_ipv6 (with_passwords cli pw' q'))
  unfolding validate_common
  common_same = SameRefusal-refl (validate_common is_ipv6 (with_passwords cli pw q))

  pub validate-SameRefusal :
      SameRefusal
        (validate is_ipv6 (with_passwords cli pw q))
        (validate is_ipv6 (with_passwords cli pw' q'))
  unfolding validate
  validate-SameRefusal = rw scope_same (
      SameRefusal->>= (validate_common is_ipv6 (with_passwords cli pw q))
        (validate_common is_ipv6 (with_passwords cli pw' q')) _ _ common_same
        λ a b.
          SameRefusal->>= (validate_v3_flag_scope (with_passwords cli pw' q'))
            (validate_v3_flag_scope (with_passwords cli pw' q')) _ _ (SameRefusal-refl _)
            λ a b. v3_same)
