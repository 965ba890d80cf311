-- ===== src/Cli/Total.antt =====
-- Panics in the checks of src/cli.rs after the parse, and in the reading of the agent.
use snmptrap_rs.Prelude.{
  ℕ, Bool, List, [], ◌∷◌, Option, none, some, Outcome, not, ◌&&◌, ◌==◌, is_empty,
}
use snmptrap_rs.Prelude.Calm.{
  Calm, calm_rules, Calm-ok, Calm-err, Calm-if, Calm->>=, Calm-map_err, Calm-reject_if, Calm-ok_or,
}
use snmptrap_rs.Text.{Str}
use snmptrap_rs.Errors.{usage, IoError, Flag, empty_community, zero_timeout, zero_src_port}
use snmptrap_rs.Varbind.Total.{parse_uint-Calm}
use snmptrap_rs.Cli.Types.{SnmpVersion, SecurityLevel, no_auth_no_priv, auth_no_priv, auth_priv}
use snmptrap_rs.Cli.Args.{
  Cli, is_v3, is_zero_port, require_some, require_password, refuse_flags, v3_flags, level_required,
  level_or_default, validate_v3_required, with_level, check_src_addr, validate_common, validate_v3,
  validate,
}
use snmptrap_rs.Cli.Agent.{
  SocketAddr, rsplit_once, host_port, resolve_stripped, resolve_agent_string,
}

require_some-Calm :
    {A : Type 0} (o : Option A) (flag : Flag) (level : SecurityLevel)
    → Calm (require_some o flag level)
require_some-Calm none flag level = Calm-err _
require_some-Calm (some a) flag level = Calm-ok tt

require_password-Calm :
    (o : Option Str) (flag : Flag) (level : SecurityLevel) → Calm (require_password o flag level)
require_password-Calm none flag level = Calm-err _
require_password-Calm (some s) flag level = search calm_rules

level_required-Calm : (cli : Cli) (level : SecurityLevel) → Calm (level_required cli level)
level_required-Calm cli no_auth_no_priv = Calm-ok tt
level_required-Calm cli auth_no_priv =
    Calm->>= _ _ (require_some-Calm cli.auth_protocol _ _)
      λ a. require_password-Calm cli.auth_password _ _
level_required-Calm cli auth_priv = Calm->>= _ _ (require_some-Calm cli.auth_protocol _ _) λ a.
    Calm->>= _ _ (require_password-Calm cli.auth_password _ _) λ b.
      Calm->>= _ _ (require_some-Calm cli.priv_protocol _ _)
        λ c. require_password-Calm cli.priv_password _ _

-- The `expect` finds a level, since the default was set before.
validate_v3_required-Calm : (cli : Cli) → Calm (validate_v3_required (with_level cli))
validate_v3_required-Calm cli =
    Calm->>= _ _ (Calm-reject_if _ _)
      λ named. level_required-Calm (with_level cli) (level_or_default cli.security_level)

refuse_flags-Calm : (v : SnmpVersion) (flags : List (Flag × Bool)) → Calm (refuse_flags v flags)
refuse_flags-Calm v [] = Calm-ok tt
refuse_flags-Calm v ((flag, present) ∷ rest) =
    Calm-if present _ _ (Calm-err _) (refuse_flags-Calm v rest)

module _ (is_ipv6 : Str → Bool) where
  check_src_addr-Calm : (o : Option Str) → Calm (check_src_addr is_ipv6 o)
  check_src_addr-Calm none = Calm-ok tt
  check_src_addr-Calm (some s) = search calm_rules

  validate_common-Calm : (cli : Cli) → Calm (validate_common is_ipv6 cli)
  unfolding validate_common
  validate_common-Calm cli =
      let empty =
        Calm-reject_if (not (is_v3 cli.version) && is_empty cli.community)
          (usage empty_community) in
      let untimely = Calm-reject_if (cli.timeout == 0) (usage zero_timeout) in
      let unbound = Calm-reject_if (is_zero_port cli.src_port) (usage zero_src_port) in
      Calm->>= _ _ empty
        λ a. Calm->>= _ _ untimely λ b. Calm->>= _ _ unbound λ c. check_src_addr-Calm cli.src_addr

  validate_v3-Calm : (cli : Cli) → Calm (validate_v3 is_ipv6 cli)
  unfolding validate_v3
  validate_v3-Calm cli =
      Calm-if (is_v3 cli.version) _ _
        (Calm->>= _ _ (validate_v3_required-Calm cli) λ done. Calm-ok _) (Calm-ok cli)

  -- The checks never panic, whatever the parser made of the command line.
  pub validate-Calm : (cli : Cli) → Calm (validate is_ipv6 cli)
  unfolding validate
  validate-Calm cli = Calm->>= _ _ (validate_common-Calm cli) λ a.
      Calm->>= _ _
        (Calm-if (is_v3 cli.version) _ _ (Calm-ok tt)
          (refuse_flags-Calm cli.version (v3_flags cli)))
        λ b. validate_v3-Calm cli

host_port-Calm : (agent stripped : Str) (o : Option (Str × Str)) → Calm (host_port agent stripped o)
host_port-Calm agent stripped none = Calm-ok _
host_port-Calm agent stripped (some (h, p)) = search (calm_rules, parse_uint-Calm)

module _ (resolver : Str → ℕ → Outcome IoError (List SocketAddr))
    (calm : (host : Str) (port : ℕ) → Calm (resolver host port)) where
  resolve_stripped-Calm : (agent stripped : Str) → Calm (resolve_stripped resolver agent stripped)
  unfolding resolve_stripped
  resolve_stripped-Calm agent stripped = Calm->>= _ _ (Calm-reject_if _ _) λ accepted.
      Calm->>= _ _ (host_port-Calm agent stripped (rsplit_once b':' stripped))
        λ target. Calm->>= _ _ (Calm-map_err _ _ (calm target.0 target.1)) λ addrs. Calm-ok_or _ _

  -- The agent's address does not panic, if the resolver does not.
  pub resolve_agent_string-Calm : (agent : Str) → Calm (resolve_agent_string resolver agent)
  unfolding resolve_agent_string
  resolve_agent_string-Calm agent = resolve_stripped-Calm agent _
