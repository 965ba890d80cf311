-- ===== src/Cli/Args.antt =====
-- The arguments of src/cli.rs, and the checks after the parse. Whether a text is an IPv6 address,
-- and the resolver, are parameters; the parse itself is that of the argument library.
use snmptrap_rs.Prelude.{
  ℕ, Bool, true, false, ◌&&◌, not, List, [], ◌∷◌, map, Option, none, some, Outcome, ok, err, ◌>>=◌,
  ◌>>◌, reject_if, expect, ltb, ◌==◌, if◌then◌else◌, is_empty, is_some,
}
use snmptrap_rs.Text.{Str, codes, str_len, str_eq, ascii_lower}
use snmptrap_rs.Text.Net.{Ipv4Addr, parse_ipv4}
use snmptrap_rs.Errors.{
  Error, usage, unsupported_version, unknown_level, empty_community, zero_timeout, zero_src_port,
  src_addr_ipv6, src_addr_invalid, v3_flag, user_required, required, empty_password, short_password,
  Flag, flag_l, flag_u, flag_a, flag_A, flag_x, flag_X, flag_e, flag_E, flag_n,
}
use snmptrap_rs.Usm.Types.{AuthProtocol, PrivProtocol}
use snmptrap_rs.Usm.Keys.{min_usm_password_len}
use snmptrap_rs.Cli.Types.{
  SnmpVersion, v1, v2c, v3, SecurityLevel, no_auth_no_priv, auth_no_priv, auth_priv,
}

abbrev pub default_trap_port : ℕ
default_trap_port = 162

unfoldable pub version_from_str : Str → Outcome Error SnmpVersion
unfolding str_eq
version_from_str s =
    if str_eq s (codes "1")
    then ok v1
    else if str_eq s (codes "2c")
    then ok v2c
    else if str_eq s (codes "3")
    then ok v3
    else err (usage (unsupported_version s))

abbrev level_named : Str → Str → Outcome Error SecurityLevel
level_named s l =
    if str_eq l (codes "noauthnopriv")
    then ok no_auth_no_priv
    else if str_eq l (codes "authnopriv")
    then ok auth_no_priv
    else if str_eq l (codes "authpriv")
    then ok auth_priv
    else err (usage (unknown_level s))

unfoldable pub level_from_str : Str → Outcome Error SecurityLevel
unfolding str_eq ascii_lower
level_from_str s = level_named s (map ascii_lower s)

pub record Cli : Type 0 where
  pub version : SnmpVersion
  pub community : Str
  pub retries : ℕ
  pub timeout : ℕ
  pub src_addr : Option Str
  pub src_port : Option ℕ
  pub debug_print_pdu : Bool
  pub security_level : Option SecurityLevel
  pub user_name : Option Str
  pub auth_protocol : Option AuthProtocol
  pub auth_password : Option Str
  pub priv_protocol : Option PrivProtocol
  pub priv_password : Option Str
  pub context_engine_id : Option Str
  pub authoritative_engine_id : Option Str
  pub context_name : Option Str
  pub agent : Str
  pub trap_args : List Str

abbrev pub is_v3 : SnmpVersion → Bool
is_v3 v1 = false
is_v3 v2c = false
is_v3 v3 = true

abbrev pub is_zero_port : Option ℕ → Bool
is_zero_port none = false
is_zero_port (some p) = p == 0

abbrev pub require_some : {A : Type 0} → Option A → Flag → SecurityLevel → Outcome Error (Unit {0})
require_some none flag level = err (usage (required flag level))
require_some (some a) flag level = ok tt

abbrev pub require_password : Option Str → Flag → SecurityLevel → Outcome Error (Unit {0})
require_password none flag level = err (usage (required flag level))
require_password (some s) flag level = do
  reject_if (is_empty s) (usage (empty_password flag))
  reject_if (ltb (str_len s) min_usm_password_len) (usage (short_password flag (str_len s)))

-- Missing or empty.
abbrev pub none_or_empty : Option Str → Bool
none_or_empty none = true
none_or_empty (some s) = is_empty s

-- The loop over the flags: the first that is present is refused.
abbrev pub refuse_flags : SnmpVersion → List (Flag × Bool) → Outcome Error (Unit {0})
refuse_flags v [] = ok tt
refuse_flags v ((flag, present) ∷ rest) =
    let others = refuse_flags v rest in if present then err (usage (v3_flag flag v)) else others

abbrev pub v3_flags : Cli → List (Flag × Bool)
v3_flags cli =
    (flag_l, is_some cli.security_level)
    ∷ (flag_u, is_some cli.user_name)
    ∷ (flag_a, is_some cli.auth_protocol)
    ∷ (flag_A, is_some cli.auth_password)
    ∷ (flag_x, is_some cli.priv_protocol)
    ∷ (flag_X, is_some cli.priv_password)
    ∷ (flag_e, is_some cli.context_engine_id)
    ∷ (flag_E, is_some cli.authoritative_engine_id)
    ∷ (flag_n, is_some cli.context_name)
    ∷ []

abbrev pub validate_v3_flag_scope : Cli → Outcome Error (Unit {0})
validate_v3_flag_scope cli =
    if is_v3 cli.version then ok tt else refuse_flags cli.version (v3_flags cli)

-- What each level wants.
abbrev pub level_required : Cli → SecurityLevel → Outcome Error (Unit {0})
level_required cli no_auth_no_priv = ok tt
level_required cli auth_no_priv = do
  require_some cli.auth_protocol flag_a auth_no_priv
  require_password cli.auth_password flag_A auth_no_priv
level_required cli auth_priv = do
  require_some cli.auth_protocol flag_a auth_priv
  require_password cli.auth_password flag_A auth_priv
  require_some cli.priv_protocol flag_x auth_priv
  require_password cli.priv_password flag_X auth_priv

abbrev pub validate_v3_required : Cli → Outcome Error (Unit {0})
validate_v3_required cli = do
  level ← expect cli.security_level
  reject_if (none_or_empty cli.user_name) (usage user_required)
  level_required cli level

-- The level, by default without authentication.
abbrev pub level_or_default : Option SecurityLevel → SecurityLevel
level_or_default none = no_auth_no_priv
level_or_default (some level) = level

abbrev pub with_level : Cli → Cli
with_level cli = record cli { security_level = some (level_or_default cli.security_level) }

module _ (is_ipv6 : Str → Bool) where
  abbrev pub check_src_addr : Option Str → Outcome Error (Unit {0})
  check_src_addr none = ok tt
  check_src_addr (some s) =
      if is_some (parse_ipv4 s)
      then ok tt
      else if is_ipv6 s
      then err (usage src_addr_ipv6)
      else err (usage (src_addr_invalid s))

  -- The checks that both kinds of version share.
  unfoldable pub validate_common : Cli → Outcome Error (Unit {0})
  validate_common cli = do
    reject_if (not (is_v3 cli.version) && is_empty cli.community) (usage empty_community)
    reject_if (cli.timeout == 0) (usage zero_timeout)
    reject_if (is_zero_port cli.src_port) (usage zero_src_port)
    check_src_addr cli.src_addr

  unfoldable pub validate_v3 : Cli → Outcome Error Cli
  validate_v3 cli =
      if is_v3 cli.version
      then (validate_v3_required (with_level cli) >> ok (with_level cli))
      else ok cli

  unfoldable pub validate : Cli → Outcome Error Cli
  validate cli = do validate_common cli; validate_v3_flag_scope cli; validate_v3 cli

abbrev pub parsed_addr : Option Str → Option Ipv4Addr
parsed_addr none = none
parsed_addr (some s) = parse_ipv4 s

-- `src_addr_v4`
abbrev pub src_addr_v4 : Cli → Option Ipv4Addr
src_addr_v4 cli = parsed_addr cli.src_addr
