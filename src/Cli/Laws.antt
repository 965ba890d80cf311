-- ===== src/Cli/Laws.antt =====
-- What holds of a command line that src/cli.rs has let through.
use snmptrap_rs.Prelude.{
  ◌≤◌, ◌<◌, ◌≡◌, ◌≢◌, refl, sym, ◌∙◌, subst, Bool, true, false, ◌&&◌, not, List, [], ◌∷◌, Option,
  none, some, arith, Outcome, ok, err, panic, ◌>>◌, >>=-eq-ok, reject_if, expect, ltb, ◌==◌,
  if◌then◌else◌, is_empty, is_some, All,
}
use snmptrap_rs.Text.{Str, str_len}
use snmptrap_rs.Text.Net.{Ipv4Addr, parse_ipv4}
use snmptrap_rs.Errors.{Error, Flag}
use snmptrap_rs.Usm.Keys.{min_usm_password_len}
use snmptrap_rs.Cli.Types.{SnmpVersion, SecurityLevel, no_auth_no_priv, auth_no_priv, auth_priv}
use snmptrap_rs.Cli.Args.{
  Cli, is_v3, is_zero_port, require_some, require_password, none_or_empty, refuse_flags, v3_flags,
  validate_v3_flag_scope, level_required, validate_v3_required, with_level, check_src_addr,
  validate_common, validate_v3, validate, parsed_addr,
}

-- A password that is long enough.
unfoldable pub HasPassword : Option Str → Type 0
HasPassword none = ⊥
HasPassword (some s) = min_usm_password_len ≤ str_len s

abbrev pub IsGiven : {A : Type 0} → Option A → Type 0
IsGiven {A} o = (a : A) × (o ≡ some a)

-- What a level needs is there.
unfoldable pub LevelReady : Cli → SecurityLevel → Type 0
LevelReady cli no_auth_no_priv = Unit
LevelReady cli auth_no_priv = IsGiven cli.auth_protocol × HasPassword cli.auth_password
LevelReady cli auth_priv =
    IsGiven cli.auth_protocol
    × HasPassword cli.auth_password
    × IsGiven cli.priv_protocol
    × HasPassword cli.priv_password

not_rejected : (b : Bool) (e : Error) → reject_if b e ≡ ok tt → b ≡ false
not_rejected true e h = cc
not_rejected false e h = refl

require_some-IsGiven :
    {A : Type 0} (o : Option A) (flag : Flag) (level : SecurityLevel)
    → require_some o flag level ≡ ok tt
    → IsGiven o
require_some-IsGiven none flag level h = cc
require_some-IsGiven (some a) flag level h = (a, refl)

require_password-HasPassword :
    (o : Option Str) (flag : Flag) (level : SecurityLevel)
    → require_password o flag level ≡ ok tt
    → HasPassword o
unfolding HasPassword
require_password-HasPassword none flag level h = cc
require_password-HasPassword (some s) flag level h =
    let (u, e, f) = >>=-eq-ok (reject_if (is_empty s) _) _ h in
    let long : ltb (str_len s) min_usm_password_len ≡ false = not_rejected _ _ f in ground arith

then-eq-ok :
    {B : Type 0} (m : Outcome Error (Unit {0})) (k : Outcome Error B) {b : B}
    → (m >> k) ≡ ok b
    → (m ≡ ok tt) × (k ≡ ok b)
then-eq-ok (ok tt) k h = (refl, h)
then-eq-ok (err e) k h = cc
then-eq-ok panic k h = cc

level_required-LevelReady :
    (cli : Cli) (level : SecurityLevel) → level_required cli level ≡ ok tt → LevelReady cli level
unfolding LevelReady
level_required-LevelReady cli no_auth_no_priv h = tt
level_required-LevelReady cli auth_no_priv h =
    let (p, q) = then-eq-ok _ _ h in
    (require_some-IsGiven _ _ _ p, require_password-HasPassword _ _ _ q)
level_required-LevelReady cli auth_priv h =
    let (p, h1) = then-eq-ok _ _ h in
    let (q, h2) = then-eq-ok _ _ h1 in
    let (r, s) = then-eq-ok _ _ h2 in
    (
      require_some-IsGiven _ _ _ p,
      require_password-HasPassword _ _ _ q,
      require_some-IsGiven _ _ _ r,
      require_password-HasPassword _ _ _ s,
    )

-- A validated command line of version 3: the level is set, the user is named, and what the level
-- needs is there.
unfoldable pub Ready : Cli → Type 0
Ready cli =
    (level : SecurityLevel) × (cli.security_level ≡ some level)
    × (none_or_empty cli.user_name ≡ false)
    × LevelReady cli level

validate_v3_required-Ready : (cli : Cli) → validate_v3_required cli ≡ ok tt → Ready cli
unfolding Ready
validate_v3_required-Ready cli h =
    let (level, e, h1) = >>=-eq-ok (expect cli.security_level) _ h in
    let (u, r) = then-eq-ok _ _ h1 in
    (
      level,
      expected cli.security_level level e,
      not_rejected _ _ u,
      level_required-LevelReady cli level r,
    )
  where
    expected :
        (o : Option SecurityLevel) (level : SecurityLevel)
        → ◌≡◌ {A = Outcome Error SecurityLevel} (expect o) (ok level)
        → o ≡ some level
    expected none level h = cc
    expected (some l) level h = cc

refuse_flags-All :
    (v : SnmpVersion) (flags : List (Flag × Bool))
    → refuse_flags v flags ≡ ok tt
    → All (λ p. p.1 ≡ false) flags
refuse_flags-All v [] h = tt
refuse_flags-All v ((flag, true) ∷ rest) h = cc
refuse_flags-All v ((flag, false) ∷ rest) h = (refl, refuse_flags-All v rest h)

-- Whichever address is asked for was read.
abbrev pub IsRead : Option Str → Type 0
IsRead o = (is_some o ≡ true) → IsGiven (parsed_addr o)

IsGiven-is_some :
    (o : Option Ipv4Addr) (k : Outcome Error (Unit {0}))
    → k ≢ ok tt
    → (if is_some o then ok tt else k) ≡ ok tt
    → IsGiven o
IsGiven-is_some none k n h = absurd (n h)
IsGiven-is_some (some a) k n h = (a, refl)

two_errors :
    (b : Bool) (e f : Error)
    → ◌≢◌ {A = Outcome Error (Unit {0})} (if b then err e else err f) (ok tt)
two_errors true e f h = cc
two_errors false e f h = cc

module _ (is_ipv6 : Str → Bool) where
  check_src_addr-IsRead : (o : Option Str) → check_src_addr is_ipv6 o ≡ ok tt → IsRead o
  check_src_addr-IsRead none h given = cc
  check_src_addr-IsRead (some s) h given =
      IsGiven-is_some (parse_ipv4 s) _ (two_errors (is_ipv6 s) _ _) h

  -- What is checked whatever the version.
  abbrev pub Common : Cli → Type 0
  Common cli = (0 < cli.timeout) × (is_zero_port cli.src_port ≡ false) × IsRead cli.src_addr

  validate_common-Common :
      (cli : Cli)
      → validate_common is_ipv6 cli ≡ ok tt
      → (not (is_v3 cli.version) && is_empty cli.community ≡ false) × Common cli
  unfolding validate_common
  validate_common-Common cli h =
      let (a, h1) = then-eq-ok _ _ h in
      let (b, h2) = then-eq-ok _ _ h1 in
      let (d, h3) = then-eq-ok _ _ h2 in
      let positive : (cli.timeout == 0) ≡ false = not_rejected _ _ b in
      (
        not_rejected _ _ a,
        (ground arith, not_rejected _ _ d, check_src_addr-IsRead cli.src_addr h3),
      )

  -- A version 3 command line that is let through has a level, a user name that is not empty, and the
  -- protocols and the passwords of at least 8 bytes that the level needs; nothing else of it was
  -- changed. The timeout is positive, the source port not zero, and a source address that was given
  -- is read as IPv4, so that it is not ignored.
  pub validate-Ready :
      (cli out : Cli)
      → is_v3 cli.version ≡ true
      → validate is_ipv6 cli ≡ ok out
      → (out ≡ with_level cli) × Ready out × Common out
  unfolding validate validate_v3
  validate-Ready cli out v h =
      let (a, h1) = then-eq-ok _ _ h in
      let (b, h2) = then-eq-ok _ _ h1 in
      let opened : validate_v3 is_ipv6 cli
          ≡ (validate_v3_required (with_level cli) >> ok (with_level cli)) =
        rw v in
      let h3 : (validate_v3_required (with_level cli) >> ok (with_level cli)) ≡ ok out =
        sym opened ∙ h2 in
      let (r, e) = then-eq-ok _ _ h3 in
      let e' : ◌≡◌ {A = Outcome Error Cli} (ok (with_level cli)) (ok out) = e in
      let same : out ≡ with_level cli = cc in
      (
        same,
        subst Ready (sym same) (validate_v3_required-Ready (with_level cli) r),
        subst Common (sym same) (validate_common-Common cli a).1,
      )

  pub validate-plain :
      (cli out : Cli)
      → is_v3 cli.version ≡ false
      → validate is_ipv6 cli ≡ ok out
      → (out ≡ cli)
        × (is_empty cli.community ≡ false)
        × All (λ p. p.1 ≡ false) (v3_flags cli)
        × Common cli
  unfolding validate validate_v3
  validate-plain cli out v h =
      let (a, h1) = then-eq-ok _ _ h in
      let (b, h2) = then-eq-ok _ _ h1 in
      let scoped : validate_v3_flag_scope cli ≡ refuse_flags cli.version (v3_flags cli) = rw v in
      let opened : validate_v3 is_ipv6 cli ≡ ok cli = rw v in
      let b' : refuse_flags cli.version (v3_flags cli) ≡ ok tt = sym scoped ∙ b in
      let h3 : ok cli ≡ ok out = sym opened ∙ h2 in
      let (n, common) = validate_common-Common cli a in
      let asked : (not (is_v3 cli.version) && is_empty cli.community) ≡ is_empty cli.community =
        rw v in
      let n' : is_empty cli.community ≡ false = sym asked ∙ n in
      (cc, n', refuse_flags-All cli.version (v3_flags cli) b', common)
