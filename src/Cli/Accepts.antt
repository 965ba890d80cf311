-- ===== src/Cli/Accepts.antt =====
-- The command lines of versions 1 and 2c that src/cli.rs lets through.
use snmptrap_rs.Prelude.{
  ◌≡◌, refl, Bool, true, false, List, [], ◌∷◌, Option, none, some, arith, Outcome, ok, ◌==◌,
  if◌then◌else◌, is_empty, is_some, All,
}
use snmptrap_rs.Text.{Str}
use snmptrap_rs.Text.Net.{Ipv4Addr, parse_ipv4}
use snmptrap_rs.Errors.{Error, Flag}
use snmptrap_rs.Cli.Types.{SnmpVersion}
use snmptrap_rs.Cli.Args.{
  Cli, is_v3, refuse_flags, v3_flags, check_src_addr, validate_common, validate_v3, validate,
}
use snmptrap_rs.Cli.Laws.{IsGiven, IsRead, Common}

refuse_flags_none :
    (v : SnmpVersion) (flags : List (Flag × Bool))
    → All (λ p. p.1 ≡ false) flags
    → refuse_flags v flags ≡ ok tt
refuse_flags_none v [] h = refl
refuse_flags_none v ((flag, true) ∷ rest) (e, h) = cc
refuse_flags_none v ((flag, false) ∷ rest) (e, h) = refuse_flags_none v rest h

given_passes :
    (o : Option Ipv4Addr) (k : Outcome Error (Unit {0}))
    → IsGiven o
    → (if is_some o then ok tt else k) ≡ ok tt
given_passes none k (a, e) = cc
given_passes (some a) k h = refl

module _ (is_ipv6 : Str → Bool) where
  check_src_addr_read : (o : Option Str) → IsRead o → check_src_addr is_ipv6 o ≡ ok tt
  check_src_addr_read none h = refl
  check_src_addr_read (some s) h = given_passes (parse_ipv4 s) _ (h refl)

  -- The converse of the checks of versions 1 and 2c: what they leave is enough to pass them.
  pub validate_accepts :
      (cli : Cli)
      → is_v3 cli.version ≡ false
      → is_empty cli.community ≡ false
      → All (λ p. p.1 ≡ false) (v3_flags cli)
      → Common is_ipv6 cli
      → validate is_ipv6 cli ≡ ok cli
  unfolding validate validate_v3 validate_common
  validate_accepts cli old community flags (timeout, port, read) =
      let positive : (cli.timeout == 0) ≡ false = ground arith in
      rw (
        old,
        community,
        positive,
        port,
        check_src_addr_read cli.src_addr read,
        refuse_flags_none cli.version (v3_flags cli) flags,
      )
