-- ===== src/Payload/Secrets/Unseen.antt =====
-- What a refusal tells of the passwords of version 3.
use snmptrap_rs.Prelude.{ℕ, Bool, Option}
use snmptrap_rs.Text.{Str}
use snmptrap_rs.Engine.Id.{EngineId}
use snmptrap_rs.Usm.Crypto.{Crypto, IsLawful}
use snmptrap_rs.Cli.Types.{SecurityLevel}
use snmptrap_rs.Cli.Args.{Cli, validate}
use snmptrap_rs.Payload.Security.{build_v3_security}
use snmptrap_rs.Payload.Secrets.{Alike, SameRefusal, with_passwords}
use snmptrap_rs.Payload.Secrets.Checks.{validate-SameRefusal}
use snmptrap_rs.Payload.Secrets.Keys.{build_v3_security-SameRefusal}

-- The refusals of the two places that look at the passwords of version 3, the checks of the command
-- line and the derivation of the keys, tell their lengths at most: with other passwords of the same
-- lengths in their place either succeeds as well, or is refused with the very same error. The
-- cryptography is lawful.
pub passwords_unseen :
    (is_ipv6 : Str → Bool) (c : Crypto) (cli : Cli) (pw pw' q q' : Option Str)
    → IsLawful c
    → Alike pw pw'
    → Alike q q'
    → SameRefusal
        (validate is_ipv6 (with_passwords cli pw q))
        (validate is_ipv6 (with_passwords cli pw' q'))
      × ((salt : ℕ) (level : SecurityLevel) (eid : EngineId)
          → SameRefusal
              (build_v3_security c salt (with_passwords cli pw q) level eid)
              (build_v3_security c salt (with_passwords cli pw' q') level eid))
passwords_unseen is_ipv6 c cli pw pw' q q' law alike alike_q = (
  validate-SameRefusal is_ipv6 cli pw pw' q q' alike alike_q,
  λ salt level eid.
      build_v3_security-SameRefusal c law eid salt cli pw pw' q q' alike alike_q level,
)
