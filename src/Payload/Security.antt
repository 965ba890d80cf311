-- ===== src/Payload/Security.antt =====
-- The security of a version 3 message: `build_v3_security` and its helpers in src/lib.rs.
use snmptrap_rs.Prelude.{ℕ, Outcome, ok, ◌>>=◌, expect, ok_or, Bytes}
use snmptrap_rs.Errors.{Error, usage, internal_auth, internal_priv}
use snmptrap_rs.Engine.Id.{EngineId}
use snmptrap_rs.Usm.Types.{AuthProtocol, PrivProtocol}
use snmptrap_rs.Usm.Crypto.{Crypto}
use snmptrap_rs.Usm.Keys.{password_to_key, priv_key_from_password}
use snmptrap_rs.Cli.Types.{SecurityLevel, no_auth_no_priv, auth_no_priv, auth_priv}
use snmptrap_rs.Cli.Args.{Cli}
use snmptrap_rs.V3.{V3Security, no_auth, auth_only, auth_and_priv}

abbrev pub auth_proto : Cli → Outcome Error AuthProtocol
auth_proto cli = ok_or cli.auth_protocol (usage internal_auth)

abbrev pub priv_proto : Cli → Outcome Error PrivProtocol
priv_proto cli = ok_or cli.priv_protocol (usage internal_priv)

module _ (c : Crypto) where
  abbrev pub derive_auth_key : Cli → EngineId → AuthProtocol → Outcome Error Bytes
  derive_auth_key cli engine_id proto = do
    pw ← expect cli.auth_password
    password_to_key c pw engine_id proto

  -- The salt, drawn at random, is an argument.
  unfoldable pub build_v3_security : ℕ → Cli → SecurityLevel → EngineId → Outcome Error V3Security
  build_v3_security salt cli no_auth_no_priv engine_id = ok no_auth
  build_v3_security salt cli auth_no_priv engine_id = do
    proto ← auth_proto cli
    auth_key ← derive_auth_key cli engine_id proto
    ok (auth_only proto auth_key)
  build_v3_security salt cli auth_priv engine_id = do
    proto ← auth_proto cli
    auth_key ← derive_auth_key cli engine_id proto
    priv_p ← priv_proto cli
    pw ← expect cli.priv_password
    priv_key ← priv_key_from_password c pw engine_id proto priv_p
    ok (auth_and_priv proto auth_key priv_p priv_key salt)
