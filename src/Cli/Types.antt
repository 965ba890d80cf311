-- ===== src/Cli/Types.antt =====
-- The version and the security level of src/cli.rs.
pub data SnmpVersion : Type 0 where
  v1 v2c v3 : SnmpVersion

pub data SecurityLevel : Type 0 where
  no_auth_no_priv auth_no_priv auth_priv : SecurityLevel
