-- ===== src/Run/Decrypted.antt =====
-- What a receiver decrypts of a run of src/lib.rs with version 3.
use snmptrap_rs.Prelude.{ℕ, ◌≤◌, ◌≡◌, List, Option, some, ok, Bytes}
use snmptrap_rs.Text.{Str}
use snmptrap_rs.Text.Number.{max_u32}
use snmptrap_rs.Engine.Id.{EngineId}
use snmptrap_rs.Engine.Resolve.{resolve}
use snmptrap_rs.Varbind.Oid.Laws.{IsOid}
use snmptrap_rs.Usm.Types.{AuthProtocol, PrivProtocol}
use snmptrap_rs.Usm.Keys.{priv_key_from_password}
use snmptrap_rs.Cli.Types.{v3, auth_priv}
use snmptrap_rs.Cli.Args.{Cli, src_addr_v4}
use snmptrap_rs.Pdu.{VarBinds}
use snmptrap_rs.V3.Receiver.{Decoder, IsDecrypted}
use snmptrap_rs.Payload.Reserved.{Unreserved}
use snmptrap_rs.Payload.Written.{trap_args_of, AreWritable}
use snmptrap_rs.Payload.Decrypted.{written_pdu}
use snmptrap_rs.Payload.Build.{user_id, context_id}
use snmptrap_rs.Run.{System, Report, exited, stopped, went}
use snmptrap_rs.Run.Secured.{Delivers}

-- The protocols and the passwords of a command line, and the trap that its arguments write out.
pub record Writes (cli : Cli) (a : AuthProtocol) (pw : Str) (p : PrivProtocol) (q : Str)
    (uptime : ℕ) (trap_oid : List ℕ) (vs : VarBinds) : Type 0 where
  pub version : cli.version ≡ v3
  pub level : cli.security_level ≡ some auth_priv
  pub auth_protocol : cli.auth_protocol ≡ some a
  pub auth_password : cli.auth_password ≡ some pw
  pub priv_protocol : cli.priv_protocol ≡ some p
  pub priv_password : cli.priv_password ≡ some q
  pub trap_args : cli.trap_args ≡ trap_args_of uptime trap_oid vs
  pub uptime_fits : uptime ≤ max_u32
  pub trap_oid_valid : IsOid trap_oid
  pub writable : AreWritable vs
  pub unreserved : Unreserved vs

module _ (s : System) (dec : Decoder) (cli : Cli) (a : AuthProtocol) (p : PrivProtocol) (q : Str)
    (uptime : ℕ) (trap_oid : List ℕ) (vs : VarBinds) where
  -- A message that decrypts to the trap, with the key that the password gives.
  abbrev pub Discloses : Bytes → Type 0
  Discloses wire =
      (user : Option EngineId) × (context : EngineId) × (key plaintext : Bytes) × (user_id
          cli.authoritative_engine_id
        ≡ ok user)
      × (context_id cli.context_engine_id
            (resolve user (src_addr_v4 cli) s.world.mac s.world.hostname)
          ≡ ok context)
      × (priv_key_from_password s.crypto q
            (resolve user (src_addr_v4 cli) s.world.mac s.world.hostname) a p
          ≡ ok key)
      × (s.codec3.encode_scoped (written_pdu s.world s.codec3 cli context uptime trap_oid vs)
          ≡ ok plaintext)
      × IsDecrypted s.crypto dec p key wire plaintext

  -- Everything that is sent discloses the trap.
  abbrev pub IsDisclosed : Report → Type 0
  IsDisclosed (exited n) = Unit
  IsDisclosed (stopped o) = Unit
  IsDisclosed (went text route end) = Delivers Discloses route
