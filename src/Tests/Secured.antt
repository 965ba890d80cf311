-- ===== src/Tests/Secured.antt =====
-- The theorems on a run of src/lib.rs with version 3, at a concrete command line.
use snmptrap_rs.Prelude.{ℕ, ◌≡◌, refl, some}
use snmptrap_rs.Text.{codes, str_len}
use snmptrap_rs.Engine.Id.{EngineId}
use snmptrap_rs.Cli.Types.{SecurityLevel}
use snmptrap_rs.Cli.Args.{Cli, validate}
use snmptrap_rs.Payload.Security.{build_v3_security}
use snmptrap_rs.Payload.Secrets.{SameRefusal, with_passwords}
use snmptrap_rs.Payload.Secrets.Unseen.{passwords_unseen}
use snmptrap_rs.Payload.Written.{trap_args_of}
use snmptrap_rs.Run.{command, main}
use snmptrap_rs.Tests.Cli.{secured, no_ipv6}
use snmptrap_rs.Tests.Run.{answered}
use snmptrap_rs.Tests.Toy.{crypto, lawful}
use snmptrap_rs.Tests.Written.{trap_name, one_binding}

abbrev disclosed : Cli
disclosed = record secured { trap_args = trap_args_of 500 trap_name one_binding }

secured_sends : main answered (command secured) ≡ some 0
unfolding main snmptrap_rs.Cli.Args.validate snmptrap_rs.Cli.Args.validate_common
    snmptrap_rs.Text.Net.parse_ipv4 snmptrap_rs.Cli.Args.validate_v3 snmptrap_rs.Text.as_bytes
    snmptrap_rs.Text.utf8 snmptrap_rs.Cli.Agent.resolve_agent_string
    snmptrap_rs.Cli.Agent.resolve_stripped snmptrap_rs.Payload.Build.build_payload
    snmptrap_rs.Payload.Build.build_v3_payload snmptrap_rs.Text.Number.parse_uint
    snmptrap_rs.Varbind.Oid.parse_oid snmptrap_rs.Text.Split.split snmptrap_rs.Text.trim_start
    snmptrap_rs.Payload.Arguments.parse_trailing_varbinds snmptrap_rs.Payload.Arguments.triplets
    snmptrap_rs.Payload.Arguments.refuse_reserved snmptrap_rs.Engine.Resolve.resolve
    snmptrap_rs.Payload.Security.build_v3_security snmptrap_rs.Usm.Keys.password_to_key
    snmptrap_rs.Usm.Keys.priv_key_from_password snmptrap_rs.V3.build_v3_trap_message
    snmptrap_rs.V3.build_scoped_pdu snmptrap_rs.Pdu.v2_bindings snmptrap_rs.Pdu.push_v2
    snmptrap_rs.V3.scope snmptrap_rs.Usm.Keys.priv_encrypt snmptrap_rs.V3.encode_with
    snmptrap_rs.V3.sign snmptrap_rs.Usm.Keys.auth_sign snmptrap_rs.Engine.Id.from_ipv4
    snmptrap_rs.Usm.Keys.slice_to snmptrap_rs.Transport.Raw.send_spoofed
    snmptrap_rs.Transport.Raw.send_spoofed_on
secured_sends = refl

maple_birch : str_len (codes "maplesyrup") ≡ str_len (codes "birchsyrup")
unfolding snmptrap_rs.Text.as_bytes snmptrap_rs.Text.utf8
maple_birch = refl

maple_correct : str_len (codes "maplesyrup") ≡ str_len (codes "correctone")
unfolding snmptrap_rs.Text.as_bytes snmptrap_rs.Text.utf8
maple_correct = refl

passwords_unseen_example :
    SameRefusal
      (validate no_ipv6
        (with_passwords secured (some (codes "maplesyrup")) (some (codes "maplesyrup"))))
      (validate no_ipv6
        (with_passwords secured (some (codes "birchsyrup")) (some (codes "correctone"))))
    × ((salt : ℕ) (level : SecurityLevel) (eid : EngineId)
        → SameRefusal
            (build_v3_security crypto salt
              (with_passwords secured (some (codes "maplesyrup")) (some (codes "maplesyrup")))
              level
              eid)
            (build_v3_security crypto salt
              (with_passwords secured (some (codes "birchsyrup")) (some (codes "correctone")))
              level
              eid))
passwords_unseen_example =
    passwords_unseen no_ipv6 crypto secured (some (codes "maplesyrup")) (some (codes "birchsyrup"))
      (some (codes "maplesyrup")) (some (codes "correctone")) lawful maple_birch maple_correct
