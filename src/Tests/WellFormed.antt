-- ===== src/Tests/WellFormed.antt =====
-- The theorem on the message of version 3 of src/lib.rs, at a concrete command line and host.
use snmptrap_rs.Prelude.{◌≡◌, refl, [], ◌∷◌, ◌++◌, ok, arith, Bytes, All, replicate}
use snmptrap_rs.Text.{codes}
use snmptrap_rs.Engine.Id.Laws.{AreChars}
use snmptrap_rs.Engine.Resolve.{resolve}
use snmptrap_rs.Usm.Keys.{password_to_key}
use snmptrap_rs.Cli.Types.{auth_priv}
use snmptrap_rs.Cli.Laws.{Ready}
use snmptrap_rs.V3.{V3TrapMessage, build_v3_trap_message}
use snmptrap_rs.Payload.Build.{build_v3_payload}
use snmptrap_rs.Payload.Host.{world_of}
use snmptrap_rs.Payload.WellFormed.{IsWellFormed, IsNamed, build_v3_payload-IsWellFormed}
use snmptrap_rs.Tests.Toy.{crypto, lawful, codec}
use snmptrap_rs.Tests.Cli.{secured}
use snmptrap_rs.Tests.Payload.{secured_ready}
use snmptrap_rs.Tests.Typed.{answers}

abbrev sender : Bytes
sender = 128 ∷ 0 ∷ 240 ∷ 69 ∷ 1 ∷ 10 ∷ 0 ∷ 0 ∷ 1 ∷ []

abbrev tag_and_salt : Bytes
tag_and_salt = 24 ∷ (replicate 24 0 ++ (0 ∷ 0 ∷ 0 ∷ 0 ∷ 0 ∷ 0 ∷ 0 ∷ 5 ∷ 9 ∷ sender))

abbrev secured_wire : Bytes
secured_wire =
    3 ∷ 65507 ∷ 3 ∷ 7 ∷ 1 ∷ 3 ∷ 51 ∷ 1 ∷ 0 ∷ 9 ∷ (sender ++ (5 ∷ (codes "admin" ++ tag_and_salt)))

secured_built : build_v3_payload (world_of answers) crypto codec secured ≡ ok secured_wire
unfolding build_v3_payload snmptrap_rs.Text.Number.parse_uint snmptrap_rs.Varbind.Oid.parse_oid
    snmptrap_rs.Text.Split.split snmptrap_rs.Text.trim_start
    snmptrap_rs.Payload.Arguments.parse_trailing_varbinds snmptrap_rs.Payload.Arguments.triplets
    snmptrap_rs.Payload.Arguments.refuse_reserved resolve snmptrap_rs.Text.Net.parse_ipv4
    snmptrap_rs.Payload.Security.build_v3_security password_to_key
    snmptrap_rs.Usm.Keys.priv_key_from_password snmptrap_rs.Text.as_bytes snmptrap_rs.Text.utf8
    snmptrap_rs.V3.build_v3_trap_message snmptrap_rs.V3.build_scoped_pdu snmptrap_rs.Pdu.v2_bindings
    snmptrap_rs.Pdu.push_v2 snmptrap_rs.V3.scope snmptrap_rs.Usm.Keys.priv_encrypt
    snmptrap_rs.V3.encode_with snmptrap_rs.V3.sign snmptrap_rs.Usm.Keys.auth_sign
    snmptrap_rs.Engine.Id.from_ipv4 snmptrap_rs.Usm.Keys.slice_to
secured_built = refl

checked : Ready secured
unfolding Ready
checked = (auth_priv, refl, refl, secured_ready)

args-AreChars : All AreChars secured.trap_args
args-AreChars = omega arith

build_v3_payload-IsWellFormed_example :
    (m : V3TrapMessage) × (build_v3_trap_message crypto codec m ≡ ok secured_wire)
    × IsWellFormed m
    × IsNamed secured m
build_v3_payload-IsWellFormed_example =
    build_v3_payload-IsWellFormed crypto lawful secured answers codec secured_wire (omega arith)
      (omega arith) args-AreChars checked secured_built
