-- ===== src/Tests/Payload.antt =====
-- The theorems on src/lib.rs, at concrete command lines.
use snmptrap_rs.Prelude.{◌≡◌, refl, [], ◌∷◌, none, ok, arith}
use snmptrap_rs.Prelude.Int.{pos}
use snmptrap_rs.Text.{codes, as_bytes}
use snmptrap_rs.Engine.Id.{EngineId}
use snmptrap_rs.Usm.Types.{sha256, aes128}
use snmptrap_rs.Cli.Types.{auth_priv}
use snmptrap_rs.Cli.Laws.{LevelReady}
use snmptrap_rs.Pdu.{V2cTrap, Codec, build_v2c_trap}
use snmptrap_rs.Payload.Build.{World, build_v2c_payload}
use snmptrap_rs.Payload.Laws.{SecurityCases, build_v3_security-cases}
use snmptrap_rs.Payload.Reserved.{Unreserved, build_v2c_payload-Unreserved}
use snmptrap_rs.Tests.Toy.{crypto, lawful}
use snmptrap_rs.Tests.Cli.{plain, secured}

abbrev engine : EngineId
engine = record { bytes = 128 ∷ 0 ∷ 31 ∷ 136 ∷ 1 ∷ [] }

pub secured_ready : LevelReady secured auth_priv
unfolding LevelReady snmptrap_rs.Cli.Laws.HasPassword as_bytes snmptrap_rs.Text.utf8
secured_ready = ((sha256, refl), omega arith, (aes128, refl), omega arith)

build_v3_security-cases_example : SecurityCases crypto lawful 5 secured engine auth_priv
build_v3_security-cases_example =
    build_v3_security-cases crypto lawful 5 secured engine auth_priv secured_ready

abbrev pub world : World
world = record {
  host_uptime = ok 100;
  egress_ipv4_for = λ addr port. ok (record { a = 10; b = 0; c = 0; d = 1 });
  fresh_request_id = pos 9;
  fresh_msg_id = pos 7;
  fresh_salt = 5;
  elapsed_seconds = 0;
  mac = none;
  hostname = none;
}

abbrev pub codec : Codec
codec = record {
  encode_v2c = λ m. ok m.community;
  encode_v1 = λ m. ok m.community;
  version_v2c = 1;
  version_v1 = 0;
  no_error = 0;
}

built : build_v2c_payload world crypto codec plain ≡ ok (codes "public")
unfolding build_v2c_payload snmptrap_rs.Text.Number.parse_uint snmptrap_rs.Varbind.Oid.parse_oid
    snmptrap_rs.Text.Split.split snmptrap_rs.Text.trim_start
    snmptrap_rs.Payload.Arguments.parse_trailing_varbinds snmptrap_rs.Payload.Arguments.triplets
    snmptrap_rs.Payload.Arguments.refuse_reserved build_v2c_trap snmptrap_rs.Pdu.v2_bindings
    snmptrap_rs.Pdu.push_v2 snmptrap_rs.Pdu.v2c_message as_bytes snmptrap_rs.Text.utf8
built = refl

build_v2c_payload-Unreserved_example :
    (t : V2cTrap) × (build_v2c_trap codec t ≡ ok (codes "public"))
    × (t.community ≡ as_bytes plain.community)
    × (t.request_id ≡ world.fresh_request_id)
    × Unreserved t.varbinds
build_v2c_payload-Unreserved_example =
    build_v2c_payload-Unreserved world crypto codec plain (codes "public") built
