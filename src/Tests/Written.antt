-- ===== src/Tests/Written.antt =====
-- The theorems on positional arguments of src/lib.rs that write out a trap, at concrete traps.
use snmptrap_rs.Prelude.{ℕ, ◌≡◌, refl, inr, List, [], ◌∷◌, some, ok, keep, arith}
use snmptrap_rs.Prelude.Int.{pos, negsuc}
use snmptrap_rs.Text.{as_bytes, codes}
use snmptrap_rs.Varbind.Oid.Laws.{IsOid}
use snmptrap_rs.Varbind.Value.{integer}
use snmptrap_rs.Cli.Args.{Cli, src_addr_v4}
use snmptrap_rs.Pdu.{VarBinds, V1Trap, build_v1_trap}
use snmptrap_rs.Payload.Build.{build_v1_payload}
use snmptrap_rs.Payload.Reserved.{Unreserved}
use snmptrap_rs.Payload.Written.{trap_args_of, AreWritable}
use snmptrap_rs.Payload.WrittenV1.{v1_args_of, IsWritable, build_v1_payload-v1_args_of}
use snmptrap_rs.Run.{command, run, main}
use snmptrap_rs.Run.Delivered.{IsOpen, IsTaken, IsDelivered, main_delivers}
use snmptrap_rs.Text.Net.{Ipv4Addr}
use snmptrap_rs.Cli.Agent.{resolve_agent}
use snmptrap_rs.Cli.Laws.{Common}
use snmptrap_rs.Run.Written.{Encodes, IsEncoded, run-IsEncoded}
use snmptrap_rs.Tests.Run.{answered}
use snmptrap_rs.Tests.Toy.{crypto}
use snmptrap_rs.Tests.Cli.{plain}
use snmptrap_rs.Tests.Payload.{world, codec}

abbrev pub trap_name : List ℕ
trap_name = 1 ∷ 3 ∷ 6 ∷ []

pub name-IsOid : IsOid trap_name
name-IsOid = (omega arith, inr (omega arith), omega arith)

abbrev pub one_binding : VarBinds
one_binding = (trap_name, integer (negsuc 41)) ∷ []

pub binding-AreWritable : AreWritable one_binding
binding-AreWritable = ((name-IsOid, omega arith), tt)

pub binding-Unreserved : Unreserved one_binding
binding-Unreserved = (((λ h. cc), (λ h. cc)), tt)

abbrev written : Cli
written = record plain { trap_args = trap_args_of 500 trap_name one_binding }

run-IsEncoded_example :
    IsEncoded answered written 500 trap_name one_binding (run answered (command written))
run-IsEncoded_example =
    run-IsEncoded answered written 500 trap_name one_binding refl refl (omega arith) name-IsOid
      binding-AreWritable binding-Unreserved

abbrev target : Ipv4Addr
target = record { a = 127; b = 0; c = 0; d = 1 }

agent_resolves : resolve_agent answered.resolver written ≡ ok (target, 162)
unfolding snmptrap_rs.Cli.Agent.resolve_agent_string snmptrap_rs.Cli.Agent.resolve_stripped
agent_resolves = refl

message_encoded : Encodes answered written 500 trap_name one_binding (codes "public")
unfolding snmptrap_rs.Pdu.v2c_message as_bytes snmptrap_rs.Text.utf8
message_encoded = refl

source_forged : IsOpen answered (codes "public") (src_addr_v4 written)
unfolding snmptrap_rs.Text.Net.parse_ipv4
source_forged = ((λ h. cc), refl, omega arith)

source_read : Common answered.is_ipv6 written
unfolding snmptrap_rs.Text.Net.parse_ipv4
source_read = (omega arith, refl, λ h. (record { a = 10; b = 0; c = 0; d = 1 }, refl))

first_answer : IsTaken answered written.retries
unfolding keep snmptrap_rs.Transport.Reply.counts
first_answer = ([], [], refl, omega arith)

main_delivers_example :
    (main answered (command written) ≡ some 0)
    × IsDelivered target 162 (codes "public") (run answered (command written))
main_delivers_example =
    main_delivers answered written 500 trap_name one_binding target 162 (codes "public") refl refl
      (omega arith, name-IsOid, binding-AreWritable, binding-Unreserved)
      (
        refl,
        (refl, (refl, (refl, (refl, (refl, (refl, (refl, (refl, (refl, tt))))))))),
        source_read,
      )
      agent_resolves message_encoded source_forged first_answer

abbrev old_trap : V1Trap
old_trap = record {
  community = as_bytes plain.community;
  enterprise = trap_name;
  agent_addr = record { a = 10; b = 0; c = 0; d = 1 };
  generic = pos 6;
  specific = pos 17;
  uptime_centiseconds = 500;
  varbinds = one_binding;
}

abbrev written_v1 : Cli
written_v1 = record plain { trap_args = v1_args_of old_trap }

old_trap-IsWritable : IsWritable old_trap
old_trap-IsWritable = (
  name-IsOid,
  omega arith,
  (6, refl, omega arith),
  (17, refl, omega arith),
  omega arith,
  binding-AreWritable,
)

build_v1_payload-v1_args_of_example :
    build_v1_payload world crypto codec written_v1 old_trap.agent_addr 162
    ≡ build_v1_trap codec old_trap
build_v1_payload-v1_args_of_example =
    build_v1_payload-v1_args_of world crypto codec written_v1 old_trap.agent_addr 162 old_trap refl
      refl old_trap-IsWritable
