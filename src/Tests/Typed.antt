-- ===== src/Tests/Typed.antt =====
-- The theorems on the types of what src/varbind.rs and src/lib.rs read, at concrete texts.
use snmptrap_rs.Prelude.{ℕ, ◌*◌, true, some, ◌≡◌, refl, List, [], ◌∷◌, ok, arith, All}
use snmptrap_rs.Prelude.Int.{pos, negsuc}
use snmptrap_rs.Text.{Str, codes}
use snmptrap_rs.Text.Number.{max_u32}
use snmptrap_rs.Errors.{v2c_arguments}
use snmptrap_rs.Engine.Id.Laws.{AreChars}
use snmptrap_rs.Varbind.Value.{integer, parse_typed_value}
use snmptrap_rs.Varbind.Typed.{HasType, parse_typed_value-HasType}
use snmptrap_rs.Payload.Build.{read_v2}
use snmptrap_rs.Payload.Typed.{IsTrapText}
use snmptrap_rs.Payload.Host.{HostAnswers, world_of, read_v2-world_of}
use snmptrap_rs.Helpers.{linux_file}
use snmptrap_rs.Cli.Agent.{v6}
use snmptrap_rs.Tests.Written.{trap_name, one_binding}

value_read : parse_typed_value b'i' (codes "-42") ≡ ok (integer (negsuc 41))
unfolding parse_typed_value snmptrap_rs.Text.Number.parse_i32
value_read = refl

parse_typed_value-HasType_example : HasType b'i' (integer (negsuc 41))
parse_typed_value-HasType_example =
    parse_typed_value-HasType b'i' (codes "-42") (integer (negsuc 41)) (omega arith) value_read

abbrev texts : List Str
texts = codes "500" ∷ codes "1.3.6" ∷ codes "1.3.6" ∷ codes "i" ∷ codes "-42" ∷ []

texts-AreChars : All AreChars texts
texts-AreChars = omega arith

-- A machine on Linux, whose file, interfaces and name are as given; the floating-point parser reads
-- the decimals before the point.
abbrev pub answers : HostAnswers ℕ
answers = record {
  engine = record {
    on_linux = true;
    interfaces = some (codes "eth0" ∷ []);
    address = λ name. some (codes "02:00:00:00:00:01\n");
    name_buffer = some (104 ∷ 0 ∷ 7 ∷ []);
  };
  uptime = linux_file (ok (codes "9 8"));
  parse_f64 = λ s. ok 9;
  hundredfold_as_u64 = λ n. n * 100;
  bound = ok tt;
  connected = λ addr port. ok tt;
  local_addr = λ addr port. ok v6;
  request_id = pos 9;
  msg_id = pos 7;
  salt = 5;
  elapsed = 0;
}

texts_read : read_v2 (world_of answers) v2c_arguments texts ≡ ok (500, trap_name, one_binding)
unfolding parse_typed_value snmptrap_rs.Text.Number.parse_i32 snmptrap_rs.Text.Number.parse_uint
    snmptrap_rs.Varbind.Oid.parse_oid snmptrap_rs.Text.Split.split snmptrap_rs.Text.trim_start
    snmptrap_rs.Payload.Arguments.parse_trailing_varbinds snmptrap_rs.Payload.Arguments.triplets
    snmptrap_rs.Payload.Arguments.refuse_reserved
texts_read = refl

read_v2-world_of_example : IsTrapText texts 500 trap_name one_binding
read_v2-world_of_example =
    read_v2-world_of answers v2c_arguments texts 500 trap_name one_binding texts-AreChars texts_read
