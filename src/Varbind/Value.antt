-- ===== src/Varbind/Value.antt =====
-- `VarBindValue` and `parse_typed_value` of src/varbind.rs.
use snmptrap_rs.Prelude.{
  ℕ, List, Outcome, ok, err, ◌>>=◌, map_err, ok_or, Bytes, ◌==◌, if◌then◌else◌,
}
use snmptrap_rs.Prelude.Int.{ℤ}
use snmptrap_rs.Text.{Str, as_bytes}
use snmptrap_rs.Text.Net.{Ipv4Addr, parse_ipv4}
use snmptrap_rs.Text.Number.{parse_i32, parse_uint, max_u32, max_u64}
use snmptrap_rs.Errors.{
  ParseError, unknown_letter, bad_value, expected_i32, expected_u32, expected_u64, expected_ipv4,
  bad_oid, bad_hex, bad_bits,
}
use snmptrap_rs.Varbind.Oid.{parse_oid}
use snmptrap_rs.Varbind.Hex.{parse_hex_string}
use snmptrap_rs.Varbind.Bits.{parse_bits}

pub data VarBindValue : Type 0 where
  integer : ℤ → VarBindValue
  unsigned32 : ℕ → VarBindValue
  time_ticks : ℕ → VarBindValue
  ip_address : Ipv4Addr → VarBindValue
  object_id : List ℕ → VarBindValue
  octet_string : Bytes → VarBindValue
  null : VarBindValue
  bits : Bytes → VarBindValue
  counter64 : ℕ → VarBindValue

-- `.map(f)` on a result.
abbrev pub map_ok : {E A B : Type 0} → (A → B) → Outcome E A → Outcome E B
map_ok f m = m >>= λ a. ok (f a)

unfoldable pub parse_typed_value : ℕ → Str → Outcome ParseError VarBindValue
parse_typed_value letter raw =
    if letter == b'i'
    then map_ok integer (map_err (λ e. bad_value letter (expected_i32 raw e)) (parse_i32 raw))
    else if letter == b'u'
    then map_ok unsigned32
        (map_err (λ e. bad_value letter (expected_u32 raw e)) (parse_uint max_u32 raw))
    else if letter == b't'
    then map_ok time_ticks
        (map_err (λ e. bad_value letter (expected_u32 raw e)) (parse_uint max_u32 raw))
    else if letter == b'a'
    then map_ok ip_address (ok_or (parse_ipv4 raw) (bad_value letter (expected_ipv4 raw)))
    else if letter == b'o'
    then map_ok object_id (map_err (λ e. bad_value letter (bad_oid e)) (parse_oid raw))
    else if letter == b's'
    then ok (octet_string (as_bytes raw))
    else if letter == b'x'
    then map_ok octet_string (map_err (λ e. bad_value letter (bad_hex e)) (parse_hex_string raw))
    else if letter == b'n'
    then ok null
    else if letter == b'b'
    then map_ok bits (map_err (λ e. bad_value letter (bad_bits e)) (parse_bits raw))
    else if letter == b'U'
    then map_ok counter64
        (map_err (λ e. bad_value letter (expected_u64 raw e)) (parse_uint max_u64 raw))
    else err (unknown_letter letter)
