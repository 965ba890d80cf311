-- ===== src/Errors.antt =====
-- src/error.rs and the error types of src/varbind.rs and src/engine.rs. A message text is
-- represented by a constructor for its format string, with the arguments that are put in.
pub mod DetailText
pub mod EngineIdText
pub mod UsageText
pub mod Display
use snmptrap_rs.Prelude.{ℕ, Option, none, some}
use snmptrap_rs.Prelude.Int.{ℤ}
use snmptrap_rs.Text.{Str}
use snmptrap_rs.Text.Number.{IntError}
use snmptrap_rs.Usm.Types.{AuthProtocol, PrivProtocol}
use snmptrap_rs.Cli.Types.{SnmpVersion, SecurityLevel}

-- The messages of `parse_oid`.
pub data OidError : Type 0 where
  empty_oid : OidError
  empty_arc : Str → OidError
  invalid_arc : Str → Str → IntError → OidError
  few_arcs : Str → OidError
  first_arc : Str → ℕ → OidError
  second_arc : Str → ℕ → ℕ → OidError

-- The messages of `parse_hex_string`.
pub data HexError : Type 0 where
  non_hex : ℕ → Str → HexError
  odd_count : Str → ℕ → HexError
  bad_pair : Str → IntError → HexError

-- The messages of `parse_bits`.
pub data BitsError : Type 0 where
  bad_positions : Str → IntError → BitsError
  position_too_large : ℕ → BitsError

-- The `detail` of a `BadValue`.
pub data Detail : Type 0 where
  expected_i32 : Str → IntError → Detail
  expected_u32 : Str → IntError → Detail
  expected_u64 : Str → IntError → Detail
  expected_ipv4 : Str → Detail
  bad_oid : OidError → Detail
  bad_hex : HexError → Detail
  bad_bits : BitsError → Detail

-- `varbind::ParseError`
pub data ParseError : Type 0 where
  unknown_letter : ℕ → ParseError
  bad_value : ℕ → Detail → ParseError

-- `engine::EngineIdParseError`
pub data EngineIdParseError : Type 0 where
  empty : EngineIdParseError
  too_short : ℕ → ℕ → EngineIdParseError
  odd_length : ℕ → EngineIdParseError
  bad_hex : ℕ → EngineIdParseError
  too_long : ℕ → ℕ → EngineIdParseError

pub data Platform : Type 0 where
  linux macos other : Platform

-- `raw_os_error`, as far as the program tells the numbers apart.
pub data Errno : Type 0 where
  eperm eacces emsgsize ehostunreach enetunreach eaddrnotavail eaddrinuse : Errno
  errno : ℕ → Errno

-- `std::io::ErrorKind`
pub data ErrorKind : Type 0 where
  interrupted host_unreachable network_unreachable addr_not_available invalid_data : ErrorKind
  other_kind : ErrorKind

-- The texts of the `io::Error`s that the program makes.
pub data IoMessage : Type 0 where
  payload_too_long : ℕ → ℕ → IoMessage
  no_os_error no_raw_os_error : IoMessage
  ipv6_source no_content : IoMessage
  bad_float : Str → IoMessage

-- `std::io::Error`: of the system, or made with a kind and a text.
pub data IoError : Type 0 where
  os : Errno → ErrorKind → IoError
  custom : ErrorKind → IoMessage → IoError

abbrev pub raw_os_error : IoError → Option Errno
raw_os_error (os e k) = some e
raw_os_error (custom k m) = none

abbrev pub kind : IoError → ErrorKind
kind (os e k) = k
kind (custom k m) = k

-- The flags that messages name.
pub data Flag : Type 0 where
  flag_l flag_u flag_a flag_A flag_x flag_X flag_e flag_E flag_n : Flag

-- The messages of `Error::Usage`.
pub data Usage : Type 0 where
  unsupported_version : Str → Usage
  unknown_level : Str → Usage
  command_line : Str → Usage
  empty_community zero_timeout zero_src_port src_addr_ipv6 : Usage
  src_addr_invalid : Str → Usage
  v3_flag : Flag → SnmpVersion → Usage
  user_required : Usage
  required : Flag → SecurityLevel → Usage
  empty_password : Flag → Usage
  short_password : Flag → ℕ → Usage
  agent_ipv6 agent_port agent_no_ipv4 : Str → Usage
  agent_unresolved : Str → IoError → Usage
  md5_rejected des_rejected tdes_rejected : Usage
  unknown_auth unknown_priv : Str → Usage
  password_floor : ℕ → Usage
  key_too_short : AuthProtocol → PrivProtocol → ℕ → ℕ → Usage
  v1_arguments v2c_arguments v3_arguments : Usage
  sys_uptime_repeated trap_oid_repeated : Usage
  bad_authoritative_id bad_context_id : EngineIdParseError → Usage
  internal_auth internal_priv : Usage
  oid : OidError → Usage
  bad_generic bad_specific bad_uptime : Str → IntError → Usage
  generic_range specific_negative : ℤ → Usage
  bad_agent_addr : Str → Usage
  not_triplets : ℕ → Usage
  letter_empty : Str → Usage
  letter_long : Str → Str → Usage
  letter_unknown : ℕ → Str → Usage
  value_bad : ℕ → Str → Detail → Usage
  port_privileged port_in_use : Option ℕ → IoError → Usage

-- The messages of `Error::Encode`: those of the encoder, and two of the program.
pub data EncodeMessage : Type 0 where
  encoder : Str → EncodeMessage
  bits_in_v1 counter64_in_v1 : EncodeMessage

-- `error::Error`
pub data Error : Type 0 where
  usage : Usage → Error
  raw_socket_denied : Platform → IoError → Error
  unsupported : Error
  payload_exceeds_mtu : ℕ → IoError → Error
  routing : IoError → Error
  encode : EncodeMessage → Error
  other_io : IoError → Error

-- `Error::exit_code`
unfoldable pub exit_code : Error → ℕ
exit_code (usage m) = 2
exit_code e = 1
