-- ===== src/Errors/DetailText.antt =====
-- The texts of the smaller errors: those of `parse` and of src/varbind.rs, and the
-- `io::Error`s that the program makes.
use snmptrap_rs.Prelude.{◌∷◌, [], ◌++◌}
use snmptrap_rs.Text.{Str, codes}
use snmptrap_rs.Text.Number.{IntError, empty, invalid_digit, pos_overflow, neg_overflow, print}
use snmptrap_rs.Varbind.Bits.{max_bit_position}
use snmptrap_rs.Errors.{
  OidError, empty_oid, empty_arc, invalid_arc, few_arcs, first_arc, second_arc, HexError, non_hex,
  odd_count, bad_pair, BitsError, bad_positions, position_too_large, Detail, expected_i32,
  expected_u32, expected_u64, expected_ipv4, bad_oid, bad_hex, bad_bits, ParseError, unknown_letter,
  bad_value, Errno, ErrorKind, IoMessage, payload_too_long, no_os_error, no_raw_os_error,
  ipv6_source, no_content, bad_float, IoError, os, custom, EncodeMessage, encoder, bits_in_v1,
  counter64_in_v1,
}

-- A text between quotes.
abbrev pub quoted : Str → Str
quoted s = b'\'' ∷ (s ++ (b'\'' ∷ []))

-- `Display` of `std::num::ParseIntError`
abbrev pub int_text : IntError → Str
int_text empty = codes "cannot parse integer from empty string"
int_text invalid_digit = codes "invalid digit found in string"
int_text pos_overflow = codes "number too large to fit in target type"
int_text neg_overflow = codes "number too small to fit in target type"

abbrev pub oid_error_text : OidError → Str
oid_error_text empty_oid = codes "empty OID"
oid_error_text (empty_arc s) = codes "empty arc in OID " ++ quoted s
oid_error_text (invalid_arc tok s e) =
    codes "invalid arc "
    ++ (quoted tok ++ (codes " in OID " ++ (quoted s ++ (codes ": " ++ int_text e))))
oid_error_text (few_arcs s) = codes "OID " ++ (quoted s ++ codes " has fewer than two arcs")
oid_error_text (first_arc s n) =
    codes "OID " ++ (quoted s ++ (codes " first arc must be 0, 1, or 2, got " ++ print n))
oid_error_text (second_arc s a b) =
    codes "OID "
    ++ (quoted s
        ++ (codes " second arc must be < 40 when first arc is "
            ++ (print a ++ (codes ", got " ++ print b))))

abbrev pub hex_error_text : HexError → Str
hex_error_text (non_hex c raw) =
    codes "non-hex character " ++ (quoted (c ∷ []) ++ (codes " in " ++ quoted raw))
hex_error_text (odd_count raw n) =
    codes "hex string "
    ++ (quoted raw
        ++ (codes " has odd character count after stripping separators ("
            ++ (print n ++ codes ")")))
hex_error_text (bad_pair raw e) =
    codes "non-hex character in " ++ (quoted raw ++ (codes ": " ++ int_text e))

abbrev pub bits_text : BitsError → Str
bits_text (bad_positions raw e) =
    codes "invalid BITS positions in " ++ (quoted raw ++ (codes ": " ++ int_text e))
bits_text (position_too_large n) =
    codes "BITS position " ++ (print n ++ (codes " exceeds maximum " ++ print max_bit_position))

abbrev pub detail_text : Detail → Str
detail_text (expected_i32 raw e) =
    codes "expected signed 32-bit decimal, got " ++ (quoted raw ++ (codes ": " ++ int_text e))
detail_text (expected_u32 raw e) =
    codes "expected unsigned 32-bit decimal, got " ++ (quoted raw ++ (codes ": " ++ int_text e))
detail_text (expected_u64 raw e) =
    codes "expected unsigned 64-bit decimal, got " ++ (quoted raw ++ (codes ": " ++ int_text e))
detail_text (expected_ipv4 raw) =
    codes "expected dotted-quad IPv4, got "
    ++ (quoted raw ++ (codes ": " ++ codes "invalid IPv4 address syntax"))
detail_text (bad_oid e) = oid_error_text e
detail_text (bad_hex e) = hex_error_text e
detail_text (bad_bits e) = bits_text e

-- `Display` of `ParseError`
abbrev pub parse_error_text : ParseError → Str
parse_error_text (unknown_letter c) = codes "unknown type letter " ++ quoted (c ∷ [])
parse_error_text (bad_value c d) =
    codes "invalid value for type " ++ (quoted (c ∷ []) ++ (codes ": " ++ detail_text d))

abbrev pub io_message_text : IoMessage → Str
io_message_text (payload_too_long got most) =
    codes "SNMP payload "
    ++ (print got ++ (codes " bytes exceeds IPv4/UDP single-datagram max " ++ print most))
io_message_text no_os_error = codes "send_to failed without an OS error"
io_message_text no_raw_os_error = codes "raw send_to failed without an OS error"
io_message_text ipv6_source = codes "kernel selected an IPv6 source for IPv4 destination"
io_message_text no_content = codes "/proc/uptime had no content"
io_message_text (bad_float s) = s

-- `Display` of `io::Error`, by the system's texts.
abbrev pub io_text : (Errno → ErrorKind → Str) → IoError → Str
io_text system (os e k) = system e k
io_text system (custom k m) = io_message_text m

abbrev pub encode_text : EncodeMessage → Str
encode_text (encoder s) = s
encode_text bits_in_v1 =
    codes "BITS (type 'b') is SMIv2-only; not representable in SNMPv1, use -v 2c instead"
encode_text counter64_in_v1 =
    codes "Counter64 (type 'U') is not representable in SNMPv1; use -v 2c instead"
