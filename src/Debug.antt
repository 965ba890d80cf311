-- ===== src/Debug.antt =====
-- src/debug.rs: the text that goes to the standard error before a send. The writer never fails here:
-- src/lib.rs drops its result.
pub mod Rows
pub mod RoundTrip
use snmptrap_rs.Prelude.{
  ℕ, zero, suc, ◌+◌, ◌-◌, ◌*◌, ◌/◌, ◌%◌, ◌&&◌, ◌||◌, List, [], ◌∷◌, ◌++◌, map, Option, none, some,
  true, false, Bytes, length, take, drop, replicate, leb, ltb, ◌==◌, if◌then◌else◌,
}
use snmptrap_rs.Text.{Str, codes}
use snmptrap_rs.Text.Hex.{hex_char}
use snmptrap_rs.Text.Net.{Ipv4Addr, show_ipv4}
use snmptrap_rs.Text.Number.{print}
use snmptrap_rs.Cli.Types.{SnmpVersion, v1, v2c, v3}

abbrev pub version_label : SnmpVersion → Str
version_label v1 = codes "1"
version_label v2c = codes "2c"
version_label v3 = codes "3"

-- The display of a `SocketAddrV4`.
unfoldable pub show_socket : Ipv4Addr → ℕ → Str
unfolding show_ipv4
show_socket ip port = show_ipv4 ip ++ b':' ∷ print port

abbrev pub src_display : Option Ipv4Addr → Str
src_display (some ip) = show_ipv4 ip
src_display none = codes "<kernel-selected>"

abbrev pub src_port_display : Option ℕ → Str
src_port_display (some p) = print p
src_port_display none = codes "<ephemeral>"

abbrev pub space : ℕ
space = b' '

abbrev pub newline : ℕ
newline = 10

-- The digits of `{:x}`, from the last on; the fuel is more than the number.
unfoldable pub hex_digits : ℕ → ℕ → Str
hex_digits zero n = []
hex_digits (suc f) n = elim (ltb n 16) [
  | true ↦ hex_char n ∷ []
  | false ↦ hex_digits f (n / 16) ++ hex_char (n % 16) ∷ []
]

-- `{:08x}`
unfoldable pub show_offset : ℕ → Str
unfolding hex_digits
show_offset n = let s = hex_digits (suc n) n in replicate (8 - length s) b'0' ++ s

-- The gap between the eighth column and the ninth.
abbrev pub gap : ℕ → Str
gap i = if i == 8 then space ∷ [] else []

-- The columns from the place `i` on, `{b:02x} ` each.
unfoldable pub hex_columns : ℕ → Bytes → Str
hex_columns i [] = []
hex_columns i (b ∷ bs) =
    gap i ++ hex_char (b / 16) ∷ hex_char (b % 16) ∷ space ∷ hex_columns (suc i) bs

-- The empty columns from the place `i` on.
unfoldable pub padding : ℕ → ℕ → Str
padding i zero = []
padding i (suc n) = gap i ++ space ∷ space ∷ space ∷ padding (suc i) n

abbrev pub ascii_column : ℕ → ℕ
ascii_column b = if (leb 33 b && leb b 126) || b == 32 then b else b'.'

-- The columns of a row, with those that it leaves empty.
abbrev pub hex_area : Bytes → Str
hex_area chunk = hex_columns 0 chunk ++ padding (length chunk) (16 - length chunk)

-- `{:08x}: `
abbrev pub row_label : ℕ → Str
row_label offset = show_offset (offset * 16) ++ b':' ∷ space ∷ []

-- One row, without the end of its line.
abbrev pub dump_line : ℕ → Bytes → Str
dump_line offset chunk = row_label offset ++ (hex_area chunk ++ (space ∷ map ascii_column chunk))

unfoldable pub dump_row : ℕ → Bytes → Str
unfolding show_offset hex_columns padding
dump_row offset chunk = dump_line offset chunk ++ newline ∷ []

-- `chunks(16)`; the fuel is the number of bytes.
unfoldable pub chunks : ℕ → Bytes → List Bytes
chunks fuel [] = []
chunks zero (b ∷ bs) = []
chunks (suc fuel) (b ∷ bs) = (b ∷ take 15 bs) ∷ chunks fuel (drop 15 bs)

unfoldable pub dump_rows : ℕ → List Bytes → Str
unfolding dump_row
dump_rows offset [] = []
dump_rows offset (chunk ∷ rest) = dump_row offset chunk ++ dump_rows (suc offset) rest

unfoldable pub write_hex_dump : Bytes → Str
unfolding dump_rows chunks
write_hex_dump payload = dump_rows 0 (chunks (length payload) payload)

unfoldable pub print_pre_send_dump :
    SnmpVersion → Ipv4Addr → ℕ → Option Ipv4Addr → Option ℕ → Bytes → Str
unfolding show_socket write_hex_dump
print_pre_send_dump version dst dst_port src src_port payload =
    codes "[debug] snmp_version="
    ++ version_label version
    ++ codes " dst="
    ++ show_socket dst dst_port
    ++ codes " src="
    ++ src_display src
    ++ codes " src_port="
    ++ src_port_display src_port
    ++ codes " community=*** payload_bytes="
    ++ print (length payload)
    ++ newline ∷ write_hex_dump payload
