-- ===== src/Tests/Varbind.antt =====
-- The theorems on src/varbind.rs, at concrete texts.
use snmptrap_rs.Prelude.{
  ℕ, ◌≡◌, refl, ◌⊎◌, List, [], ◌∷◌, map, ok, err, arith, is_empty, false, Bytes, AreBytes, length,
  ◌%◌, ◌/◌, ◌+◌,
}
use snmptrap_rs.Text.{codes, trim, ascii_lower}
use snmptrap_rs.Text.Hex.{hex_text}
use snmptrap_rs.Errors.{non_hex, odd_count}
use snmptrap_rs.Prelude.Int.{negsuc}
use snmptrap_rs.Varbind.Value.{integer, parse_typed_value}
use snmptrap_rs.Varbind.RoundTrip.{letter, text, parse_typed_value-text}
use snmptrap_rs.Varbind.Oid.{parse_oid}
use snmptrap_rs.Varbind.Oid.Laws.{IsOid, parse_oid-IsOid}
use snmptrap_rs.Varbind.Hex.{parse_hex_string, cleaned}
use snmptrap_rs.Varbind.Hex.Pairs.{HasBadChar}
use snmptrap_rs.Varbind.Hex.Cases.{parse_hex_string-cases}
use snmptrap_rs.Varbind.Bits.{parse_bits, positions, maximum}
use snmptrap_rs.Varbind.Bits.Table.{bit_at, contains}
use snmptrap_rs.Varbind.Bits.Laws.{parse_bits-bit_at}

abbrev sys_descr : List ℕ
sys_descr = 1 ∷ 3 ∷ 6 ∷ 1 ∷ 2 ∷ 1 ∷ 1 ∷ 1 ∷ 0 ∷ []

parsed : parse_oid (codes ".1.3.6.1.2.1.1.1.0") ≡ ok sys_descr
unfolding parse_oid snmptrap_rs.Text.Split.split snmptrap_rs.Text.trim_start
    snmptrap_rs.Text.Number.parse_uint
parsed = refl

parse_oid-IsOid_example : IsOid sys_descr
parse_oid-IsOid_example = parse_oid-IsOid (codes ".1.3.6.1.2.1.1.1.0") sys_descr parsed

sys_descr-IsOid : IsOid sys_descr
sys_descr-IsOid = omega arith

parse_hex_string-cases_example :
    ((bs : Bytes) × (parse_hex_string (codes "0xDE:ad") ≡ ok bs)
      × AreBytes bs
      × (hex_text 0 bs ≡ map ascii_lower (cleaned (codes "0xDE:ad"))))
    ⊎ ((c : ℕ) × (parse_hex_string (codes "0xDE:ad") ≡ err (non_hex c (codes "0xDE:ad")))
        × HasBadChar (cleaned (codes "0xDE:ad")) c)
    ⊎ ((parse_hex_string (codes "0xDE:ad")
          ≡ err (odd_count (codes "0xDE:ad") (length (cleaned (codes "0xDE:ad")))))
        × (length (cleaned (codes "0xDE:ad")) % 2 ≡ 1))
parse_hex_string-cases_example = parse_hex_string-cases (codes "0xDE:ad")

parts_read : positions (codes "0, 9") ≡ ok (0 ∷ 9 ∷ [])
unfolding positions snmptrap_rs.Text.is_whitespace snmptrap_rs.Text.Number.parse_uint
parts_read = refl

not_blank : is_empty (trim (codes "0, 9")) ≡ false
unfolding trim
not_blank = refl

parse_bits-bit_at_example :
    (out : Bytes) × (parse_bits (codes "0, 9") ≡ ok out)
    × (length out ≡ maximum (0 ∷ 9 ∷ []) / 8 + 1)
    × ((q : ℕ) → bit_at out q ≡ contains (0 ∷ 9 ∷ []) q)
parse_bits-bit_at_example =
    parse_bits-bit_at (codes "0, 9") 0 (9 ∷ []) not_blank parts_read (omega arith)

parse_typed_value-text_example :
    parse_typed_value (letter (integer (negsuc 41))) (text (integer (negsuc 41)))
    ≡ ok (integer (negsuc 41))
parse_typed_value-text_example = parse_typed_value-text (integer (negsuc 41)) (omega arith)
