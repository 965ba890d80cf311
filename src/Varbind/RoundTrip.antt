-- ===== src/Varbind/RoundTrip.antt =====
-- The texts of the values that `parse_typed_value` of src/varbind.rs reads.
use snmptrap_rs.Prelude.{
  ℕ, suc, ◌-◌, ◌^◌, ◌≤◌, ◌<◌, ◌≡◌, ◌≢◌, refl, ◌∙◌, ap, arith, false, ◌||◌, [], ◌∷◌, Outcome, ok,
  ◌>>=◌, AreBytes, All, ◌==◌,
}
use snmptrap_rs.Prelude.Int.{ℤ, pos, negsuc}
use snmptrap_rs.Text.{Str}
use snmptrap_rs.Text.Hex.{hex_text}
use snmptrap_rs.Text.Net.{IsAddr, show_ipv4}
use snmptrap_rs.Text.Net.RoundTrip.{parse_ipv4-show_ipv4}
use snmptrap_rs.Text.Number.{
  IntError, negate, pos_overflow, neg_overflow, scan, parse_i32, print, print-ne-nil, print-IsDigit,
  IsDigit, parse_uint-print, scan-print, max_u32, max_u64,
}
use snmptrap_rs.Varbind.Oid.Laws.{IsOid, print_oid, parse_oid-print_oid}
use snmptrap_rs.Varbind.Hex.RoundTrip.{parse_hex_string-hex_text}
use snmptrap_rs.Varbind.Value.{
  VarBindValue, integer, unsigned32, time_ticks, ip_address, object_id, octet_string, null, bits,
  counter64, parse_typed_value,
}

-- The decimal print of an integer.
abbrev pub print_i32 : ℤ → Str
print_i32 (pos n) = print n
print_i32 (negsuc n) = b'-' ∷ print (suc n)

-- The range of `i32`.
abbrev pub IsI32 : ℤ → Type 0
IsI32 (pos n) = n < 2 ^ 31
IsI32 (negsuc n) = n < 2 ^ 31

abbrev to_pos : Outcome IntError ℕ → Outcome IntError ℤ
to_pos m = do n ← m; ok (pos n)

abbrev to_negative : Outcome IntError ℕ → Outcome IntError ℤ
to_negative m = do n ← m; ok (negate n)

negate_suc : (n : ℕ) → ◌≡◌ {A = Outcome IntError ℤ} (ok (negate (suc n))) (ok (negsuc n))
negate_suc n = ground arith

parse_i32-digits :
    (s : Str) {n : ℕ}
    → s ≢ []
    → All IsDigit s
    → scan (2 ^ 31 - 1) pos_overflow s 0 ≡ ok n
    → parse_i32 s ≡ ok (pos n)
unfolding parse_i32
parse_i32-digits [] h d e = absurd (h refl)
parse_i32-digits (c ∷ []) h d e =
    let no_sign : (c == b'+' || c == b'-') ≡ false = ground arith in rw no_sign (ap to_pos e)
parse_i32-digits (c ∷ e ∷ s) h d f =
    let no_minus : (c == b'-') ≡ false = ground arith in
    let no_plus : (c == b'+') ≡ false = ground arith in rw (no_minus, no_plus) (ap to_pos f)

parse_i32-minus :
    (s : Str) {n : ℕ}
    → s ≢ []
    → scan (2 ^ 31) neg_overflow s 0 ≡ ok (suc n)
    → parse_i32 (b'-' ∷ s) ≡ ok (negsuc n)
unfolding parse_i32
parse_i32-minus [] h e = absurd (h refl)
parse_i32-minus (c ∷ s) {n} h e = ap to_negative e ∙ negate_suc n

pub parse_i32-print_i32 : (z : ℤ) → IsI32 z → parse_i32 (print_i32 z) ≡ ok z
parse_i32-print_i32 (pos n) h =
    parse_i32-digits (print n) (print-ne-nil n) (print-IsDigit n)
      (scan-print _ pos_overflow n (omega arith))
parse_i32-print_i32 (negsuc n) h =
    parse_i32-minus (print (suc n)) (print-ne-nil (suc n))
      (scan-print _ neg_overflow (suc n) (omega arith))

-- The letter of a kind of value, and the text of a value.
abbrev pub letter : VarBindValue → ℕ
letter (integer z) = b'i'
letter (unsigned32 n) = b'u'
letter (time_ticks n) = b't'
letter (ip_address ip) = b'a'
letter (object_id arcs) = b'o'
letter (octet_string bs) = b'x'
letter null = b'n'
letter (bits bs) = b'b'
letter (counter64 n) = b'U'

abbrev pub text : VarBindValue → Str
text (integer z) = print_i32 z
text (unsigned32 n) = print n
text (time_ticks n) = print n
text (ip_address ip) = show_ipv4 ip
text (object_id arcs) = print_oid arcs
text (octet_string bs) = hex_text 0 bs
text null = []
text (bits bs) = []
text (counter64 n) = print n

-- A value in the range of its type, which is not BITS.
abbrev pub IsPlain : VarBindValue → Type 0
IsPlain (integer z) = IsI32 z
IsPlain (unsigned32 n) = n ≤ max_u32
IsPlain (time_ticks n) = n ≤ max_u32
IsPlain (ip_address ip) = IsAddr ip
IsPlain (object_id arcs) = IsOid arcs
IsPlain (octet_string bs) = AreBytes bs
IsPlain null = Unit
IsPlain (bits bs) = ⊥
IsPlain (counter64 n) = n ≤ max_u64

-- Every value in the range of its type is read back from its letter and its text: a number from its
-- decimal print, an address and an object identifier from their dotted text, and octets from their
-- hex text. BITS are left out.
pub parse_typed_value-text :
    (v : VarBindValue) → IsPlain v → parse_typed_value (letter v) (text v) ≡ ok v
unfolding parse_typed_value
parse_typed_value-text (integer z) h = rw (parse_i32-print_i32 z h)
parse_typed_value-text (unsigned32 n) h = rw (parse_uint-print max_u32 n h)
parse_typed_value-text (time_ticks n) h = rw (parse_uint-print max_u32 n h)
parse_typed_value-text (ip_address ip) h = rw (parse_ipv4-show_ipv4 ip h)
parse_typed_value-text (object_id arcs) h = rw (parse_oid-print_oid arcs h)
parse_typed_value-text (octet_string bs) h = rw (parse_hex_string-hex_text 0 bs h)
parse_typed_value-text null h = refl
parse_typed_value-text (bits bs) h = absurd h
parse_typed_value-text (counter64 n) h = rw (parse_uint-print max_u64 n h)
