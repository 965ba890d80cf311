-- ===== src/Varbind/Hex.antt =====
-- `parse_hex_string` of src/varbind.rs.
pub mod Pairs
pub mod Cases
pub mod RoundTrip
use snmptrap_rs.Prelude.{
  ℕ, ◌+◌, ◌*◌, ◌%◌, Bool, true, false, ◌&&◌, ◌||◌, not, List, [], ◌∷◌, Option, none, some, Outcome,
  ok, err, ◌>>=◌, ◌>>◌, map_err, reject_if, Bytes, ltb, ◌==◌, if◌then◌else◌, is_empty, keep,
  is_some,
}
use snmptrap_rs.Text.{Str, str_len, trim, is_whitespace}
use snmptrap_rs.Text.Number.{IntError, empty, invalid_digit, pos_overflow}
use snmptrap_rs.Text.Hex.{hex_digit, strip_hex_prefix}
use snmptrap_rs.Errors.{HexError, non_hex, odd_count, bad_pair}

-- The digits of a `u8` to the base 16.
unfoldable pub scan16 : Str → ℕ → Outcome IntError ℕ
scan16 [] n = ok n
scan16 (c ∷ s) n = elim (hex_digit c) [
  | none ↦ err invalid_digit
  | some d ↦ if ltb 255 (n * 16 + d) then err pos_overflow else scan16 s (n * 16 + d)
]

-- `u8::from_str_radix(s, 16)`
unfoldable pub u8_from_hex : Str → Outcome IntError ℕ
unfolding scan16
u8_from_hex [] = err empty
u8_from_hex (c ∷ []) = if c == b'+' || c == b'-' then err invalid_digit else scan16 (c ∷ []) 0
u8_from_hex (c ∷ d ∷ s) = if c == b'+' then scan16 (d ∷ s) 0 else scan16 (c ∷ d ∷ s) 0

-- The loop over the chunks of two digits.
unfoldable pub hex_pairs : Str → Str → Outcome HexError Bytes
unfolding u8_from_hex
hex_pairs raw [] = ok []
hex_pairs raw (a ∷ []) = do byte ← map_err (bad_pair raw) (u8_from_hex (a ∷ [])); ok (byte ∷ [])
hex_pairs raw (a ∷ b ∷ s) = do
  byte ← map_err (bad_pair raw) (u8_from_hex (a ∷ b ∷ []))
  rest ← hex_pairs raw s
  ok (byte ∷ rest)

-- The loop that refuses the first character that is no hex digit.
unfoldable pub check_hex : Str → Str → Outcome HexError (Unit {0})
check_hex raw [] = ok tt
check_hex raw (c ∷ s) = if is_some (hex_digit c) then check_hex raw s else err (non_hex c raw)

abbrev pub is_hex_content : ℕ → Bool
is_hex_content c = not (is_whitespace c) && not (c == b':')

-- The text without its prefix and its separators.
unfoldable pub cleaned : Str → Str
unfolding trim strip_hex_prefix keep
cleaned raw = keep is_hex_content (strip_hex_prefix (trim raw))

unfoldable pub parse_hex_string : Str → Outcome HexError Bytes
unfolding hex_pairs check_hex cleaned
parse_hex_string raw = if is_empty (cleaned raw) then ok [] else (do
  check_hex raw (cleaned raw)
  reject_if (not (str_len (cleaned raw) % 2 == 0)) (odd_count raw (str_len (cleaned raw)))
  hex_pairs raw (cleaned raw))
