-- ===== src/Engine/Parse.antt =====
-- `EngineId::parse_user_input` and `decode_hex_nibble` of src/engine.rs.
pub mod Laws
pub mod RoundTrip
use snmptrap_rs.Prelude.{
  ℕ, ◌+◌, ◌-◌, ◌*◌, ◌/◌, ◌%◌, bit_or, Bool, ◌&&◌, not, List, [], ◌∷◌, Outcome, ok, err, ◌>>=◌, ◌>>◌,
  reject_if, Bytes, length, ltb, leb, ◌==◌, if◌then◌else◌, is_empty, keep,
}
use snmptrap_rs.Text.{Str, as_bytes, str_len, trim, is_ascii_whitespace}
use snmptrap_rs.Text.Hex.{strip_hex_prefix}
use snmptrap_rs.Errors.{EngineIdParseError, empty, too_short, odd_length, bad_hex, too_long}
use snmptrap_rs.Engine.Id.{EngineId, min_engine_id, max_engine_id}

unfoldable pub decode_hex_nibble : ℕ → Outcome EngineIdParseError ℕ
decode_hex_nibble b =
    if leb b'0' b && leb b b'9'
    then ok (b - b'0')
    else if leb b'a' b && leb b b'f'
    then ok (b - b'a' + 10)
    else if leb b'A' b && leb b b'F'
    then ok (b - b'A' + 10)
    else err (bad_hex b)

-- `(hi << 4) | lo` on `u8`.
abbrev pub join_nibbles : ℕ → ℕ → ℕ
join_nibbles hi lo = bit_or (hi * 16 % 256) lo

-- The loop over `chunks_exact(2)`, which leaves an odd byte out.
unfoldable pub decode_pairs : Bytes → Outcome EngineIdParseError Bytes
unfolding decode_hex_nibble
decode_pairs [] = ok []
decode_pairs (a ∷ []) = ok []
decode_pairs (a ∷ b ∷ s) = do
  hi ← decode_hex_nibble a
  lo ← decode_hex_nibble b
  rest ← decode_pairs s
  ok (join_nibbles hi lo ∷ rest)

abbrev pub is_id_content : ℕ → Bool
is_id_content c = not (is_ascii_whitespace c) && not (c == b':')

unfoldable pub cleaned : Str → Str
unfolding trim strip_hex_prefix keep
cleaned s = keep is_id_content (strip_hex_prefix (trim s))

-- The checks and the decoding, on the cleaned text.
unfoldable pub decode_id : Str → Outcome EngineIdParseError EngineId
decode_id s = do
  reject_if (is_empty s) empty
  reject_if (ltb (max_engine_id * 2) (str_len s)) (too_long (str_len s / 2) max_engine_id)
  reject_if (not (str_len s % 2 == 0)) (odd_length (str_len s))
  bs ← decode_pairs (as_bytes s)
  reject_if (ltb (length bs) min_engine_id) (too_short (length bs) min_engine_id)
  reject_if (ltb max_engine_id (length bs)) (too_long (length bs) max_engine_id)
  ok (record { bytes = bs })

unfoldable pub parse_user_input : Str → Outcome EngineIdParseError EngineId
unfolding cleaned decode_id decode_pairs
parse_user_input s = decode_id (cleaned s)
