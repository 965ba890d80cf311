-- ===== src/Varbind/Hex/RoundTrip.antt =====
-- `parse_hex_string` reads back a hex text, with or without colons.
use snmptrap_rs.Prelude.{
  true, false, ℕ, ◌/◌, ◌%◌, ◌<◌, ◌≡◌, refl, ◌∙◌, ap, false, [], ◌∷◌, arith, ok, Bytes, AreBytes,
}
use snmptrap_rs.Text.{Str, is_whitespace}
use snmptrap_rs.Text.Hex.{hex_char, hex_text, hex_digit-hex_char, hex_char_plain, trim_self}
use snmptrap_rs.Varbind.Hex.{hex_pairs, check_hex, cleaned, is_hex_content, parse_hex_string}
use snmptrap_rs.Text.HexText.{
  hex_text-plain, keep-hex_text, strip_hex_prefix-hex_text, length-hex_text, hex_text-cons-ne-nil,
}
use snmptrap_rs.Varbind.Hex.Cases.{parse_hex_string-cleaned, parse_hex_string_nil, run_even}
use snmptrap_rs.Varbind.Hex.Pairs.{u8_from_hex_pair, hex_pairs-cons}

colon_dropped : is_hex_content b':' ≡ false
unfolding is_whitespace
colon_dropped = refl

digit_kept : (n : ℕ) → n < 16 → is_hex_content (hex_char n) ≡ true
digit_kept n h = let (w, c, _) = hex_char_plain n h in rw (w, c)

check_hex-hex_text : (raw : Str) (bs : Bytes) → AreBytes bs → check_hex raw (hex_text 0 bs) ≡ ok tt
unfolding check_hex hex_text
check_hex-hex_text raw [] h = refl
check_hex-hex_text raw (b ∷ bs) (hb, hs) = rw (
  hex_digit-hex_char (b / 16) (omega arith),
  hex_digit-hex_char (b % 16) (omega arith),
  check_hex-hex_text raw bs hs,
)

hex_pairs-hex_text : (raw : Str) (bs : Bytes) → AreBytes bs → hex_pairs raw (hex_text 0 bs) ≡ ok bs
unfolding hex_text
hex_pairs-hex_text raw [] h = unfold hex_pairs in refl
hex_pairs-hex_text raw (b ∷ bs) (hb, hs) =
    hex_pairs-cons raw _ _ (hex_text 0 bs)
      (u8_from_hex_pair _ _ (hex_digit-hex_char (b / 16) (omega arith))
          (hex_digit-hex_char (b % 16) (omega arith)) (omega arith) (omega arith)
        ∙ ap ok (omega arith))
      (hex_pairs-hex_text raw bs hs)

cleaned-hex_text : (k : ℕ) (bs : Bytes) → AreBytes bs → cleaned (hex_text k bs) ≡ hex_text 0 bs
unfolding cleaned
cleaned-hex_text k bs h =
    rw (trim_self (hex_text k bs) (hex_text-plain k bs h), strip_hex_prefix-hex_text k bs h)
      (keep-hex_text is_hex_content colon_dropped digit_kept k bs h)

-- Bytes written in hex, with any number of colons in front of each, are read back.
pub parse_hex_string-hex_text :
    (k : ℕ) (bs : Bytes) → AreBytes bs → parse_hex_string (hex_text k bs) ≡ ok bs
parse_hex_string-hex_text k [] h =
    parse_hex_string_nil (hex_text k []) (cleaned-hex_text k [] h ∙ unfold hex_text in refl)
parse_hex_string-hex_text k (b ∷ bs) h =
    let raw = hex_text k (b ∷ bs) in
    let s = hex_text 0 (b ∷ bs) in
    parse_hex_string-cleaned raw s (cleaned-hex_text k (b ∷ bs) h) (hex_text-cons-ne-nil b bs)
    ∙ run_even raw s (check_hex-hex_text raw (b ∷ bs) h) (omega (arith, length-hex_text (b ∷ bs)))
    ∙ hex_pairs-hex_text raw (b ∷ bs) h
