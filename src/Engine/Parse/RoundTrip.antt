-- ===== src/Engine/Parse/RoundTrip.antt =====
-- `parse_user_input` reads back the hex text of an identifier.
use snmptrap_rs.Prelude.{
  ℕ, ◌*◌, ◌/◌, ◌%◌, ◌≤◌, ◌<◌, ◌≡◌, ◌≢◌, refl, ◌∙◌, ap, true, false, [], ◌∷◌, arith, ok, Bytes,
  AreBytes, length, is_empty,
}
use snmptrap_rs.Text.{Str, as_bytes, str_len, is_ascii_whitespace}
use snmptrap_rs.Text.HexText.{
  hex_text-plain, keep-hex_text, strip_hex_prefix-hex_text, length-hex_text, as_bytes-hex_text,
  hex_text-cons-ne-nil,
}
use snmptrap_rs.Text.Hex.{hex_char, hex_text, trim_self}
use snmptrap_rs.Engine.Id.{EngineId, IsEngineId, min_engine_id, max_engine_id}
use snmptrap_rs.Engine.Parse.{
  decode_hex_nibble, join_nibbles, decode_pairs, is_id_content, cleaned, decode_id,
  parse_user_input,
}
use snmptrap_rs.Engine.Parse.Laws.{join_nibbles_lem, decode_hex_nibble-hex_char}

colon_dropped : is_id_content b':' ≡ false
unfolding is_ascii_whitespace
colon_dropped = refl

digit_kept : (n : ℕ) → n < 16 → is_id_content (hex_char n) ≡ true
unfolding is_ascii_whitespace hex_char
digit_kept n h = ground arith

cleaned-hex_text : (k : ℕ) (bs : Bytes) → AreBytes bs → cleaned (hex_text k bs) ≡ hex_text 0 bs
unfolding cleaned
cleaned-hex_text k bs h =
    rw (trim_self (hex_text k bs) (hex_text-plain k bs h), strip_hex_prefix-hex_text k bs h)
      (keep-hex_text is_id_content colon_dropped digit_kept k bs h)

decode_pairs-cons :
    (a b : ℕ) (s : Bytes) {hi lo : ℕ} {rest : Bytes}
    → decode_hex_nibble a ≡ ok hi
    → decode_hex_nibble b ≡ ok lo
    → decode_pairs s ≡ ok rest
    → decode_pairs (a ∷ b ∷ s) ≡ ok (join_nibbles hi lo ∷ rest)
unfolding decode_pairs
decode_pairs-cons a b s ha hb hs = rw (ha, hb, hs)

decode_pairs-hex_text : (bs : Bytes) → AreBytes bs → decode_pairs (hex_text 0 bs) ≡ ok bs
unfolding hex_text
decode_pairs-hex_text [] h = unfold decode_pairs in refl
decode_pairs-hex_text (b ∷ bs) (hb, hs) =
    decode_pairs-cons _ _ (hex_text 0 bs) (decode_hex_nibble-hex_char (b / 16) (omega arith))
      (decode_hex_nibble-hex_char (b % 16) (omega arith)) (decode_pairs-hex_text bs hs)
    ∙ ap (λ n. ok (n ∷ bs))
        (join_nibbles_lem (b / 16) (b % 16) (omega arith) (omega arith) ∙ omega arith)

decode_id_accepts :
    (s : Str) (bs : Bytes)
    → is_empty s ≡ false
    → str_len s ≡ 2 * length bs
    → decode_pairs (as_bytes s) ≡ ok bs
    → min_engine_id ≤ length bs
    → length bs ≤ max_engine_id
    → decode_id s ≡ ok (record { bytes = bs })
unfolding decode_id
decode_id_accepts s bs ne len d lo hi = ground arith

not_empty : (s : Str) → s ≢ [] → is_empty s ≡ false
not_empty [] h = absurd (h refl)
not_empty (c ∷ s) h = refl

long_not_nil : (bs : Bytes) → min_engine_id ≤ length bs → hex_text 0 bs ≢ []
long_not_nil [] h = absurd (omega arith)
long_not_nil (b ∷ bs) h = hex_text-cons-ne-nil b bs

-- An identifier of 5 to 32 octets, written in hex with any number of colons in front of each octet, is
-- read back verbatim.
pub parse_user_input-hex_text :
    (k : ℕ) (eid : EngineId) → IsEngineId eid → parse_user_input (hex_text k eid.bytes) ≡ ok eid
unfolding parse_user_input
parse_user_input-hex_text k eid v =
    let bs = eid.bytes in
    let ascii = as_bytes-hex_text bs v.octets in
    rw (cleaned-hex_text k bs v.octets) (
      decode_id_accepts (hex_text 0 bs) bs (not_empty _ (long_not_nil bs v.min_len))
        (ap length ascii ∙ length-hex_text bs)
        (ap decode_pairs ascii ∙ decode_pairs-hex_text bs v.octets) v.min_len v.max_len)
