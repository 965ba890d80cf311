-- ===== src/Text/Hex.antt =====
-- Hexadecimal digits, the `0x` prefix, and the hex text that the parsers of src/varbind.rs and
-- src/engine.rs read back.
use mathlib.Core.List.{reverse, reverse-reverse, reverse-append}
use snmptrap_rs.Prelude.{
  ℕ, ◌+◌, ◌-◌, ◌/◌, ◌%◌, ◌<◌, ◌≡◌, refl, false, ◌&&◌, [], ◌∷◌, ◌++◌, Option, none, some, arith, All,
  All-append, Bytes, ltb, leb, ◌==◌, if◌then◌else◌, replicate,
}
use snmptrap_rs.Text.Chars.{Str, codes, trim, trim_start, strip_prefix, is_whitespace, ascii_lower}

-- `char::to_digit(16)`
unfoldable pub hex_digit : ℕ → Option ℕ
hex_digit c =
    if leb b'0' c && leb c b'9'
    then some (c - b'0')
    else if leb b'a' c && leb c b'f'
    then some (c - b'a' + 10)
    else if leb b'A' c && leb c b'F'
    then some (c - b'A' + 10)
    else none

or_else_prefix : Option Str → Option Str → Str → Str
or_else_prefix (some r) o s = r
or_else_prefix none (some r) s = r
or_else_prefix none none s = s

-- `strip_prefix("0x").or_else(|| strip_prefix("0X")).unwrap_or(s)`
unfoldable pub strip_hex_prefix : Str → Str
unfolding or_else_prefix strip_prefix
strip_hex_prefix s = or_else_prefix (strip_prefix (codes "0x") s) (strip_prefix (codes "0X") s) s

-- The lower-case digit of a number below 16.
unfoldable pub hex_char : ℕ → ℕ
hex_char n = if ltb n 10 then b'0' + n else b'a' + (n - 10)

-- Bytes in hex, with `k` colons in front of each.
unfoldable pub hex_text : ℕ → Bytes → Str
hex_text k [] = []
hex_text k (b ∷ bs) = replicate k b':' ++ hex_char (b / 16) ∷ hex_char (b % 16) ∷ hex_text k bs

-- The characters of a hex text.
abbrev pub IsHexChar : ℕ → Type 0
IsHexChar c = (n : ℕ) × (n < 16) × (hex_char n ≡ c)

pub hex_digit-hex_char : (n : ℕ) → n < 16 → hex_digit (hex_char n) ≡ some n
unfolding hex_digit hex_char
hex_digit-hex_char n h = ground arith

-- A digit names its value, whatever its case.
pub hex_char_of_digit :
    (c : ℕ) {n : ℕ} → hex_digit c ≡ some n → (n < 16) × (hex_char n ≡ ascii_lower c)
unfolding hex_digit hex_char ascii_lower
hex_char_of_digit c h = ground arith

pub hex_char_plain :
    (n : ℕ)
    → n < 16
    → (is_whitespace (hex_char n) ≡ false) × ((hex_char n == b':') ≡ false) × (hex_char n < 103)
unfolding hex_char is_whitespace
hex_char_plain n h = ground arith

-- Trimming leaves a text without white space alone.
trim_start_self : (s : Str) → All (λ c. is_whitespace c ≡ false) s → trim_start is_whitespace s ≡ s
unfolding trim_start
trim_start_self [] h = refl
trim_start_self (c ∷ s) (h, hs) = rw h

All-reverse :
    (s : Str)
    → All (λ c. is_whitespace c ≡ false) s
    → All (λ c. is_whitespace c ≡ false) (reverse s)
All-reverse [] h = tt
All-reverse (c ∷ s) (h, hs) =
    rw (reverse-append (c ∷ []) s) (All-append _ (reverse s) (c ∷ []) (All-reverse s hs) (h, tt))

pub trim_self : (s : Str) → All (λ c. is_whitespace c ≡ false) s → trim s ≡ s
unfolding trim
trim_self s h =
    rw (trim_start_self s h, trim_start_self (reverse s) (All-reverse s h)) (reverse-reverse s)
