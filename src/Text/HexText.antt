-- ===== src/Text/HexText.antt =====
-- Hex text under trimming, prefix stripping and the removal of separators.
use snmptrap_rs.Prelude.{
  ℕ, zero, suc, ◌*◌, ◌/◌, ◌%◌, ◌<◌, ◌≡◌, ◌≢◌, refl, ◌∙◌, ap, Bool, true, false, [], ◌∷◌, ◌++◌,
  arith, All, All-append, Bytes, AreBytes, length, replicate, keep,
}
use snmptrap_rs.Text.Chars.{Str, is_whitespace, as_bytes, utf8}
use snmptrap_rs.Text.Hex.{hex_char, hex_char_plain, hex_text, strip_hex_prefix}

pub hex_text-plain :
    (k : ℕ) (bs : Bytes) → AreBytes bs → All (λ c. is_whitespace c ≡ false) (hex_text k bs)
unfolding hex_text is_whitespace
hex_text-plain k [] h = tt
hex_text-plain k (b ∷ bs) (hb, hs) = All-append _ (replicate k b':') _ (colons k) (
  (hex_char_plain (b / 16) (omega arith)).0,
  ((hex_char_plain (b % 16) (omega arith)).0, hex_text-plain k bs hs),
)
  where
    colons : (k : ℕ) → All (λ c. is_whitespace c ≡ false) (replicate k b':')
    colons zero = tt
    colons (suc k) = (refl, colons k)

module _ (q : ℕ → Bool) (colon : q b':' ≡ false)
    (digit : (n : ℕ) → n < 16 → q (hex_char n) ≡ true) where
  keep_colons : (k : ℕ) (s : Str) → keep q (replicate k b':' ++ s) ≡ keep q s
  unfolding keep
  keep_colons zero s = refl
  keep_colons (suc k) s = rw colon (keep_colons k s)

  keep_digit : (n : ℕ) (s : Str) → n < 16 → keep q (hex_char n ∷ s) ≡ hex_char n ∷ keep q s
  unfolding keep
  keep_digit n s h = rw (digit n h)

  -- Only the colons go.
  pub keep-hex_text : (k : ℕ) (bs : Bytes) → AreBytes bs → keep q (hex_text k bs) ≡ hex_text 0 bs
  unfolding hex_text
  keep-hex_text k [] h = unfold keep in refl
  keep-hex_text k (b ∷ bs) (hb, hs) =
      keep_colons k _
      ∙ keep_digit (b / 16) _ (omega arith)
      ∙ ap (λ (t : Str). hex_char (b / 16) ∷ t)
          (keep_digit (b % 16) _ (omega arith)
            ∙ ap (λ (t : Str). hex_char (b % 16) ∷ t) (keep-hex_text k bs hs))

hex_char_not_x : (n : ℕ) → n < 16 → (hex_char n ≢ b'x') × (hex_char n ≢ b'X')
unfolding hex_char
hex_char_not_x n h = ground arith

pub strip_hex_prefix-hex_text :
    (k : ℕ) (bs : Bytes) → AreBytes bs → strip_hex_prefix (hex_text k bs) ≡ hex_text k bs
unfolding strip_hex_prefix hex_text
strip_hex_prefix-hex_text k [] h = elim k [ zero ↦ refl | suc j ↦ refl ]
strip_hex_prefix-hex_text zero (b ∷ bs) (hb, hs) =
    let (x, y) = hex_char_not_x (b % 16) (omega arith) in ground arith
strip_hex_prefix-hex_text (suc k) (b ∷ bs) h = refl

pub length-hex_text : (bs : Bytes) → length (hex_text 0 bs) ≡ 2 * length bs
unfolding hex_text
length-hex_text [] = omega arith
length-hex_text (b ∷ bs) = omega (arith, length-hex_text bs)

pub hex_text-cons-ne-nil : (b : ℕ) (bs : Bytes) → hex_text 0 (b ∷ bs) ≢ []
unfolding hex_text
hex_text-cons-ne-nil b bs = λ h. cc

utf8-hex_char : (n : ℕ) → n < 16 → utf8 (hex_char n) ≡ hex_char n ∷ []
unfolding utf8 hex_char
utf8-hex_char n h = ground arith

-- Hex text is ASCII: its bytes are its characters.
pub as_bytes-hex_text : (bs : Bytes) → AreBytes bs → as_bytes (hex_text 0 bs) ≡ hex_text 0 bs
unfolding as_bytes hex_text
as_bytes-hex_text [] h = refl
as_bytes-hex_text (b ∷ bs) (hb, hs) = rw (
  utf8-hex_char (b / 16) (omega arith),
  utf8-hex_char (b % 16) (omega arith),
  as_bytes-hex_text bs hs,
)
