-- ===== src/Varbind/Hex/Cases.antt =====
-- The outcomes of `parse_hex_string`.
use snmptrap_rs.Prelude.{
  ℕ, ◌%◌, ◌≡◌, ◌≢◌, refl, ◌∙◌, subst, ◌⊎◌, inl, inr, not, [], ◌∷◌, map, arith, ok, err, ◌>>◌,
  reject_if, Bytes, AreBytes, length, ◌==◌,
}
use snmptrap_rs.Text.{Str, str_len, ascii_lower}
use snmptrap_rs.Text.Hex.{hex_text}
use snmptrap_rs.Errors.{non_hex, odd_count}
use snmptrap_rs.Varbind.Hex.{hex_pairs, check_hex, cleaned, parse_hex_string}
use snmptrap_rs.Varbind.Hex.Pairs.{hex_pairs_lem, str_len_hex, check_hex-cases, HasBadChar}

module _ (raw : Str) where
  pub parse_hex_string-cleaned :
      (s : Str)
      → cleaned raw ≡ s
      → s ≢ []
      → parse_hex_string raw ≡ (do
        check_hex raw s
        reject_if (not (str_len s % 2 == 0)) (odd_count raw (str_len s))
        hex_pairs raw s)
  unfolding parse_hex_string
  parse_hex_string-cleaned [] e h = absurd (h refl)
  parse_hex_string-cleaned (c ∷ s) e h = rw e

  pub parse_hex_string_nil : cleaned raw ≡ [] → parse_hex_string raw ≡ ok []
  unfolding parse_hex_string
  parse_hex_string_nil e = rw e

  parity : (n : ℕ) → (n % 2 ≡ 0) ⊎ (n % 2 ≡ 1)
  parity n = omega arith

  abbrev Cases : Str → Type 0
  Cases s =
      ((bs : Bytes) × (parse_hex_string raw ≡ ok bs)
        × AreBytes bs
        × (hex_text 0 bs ≡ map ascii_lower s))
      ⊎ ((c : ℕ) × (parse_hex_string raw ≡ err (non_hex c raw)) × HasBadChar s c)
      ⊎ ((parse_hex_string raw ≡ err (odd_count raw (length s))) × (length s % 2 ≡ 1))

  pub run_even :
      (s : Str)
      → check_hex raw s ≡ ok tt
      → length s % 2 ≡ 0
      → (do
        check_hex raw s
        reject_if (not (str_len s % 2 == 0)) (odd_count raw (str_len s))
        hex_pairs raw s)
        ≡ hex_pairs raw s
  run_even s h e = rw (h, str_len_hex raw s h, e)

  run_odd :
      (s : Str)
      → check_hex raw s ≡ ok tt
      → length s % 2 ≡ 1
      → (do
        check_hex raw s
        reject_if (not (str_len s % 2 == 0)) (odd_count raw (str_len s))
        hex_pairs raw s)
        ≡ err (odd_count raw (length s))
  run_odd s h e = rw (h, str_len_hex raw s h, e)

  run_bad :
      (s : Str) (c : ℕ)
      → check_hex raw s ≡ err (non_hex c raw)
      → (do
        check_hex raw s
        reject_if (not (str_len s % 2 == 0)) (odd_count raw (str_len s))
        hex_pairs raw s)
        ≡ err (non_hex c raw)
  run_bad s c h = rw h

  Cases-of : (s : Str) → cleaned raw ≡ s → s ≢ [] → Cases s
  Cases-of s e ne = elim (check_hex-cases raw s) [
    | inr (c, h, bad) ↦ inr (inl (c, parse_hex_string-cleaned s e ne ∙ run_bad s c h, bad))
    | inl h ↦ elim (parity (length s)) [
      | inl even ↦
          let (bs, hb, small, text) = hex_pairs_lem raw s h even in
          inl (bs, parse_hex_string-cleaned s e ne ∙ run_even s h even ∙ hb, small, text)
      | inr odd ↦ inr (inr (parse_hex_string-cleaned s e ne ∙ run_odd s h odd, odd))
    ]
  ]

  Cases-at : (s : Str) → cleaned raw ≡ s → Cases s
  Cases-at [] e = inl ([], parse_hex_string_nil e, tt, unfold hex_text in refl)
  Cases-at (c ∷ s) e = Cases-of (c ∷ s) e (λ h. cc)

  -- Every text has one of three outcomes. The bytes whose hex text is the text without its prefix
  -- and separators, in lower case; a refusal that names the first character that is no hex digit;
  -- or a refusal of an odd number of digits.
  pub parse_hex_string-cases :
      ((bs : Bytes) × (parse_hex_string raw ≡ ok bs)
        × AreBytes bs
        × (hex_text 0 bs ≡ map ascii_lower (cleaned raw)))
      ⊎ ((c : ℕ) × (parse_hex_string raw ≡ err (non_hex c raw)) × HasBadChar (cleaned raw) c)
      ⊎ ((parse_hex_string raw ≡ err (odd_count raw (length (cleaned raw))))
          × (length (cleaned raw) % 2 ≡ 1))
  parse_hex_string-cases = Cases-at (cleaned raw) refl

pub parse_hex_string-AreBytes :
    (raw : Str) {out : Bytes} → parse_hex_string raw ≡ ok out → AreBytes out
parse_hex_string-AreBytes raw {out} e = elim (parse_hex_string-cases raw) [
  | inl (bs, eb, small, text) ↦ let same : bs ≡ out = cc in subst AreBytes same small
  | inr (inl (c, ec, bad)) ↦ cc
  | inr (inr (eo, odd)) ↦ cc
]
