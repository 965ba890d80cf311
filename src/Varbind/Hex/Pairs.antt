-- ===== src/Varbind/Hex/Pairs.antt =====
-- The two loops of `parse_hex_string`, over digits and over pairs.
use snmptrap_rs.Prelude.{
  ℕ, suc, ◌+◌, ◌*◌, ◌/◌, ◌%◌, ◌<◌, ◌≡◌, refl, ◌∙◌, ap, ◌⊎◌, inl, inr, true, false, [], ◌∷◌, ◌++◌,
  map, none, some, arith, Outcome, ok, err, All, Bytes, AreBytes, length, is_some, ◌==◌,
  Option-cases,
}
use snmptrap_rs.Text.{Str, str_len, as_bytes, utf8, ascii_lower}
use snmptrap_rs.Text.Hex.{hex_digit, hex_char, hex_text, hex_char_of_digit}
use snmptrap_rs.Errors.{HexError, non_hex}
use snmptrap_rs.Varbind.Hex.{u8_from_hex, hex_pairs, check_hex}

pub u8_from_hex_pair :
    (a b : ℕ) {x y : ℕ}
    → hex_digit a ≡ some x
    → hex_digit b ≡ some y
    → x < 16
    → y < 16
    → u8_from_hex (a ∷ b ∷ []) ≡ ok (x * 16 + y)
unfolding u8_from_hex
u8_from_hex_pair a b {x} {y} ha hb hx hy =
    let not_plus : (a == b'+') ≡ false = unfold hex_digit in ground arith in
    rw not_plus (ground arith)

check_hex-cons :
    (raw : Str) (c : ℕ) (s : Str)
    → check_hex raw (c ∷ s) ≡ ok tt
    → (n : ℕ) × (hex_digit c ≡ some n) × (check_hex raw s ≡ ok tt)
unfolding check_hex
check_hex-cons raw c s h = elim (Option-cases (hex_digit c)) [
  | inl e ↦ absurd (bad (rw e at h))
  | inr (n, e) ↦ (n, e, rw e at h)
]
  where
    bad : ◌≡◌ {A = Outcome HexError (Unit {0})} (err (non_hex c raw)) (ok tt) → ⊥
    bad e = cc

pub hex_pairs-cons :
    (raw : Str) (a b : ℕ) (s : Str) {x : ℕ} {bs : Bytes}
    → u8_from_hex (a ∷ b ∷ []) ≡ ok x
    → hex_pairs raw s ≡ ok bs
    → hex_pairs raw (a ∷ b ∷ s) ≡ ok (x ∷ bs)
unfolding hex_pairs
hex_pairs-cons raw a b s ha hs = rw (ha, hs)

pair_text :
    (x y : ℕ)
    → x < 16
    → y < 16
    → (hex_char ((x * 16 + y) / 16) ≡ hex_char x) × (hex_char ((x * 16 + y) % 16) ≡ hex_char y)
pair_text x y hx hy = (ap hex_char (omega arith), ap hex_char (omega arith))

hex_text-pair :
    (x y : ℕ) (bs : Bytes) (a b : ℕ) (s : Str)
    → x < 16
    → y < 16
    → hex_char x ≡ ascii_lower a
    → hex_char y ≡ ascii_lower b
    → hex_text 0 bs ≡ map ascii_lower s
    → hex_text 0 ((x * 16 + y) ∷ bs) ≡ map ascii_lower (a ∷ b ∷ s)
unfolding hex_text
hex_text-pair x y bs a b s x_lt y_lt ha hb text =
    let (hi, lo) = pair_text x y x_lt y_lt in λ i. (hi ∙ ha) i ∷ (lo ∙ hb) i ∷ text i

pub hex_pairs_lem :
    (raw s : Str)
    → check_hex raw s ≡ ok tt
    → length s % 2 ≡ 0
    → (bs : Bytes) × (hex_pairs raw s ≡ ok bs) × AreBytes bs × (hex_text 0 bs ≡ map ascii_lower s)
hex_pairs_lem raw [] h e = ([], unfold hex_pairs in refl, tt, unfold hex_text in refl)
hex_pairs_lem raw (a ∷ []) h e = absurd (omega arith)
hex_pairs_lem raw (a ∷ b ∷ s) h e =
    let (x, hx, h1) = check_hex-cons raw a (b ∷ s) h in
    let (y, hy, h2) = check_hex-cons raw b s h1 in
    let (x_lt, x_text) = hex_char_of_digit a hx in
    let (y_lt, y_text) = hex_char_of_digit b hy in
    let (bs, hb, small, text) = hex_pairs_lem raw s h2 (omega arith) in
    (
      (x * 16 + y) ∷ bs,
      hex_pairs-cons raw a b s (u8_from_hex_pair a b hx hy x_lt y_lt) hb,
      (omega arith, small),
      hex_text-pair x y bs a b s x_lt y_lt x_text y_text text,
    )

length-utf8 : (c : ℕ) → c < 128 → utf8 c ≡ c ∷ []
unfolding utf8
length-utf8 c h = ground arith

hex_digit_ascii : (c : ℕ) {n : ℕ} → hex_digit c ≡ some n → c < 128
unfolding hex_digit
hex_digit_ascii c h = ground arith

str_len-cons : (c : ℕ) (s : Str) → c < 128 → str_len (c ∷ s) ≡ suc (str_len s)
unfolding as_bytes
str_len-cons c s h = rw (length-utf8 c h)

pub str_len_hex : (raw s : Str) → check_hex raw s ≡ ok tt → str_len s ≡ length s
str_len_hex raw [] h = unfold as_bytes in refl
str_len_hex raw (c ∷ s) h =
    let (n, hc, hs) = check_hex-cons raw c s h in
    str_len-cons c s (hex_digit_ascii c hc) ∙ ap suc (str_len_hex raw s hs)

-- The text up to the first character that is no hex digit.
abbrev pub HasBadChar : Str → ℕ → Type 0
HasBadChar s c =
    (pre : Str) × (post : Str) × (s ≡ pre ++ c ∷ post)
    × All (λ d. is_some (hex_digit d) ≡ true) pre
    × (hex_digit c ≡ none)

pub check_hex-cases :
    (raw s : Str)
    → (check_hex raw s ≡ ok tt)
      ⊎ ((c : ℕ) × (check_hex raw s ≡ err (non_hex c raw)) × HasBadChar s c)
check_hex-cases raw [] = unfold check_hex in inl refl
check_hex-cases raw (c ∷ s) = go (check_hex-cases raw s) (Option-cases (hex_digit c))
  where
    go :
        (check_hex raw s ≡ ok tt)
          ⊎ ((d : ℕ) × (check_hex raw s ≡ err (non_hex d raw)) × HasBadChar s d)
        → (hex_digit c ≡ none) ⊎ ((n : ℕ) × (hex_digit c ≡ some n))
        → (check_hex raw (c ∷ s) ≡ ok tt)
          ⊎ ((d : ℕ) × (check_hex raw (c ∷ s) ≡ err (non_hex d raw)) × HasBadChar (c ∷ s) d)
    go _ (inl e) = inr (c, (unfold check_hex in rw e), ([], s, refl, tt, e))
    go (inl h) (inr (n, e)) = inl (unfold check_hex in rw (e, h))
    go (inr (d, h, (pre, post, split, good, bad))) (inr (n, e)) = inr (
      d,
      (unfold check_hex in rw (e, h)),
      (c ∷ pre, post, ap (λ (t : Str). c ∷ t) split, ((rw e), good), bad),
    )
