-- ===== src/Debug/Rows.antt =====
-- The layout of one row of the dump of src/debug.rs: where its columns stand, and what they hold.
use snmptrap_rs.Prelude.{
  ℕ, zero, suc, ◌+◌, ◌-◌, ◌*◌, ◌/◌, ◌%◌, ◌≤◌, ◌<◌, ◌≡◌, refl, ◌∙◌, ◌⊎◌, inl, inr, arith, Bool, true,
  not, [], ◌∷◌, ◌++◌, Bytes, AreBytes, length, length-append, length-replicate, replicate, keep,
  ◌==◌, Bool-cases, append_assoc,
}
use snmptrap_rs.Text.{Str}
use snmptrap_rs.Text.Hex.{hex_char, hex_text}
use snmptrap_rs.Debug.{
  space, hex_digits, show_offset, gap, hex_columns, padding, hex_area, row_label,
}

-- A power of 16.
abbrev power : ℕ → ℕ
power zero = 1
power (suc k) = 16 * power k

pub sixteen_cases : (n : ℕ) → (n < 16) ⊎ (16 ≤ n)
sixteen_cases n = omega arith

pub hex_digits_step :
    (f n : ℕ) → 16 ≤ n → hex_digits (suc f) n ≡ hex_digits f (n / 16) ++ hex_char (n % 16) ∷ []
unfolding hex_digits
hex_digits_step f n h = ground arith

pub hex_digits_last : (f n : ℕ) → n < 16 → hex_digits (suc f) n ≡ hex_char n ∷ []
unfolding hex_digits
hex_digits_last f n h = ground arith

length-hex_digits : (f k n : ℕ) → n < power (suc k) → length (hex_digits f n) ≤ suc k
length-hex_digits zero k n h = unfold hex_digits in omega arith
length-hex_digits (suc f) zero n h = rw (hex_digits_last f n (omega arith)) (omega arith)
length-hex_digits (suc f) (suc k) n h = elim (sixteen_cases n) [
  | inl small ↦ rw (hex_digits_last f n small) (omega arith)
  | inr large ↦
      let shorter = length-hex_digits f k (n / 16) (omega arith) in
      rw (hex_digits_step f n large)
        (omega (arith, shorter, length-append (hex_digits f (n / 16)) (hex_char (n % 16) ∷ [])))
]

-- Eight digits, up to 4 GiB.
length-show_offset : (n : ℕ) → n < 4294967296 → length (show_offset n) ≡ 8
unfolding show_offset
length-show_offset n h =
    let s = hex_digits (suc n) n in
    let short : length s ≤ 8 = length-hex_digits (suc n) 7 n (omega arith) in
    let zero_digit : ℕ = b'0' in
    let zeros : length (replicate (8 - length s) zero_digit) ≡ 8 - length s =
      length-replicate _ _ in
    length-append (replicate (8 - length s) zero_digit) s ∙ omega (arith, short, zeros)

pub length-row_label : (o : ℕ) → o * 16 < 4294967296 → length (row_label o) ≡ 10
length-row_label o h =
    omega (
      arith,
      length-append (show_offset (o * 16)) (b':' ∷ space ∷ []),
      length-show_offset (o * 16) h,
    )

-- How many gaps stand among `n` columns from the place `i` on.
abbrev gaps : ℕ → ℕ → ℕ
gaps i zero = 0
gaps i (suc n) = length (gap i) + gaps (suc i) n

length-padding : (i n : ℕ) → length (padding i n) ≡ 3 * n + gaps i n
unfolding padding
length-padding i zero = refl
length-padding i (suc n) =
    length-append (gap i) (space ∷ space ∷ space ∷ padding (suc i) n)
    ∙ omega (arith, length-padding (suc i) n)

length-hex_columns :
    (i : ℕ) (bs : Bytes) → length (hex_columns i bs) ≡ 3 * length bs + gaps i (length bs)
unfolding hex_columns
length-hex_columns i [] = refl
length-hex_columns i (b ∷ bs) =
    length-append (gap i) (hex_char (b / 16) ∷ hex_char (b % 16) ∷ space ∷ hex_columns (suc i) bs)
    ∙ omega (arith, length-hex_columns (suc i) bs)

gaps_eq : (i j m n : ℕ) → i ≡ j → m ≡ n → gaps i m ≡ gaps j n
gaps_eq i j m n e f = λ k. gaps (e k) (f k)

gaps_add : (i m n : ℕ) → gaps i (m + n) ≡ gaps i m + gaps (i + m) n
gaps_add i zero n =
    omega
      (arith, gaps_eq i i (0 + n) n refl (omega arith), gaps_eq (i + 0) i n n (omega arith) refl)
gaps_add i (suc m) n = omega (
  arith,
  gaps_add (suc i) m n,
  gaps_eq (suc i + m) (i + suc m) n n (omega arith) refl,
  gaps_eq i i (suc m + n) (suc (m + n)) refl (omega arith),
)

-- The columns of every row take the same room.
pub length-hex_area : (chunk : Bytes) → length chunk ≤ 16 → length (hex_area chunk) ≡ 49
length-hex_area chunk h =
    let n = length chunk in
    let all = gaps_eq 0 0 (n + (16 - n)) 16 refl (omega arith) in
    let from = gaps_eq (0 + n) n (16 - n) (16 - n) (omega arith) refl in
    length-append (hex_columns 0 chunk) (padding n (16 - n))
    ∙ omega (
      arith,
      length-hex_columns 0 chunk,
      length-padding n (16 - n),
      all,
      from,
      gaps_add 0 n (16 - n),
    )

-- What is left of the columns without the spaces.
abbrev pub not_space : ℕ → Bool
not_space c = not (c == space)

pub hex_char_shown : (n : ℕ) → n < 16 → (not_space (hex_char n) ≡ true) × (33 ≤ hex_char n)
unfolding hex_char
hex_char_shown n h = ground arith

pub gap_cases : (i : ℕ) → (gap i ≡ []) ⊎ (gap i ≡ space ∷ [])
gap_cases i = elim (Bool-cases (i == 8)) [ inl h ↦ inr (rw h) | inr h ↦ inl (rw h) ]

keep-gap : (i : ℕ) (s : Str) → keep not_space (gap i ++ s) ≡ keep not_space s
unfolding keep
keep-gap i s = elim (gap_cases i) [ inl h ↦ rw h | inr h ↦ rw h ]

keep-padding : (i n : ℕ) → keep not_space (padding i n) ≡ []
unfolding keep padding
keep-padding i zero = refl
keep-padding i (suc n) =
    keep-gap i (space ∷ space ∷ space ∷ padding (suc i) n) ∙ keep-padding (suc i) n

keep-columns :
    (i : ℕ) (bs : Bytes) (s : Str)
    → AreBytes bs
    → keep not_space s ≡ []
    → keep not_space (hex_columns i bs ++ s) ≡ hex_text 0 bs
unfolding keep hex_columns hex_text
keep-columns i [] s small h = h
keep-columns i (b ∷ bs) s (hb, small) h =
    let (hi, ge) = hex_char_shown (b / 16) (omega arith) in
    let (lo, ge') = hex_char_shown (b % 16) (omega arith) in
    let rest = keep-columns (suc i) bs s small h in
    rw (append_assoc (gap i) _ s, keep-gap i _, hi, lo, rest)

-- Without the spaces, the columns of a row are the hex text of its bytes.
pub keep-hex_area :
    (chunk : Bytes) → AreBytes chunk → keep not_space (hex_area chunk) ≡ hex_text 0 chunk
keep-hex_area chunk h = keep-columns 0 chunk _ h (keep-padding (length chunk) (16 - length chunk))
