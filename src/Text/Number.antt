-- ===== src/Text/Number.antt =====
-- `str::parse` into the integer types, and the decimal print that it reads back.
use snmptrap_rs.Prelude.{
  ℕ, zero, suc, ◌+◌, ◌-◌, ◌*◌, ◌/◌, ◌%◌, ◌^◌, ◌≤◌, ◌<◌, ◌≡◌, ◌≢◌, refl, ◌∙◌, Bool, true, false,
  ◌&&◌, ◌||◌, [], ◌∷◌, ◌++◌, append_assoc, append-nil, arith, ap, sym, ◌⊎◌, Outcome, ok, err, ◌>>=◌,
  All, All-append, ltb, leb, ◌==◌, if◌then◌else◌, inl, inr,
}
use snmptrap_rs.Prelude.Int.{ℤ, pos, negsuc}
use snmptrap_rs.Text.Chars.{Str}

-- `std::num::IntErrorKind`
pub data IntError : Type 0 where
  empty invalid_digit pos_overflow neg_overflow : IntError

unfoldable pub is_digit : ℕ → Bool
is_digit c = leb b'0' c && leb c b'9'

-- The digits after the sign: at a digit the value must stay within `limit`.
unfoldable pub scan : ℕ → IntError → Str → ℕ → Outcome IntError ℕ
unfolding is_digit
scan limit over [] n = ok n
scan limit over (c ∷ s) n =
    let m = n * 10 + (c - b'0') in
    let rest = scan limit over s m in
    if is_digit c then (if ltb limit m then err over else rest) else err invalid_digit

-- `parse::<u16>`, `parse::<u32>` and `parse::<u64>`, by the largest value of the type.
unfoldable pub parse_uint : ℕ → Str → Outcome IntError ℕ
unfolding scan
parse_uint limit [] = err empty
parse_uint limit (c ∷ []) =
    if c == b'+' || c == b'-' then err invalid_digit else scan limit pos_overflow (c ∷ []) 0
parse_uint limit (c ∷ d ∷ s) =
    if c == b'+' then scan limit pos_overflow (d ∷ s) 0 else scan limit pos_overflow (c ∷ d ∷ s) 0

abbrev pub max_u16 : ℕ
max_u16 = 2 ^ 16 - 1

abbrev pub max_u32 : ℕ
max_u32 = 2 ^ 32 - 1

abbrev pub max_u64 : ℕ
max_u64 = 2 ^ 64 - 1

abbrev pub negate : ℕ → ℤ
negate n = if n == 0 then pos 0 else negsuc (n - 1)

-- `parse::<i32>`
unfoldable pub parse_i32 : Str → Outcome IntError ℤ
unfolding scan
parse_i32 [] = err empty
parse_i32 (c ∷ []) =
    if c == b'+' || c == b'-'
    then err invalid_digit
    else do n ← scan (2 ^ 31 - 1) pos_overflow (c ∷ []) 0; ok (pos n)
parse_i32 (c ∷ d ∷ s) =
    if c == b'-'
    then (do n ← scan (2 ^ 31) neg_overflow (d ∷ s) 0; ok (negate n))
    else if c == b'+'
    then (do n ← scan (2 ^ 31 - 1) pos_overflow (d ∷ s) 0; ok (pos n))
    else (do n ← scan (2 ^ 31 - 1) pos_overflow (c ∷ d ∷ s) 0; ok (pos n))

-- The decimal print, the round from the last digit on; the fuel is more than the number.
digits : ℕ → ℕ → Str
digits zero n = []
digits (suc f) n = elim (ltb n 10) [
  | true ↦ (b'0' + n) ∷ []
  | false ↦ digits f (n / 10) ++ (b'0' + n % 10) ∷ []
]

unfoldable pub print : ℕ → Str
unfolding digits
print n = digits (suc n) n

abbrev pub IsDigit : ℕ → Type 0
IsDigit c = (b'0' ≤ c) × (c ≤ b'9')

digits_last : (f n : ℕ) → n < 10 → digits (suc f) n ≡ (b'0' + n) ∷ []
unfolding digits
digits_last f n h = ground arith

digits_step : (f n : ℕ) → 10 ≤ n → digits (suc f) n ≡ digits f (n / 10) ++ (b'0' + n % 10) ∷ []
unfolding digits
digits_step f n h = ground arith

ten_cases : (n : ℕ) → (n < 10) ⊎ (10 ≤ n)
ten_cases n = omega arith

digits-IsDigit : (f n : ℕ) → All IsDigit (digits f n)
digits-IsDigit zero n = unfold digits in tt
digits-IsDigit (suc f) n = elim (ten_cases n) [
  | inl h ↦ rw (digits_last f n h) (omega arith)
  | inr h ↦
      rw (digits_step f n h)
        (All-append IsDigit (digits f (n / 10)) _ (digits-IsDigit f (n / 10)) (omega arith))
]

pub print-IsDigit : (n : ℕ) → All IsDigit (print n)
unfolding print
print-IsDigit n = digits-IsDigit (suc n) n

scan-cons :
    (limit : ℕ) (over : IntError) (d : ℕ) (s : Str) (n : ℕ)
    → d < 10
    → n * 10 + d ≤ limit
    → scan limit over ((b'0' + d) ∷ s) n ≡ scan limit over s (n * 10 + d)
unfolding scan
scan-cons limit over d s n h le =
    let e : n * 10 + (b'0' + d - b'0') ≡ n * 10 + d = omega arith in rw e (ground arith)

scan-digits :
    (limit : ℕ) (over : IntError) (f n : ℕ) (rest : Str)
    → n < f
    → n ≤ limit
    → scan limit over (digits f n ++ rest) 0 ≡ scan limit over rest n
scan-digits limit over zero n rest h le = absurd (omega arith)
scan-digits limit over (suc f) n rest h le = elim (ten_cases n) [
  | inl small ↦
      rw (digits_last f n small) (
        scan-cons limit over n rest 0 small (omega arith) ∙ ap (scan limit over rest) (omega arith))
  | inr large ↦
      rw (digits_step f n large, append_assoc)
        (scan-digits limit over f (n / 10) _ (omega arith) (omega arith)
          ∙ scan-cons limit over (n % 10) rest (n / 10) (omega arith) (omega arith)
          ∙ ap (scan limit over rest) (omega arith))
]

snoc-ne-nil : (s : Str) (c : ℕ) → (s ++ c ∷ []) ≢ []
snoc-ne-nil [] c = λ h. cc
snoc-ne-nil (d ∷ s) c = λ h. cc

digits-ne-nil : (f n : ℕ) → 0 < f → digits f n ≢ []
digits-ne-nil zero n h = absurd (omega arith)
digits-ne-nil (suc f) n h = elim (ten_cases n) [
  | inl small ↦ rw (digits_last f n small) (λ e. cc)
  | inr large ↦ rw (digits_step f n large) (snoc-ne-nil (digits f (n / 10)) _)
]

pub print-ne-nil : (n : ℕ) → print n ≢ []
unfolding print
print-ne-nil n = digits-ne-nil (suc n) n (omega arith)

pub parse_uint-scan :
    (limit : ℕ) (s : Str)
    → s ≢ []
    → All IsDigit s
    → parse_uint limit s ≡ scan limit pos_overflow s 0
unfolding parse_uint
parse_uint-scan limit [] h d = absurd (h refl)
parse_uint-scan limit (c ∷ []) h d = ground arith
parse_uint-scan limit (c ∷ e ∷ s) h d = ground arith

-- The digits of a number that is in range are scanned as it.
pub scan-print :
    (limit : ℕ) (over : IntError) (n : ℕ) → n ≤ limit → scan limit over (print n) 0 ≡ ok n
scan-print limit over n h =
    ap (λ (s : Str). scan limit over s 0) (sym (append-nil (print n)))
    ∙ unfold print in scan-digits limit over (suc n) n [] (omega arith) h ∙ unfold scan in refl

-- Every value of the type is read back from its decimal print.
pub parse_uint-print : (limit n : ℕ) → n ≤ limit → parse_uint limit (print n) ≡ ok n
parse_uint-print limit n h =
    parse_uint-scan limit (print n) (print-ne-nil n) (print-IsDigit n)
    ∙ scan-print limit pos_overflow n h

pub scan-le :
    (limit : ℕ) (over : IntError) (s : Str) (n m : ℕ)
    → n ≤ limit
    → scan limit over s n ≡ ok m
    → m ≤ limit
unfolding scan
scan-le limit over [] n m h e = ground arith
scan-le limit over (c ∷ s) n m h e = ground (arith, scan-le limit over s (n * 10 + (c - b'0')) m)

-- A parsed value lies within the type.
pub parse_uint-le : (limit : ℕ) (s : Str) {n : ℕ} → parse_uint limit s ≡ ok n → n ≤ limit
unfolding parse_uint
parse_uint-le limit [] e = cc
parse_uint-le limit (c ∷ []) {n} e = ground (arith, scan-le limit pos_overflow (c ∷ []) 0 n)
parse_uint-le limit (c ∷ d ∷ s) {n} e =
    ground
      (arith, scan-le limit pos_overflow (c ∷ d ∷ s) 0 n, scan-le limit pos_overflow (d ∷ s) 0 n)
