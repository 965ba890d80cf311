-- ===== src/Debug/RoundTrip.antt =====
-- A reader for the dump of src/debug.rs.
use snmptrap_rs.Prelude.{
  ℕ, zero, suc, ◌+◌, ◌-◌, ◌*◌, ◌/◌, ◌%◌, ◌≤◌, ◌<◌, ◌≡◌, refl, sym, ◌∙◌, ap, arith, Bool, false,
  List, [], ◌∷◌, ◌++◌, map, ok, Bytes, AreBytes, All, All-append, length, length-take, length-drop,
  take, drop, take-append, drop-append, replicate, keep, ◌==◌, append_assoc, inl, inr,
}
use snmptrap_rs.Text.{Str}
use snmptrap_rs.Text.Split.{split, split-append}
use snmptrap_rs.Text.Hex.{hex_char, hex_text}
use snmptrap_rs.Varbind.Hex.{parse_hex_string}
use snmptrap_rs.Varbind.Hex.RoundTrip.{parse_hex_string-hex_text}
use snmptrap_rs.Debug.{
  space, newline, hex_digits, show_offset, gap, hex_columns, padding, ascii_column, hex_area,
  row_label, dump_line, dump_row, chunks, dump_rows, write_hex_dump,
}
use snmptrap_rs.Debug.Rows.{
  length-row_label, length-hex_area, not_space, hex_char_shown, gap_cases, hex_digits_last,
  hex_digits_step, sixteen_cases, keep-hex_area,
}

-- A reader of the dump: of each line the columns, which follow a label of ten characters and take
-- 49, without the spaces.
abbrev pub read_line : Str → Str
read_line line = keep not_space (take 49 (drop 10 line))

abbrev pub read_lines : List Str → Str
read_lines [] = []
read_lines (line ∷ lines) = read_line line ++ read_lines lines

abbrev pub ends_line : ℕ → Bool
ends_line c = c == newline

abbrev pub read_dump : Str → Str
read_dump text = read_lines (split ends_line text)

-- No line ends early.
abbrev Unbroken : Str → Type 0
Unbroken = All (λ c. ends_line c ≡ false)

hex_char_unbroken : (n : ℕ) → n < 16 → ends_line (hex_char n) ≡ false
hex_char_unbroken n h = let (shown, ge) = hex_char_shown n h in ground arith

hex_digits-Unbroken : (f n : ℕ) → Unbroken (hex_digits f n)
unfolding hex_digits
hex_digits-Unbroken zero n = tt
hex_digits-Unbroken (suc f) n = elim (sixteen_cases n) [
  | inl h ↦ rw (hex_digits_last f n h) (hex_char_unbroken n h, tt)
  | inr h ↦ rw (hex_digits_step f n h) (
      All-append _ (hex_digits f (n / 16)) _ (hex_digits-Unbroken f (n / 16))
        (hex_char_unbroken (n % 16) (omega arith), tt))
]

replicate-Unbroken : (n c : ℕ) → ends_line c ≡ false → Unbroken (replicate n c)
replicate-Unbroken zero c h = tt
replicate-Unbroken (suc n) c h = (h, replicate-Unbroken n c h)

show_offset-Unbroken : (n : ℕ) → Unbroken (show_offset n)
unfolding show_offset
show_offset-Unbroken n =
    All-append _ (replicate _ b'0') _ (replicate-Unbroken _ b'0' refl)
      (hex_digits-Unbroken (suc n) n)

gap-Unbroken : (i : ℕ) (s : Str) → Unbroken s → Unbroken (gap i ++ s)
gap-Unbroken i s h = elim (gap_cases i) [ inl e ↦ rw e h | inr e ↦ rw e (refl, h) ]

padding-Unbroken : (i n : ℕ) → Unbroken (padding i n)
unfolding padding
padding-Unbroken i zero = tt
padding-Unbroken i (suc n) = gap-Unbroken i _ (refl, (refl, (refl, padding-Unbroken (suc i) n)))

hex_columns-Unbroken : (i : ℕ) (bs : Bytes) → AreBytes bs → Unbroken (hex_columns i bs)
unfolding hex_columns
hex_columns-Unbroken i [] h = tt
hex_columns-Unbroken i (b ∷ bs) (hb, h) = gap-Unbroken i _ (
  hex_char_unbroken (b / 16) (omega arith),
  (hex_char_unbroken (b % 16) (omega arith), (refl, hex_columns-Unbroken (suc i) bs h)),
)

ascii-Unbroken : (bs : Bytes) → Unbroken (map ascii_column bs)
ascii-Unbroken [] = tt
ascii-Unbroken (b ∷ bs) = (ground arith, ascii-Unbroken bs)

dump_line-Unbroken : (o : ℕ) (chunk : Bytes) → AreBytes chunk → Unbroken (dump_line o chunk)
dump_line-Unbroken o chunk h =
    let ascii = space ∷ map ascii_column chunk in
    All-append _ (row_label o) (hex_area chunk ++ ascii)
      (All-append _ (show_offset (o * 16)) _ (show_offset-Unbroken (o * 16)) (refl, (refl, tt)))
      (All-append _ (hex_area chunk) ascii
        (All-append _ (hex_columns 0 chunk) _ (hex_columns-Unbroken 0 chunk h)
          (padding-Unbroken (length chunk) (16 - length chunk)))
        (refl, ascii-Unbroken chunk))

module _ {A : Type 0} where
  drop_front : (n : ℕ) (xs ys : List A) → length xs ≡ n → drop n (xs ++ ys) ≡ ys
  drop_front n xs ys h = ap (λ (m : ℕ). drop m (xs ++ ys)) (sym h) ∙ drop-append xs ys

  take_front : (n : ℕ) (xs ys : List A) → length xs ≡ n → take n (xs ++ ys) ≡ xs
  take_front n xs ys h = ap (λ (m : ℕ). take m (xs ++ ys)) (sym h) ∙ take-append xs ys

read_line-dump_line :
    (o : ℕ) (chunk : Bytes)
    → o * 16 < 4294967296
    → length chunk ≤ 16
    → AreBytes chunk
    → read_line (dump_line o chunk) ≡ hex_text 0 chunk
read_line-dump_line o chunk ho fits small =
    let ascii = space ∷ map ascii_column chunk in
    ap (λ (s : Str). keep not_space (take 49 s))
      (drop_front 10 (row_label o) (hex_area chunk ++ ascii) (length-row_label o ho))
    ∙ ap (keep not_space) (take_front 49 (hex_area chunk) ascii (length-hex_area chunk fits))
    ∙ keep-hex_area chunk small

read_dump-dump_row :
    (o : ℕ) (chunk : Bytes) (rest : Str)
    → AreBytes chunk
    → read_dump (dump_row o chunk ++ rest) ≡ read_line (dump_line o chunk) ++ read_dump rest
unfolding dump_row
read_dump-dump_row o chunk rest small =
    ap read_dump (append_assoc (dump_line o chunk) (newline ∷ []) rest)
    ∙ ap read_lines (
        split-append ends_line (dump_line o chunk) newline rest (dump_line-Unbroken o chunk small)
          refl)

hex_text-take :
    (n : ℕ) (bs : Bytes) → hex_text 0 (take n bs) ++ hex_text 0 (drop n bs) ≡ hex_text 0 bs
unfolding hex_text
hex_text-take zero bs = refl
hex_text-take (suc n) [] = refl
hex_text-take (suc n) (b ∷ bs) = λ i. hex_char (b / 16) ∷ hex_char (b % 16) ∷ hex_text-take n bs i

AreBytes-take : (n : ℕ) (bs : Bytes) → AreBytes bs → AreBytes (take n bs)
AreBytes-take zero bs h = tt
AreBytes-take (suc n) [] h = tt
AreBytes-take (suc n) (b ∷ bs) (hb, h) = (hb, AreBytes-take n bs h)

AreBytes-drop : (n : ℕ) (bs : Bytes) → AreBytes bs → AreBytes (drop n bs)
AreBytes-drop zero bs h = h
AreBytes-drop (suc n) [] h = tt
AreBytes-drop (suc n) (b ∷ bs) (hb, h) = AreBytes-drop n bs h

read_dump-chunks :
    (fuel o : ℕ) (bs : Bytes)
    → AreBytes bs
    → length bs ≤ fuel
    → o * 16 + length bs ≤ 4294967296
    → read_dump (dump_rows o (chunks fuel bs)) ≡ hex_text 0 bs
unfolding chunks dump_rows
read_dump-chunks fuel o [] small enough fits = unfold split keep hex_text in refl
read_dump-chunks zero o (b ∷ bs) small enough fits = absurd (omega arith)
read_dump-chunks (suc fuel) o (b ∷ bs) (hb, small) enough fits =
    let first = b ∷ take 15 bs in
    let cut = length-take 15 bs in
    let left = length-drop 15 bs in
    let bytes : AreBytes first = (hb, AreBytes-take 15 bs small) in
    let rest =
      read_dump-chunks fuel (suc o) (drop 15 bs) (AreBytes-drop 15 bs small) (omega (arith, left))
        (omega (arith, left)) in
    read_dump-dump_row o first (dump_rows (suc o) (chunks fuel (drop 15 bs))) bytes
    ∙ (λ i. read_line-dump_line o first (omega arith) (omega (arith, cut)) bytes i ++ rest i)
    ∙ hex_text-take 16 (b ∷ bs)

-- The dump shows every byte of the payload, in order: the columns of its lines, without their spaces,
-- are read back by `parse_hex_string` as the payload. This holds of payloads up to 4 GiB.
pub parse_hex_string-read_dump :
    (payload : Bytes)
    → AreBytes payload
    → length payload ≤ 4294967296
    → parse_hex_string (read_dump (write_hex_dump payload)) ≡ ok payload
unfolding write_hex_dump
parse_hex_string-read_dump payload small fits =
    ap parse_hex_string
      (read_dump-chunks (length payload) 0 payload small (omega arith) (omega arith))
    ∙ parse_hex_string-hex_text 0 payload small
