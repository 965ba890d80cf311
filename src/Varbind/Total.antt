-- ===== src/Varbind/Total.antt =====
-- Panics in the parsers of src/varbind.rs.
use snmptrap_rs.Prelude.{◌≤◌, ◌<◌, ◌⊎◌, inl, inr, All, ℕ, ◌+◌, ◌-◌, ◌*◌, List, [], ◌∷◌, arith}
use snmptrap_rs.Prelude.Calm.{Calm, calm_rules, Calm-ok, Calm-err, Calm-if, Calm->>=, Calm-map_err}
use snmptrap_rs.Text.{Str}
use snmptrap_rs.Text.Number.{IntError, scan, parse_uint, parse_i32}
use snmptrap_rs.Varbind.Oid.{parse_arcs, check_arcs, parse_oid}
use snmptrap_rs.Varbind.Hex.{parse_hex_string}
use snmptrap_rs.Varbind.Hex.Cases.{parse_hex_string-cases}
use snmptrap_rs.Varbind.Bits.{
  max_bit_position, parse_all, positions, maximum, encode_bits, parse_bits,
}
use snmptrap_rs.Varbind.Bits.Laws.{encode_bits_lem, encode_bits_too_large}
use snmptrap_rs.Varbind.Value.{parse_typed_value}

scan-Calm : (limit : ℕ) (over : IntError) (s : Str) (n : ℕ) → Calm (scan limit over s n)
unfolding scan
scan-Calm limit over [] n = Calm-ok n
scan-Calm limit over (c ∷ s) n =
    let rest = scan-Calm limit over s (n * 10 + (c - b'0')) in
    Calm-if _ _ _ (Calm-if _ _ _ (Calm-err over) rest) (Calm-err _)

pub parse_uint-Calm : (limit : ℕ) (s : Str) → Calm (parse_uint limit s)
unfolding parse_uint
parse_uint-Calm limit [] = search calm_rules
parse_uint-Calm limit (c ∷ []) = search (calm_rules, scan-Calm)
parse_uint-Calm limit (c ∷ d ∷ s) = search (calm_rules, scan-Calm)

pub parse_i32-Calm : (s : Str) → Calm (parse_i32 s)
unfolding parse_i32
parse_i32-Calm [] = search calm_rules
parse_i32-Calm (c ∷ []) = search (calm_rules, scan-Calm)
parse_i32-Calm (c ∷ d ∷ s) = search (calm_rules, scan-Calm)

parse_arcs-Calm : (s : Str) (toks : List Str) → Calm (parse_arcs s toks)
unfolding parse_arcs
parse_arcs-Calm s [] = Calm-ok []
parse_arcs-Calm s (tok ∷ toks) =
    let rest = parse_arcs-Calm s toks in
    Calm-if _ _ _ (Calm-err _) (
      Calm->>= _ _ (Calm-map_err _ _ (parse_uint-Calm _ _))
        (λ n. Calm->>= _ _ rest (λ ns. Calm-ok _)))

check_arcs-Calm : (s : Str) (parts : List ℕ) → Calm (check_arcs s parts)
unfolding check_arcs
check_arcs-Calm s [] = search calm_rules
check_arcs-Calm s (a ∷ []) = search calm_rules
check_arcs-Calm s (a ∷ b ∷ rest) = search calm_rules

pub parse_oid-Calm : (s : Str) → Calm (parse_oid s)
unfolding parse_oid
parse_oid-Calm s = search (calm_rules, parse_arcs-Calm, check_arcs-Calm)

parse_all-Calm : (ws : List Str) → Calm (parse_all ws)
unfolding parse_all
parse_all-Calm [] = Calm-ok []
parse_all-Calm (w ∷ ws) =
    let rest = parse_all-Calm ws in
    Calm->>= _ _ (parse_uint-Calm _ w) (λ n. Calm->>= _ _ rest (λ ns. Calm-ok _))

positions-Calm : (raw : Str) → Calm (positions raw)
unfolding positions
positions-Calm raw = parse_all-Calm _

All-le-maximum : (ps : List ℕ) (m : ℕ) → maximum ps ≤ m → All (λ n. n ≤ m) ps
unfolding maximum
All-le-maximum [] m h = tt
All-le-maximum (p ∷ ps) m h = (omega arith, All-le-maximum ps m (omega arith))

size_cases : (n m : ℕ) → (m < n) ⊎ (n ≤ m)
size_cases n m = omega arith

-- No position is out of range in the bytes that are allocated.
encode_bits-Calm : (ps : List ℕ) → Calm (encode_bits ps)
encode_bits-Calm [] = unfold encode_bits in Calm-ok []
encode_bits-Calm (p ∷ ps) = elim (size_cases (maximum (p ∷ ps)) max_bit_position) [
  | inl large ↦ rw (encode_bits_too_large p ps large) (Calm-err _)
  | inr fits ↦
      let (out, e, l, g) = encode_bits_lem p ps (All-le-maximum (p ∷ ps) max_bit_position fits) in
      rw e (Calm-ok out)
]

pub parse_bits-Calm : (raw : Str) → Calm (parse_bits raw)
unfolding parse_bits
parse_bits-Calm raw = search (calm_rules, positions-Calm, encode_bits-Calm)

pub parse_hex_string-Calm : (raw : Str) → Calm (parse_hex_string raw)
parse_hex_string-Calm raw = elim (parse_hex_string-cases raw) [
  | inl (bs, e, small, text) ↦ rw e (Calm-ok bs)
  | inr (inl (c, e, bad)) ↦ rw e (Calm-err _)
  | inr (inr (e, odd)) ↦ rw e (Calm-err _)
]

-- A value of any letter and text is parsed, or refused with an error.
pub parse_typed_value-Calm : (letter : ℕ) (raw : Str) → Calm (parse_typed_value letter raw)
unfolding parse_typed_value
parse_typed_value-Calm letter raw =
    search
      (
        calm_rules, parse_i32-Calm, parse_uint-Calm, parse_oid-Calm, parse_hex_string-Calm,
        parse_bits-Calm,
      )
      depth 20
