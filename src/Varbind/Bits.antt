-- ===== src/Varbind/Bits.antt =====
-- `parse_bits` of src/varbind.rs.
pub mod Table
pub mod Laws
pub mod Octets
use snmptrap_rs.Prelude.{
  ℕ, zero, suc, ◌+◌, ◌-◌, ◌/◌, ◌%◌, ◌^◌, max, bit_or, Bool, ◌||◌, not, List, [], ◌∷◌, Outcome, ok,
  panic, ◌>>=◌, ◌>>◌, map_err, reject_if, Bytes, ltb, ◌==◌, if◌then◌else◌, is_empty, keep,
  replicate,
}
use snmptrap_rs.Text.{Str, trim, is_whitespace}
use snmptrap_rs.Text.Split.{split}
use snmptrap_rs.Text.Number.{IntError, parse_uint, max_u32}
use snmptrap_rs.Errors.{BitsError, bad_positions, position_too_large}

abbrev pub max_bit_position : ℕ
max_bit_position = 65535

-- `map(parse).collect::<Result<Vec<u32>, _>>()`
unfoldable pub parse_all : List Str → Outcome IntError (List ℕ)
parse_all [] = ok []
parse_all (w ∷ ws) = do n ← parse_uint max_u32 w; ns ← parse_all ws; ok (n ∷ ns)

abbrev pub is_separator : ℕ → Bool
is_separator c = c == b',' || is_whitespace c

unfoldable pub positions : Str → Outcome IntError (List ℕ)
unfolding parse_all keep split
positions raw = parse_all (keep (λ w. not (is_empty w)) (split is_separator raw))

unfoldable pub maximum : List ℕ → ℕ
maximum [] = 0
maximum (p ∷ ps) = max p (maximum ps)

-- `out[i] |= v`, which panics out of bounds.
unfoldable pub or_at : {E : Type 0} → Bytes → ℕ → ℕ → Outcome E Bytes
or_at [] i v = panic
or_at (b ∷ bs) zero v = ok (bit_or b v ∷ bs)
or_at (b ∷ bs) (suc i) v = do rest ← or_at bs i v; ok (b ∷ rest)

-- The loop that sets a bit for each position, the high bit of the first byte being bit 0.
unfoldable pub set_bits : {E : Type 0} → Bytes → List ℕ → Outcome E Bytes
unfolding or_at
set_bits out [] = ok out
set_bits out (p ∷ ps) = do next ← or_at out (p / 8) (2 ^ (7 - p % 8)); set_bits next ps

unfoldable pub encode_bits : List ℕ → Outcome BitsError Bytes
unfolding maximum set_bits
encode_bits [] = ok []
encode_bits (p ∷ ps) = do
  reject_if (ltb max_bit_position (maximum (p ∷ ps))) (position_too_large (maximum (p ∷ ps)))
  set_bits (replicate (maximum (p ∷ ps) / 8 + 1) 0) (p ∷ ps)

unfoldable pub parse_bits : Str → Outcome BitsError Bytes
unfolding trim positions encode_bits
parse_bits raw =
    if is_empty (trim raw)
    then ok []
    else (do ps ← map_err (bad_positions raw) (positions raw); encode_bits ps)
