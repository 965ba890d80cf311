-- ===== src/Varbind/Oid.antt =====
-- `parse_oid` of src/varbind.rs.
pub mod Laws
use snmptrap_rs.Prelude.{
  ℕ, Bool, true, false, ◌&&◌, List, [], ◌∷◌, Outcome, ok, err, ◌>>=◌, map_err, ltb, leb, ◌==◌,
  if◌then◌else◌, is_empty,
}
use snmptrap_rs.Text.{Str, trim_start}
use snmptrap_rs.Text.Split.{split}
use snmptrap_rs.Text.Number.{parse_uint, max_u32}
use snmptrap_rs.Errors.{
  OidError, empty_oid, empty_arc, invalid_arc, few_arcs, first_arc, second_arc,
}

-- The loop over the pieces between dots.
unfoldable pub parse_arcs : Str → List Str → Outcome OidError (List ℕ)
parse_arcs s [] = ok []
parse_arcs s (tok ∷ toks) = if is_empty tok then err (empty_arc s) else (do
  n ← map_err (invalid_arc tok s) (parse_uint max_u32 tok)
  parts ← parse_arcs s toks
  ok (n ∷ parts))

-- The checks on the arcs read.
unfoldable pub check_arcs : Str → List ℕ → Outcome OidError (List ℕ)
check_arcs s [] = err (few_arcs s)
check_arcs s (a ∷ []) = err (few_arcs s)
check_arcs s (a ∷ b ∷ rest) =
    if ltb 2 a
    then err (first_arc s a)
    else if ltb a 2 && leb 40 b
    then err (second_arc s a b)
    else ok (a ∷ b ∷ rest)

abbrev pub is_dot : ℕ → Bool
is_dot c = c == b'.'

unfoldable pub parse_oid : Str → Outcome OidError (List ℕ)
unfolding parse_arcs check_arcs
parse_oid s =
    if is_empty s
    then err empty_oid
    else (do parts ← parse_arcs s (split is_dot (trim_start is_dot s)); check_arcs s parts)
