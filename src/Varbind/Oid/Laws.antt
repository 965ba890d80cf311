-- ===== src/Varbind/Oid/Laws.antt =====
-- What `parse_oid` accepts, and the dotted text that it reads back.
use snmptrap_rs.Prelude.{
  ℕ, ◌≤◌, ◌<◌, ◌≡◌, ◌≢◌, refl, subst, ◌⊎◌, false, List, [], ◌∷◌, ◌++◌, arith, Outcome, ok, err,
  ◌>>=◌, >>=-eq-ok, map_err, All,
}
use snmptrap_rs.Text.{Str, trim_start}
use snmptrap_rs.Text.Split.{split, split-append, split_single}
use snmptrap_rs.Text.Number.{
  max_u32, parse_uint, parse_uint-le, parse_uint-print, print, print-IsDigit, print-ne-nil, IsDigit,
  IntError,
}
use snmptrap_rs.Errors.{OidError}
use snmptrap_rs.Varbind.Oid.{parse_arcs, check_arcs, parse_oid, is_dot}

-- At least two arcs, each a `u32`; the first is at most 2, and the second is below 40 if the first
-- is 0 or 1.
abbrev pub IsOid : List ℕ → Type 0
IsOid [] = ⊥
IsOid (a ∷ []) = ⊥
IsOid (a ∷ b ∷ rest) = (a ≤ 2) × ((a ≡ 2) ⊎ (b < 40)) × All (λ n. n ≤ max_u32) (a ∷ b ∷ rest)

abbrev AreU32 : List ℕ → Type 0
AreU32 = All (λ n. n ≤ max_u32)

arcs_step :
    (f : IntError → OidError) (m : Outcome IntError ℕ) (r : Outcome OidError (List ℕ))
    {arcs : List ℕ}
    → (do n ← map_err f m; parts ← r; ok (n ∷ parts)) ≡ ok arcs
    → (n : ℕ) × (parts : List ℕ) × (m ≡ ok n) × (r ≡ ok parts) × (n ∷ parts ≡ arcs)
arcs_step f (ok n) (ok parts) h = (n, parts, refl, refl, cc)
arcs_step f (ok n) (err e) h = cc
arcs_step f (ok n) Outcome.panic h = cc
arcs_step f (err e) r h = cc
arcs_step f Outcome.panic r h = cc

parse_arcs-AreU32 :
    (s : Str) (toks : List Str) (arcs : List ℕ) → parse_arcs s toks ≡ ok arcs → AreU32 arcs
unfolding parse_arcs
parse_arcs-AreU32 s [] arcs h = ground arith
parse_arcs-AreU32 s ([] ∷ toks) arcs h = cc
parse_arcs-AreU32 s ((c ∷ w) ∷ toks) arcs h =
    let (n, parts, hn, hp, e) = arcs_step _ (parse_uint max_u32 (c ∷ w)) (parse_arcs s toks) h in
    subst AreU32 e (parse_uint-le max_u32 (c ∷ w) hn, parse_arcs-AreU32 s toks parts hp)

check_arcs-IsOid :
    (s : Str) (parts arcs : List ℕ) → AreU32 parts → check_arcs s parts ≡ ok arcs → IsOid arcs
unfolding check_arcs
check_arcs-IsOid s [] arcs u h = cc
check_arcs-IsOid s (a ∷ []) arcs u h = cc
check_arcs-IsOid s (a ∷ b ∷ rest) arcs u h =
    let (e, le, small) = accepted in subst IsOid e (le, small, u)
  where
    accepted : (a ∷ b ∷ rest ≡ arcs) × (a ≤ 2) × ((a ≡ 2) ⊎ (b < 40))
    accepted = ground arith

-- An accepted text is an object identifier: at least two arcs, each below 2^32, the first at most 2,
-- and the second below 40 unless the first is 2.
pub parse_oid-IsOid : (s : Str) (arcs : List ℕ) → parse_oid s ≡ ok arcs → IsOid arcs
unfolding parse_oid
parse_oid-IsOid [] arcs h = cc
parse_oid-IsOid (c ∷ s) arcs h =
    let (parts, hp, hc) = >>=-eq-ok _ (check_arcs (c ∷ s)) h in
    check_arcs-IsOid (c ∷ s) parts arcs (parse_arcs-AreU32 (c ∷ s) _ parts hp) hc

-- The dotted decimal text of arcs.
unfoldable pub print_oid : List ℕ → Str
print_oid [] = []
print_oid (a ∷ []) = print a
print_oid (a ∷ b ∷ rest) = print a ++ b'.' ∷ print_oid (b ∷ rest)

digits_no_dot : (s : Str) → All IsDigit s → All (λ c. is_dot c ≡ false) s
digits_no_dot [] h = tt
digits_no_dot (c ∷ s) (h, hs) = (ground arith, digits_no_dot s hs)

print_no_dot : (n : ℕ) → All (λ c. is_dot c ≡ false) (print n)
print_no_dot n = digits_no_dot (print n) (print-IsDigit n)

parse_arcs-cons :
    (s w : Str) (ws : List Str) (n : ℕ) (parts : List ℕ)
    → w ≢ []
    → parse_uint max_u32 w ≡ ok n
    → parse_arcs s ws ≡ ok parts
    → parse_arcs s (w ∷ ws) ≡ ok (n ∷ parts)
unfolding parse_arcs
parse_arcs-cons s [] ws n parts h hn hp = absurd (h refl)
parse_arcs-cons s (c ∷ w) ws n parts h hn hp = rw (hn, hp)

parse_arcs-print_oid :
    (s : Str) (a : ℕ) (rest : List ℕ)
    → AreU32 (a ∷ rest)
    → parse_arcs s (split is_dot (print_oid (a ∷ rest))) ≡ ok (a ∷ rest)
unfolding print_oid
parse_arcs-print_oid s a [] (ha, _) = rw (split_single is_dot (print a) (print_no_dot a)) (
    parse_arcs-cons s (print a) [] a [] (print-ne-nil a) (parse_uint-print max_u32 a ha)
      (unfold parse_arcs in refl))
parse_arcs-print_oid s a (b ∷ rest) (ha, hs) =
    rw (split-append is_dot (print a) b'.' (print_oid (b ∷ rest)) (print_no_dot a) refl) (
      parse_arcs-cons s (print a) _ a (b ∷ rest) (print-ne-nil a) (parse_uint-print max_u32 a ha)
        (parse_arcs-print_oid s b rest hs))

-- A text that starts with a digit is neither empty nor loses a leading dot.
starts_with-IsDigit : (n : ℕ) (t : Str) → (c : ℕ) × (w : Str) × (print n ++ t ≡ c ∷ w) × IsDigit c
starts_with-IsDigit n t = go (print n) (print-ne-nil n) (print-IsDigit n)
  where
    go : (p : Str) → p ≢ [] → All IsDigit p → (c : ℕ) × (w : Str) × (p ++ t ≡ c ∷ w) × IsDigit c
    go [] h d = absurd (h refl)
    go (c ∷ p) h (hc, hp) = (c, p ++ t, refl, hc)

check_arcs_self : (s : Str) (arcs : List ℕ) → IsOid arcs → check_arcs s arcs ≡ ok arcs
unfolding check_arcs
check_arcs_self s [] h = absurd h
check_arcs_self s (a ∷ []) h = absurd h
check_arcs_self s (a ∷ b ∷ rest) (le, small, u) = ground arith

parse_oid-digit :
    (c : ℕ) (w : Str) (arcs : List ℕ)
    → IsDigit c
    → parse_arcs (c ∷ w) (split is_dot (c ∷ w)) ≡ ok arcs
    → IsOid arcs
    → parse_oid (c ∷ w) ≡ ok arcs
unfolding parse_oid
parse_oid-digit c w arcs d h v =
    let keeps : trim_start is_dot (c ∷ w) ≡ c ∷ w = unfold trim_start in ground arith in
    rw (keeps, h) (check_arcs_self (c ∷ w) arcs v)

-- Every object identifier is read back from its dotted text.
pub parse_oid-print_oid : (arcs : List ℕ) → IsOid arcs → parse_oid (print_oid arcs) ≡ ok arcs
parse_oid-print_oid [] v = absurd v
parse_oid-print_oid (a ∷ []) v = absurd v
parse_oid-print_oid (a ∷ b ∷ rest) v =
    let (c, w, e, d) = starts_with-IsDigit a (b'.' ∷ print_oid (b ∷ rest)) in
    let text : print_oid (a ∷ b ∷ rest) ≡ c ∷ w = unfold print_oid in e in
    rw text (
      parse_oid-digit c w (a ∷ b ∷ rest) d
        (rw text at (parse_arcs-print_oid (c ∷ w) a (b ∷ rest) v.2)) v)
