-- ===== src/Text/Split.antt =====
-- `str::split` by a test on characters: always at least one piece.
use snmptrap_rs.Prelude.{
  ℕ, Bool, true, false, List, [], ◌∷◌, ◌++◌, ◌≡◌, ◌≢◌, refl, arith, All, if◌then◌else◌,
}
use snmptrap_rs.Text.Chars.{Str}

unfoldable pub cons_head : ℕ → List Str → List Str
cons_head c [] = (c ∷ []) ∷ []
cons_head c (w ∷ ws) = (c ∷ w) ∷ ws

unfoldable pub split : (ℕ → Bool) → Str → List Str
unfolding cons_head
split p [] = [] ∷ []
split p (c ∷ s) = let rest = split p s in if p c then [] ∷ rest else cons_head c rest

cons_head-ne-nil : (c : ℕ) (ws : List Str) → cons_head c ws ≢ []
unfolding cons_head
cons_head-ne-nil c [] = λ h. cc
cons_head-ne-nil c (w ∷ ws) = λ h. cc

module _ (p : ℕ → Bool) where
  pub split-ne-nil : (s : Str) → split p s ≢ []
  unfolding split
  split-ne-nil [] = λ h. cc
  split-ne-nil (c ∷ s) = ground (arith, cons_head-ne-nil c (split p s))

  -- The first piece ends at the first character that passes the test.
  pub split-append :
      (w : Str) (c : ℕ) (s : Str)
      → All (λ a. p a ≡ false) w
      → p c ≡ true
      → split p (w ++ c ∷ s) ≡ w ∷ split p s
  unfolding split
  split-append [] c s h e = rw e
  split-append (a ∷ w) c s (ha, hw) e = rw (ha, split-append w c s hw e)

  pub split_single : (w : Str) → All (λ a. p a ≡ false) w → split p w ≡ w ∷ []
  unfolding split
  split_single [] h = refl
  split_single (a ∷ w) (ha, hw) = rw (ha, split_single w hw)
