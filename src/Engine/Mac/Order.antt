-- ===== src/Engine/Mac/Order.antt =====
-- The order that `host_mac_linux` of src/engine.rs sorts by.
use snmptrap_rs.Prelude.{
  ℕ, ◌≡◌, refl, ◌⊎◌, inl, inr, arith, Bool, true, false, [], ◌∷◌, if◌then◌else◌,
}
use snmptrap_rs.Text.{Str}
use snmptrap_rs.Engine.Mac.{str_leb, goes_before, is_physical_prefix}

str_leb_total : (s t : Str) → (str_leb s t ≡ true) ⊎ (str_leb t s ≡ true)
str_leb_total [] t = inl refl
str_leb_total (c ∷ s) [] = inr refl
str_leb_total (c ∷ s) (d ∷ t) = ground (arith, str_leb_total s t)

leb_both :
    (c d : ℕ) (s t : Str)
    → str_leb (c ∷ s) (d ∷ t) ≡ true
    → str_leb (d ∷ t) (c ∷ s) ≡ true
    → (c ≡ d) × (str_leb s t ≡ true) × (str_leb t s ≡ true)
leb_both c d s t h k = ground arith

str_leb_antisym : (s t : Str) → str_leb s t ≡ true → str_leb t s ≡ true → s ≡ t
str_leb_antisym [] [] h k = refl
str_leb_antisym [] (d ∷ t) h k = cc
str_leb_antisym (c ∷ s) [] h k = cc
str_leb_antisym (c ∷ s) (d ∷ t) h k =
    let (head, hs, ks) = leb_both c d s t h k in λ i. head i ∷ str_leb_antisym s t hs ks i

str_leb_trans : (r s t : Str) → str_leb r s ≡ true → str_leb s t ≡ true → str_leb r t ≡ true
str_leb_trans [] s t h k = refl
str_leb_trans (b ∷ r) [] t h k = cc
str_leb_trans (b ∷ r) (c ∷ s) [] h k = cc
str_leb_trans (b ∷ r) (c ∷ s) (d ∷ t) h k = ground (arith, str_leb_trans r s t)

pub goes_before_total : (a b : Str) → (goes_before a b ≡ true) ⊎ (goes_before b a ≡ true)
unfolding goes_before
goes_before_total a b = ground (arith, str_leb_total a b)

pub goes_before_antisym : (a b : Str) → goes_before a b ≡ true → goes_before b a ≡ true → a ≡ b
unfolding goes_before
goes_before_antisym a b h k = ground (arith, str_leb_antisym a b)

-- The order of two tiers, by the tiers of the two texts and the order within one.
abbrev tiered : Bool → Bool → Bool → Bool
tiered p q x = if p then (if q then x else true) else (if q then false else x)

tiered_trans :
    (p q r x y z : Bool)
    → (x ≡ true → y ≡ true → z ≡ true)
    → tiered p q x ≡ true
    → tiered q r y ≡ true
    → tiered p r z ≡ true
tiered_trans true true true x y z f h k = f h k
tiered_trans true true false x y z f h k = refl
tiered_trans true false r x y z f h k = ground arith
tiered_trans false true r x y z f h k = cc
tiered_trans false false true x y z f h k = cc
tiered_trans false false false x y z f h k = f h k

pub goes_before_trans :
    (a b c : Str) → goes_before a b ≡ true → goes_before b c ≡ true → goes_before a c ≡ true
unfolding goes_before
goes_before_trans a b c =
    tiered_trans (is_physical_prefix a) (is_physical_prefix b) (is_physical_prefix c) _ _ _
      (str_leb_trans a b c)
