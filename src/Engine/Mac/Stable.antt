-- ===== src/Engine/Mac/Stable.antt =====
-- The sorted names of `host_mac_linux` of src/engine.rs, and the order of the directory.
use mathlib.Core.Logic.{∥∥₁_elim}
use mathlib.Core.List.{Perm, Permᴰ}
use snmptrap_rs.Prelude.{
  ◌≡◌, refl, sym, ◌∙◌, ap, subst, ◌⊎◌, inl, inr, Bool, true, false, List, [], ◌∷◌, Option, some,
  Bytes, keep, Bool-cases,
}
use snmptrap_rs.Text.{Str}
use snmptrap_rs.Engine.Mac.{goes_before, insert, sort_names, is_candidate, first_mac, host_mac}
use snmptrap_rs.Engine.Mac.Order.{goes_before_total, goes_before_antisym, goes_before_trans}

insert_first : (x y : Str) (ys : List Str) → goes_before x y ≡ true → insert x (y ∷ ys) ≡ x ∷ y ∷ ys
unfolding insert
insert_first x y ys h = rw h

insert_later :
    (x y : Str) (ys : List Str) → goes_before x y ≡ false → insert x (y ∷ ys) ≡ y ∷ insert x ys
unfolding insert
insert_later x y ys h = rw h

not_before : (x y : Str) → goes_before x y ≡ false → goes_before y x ≡ true
not_before x y h = elim (goes_before_total x y) [ inl a ↦ cc | inr b ↦ b ]

-- Two names of which the first goes before the second, in front of the rest.
insert_pair :
    (x y : Str) (zs : List Str)
    → insert x zs ≡ x ∷ zs
    → insert y zs ≡ y ∷ zs
    → goes_before x y ≡ true
    → insert x (insert y zs) ≡ insert y (insert x zs)
insert_pair x y zs hx hy h = elim (Bool-cases (goes_before y x)) [
  | inl k ↦
      subst (λ t. insert x (insert t zs) ≡ insert t (insert x zs)) (goes_before_antisym x y h k)
        refl
  | inr k ↦
      ap (insert x) hy
      ∙ insert_first x y zs h
      ∙ ap (λ (r : List Str). x ∷ r) (sym hy)
      ∙ sym (insert_later y x zs k)
      ∙ ap (insert y) (sym hx)
]

insert_both :
    (x y : Str) (zs : List Str)
    → insert x zs ≡ x ∷ zs
    → insert y zs ≡ y ∷ zs
    → insert x (insert y zs) ≡ insert y (insert x zs)
insert_both x y zs hx hy = elim (goes_before_total x y) [
  | inl h ↦ insert_pair x y zs hx hy h
  | inr h ↦ sym (insert_pair y x zs hy hx h)
]

-- One name goes in front of the head and the other behind it.
insert_around :
    (x y z : Str) (zs : List Str)
    → goes_before x z ≡ true
    → goes_before y z ≡ false
    → insert x (insert y (z ∷ zs)) ≡ insert y (insert x (z ∷ zs))
insert_around x y z zs h k =
    let behind : goes_before y x ≡ false = y_behind in
    ap (insert x) (insert_later y z zs k)
    ∙ insert_first x z (insert y zs) h
    ∙ ap (λ (r : List Str). x ∷ r) (sym (insert_later y z zs k))
    ∙ sym (insert_later y x (z ∷ zs) behind)
    ∙ ap (insert y) (sym (insert_first x z zs h))
  where
    y_behind : goes_before y x ≡ false
    y_behind = elim (Bool-cases (goes_before y x)) [
      | inl e ↦ let far : goes_before y z ≡ true = goes_before_trans y x z e h in cc
      | inr e ↦ e
    ]

-- Both names go behind the head.
insert_behind :
    (x y z : Str) (zs : List Str)
    → goes_before x z ≡ false
    → goes_before y z ≡ false
    → insert x (insert y zs) ≡ insert y (insert x zs)
    → insert x (insert y (z ∷ zs)) ≡ insert y (insert x (z ∷ zs))
insert_behind x y z zs h k rest =
    ap (insert x) (insert_later y z zs k)
    ∙ insert_later x z (insert y zs) h
    ∙ ap (λ (r : List Str). z ∷ r) rest
    ∙ sym (insert_later y z (insert x zs) k)
    ∙ ap (insert y) (sym (insert_later x z zs h))

insert_comm : (x y : Str) (zs : List Str) → insert x (insert y zs) ≡ insert y (insert x zs)
insert_comm x y [] = insert_both x y [] (unfold insert in refl) (unfold insert in refl)
insert_comm x y (z ∷ zs) =
    go (insert_comm x y zs) (Bool-cases (goes_before x z)) (Bool-cases (goes_before y z))
  where
    go :
        insert x (insert y zs) ≡ insert y (insert x zs)
        → (goes_before x z ≡ true) ⊎ (goes_before x z ≡ false)
        → (goes_before y z ≡ true) ⊎ (goes_before y z ≡ false)
        → insert x (insert y (z ∷ zs)) ≡ insert y (insert x (z ∷ zs))
    go rest (inl h) (inl k) =
        insert_both x y (z ∷ zs) (insert_first x z zs h) (insert_first y z zs k)
    go rest (inl h) (inr k) = insert_around x y z zs h k
    go rest (inr h) (inl k) = sym (insert_around y x z zs k h)
    go rest (inr h) (inr k) = insert_behind x y z zs h k rest

sorted_swap :
    (p : Str → Bool) (x y : Str) (l : List Str)
    → sort_names (keep p (x ∷ y ∷ l)) ≡ sort_names (keep p (y ∷ x ∷ l))
unfolding keep sort_names
sorted_swap p x y l = elim (Bool-cases (p x)) [
  | inl h ↦ elim (Bool-cases (p y)) [
    | inl k ↦ rw (h, k) (insert_comm x y (sort_names (keep p l)))
    | inr k ↦ rw (h, k)
  ]
  | inr h ↦ elim (Bool-cases (p y)) [ inl k ↦ rw (h, k) | inr k ↦ rw (h, k) ]
]

sorted_cons :
    (p : Str → Bool) (x : Str) (xs ys : List Str)
    → sort_names (keep p xs) ≡ sort_names (keep p ys)
    → sort_names (keep p (x ∷ xs)) ≡ sort_names (keep p (x ∷ ys))
unfolding keep sort_names
sorted_cons p x xs ys e = elim (Bool-cases (p x)) [
  | inl h ↦ rw h (ap (insert x) e)
  | inr h ↦ rw h e
]

sorted-Permᴰ :
    (p : Str → Bool) {xs ys : List Str}
    → Permᴰ xs ys
    → sort_names (keep p xs) ≡ sort_names (keep p ys)
sorted-Permᴰ p Permᴰ.nil = refl
sorted-Permᴰ p (Permᴰ.cons {a = a} {l₁ = xs} {l₂ = ys} e d) =
    sorted_cons p a xs ys (sorted-Permᴰ p d) ∙ ap (λ (t : Str). sort_names (keep p (t ∷ ys))) e
sorted-Permᴰ p (Permᴰ.swap {a = a} {b = b} {l = l} e f) =
    sorted_swap p a b l ∙ λ i. sort_names (keep p (f i ∷ e i ∷ l))
sorted-Permᴰ p (Permᴰ.trans d₁ d₂) = sorted-Permᴰ p d₁ ∙ sorted-Permᴰ p d₂

names_set : IsSet (Option Bytes)
names_set = hlevel

-- The address does not depend on the order in which the directory lists the interfaces.
pub host_mac-Perm :
    (address : Str → Option Str) {xs ys : List Str}
    → Perm xs ys
    → host_mac address (some xs) ≡ host_mac address (some ys)
unfolding host_mac
host_mac-Perm address p =
    ∥∥₁_elim p (names_set _ _) (λ d. ap (first_mac address) (sorted-Permᴰ is_candidate d))
