-- ===== src/Engine/Mac/Chosen.antt =====
-- Which hardware address `host_mac_linux` of src/engine.rs finds.
use mathlib.Core.List.{Memᴰ, Permᴰ}
use mathlib.Core.List.Permᴰ
use mathlib.Core.List.Memᴰ
use snmptrap_rs.Prelude.{
  ◌≡◌, ◌≢◌, refl, ◌∙◌, ap, subst, ◌⊎◌, inl, inr, Bool, true, false, List, [], ◌∷◌, Option, none,
  some, Bytes, All, keep, is_some, if◌then◌else◌, Bool-cases,
}
use snmptrap_rs.Text.{Str}
use snmptrap_rs.Engine.Mac.{
  goes_before, insert, sort_names, is_candidate, first_mac, host_mac, usable,
}
use snmptrap_rs.Engine.Mac.Usable.{IsHardware, usable-IsHardware}
use snmptrap_rs.Engine.Mac.Order.{goes_before_total, goes_before_trans}

insert-Permᴰ : (x : Str) (ys : List Str) → Permᴰ (insert x ys) (x ∷ ys)
unfolding insert
insert-Permᴰ x [] = Permᴰ.cons refl Permᴰ.nil
insert-Permᴰ x (y ∷ ys) = elim (Bool-cases (goes_before x y)) [
  | inl h ↦ rw h (Permᴰ.refl (x ∷ y ∷ ys))
  | inr h ↦ rw h (Permᴰ.trans (Permᴰ.cons refl (insert-Permᴰ x ys)) (Permᴰ.swap refl refl))
]

pub sort_names-Permᴰ : (xs : List Str) → Permᴰ (sort_names xs) xs
unfolding sort_names
sort_names-Permᴰ [] = Permᴰ.nil
sort_names-Permᴰ (x ∷ xs) =
    Permᴰ.trans (insert-Permᴰ x (sort_names xs)) (Permᴰ.cons refl (sort_names-Permᴰ xs))

-- Every name goes before those that follow it.
unfoldable pub IsSorted : List Str → Type 0
IsSorted [] = Unit
IsSorted (x ∷ xs) = All (λ y. goes_before x y ≡ true) xs × IsSorted xs

module _ (P : Str → Type 0) where
  All-Permᴰ : {xs ys : List Str} → Permᴰ xs ys → All P xs → All P ys
  All-Permᴰ Permᴰ.nil h = tt
  All-Permᴰ (Permᴰ.cons e d) (px, h) = (subst P e px, All-Permᴰ d h)
  All-Permᴰ (Permᴰ.swap e f) (pa, (pb, h)) = (subst P f pb, (subst P e pa, h))
  All-Permᴰ (Permᴰ.trans d₁ d₂) h = All-Permᴰ d₂ (All-Permᴰ d₁ h)

  All-keep : (p : Str → Bool) (xs : List Str) → All P (keep p xs) → All (λ n. p n ≡ true → P n) xs
  unfolding keep
  All-keep p [] h = tt
  All-keep p (x ∷ xs) h = go (All-keep p xs) (Bool-cases (p x)) h
    where
      go :
          (All P (keep p xs) → All (λ n. p n ≡ true → P n) xs)
          → (p x ≡ true) ⊎ (p x ≡ false)
          → All P (if p x then x ∷ keep p xs else keep p xs)
          → All (λ n. p n ≡ true → P n) (x ∷ xs)
      go ih (inl kept) h =
          let (px, rest) : All P (x ∷ keep p xs) = rw kept at h in ((λ e. px), ih rest)
      go ih (inr gone) h = let rest : All P (keep p xs) = rw gone at h in ((λ e. cc), ih rest)

All-goes_before :
    (x y : Str) (ys : List Str)
    → goes_before x y ≡ true
    → All (λ z. goes_before y z ≡ true) ys
    → All (λ z. goes_before x z ≡ true) ys
All-goes_before x y [] h k = tt
All-goes_before x y (z ∷ ys) h (kz, k) = (goes_before_trans x y z h kz, All-goes_before x y ys h k)

insert-IsSorted : (x : Str) (ys : List Str) → IsSorted ys → IsSorted (insert x ys)
unfolding insert IsSorted
insert-IsSorted x [] h = (tt, tt)
insert-IsSorted x (y ∷ ys) (hy, h) = elim (Bool-cases (goes_before x y)) [
  | inl first ↦ rw first ((first, All-goes_before x y ys first hy), (hy, h))
  | inr later ↦
      let y_first : goes_before y x ≡ true = elim (goes_before_total x y) [
        | inl a ↦ cc
        | inr b ↦ b
      ] in
      rw later (All-Permᴰ _ (Permᴰ.symm (insert-Permᴰ x ys)) (y_first, hy), insert-IsSorted x ys h)
]

pub sort_names-IsSorted : (xs : List Str) → IsSorted (sort_names xs)
unfolding sort_names
sort_names-IsSorted [] = unfold IsSorted in tt
sort_names-IsSorted (x ∷ xs) = insert-IsSorted x (sort_names xs) (sort_names-IsSorted xs)

mem-Permᴰ : {a : Str} {xs ys : List Str} → Permᴰ xs ys → Memᴰ a xs → Memᴰ a ys
mem-Permᴰ Permᴰ.nil m = m
mem-Permᴰ (Permᴰ.cons e d) (Memᴰ.head f) = Memᴰ.head (f ∙ e)
mem-Permᴰ (Permᴰ.cons e d) (Memᴰ.tail m) = Memᴰ.tail (mem-Permᴰ d m)
mem-Permᴰ (Permᴰ.swap e f) (Memᴰ.head g) = Memᴰ.tail (Memᴰ.head (g ∙ e))
mem-Permᴰ (Permᴰ.swap e f) (Memᴰ.tail (Memᴰ.head g)) = Memᴰ.head (g ∙ f)
mem-Permᴰ (Permᴰ.swap e f) (Memᴰ.tail (Memᴰ.tail m)) = Memᴰ.tail (Memᴰ.tail m)
mem-Permᴰ (Permᴰ.trans d₁ d₂) m = mem-Permᴰ d₂ (mem-Permᴰ d₁ m)

mem-keep :
    (p : Str → Bool) (xs : List Str) {n : Str} → Memᴰ n (keep p xs) → Memᴰ n xs × (p n ≡ true)
unfolding keep
mem-keep p [] m = absurd (Memᴰ.not-nil m)
mem-keep p (x ∷ xs) {n} m = go (mem-keep p xs) (Bool-cases (p x)) m
  where
    go :
        (Memᴰ n (keep p xs) → Memᴰ n xs × (p n ≡ true))
        → (p x ≡ true) ⊎ (p x ≡ false)
        → Memᴰ n (if p x then x ∷ keep p xs else keep p xs)
        → Memᴰ n (x ∷ xs) × (p n ≡ true)
    go ih (inl kept) m = kept_mem (rw kept at m)
      where
        kept_mem : Memᴰ n (x ∷ keep p xs) → Memᴰ n (x ∷ xs) × (p n ≡ true)
        kept_mem (Memᴰ.head e) = (Memᴰ.head e, ap p e ∙ kept)
        kept_mem (Memᴰ.tail t) = let (there, holds) = ih t in (Memᴰ.tail there, holds)
    go ih (inr gone) m =
        let m' : Memᴰ n (keep p xs) = rw gone at m in
        let (there, holds) = ih m' in (Memᴰ.tail there, holds)

nothing : (o : Option Bytes) → o ≡ none → is_some o ≢ true
nothing none e h = cc
nothing (some m) e h = cc

module _ (address : Str → Option Str) where
  -- The interface whose address is taken from a list.
  abbrev Taken : List Str → Bytes → Type 0
  Taken names mac =
      (name : Str) × Memᴰ name names
      × (usable (address name) ≡ some mac)
      × All (λ n. is_some (usable (address n)) ≡ true → goes_before name n ≡ true) names

  All-weaken :
      (x : Str) (xs : List Str)
      → All (λ y. goes_before x y ≡ true) xs
      → All (λ n. is_some (usable (address n)) ≡ true → goes_before x n ≡ true) xs
  All-weaken x [] h = tt
  All-weaken x (y ∷ xs) (hy, h) = ((λ e. hy), All-weaken x xs h)

  first_mac-Taken :
      (names : List Str) {mac : Bytes}
      → IsSorted names
      → first_mac address names ≡ some mac
      → Taken names mac
  unfolding first_mac IsSorted
  first_mac-Taken [] sorted h = cc
  first_mac-Taken (x ∷ xs) {mac} (before, sorted) h =
      go (first_mac-Taken xs sorted) (usable (address x)) refl h
    where
      go :
          (first_mac address xs ≡ some mac → Taken xs mac)
          → (o : Option Bytes) → usable (address x) ≡ o
          → elim o [ none ↦ first_mac address xs | some m ↦ some m ] ≡ some mac
          → Taken (x ∷ xs) mac
      go ih none e h =
          let (name, there, found, best) = ih h in
          (name, Memᴰ.tail there, found, ((λ some_there. absurd (nothing _ e some_there)), best))
      go ih (some m) e h =
          let itself : goes_before x x ≡ true = elim (goes_before_total x x) [
            | inl a ↦ a
            | inr a ↦ a
          ] in
          (x, Memᴰ.head refl, e ∙ h, ((λ usable_x. itself), All-weaken x xs before))

  -- A hardware address, of an interface of the directory that is a candidate and that goes before
  -- every other candidate with a usable address.
  abbrev pub Chosen : List Str → Bytes → Type 0
  Chosen names mac =
      IsHardware mac
      × (name : Str) × Memᴰ name names
      × (is_candidate name ≡ true)
      × (usable (address name) ≡ some mac)
      × All
          (λ n.
            is_candidate n ≡ true → is_some (usable (address n)) ≡ true → goes_before name n ≡ true)
          names

  pub host_mac-Chosen :
      (names : List Str) (mac : Bytes) → host_mac address (some names) ≡ some mac → Chosen names mac
  unfolding host_mac
  host_mac-Chosen names mac h =
      let kept = keep is_candidate names in
      let (name, there, found, best) =
        first_mac-Taken (sort_names kept) (sort_names-IsSorted kept) h in
      let (listed, candidate) =
        mem-keep is_candidate names (mem-Permᴰ (sort_names-Permᴰ kept) there) in
      (
        usable-IsHardware (address name) found,
        name,
        listed,
        candidate,
        found,
        All-keep _ is_candidate names (All-Permᴰ _ (sort_names-Permᴰ kept) best),
      )
