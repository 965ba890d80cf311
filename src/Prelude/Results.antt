-- ===== src/Prelude/Results.antt =====
-- The result of a Rust function: `Ok`, `Err`, or a panic of an `assert`, an `expect` or an
-- index that is out of range.
use mathlib.Core.Path.{◌≡◌, refl}
use mathlib.Core.Bool.{Bool, true, false}
use mathlib.Core.Option.{Option, none, some}

pub data Outcome (E : Type 0) (A : Type 0) : Type 0 where
  ok : A → Outcome E A
  err : E → Outcome E A
  panic : Outcome E A

-- The operator `?`: what follows is done with the value of an `Ok` alone.
infixl 5 ◌>>=◌ ◌>>◌
abbrev pub ◌>>=◌ : {E A B : Type 0} → Outcome E A → (A → Outcome E B) → Outcome E B
panic >>= next = panic
err reason >>= next = err reason
ok value >>= next = next value

abbrev pub ◌>>◌ : {E B : Type 0} → Outcome E (Unit {0}) → Outcome E B → Outcome E B
first >> second = first >>= λ done. second

abbrev pub map_err : {E F A : Type 0} → (E → F) → Outcome E A → Outcome F A
map_err f (ok a) = ok a
map_err f (err e) = err (f e)
map_err f panic = panic

-- `if cond { return Err(e) }`
abbrev pub reject_if : {E : Type 0} → Bool → E → Outcome E (Unit {0})
reject_if true e = err e
reject_if false e = ok tt

-- `assert!(cond)`
abbrev pub assert : {E : Type 0} → Bool → Outcome E (Unit {0})
assert true = ok tt
assert false = panic

-- `option.expect(…)`
abbrev pub expect : {E A : Type 0} → Option A → Outcome E A
expect none = panic
expect (some a) = ok a

-- `option.ok_or(e)`
abbrev pub ok_or : {E A : Type 0} → Option A → E → Outcome E A
ok_or none e = err e
ok_or (some a) e = ok a

-- Where a chain succeeds, its first link did.
pub >>=-eq-ok :
    {E A B : Type 0} (first : Outcome E A) (next : A → Outcome E B) {result : B}
    → (first >>= next) ≡ ok result
    → (value : A) × (first ≡ ok value) × (next value ≡ ok result)
>>=-eq-ok panic next h = cc
>>=-eq-ok (err reason) next h = cc
>>=-eq-ok (ok value) next h = (value, refl, h)

-- Where a result with its error or its absence renamed is a success, so was the one renamed.
pub map_err-eq-ok :
    {E F A : Type 0} (g : E → F) (m : Outcome E A) {a : A} → map_err g m ≡ ok a → m ≡ ok a
map_err-eq-ok g (ok b) e = cc
map_err-eq-ok g (err x) e = cc
map_err-eq-ok g panic e = cc

pub ok_or-eq-ok : {E A : Type 0} (o : Option A) (x : E) {a : A} → ok_or o x ≡ ok a → o ≡ some a
ok_or-eq-ok none x e = cc
ok_or-eq-ok (some b) x e = cc
