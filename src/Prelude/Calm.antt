-- ===== src/Prelude/Calm.antt =====
-- Computations that do not panic: one rule for each way to build one.
use mathlib.Core.Path.{◌≡◌, refl}
use mathlib.Core.Logic.{◌≢◌}
use mathlib.Core.Bool.{Bool, true, false}
use mathlib.Core.Option.{Option, none, some}
use snmptrap_rs.Prelude.Tests.{if◌then◌else◌}
use snmptrap_rs.Prelude.Results.{Outcome, ok, err, panic, ◌>>=◌, map_err, reject_if, ok_or}

pub record Calm {E A : Type 0} (m : Outcome E A) : Type 0 where
  pub calm : m ≢ panic

module _ {E A : Type 0} where
  pub Calm-ok : (a : A) → Calm {E = E} (ok a)
  Calm-ok a = record { calm = λ h. cc }

  pub Calm-err : (e : E) → Calm {A = A} (err e)
  Calm-err e = record { calm = λ h. cc }

  pub Calm-if : (b : Bool) (m n : Outcome E A) → Calm m → Calm n → Calm (if b then m else n)
  Calm-if true m n cm cn = cm
  Calm-if false m n cm cn = cn

  pub Calm-ok_or : (o : Option A) (e : E) → Calm (ok_or o e)
  Calm-ok_or none e = Calm-err e
  Calm-ok_or (some a) e = Calm-ok a

  pub Calm-absurd : {B : Type 0} → Calm {E = E} {A = A} panic → B
  Calm-absurd c = absurd (c.calm refl)

module _ {E : Type 0} where
  pub Calm-reject_if : (b : Bool) (e : E) → Calm (reject_if b e)
  Calm-reject_if true e = Calm-err e
  Calm-reject_if false e = Calm-ok tt

module _ {E F A : Type 0} where
  pub Calm-map_err : (f : E → F) (m : Outcome E A) → Calm m → Calm (map_err f m)
  Calm-map_err f (ok a) c = Calm-ok a
  Calm-map_err f (err e) c = Calm-err (f e)
  Calm-map_err f panic c = Calm-absurd c

module _ {E A B : Type 0} where
  -- What follows may use that the first step succeeded.
  pub Calm-then :
      (m : Outcome E A) (f : A → Outcome E B)
      → Calm m
      → ((a : A) → m ≡ ok a → Calm (f a))
      → Calm (m >>= f)
  Calm-then (ok a) f cm cf = cf a refl
  Calm-then (err e) f cm cf = Calm-err e
  Calm-then panic f cm cf = Calm-absurd cm

  pub Calm->>= :
      (m : Outcome E A) (f : A → Outcome E B) → Calm m → ((a : A) → Calm (f a)) → Calm (m >>= f)
  Calm->>= m f cm cf = Calm-then m f cm (λ a h. cf a)

pub ruleset calm_rules =
    (Calm-ok, Calm-err, Calm-if, Calm-ok_or, Calm-reject_if, Calm-map_err, Calm->>=)
