-- ===== src/Prelude/Bits.antt =====
-- Facts about all the values below a bound, by evaluation.
use Prim.Native.Nat.{ℕ, zero, suc, ◌<◌}
use mathlib.Core.Path.{◌≡◌}
use mathlib.Core.Bool.{Bool, true, false}
use native.Mathlib.Omega.{arith}
use snmptrap_rs.Prelude.Tests.{if◌then◌else◌}

-- Whether the test holds of every value under the bound.
unfoldable pub passes_below : (ℕ → Bool) → ℕ → Bool
passes_below test zero = true
passes_below test (suc bound) =
    let smaller = passes_below test bound in if smaller then test bound else false

pub passes_below_at :
    (test : ℕ → Bool) (bound : ℕ)
    → passes_below test bound ≡ true
    → (v : ℕ) → v < bound
    → test v ≡ true
unfolding passes_below
passes_below_at test zero passed v small = absurd (omega arith)
passes_below_at test (suc bound) passed v small =
    let inside : passes_below test bound ≡ true → v < bound → test v ≡ true =
      λ e h. passes_below_at test bound e v h in
    ground (arith, inside)
