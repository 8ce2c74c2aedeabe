-- ===== src/Base/Tables.antt =====
-- Facts about all the values of a small range, checked by evaluation.
use Prim.Native.Nat.{ℕ, zero, suc, ◌<◌}
use mathlib.Core.Path.{◌≡◌}
use mathlib.Core.Bool.{Bool, true, false}
use native.Mathlib.Omega.{arith}
use pico_all.Base.Tests.{if◌then◌else◌}

-- The test passes at every number below the bound, from the bound down.
unfoldable pub passes_below : (ℕ → Bool) → ℕ → Bool
passes_below test zero = true
passes_below test (suc bound) =
    let below = passes_below test bound in if test bound then below else false

pub passes_below-lt :
    (test : ℕ → Bool) (bound v : ℕ) → v < bound → passes_below test bound ≡ true → test v ≡ true
unfolding passes_below
passes_below-lt test zero v small table = elim small [ ]
passes_below-lt test (suc bound) v small table = ground (arith, passes_below-lt test bound v)
