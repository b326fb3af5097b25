-- ===== src/Base/Range.antt =====
-- A claim about every byte or every small code is checked by evaluation.
use Prim.Native.Nat.{ℕ, zero, suc, ◌<◌}
use mathlib.Core.Path.{◌≡◌}
use mathlib.Core.Bool.{Bool, true, ◌&&◌}
use native.Mathlib.Omega.{arith}

-- The test passes at each number in front of `limit`.
unfoldable pub passes : (ℕ → Bool) → ℕ → Bool
passes test zero = true
passes test (suc limit) = passes test limit && test limit

pub passes-lt :
    (test : ℕ → Bool) (limit code : ℕ) → code < limit → passes test limit ≡ true → test code ≡ true
unfolding passes
passes-lt test (suc limit) code below h = ground (arith, passes-lt test limit code)
passes-lt test zero code below h = absurd (omega arith)
