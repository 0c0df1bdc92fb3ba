-- ===== src/Prelude/Below.antt =====
-- Facts about all numbers below a numeral, by evaluation.
use Prim.Native.Nat.{ℕ, zero, suc, ◌<◌}
use mathlib.Core.Path.{◌≡◌}
use mathlib.Core.Bool.{Bool, true, ◌&&◌}
use native.Mathlib.Omega.{arith}

unfoldable pub every_below : (bound : ℕ) → (ℕ → Bool) → Bool
every_below zero test = true
every_below (suc last) test = test last && every_below last test

pub every_below-at :
    (bound : ℕ) (test : ℕ → Bool) (i : ℕ)
    → every_below bound test ≡ true
    → i < bound
    → test i ≡ true
unfolding every_below
every_below-at (suc last) test i all below = ground (arith, every_below-at last test i)
every_below-at zero test i all below = absurd (omega arith)
