-- ===== src/Prelude/Ranges.antt =====
-- A Boolean property of the numbers below a bound, decided by evaluation.
use Prim.Native.Nat.{ℕ, zero, suc, ◌<◌}
use mathlib.Core.Path.{◌≡◌}
use mathlib.Core.Bool.{Bool, true, ◌&&◌}
use native.Mathlib.Omega.{arith}

unfoldable pub check_range : (ℕ → Bool) → ℕ → Bool
check_range property zero = true
check_range property (suc top) = check_range property top && property top

pub check_range-lookup :
    (property : ℕ → Bool) (bound n : ℕ)
    → n < bound
    → check_range property bound ≡ true
    → property n ≡ true
unfolding check_range
check_range-lookup property zero n below checked = absurd (omega arith)
check_range-lookup property (suc top) n below checked =
    ground (arith, check_range-lookup property top n)
