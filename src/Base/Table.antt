-- ===== src/Base/Table.antt =====
-- Facts over a small range, checked at every value by evaluation.
use Prim.Native.Nat.{ℕ, zero, suc, ◌<◌}
use mathlib.Core.Path.{◌≡◌}
use mathlib.Core.Bool.{Bool, true, ◌&&◌}
use native.Mathlib.Omega.{arith}

unfoldable pub all_below : ℕ → (ℕ → Bool) → Bool
all_below zero row = true
all_below (suc last) row = all_below last row && row last

pub all_below_sound :
    (size : ℕ) (row : ℕ → Bool) (i : ℕ) → all_below size row ≡ true → i < size → row i ≡ true
unfolding all_below
all_below_sound zero row i checked inside = absurd (omega arith)
all_below_sound (suc last) row i checked inside = ground (all_below_sound last row i, arith)
