-- ===== src/Prelude/Tables.antt =====
-- A law on small numbers, decided by trying them all.
use Prim.Native.Nat.{ℕ, zero, suc, ◌<◌}
use mathlib.Core.Path.{◌≡◌, ap, ◌∙◌}
use mathlib.Core.Bool.{Bool, true, ◌&&◌}
use native.Mathlib.Decide.{ℕ_discrete}
use native.Mathlib.Omega.{arith}

unfoldable pub table : (ℕ → Bool) → ℕ → Bool
table law zero = true
table law (suc k) = table law k && law k

both_true : (p q : Bool) → (p && q) ≡ true → (p ≡ true) × (q ≡ true)
both_true p q h = (ground arith, ground arith)

pub table_holds : (law : ℕ → Bool) (k : ℕ) → table law k ≡ true → (x : ℕ) → x < k → law x ≡ true
unfolding table
table_holds law zero all x lt = absurd (omega arith)
table_holds law (suc k) all x lt =
    let (before, last) = both_true (table law k) (law k) all in
    elim (ℕ_discrete x k) [
      | yes e ↦ ap law e ∙ last
      | no ne ↦ table_holds law k before x (omega (arith, ne))
    ]
