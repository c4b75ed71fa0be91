-- ===== src/Base/Ranges.antt =====
-- A test that is run on every number below a bound.
use Prim.Native.Nat.{ℕ, zero, suc, ◌<◌}
use mathlib.Core.Path.{◌≡◌, refl, ◌∙◌, ap}
use mathlib.Core.Bool.{Bool, true, false, ◌&&◌}
use native.Mathlib.Omega.{arith}
use native.Mathlib.Decide.{ℕ_discrete}

abbrev pub all_below : ℕ → (ℕ → Bool) → Bool
all_below zero p = true
all_below (suc n) p = p n && all_below n p

pub and_true : (a b : Bool) → (a && b) ≡ true → (a ≡ true) × (b ≡ true)
and_true true b e = (refl, e)
and_true false b e = absurd (cc e)

pub all_below-at : (n : ℕ) (p : ℕ → Bool) (i : ℕ) → all_below n p ≡ true → i < n → p i ≡ true
all_below-at zero p i e lt = absurd (omega arith)
all_below-at (suc n) p i e lt =
    let (here, rest) = and_true (p n) (all_below n p) e in
    elim (ℕ_discrete i n) [
      | yes same ↦ ap p same ∙ here
      | no other ↦ all_below-at n p i rest (omega (arith, other))
    ]
