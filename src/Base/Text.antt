-- ===== src/Base/Text.antt =====
-- C's strings as the lists of their bytes without the 0 behind them, and the loops that compare and
-- copy them in several files.
use Prim.Native.Nat.{ℕ, zero, suc, ◌≤◌}
use mathlib.Core.Path.{◌≡◌, refl, ap}
use mathlib.Core.Logic.{◌≢◌, inl, inr}
use mathlib.Core.Bool.{Bool, true, false}
use mathlib.Core.List.{List, [], ◌∷◌}
use native.Mathlib.Omega.{arith}
use zythos.Base.Tests.{◌==◌, if◌then◌else◌, Bool-cases, ==_iff, ==-refl}
use zythos.Base.Lists.{length, take}

-- No byte is the 0 that ends a string.
abbrev pub IsText : List ℕ → Type 0
IsText [] = Unit
IsText (c ∷ s) = (c ≢ 0) × IsText s

-- `while (*a && *b) { if (*a != *b) return 0; a++; b++; } return *a == *b;`
unfoldable pub str_eq : List ℕ → List ℕ → Bool
str_eq [] [] = true
str_eq [] (b ∷ t) = 0 == b
str_eq (a ∷ s) [] = a == 0
str_eq (a ∷ s) (b ∷ t) = if a == b then str_eq s t else false

-- `while (*s1 && *s1 == *s2) { s1++; s2++; } return *s1 - *s2;`, as the two bytes of the difference.
unfoldable pub str_cmp : List ℕ → List ℕ → ℕ × ℕ
str_cmp [] [] = (0, 0)
str_cmp [] (b ∷ t) = (0, b)
str_cmp (a ∷ s) [] = (a, 0)
str_cmp (a ∷ s) (b ∷ t) = if a == b then str_cmp s t else (a, b)

-- A difference of 0.
abbrev pub is_zero : ℕ × ℕ → Bool
is_zero (a, b) = a == b

pub str_eq-true : (s t : List ℕ) → IsText s → IsText t → str_eq s t ≡ true → s ≡ t
unfolding str_eq
str_eq-true [] [] hs ht e = refl
str_eq-true [] (b ∷ t) hs ht e = absurd (ground (arith, ht.0))
str_eq-true (a ∷ s) [] hs ht e = absurd (ground (arith, hs.0))
str_eq-true (a ∷ s) (b ∷ t) hs ht e = elim (Bool-cases (a == b)) [
  | inl same ↦ cc ((==_iff a b).0 same, str_eq-true s t hs.1 ht.1 (rw same at e))
  | inr other ↦ absurd (cc (rw other at e))
]

pub str_eq_refl : (s : List ℕ) → str_eq s s ≡ true
unfolding str_eq
str_eq_refl [] = refl
str_eq_refl (a ∷ s) = rw (==-refl a) (str_eq_refl s)

pub str_cmp_refl : (s : List ℕ) → is_zero (str_cmp s s) ≡ true
unfolding str_cmp
str_cmp_refl [] = refl
str_cmp_refl (a ∷ s) = rw (==-refl a) (str_cmp_refl s)

pub str_cmp_zero : (s t : List ℕ) → IsText s → IsText t → is_zero (str_cmp s t) ≡ true → s ≡ t
unfolding str_cmp
str_cmp_zero [] [] hs ht e = refl
str_cmp_zero [] (b ∷ t) hs ht e = absurd (ground (arith, ht.0))
str_cmp_zero (a ∷ s) [] hs ht e = absurd (ground (arith, hs.0))
str_cmp_zero (a ∷ s) (b ∷ t) hs ht e = elim (Bool-cases (a == b)) [
  | inl same ↦ cc ((==_iff a b).0 same, str_cmp_zero s t hs.1 ht.1 (rw same at e))
  | inr other ↦ absurd (ground (arith, other, (rw other at e)))
]

-- A copy that stops with the string or when the room for `n` bytes is used up.
pub take-IsText : (n : ℕ) (s : List ℕ) → IsText s → IsText (take n s)
take-IsText zero s h = tt
take-IsText (suc n) [] h = tt
take-IsText (suc n) (c ∷ s) h = (h.0, take-IsText n s h.1)

pub take-short : (n : ℕ) (s : List ℕ) → length s ≤ n → take n s ≡ s
take-short zero [] h = refl
take-short zero (c ∷ s) h = absurd (omega arith)
take-short (suc n) [] h = refl
take-short (suc n) (c ∷ s) h = ap (λ t. c ∷ t) (take-short n s (omega arith))

pub length-take-le : (n : ℕ) (s : List ℕ) → length (take n s) ≤ n
length-take-le zero s = omega arith
length-take-le (suc n) [] = omega arith
length-take-le (suc n) (c ∷ s) = omega (arith, length-take-le n s)
