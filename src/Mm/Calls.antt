-- ===== src/Mm/Calls.antt =====
-- What the rest of the system uses of mm/: the two calls on a heap, whose state they pass on.
use zythos.Base.{ℕ, suc, ◌≢◌}

pub record HeapCalls (H : Type 0) : Type 0 where
  pub kmalloc : ℕ → H → ℕ × H
  pub kfree : ℕ → H → H

-- While `HasRoom n h`, so many calls for `size` bytes more give addresses that are not in use, that is
-- not among those that `Owns h` names.
pub record IsAllocator {H : Type 0} (calls : HeapCalls H) (size : ℕ) (Owns : H → ℕ → Type 0)
    (HasRoom : ℕ → H → Type 0) : Type 0 where
  pub gives : (n : ℕ) (h : H) → HasRoom (suc n) h → (calls.kmalloc size h).0 ≢ 0
  pub leaves : (n : ℕ) (h : H) → HasRoom (suc n) h → HasRoom n (calls.kmalloc size h).1
  pub fresh : (n : ℕ) (h : H) → HasRoom (suc n) h → Owns h (calls.kmalloc size h).0 → ⊥
  pub owned :
      (n : ℕ) (h : H) → HasRoom (suc n) h → Owns (calls.kmalloc size h).1 (calls.kmalloc size h).0
  pub keeps : (n a : ℕ) (h : H) → HasRoom (suc n) h → Owns h a → Owns (calls.kmalloc size h).1 a
