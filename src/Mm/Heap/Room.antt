-- ===== src/Mm/Heap/Room.antt =====
-- First fit of mm/heap.c on a list of blocks: what it gives out, what it leaves, and how often it can go on.
use zythos.Mm.Cells.{Cell, cell, extent, fits, allocate, payload}
use zythos.Base.{
  ℕ, zero, suc, ◌+◌, ◌-◌, ◌≤◌, ◌≡◌, refl, ap, ◌≢◌, ◌⊎◌, inl, inr, Bool, true, false, ◌&&◌, ◌||◌,
  List, [], ◌∷◌, ◌++◌, arith, leb, Bool-cases,
}

pub payload-above :
    (request a : ℕ) (cs : List Cell) → (payload request a cs ≡ 0) ⊎ (a + 12 ≤ payload request a cs)
payload-above request a [] = inl refl
payload-above request a (c ∷ cs) = elim (Bool-cases (fits request c)) [
  | inl it ↦ inr (rw it (omega arith))
  | inr away ↦ elim (payload-above request (a + 12 + c.size) cs) [
    | inl e ↦ inl (rw away e)
    | inr le ↦ inr (rw away (omega (arith, le)))
  ]
]

-- The payload of a block in use is not given out.
pub payload-apart :
    (request a n : ℕ) (before behind : List Cell)
    → payload request a (before ++ cell true n ∷ behind) ≢ a + extent before + 12
payload-apart request a n [] behind = elim (payload-above request (a + 12 + n) behind) [
  | inl e ↦ λ at. absurd (omega (arith, e, at))
  | inr le ↦ λ at. absurd (omega (arith, le, at))
]
payload-apart request a n (c ∷ before) behind = elim (Bool-cases (fits request c)) [
  | inl it ↦ λ at. let here = rw it at at in absurd (omega (arith, here))
  | inr away ↦ λ at.
      let here = rw away at at in
      payload-apart request (a + 12 + c.size) n before behind (omega (arith, here))
]

pub record Kept (request n : ℕ) (before behind : List Cell) : Type 0 where
  pub front : List Cell
  pub back : List Cell
  pub all : allocate request (before ++ cell true n ∷ behind) ≡ front ++ cell true n ∷ back
  pub same : extent front ≡ extent before

-- A block in use stays where it is.
pub allocate-Kept : (request n : ℕ) (before behind : List Cell) → Kept request n before behind
allocate-Kept request n [] behind = record {
  front = [];
  back = allocate request behind;
  all = refl;
  same = refl;
}
allocate-Kept request n (c ∷ before) behind = elim (Bool-cases (fits request c)) [
  | inl it ↦ elim (Bool-cases (leb 28 (c.size - request))) [
    | inl split ↦ record {
      front = cell true request ∷ cell false (c.size - request - 12) ∷ before;
      back = behind;
      all = rw (it, split) refl;
      same = ground (arith, it, split);
    }
    | inr whole ↦ record {
      front = cell true c.size ∷ before;
      back = behind;
      all = rw (it, whole) refl;
      same = refl;
    }
  ]
  | inr away ↦
      let k = allocate-Kept request n before behind in
      record {
        front = c ∷ k.front;
        back = k.back;
        all = rw (away, k.all) refl;
        same = ap (λ x. 12 + c.size + x) k.same;
      }
]

-- Whether a block is free and large enough, and whether so many blocks can be taken in a row.
abbrev pub some_fits : ℕ → List Cell → Bool
some_fits request [] = false
some_fits request (c ∷ cs) = fits request c || some_fits request cs

abbrev pub has_room : ℕ → ℕ → List Cell → Bool
has_room request zero cs = true
has_room request (suc n) cs = some_fits request cs && has_room request n (allocate request cs)

pub payload-some :
    (request a : ℕ) (cs : List Cell) → some_fits request cs ≡ true → a + 12 ≤ payload request a cs
payload-some request a [] e = absurd (ground (arith, e))
payload-some request a (c ∷ cs) e = elim (Bool-cases (fits request c)) [
  | inl it ↦ rw it (omega arith)
  | inr away ↦
      let rest = payload-some request (a + 12 + c.size) cs (rw away at e) in
      rw away (omega (arith, rest))
]
