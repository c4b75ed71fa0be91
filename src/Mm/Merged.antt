-- ===== src/Mm/Merged.antt =====
-- Lists of blocks of which no two neighbours are both free.
use zythos.Base.{
  ℕ, ◌+◌, ◌-◌, ◌≡◌, refl, ap, ◌∙◌, ◌⊎◌, inl, inr, true, false, ◌||◌, List, [], ◌∷◌, ◌++◌, arith,
  leb, if◌then◌else◌, Bool-cases,
}
use zythos.Mm.Cells.{Cell, cell, extent, fits, carve, allocate, payload, absorb, release}

abbrev pub IsMerged : List Cell → Type 0
IsMerged [] = Unit
IsMerged (c ∷ []) = Unit
IsMerged (c ∷ d ∷ cs) = ((c.used || d.used) ≡ true) × IsMerged (d ∷ cs)

IsMerged-tail : (c : Cell) (cs : List Cell) → IsMerged (c ∷ cs) → IsMerged cs
IsMerged-tail c [] m = tt
IsMerged-tail c (d ∷ cs) m = m.1

-- Marking a block used, or exchanging it for another used one, joins nothing.
IsMerged-used : (n : ℕ) (cs : List Cell) → IsMerged cs → IsMerged (cell true n ∷ cs)
IsMerged-used n [] m = tt
IsMerged-used n (d ∷ cs) m = (refl, m)

IsMerged-free :
    (n : ℕ) (c : Cell) (cs : List Cell)
    → c.used ≡ false
    → IsMerged (c ∷ cs)
    → IsMerged (cell false n ∷ cs)
IsMerged-free n c [] e m = tt
IsMerged-free n c (d ∷ cs) e m = ground arith

carve-IsMerged :
    (request : ℕ) (c : Cell) (cs : List Cell)
    → fits request c ≡ true
    → IsMerged (c ∷ cs)
    → IsMerged (carve request c cs)
carve-IsMerged request c cs ok m = ground (
  arith,
  IsMerged-used c.size cs (IsMerged-tail c cs m),
  IsMerged-free (c.size - request - 12) c cs (ground arith) m,
)

pub allocate-IsMerged :
    (request : ℕ) (cs : List Cell) → IsMerged cs → IsMerged (allocate request cs)
allocate-IsMerged request [] m = tt
allocate-IsMerged request (c ∷ []) m = ground (arith, carve-IsMerged request c [])
allocate-IsMerged request (c ∷ d ∷ cs) m =
    ground (arith, carve-IsMerged request c (d ∷ cs), allocate-IsMerged request (d ∷ cs) m.1)

absorb-IsMerged : (n : ℕ) (behind : List Cell) → IsMerged behind → IsMerged (absorb n behind)
absorb-IsMerged n [] m = tt
absorb-IsMerged n (d ∷ []) m = ground arith
absorb-IsMerged n (d ∷ e ∷ ds) m = ground arith

used-IsMerged : (d : Cell) (cs : List Cell) → d.used ≡ true → IsMerged cs → IsMerged (d ∷ cs)
used-IsMerged d [] u m = tt
used-IsMerged d (c ∷ cs) u m = (ground arith, m)

absorb-cons-IsMerged :
    (d : Cell) (n : ℕ) (behind : List Cell)
    → d.used ≡ true
    → IsMerged behind
    → IsMerged (d ∷ absorb n behind)
absorb-cons-IsMerged d n behind u m =
    used-IsMerged d (absorb n behind) u (absorb-IsMerged n behind m)

-- What stands in front of the released block sees a used neighbour only if it saw one before.
release-cons-IsMerged :
    (d e : Cell) (before : List Cell) (n : ℕ) (behind : List Cell)
    → (d.used || e.used) ≡ true
    → IsMerged (release (e ∷ before) n behind)
    → IsMerged (d ∷ release (e ∷ before) n behind)
release-cons-IsMerged d e [] n [] q m = ground arith
release-cons-IsMerged d e [] n (f ∷ behind) q m = ground arith
release-cons-IsMerged d e (f ∷ before) n behind q m = (q, m)

pub release-IsMerged :
    (before : List Cell) (c : Cell) (behind : List Cell)
    → IsMerged (before ++ c ∷ behind)
    → IsMerged (release before c.size behind)
release-IsMerged [] c behind m = absorb-IsMerged c.size behind (IsMerged-tail c behind m)
release-IsMerged (d ∷ []) c behind m =
    let rest = IsMerged-tail c behind m.1 in
    ground (
      arith,
      absorb-cons-IsMerged d c.size behind,
      absorb-IsMerged (d.size + (c.size + 12)) behind rest,
    )
release-IsMerged (d ∷ e ∷ before) c behind m =
    release-cons-IsMerged d e before c.size behind m.0 (release-IsMerged (e ∷ before) c behind m.1)

-- The blocks in front of the one that first fit takes, and those behind it.
pub record Found (request : ℕ) (cs : List Cell) : Type 0 where
  pub before : List Cell
  pub block : Cell
  pub behind : List Cell
  pub splits : cs ≡ before ++ block ∷ behind
  pub fit : fits request block ≡ true
  pub taken : allocate request cs ≡ before ++ carve request block behind

abbrev pub NoneFits : ℕ → List Cell → Type 0
NoneFits request [] = Unit
NoneFits request (c ∷ cs) = (fits request c ≡ false) × NoneFits request cs

-- Either no block fits, or first fit takes one, whose payload is the pointer returned.
pub allocate_cases :
    (request a : ℕ) (cs : List Cell)
    → (NoneFits request cs × (payload request a cs ≡ 0) × (allocate request cs ≡ cs))
      ⊎ ((f : Found request cs) × (payload request a cs ≡ a + extent f.before + 12))
allocate_cases request a [] = inl (tt, refl, refl)
allocate_cases request a (c ∷ cs) = elim (Bool-cases (fits request c)) [
  | inl ok ↦ inr (
    record { before = []; block = c; behind = cs; splits = refl; fit = ok; taken = ground arith },
    ground arith,
  )
  | inr miss ↦ elim (allocate_cases request (a + 12 + c.size) cs) [
    | inl (n, p, q) ↦ inl ((miss, n), ground arith, ground arith)
    | inr (f, p) ↦ inr (
      record {
        before = c ∷ f.before;
        block = f.block;
        behind = f.behind;
        splits = ap (λ xs. c ∷ xs) f.splits;
        fit = f.fit;
        taken = rw miss (ap (λ xs. c ∷ xs) f.taken);
      },
      ground arith,
    )
  ]
]

-- The block that `carve` takes, and what it puts behind it.
abbrev pub carved : ℕ → Cell → ℕ
carved request c = if leb 28 (c.size - request) then request else c.size

abbrev pub carved_behind : ℕ → Cell → List Cell → List Cell
carved_behind request c behind =
    if leb 28 (c.size - request) then cell false (c.size - request - 12) ∷ behind else behind

pub carve_eq :
    (request : ℕ) (c : Cell) (behind : List Cell)
    → carve request c behind ≡ cell true (carved request c) ∷ carved_behind request c behind
carve_eq request c behind = ground arith

absorb-carved :
    (request : ℕ) (c : Cell) (behind : List Cell)
    → fits request c ≡ true
    → IsMerged (c ∷ behind)
    → absorb (carved request c) (carved_behind request c behind) ≡ c ∷ behind
absorb-carved request c [] ok m = ground arith
absorb-carved request c (d ∷ behind) ok m = ground arith

release-absorb :
    (before : List Cell) (c : Cell) (n : ℕ) (behind behind' : List Cell)
    → c.used ≡ false
    → IsMerged (before ++ c ∷ behind')
    → release before n behind ≡ before ++ absorb n behind
release-absorb [] c n behind behind' u m = refl
release-absorb (d ∷ []) c n behind behind' u m = ground arith
release-absorb (d ∷ e ∷ before) c n behind behind' u m =
    ap (λ xs. d ∷ xs) (release-absorb (e ∷ before) c n behind behind' u m.1)

IsMerged-suffix : (before : List Cell) (cs : List Cell) → IsMerged (before ++ cs) → IsMerged cs
IsMerged-suffix [] cs m = m
IsMerged-suffix (d ∷ before) cs m = IsMerged-suffix before cs (IsMerged-tail d (before ++ cs) m)

-- Under the invariant, releasing the block that was just carved gives back the blocks before.
pub release-carve :
    (request : ℕ) (before : List Cell) (c : Cell) (behind : List Cell)
    → fits request c ≡ true
    → IsMerged (before ++ c ∷ behind)
    → release before (carved request c) (carved_behind request c behind) ≡ before ++ c ∷ behind
release-carve request before c behind ok m =
    release-absorb before c _ _ behind (ground arith) m
    ∙ ap (λ xs. before ++ xs)
        (absorb-carved request c behind ok (IsMerged-suffix before (c ∷ behind) m))
