-- ===== src/Mm/Layout.antt =====
-- How the headers in memory represent a list of cells: one after the other from an address on, each
-- pointing at the one behind it.
use zythos.Base.{
  sym, ap, ◌++◌, ℕ, ◌+◌, ◌*◌, ◌≤◌, ◌<◌, ◌≡◌, ◌≢◌, refl, ◌∙◌, some, List, [], ◌∷◌, arith, length,
}
use zythos.Mm.{put, Ptr, null, Block, Store, Memory, write}
use zythos.Mm.Cells.{Cell, extent}

abbrev pub block : Cell → Ptr → Block
block c next = record { size = c.size; used = c.used; next = next }

-- The pointer to cells that stand at `a`.
abbrev pub at : Ptr → List Cell → Ptr
at a [] = null
at a (c ∷ cs) = a

abbrev pub Layout : Store → Ptr → List Cell → Type 0
Layout s a [] = Unit
Layout s a (c ∷ cs) =
    (s a ≡ some (block c (at (a + 12 + c.size) cs))) × Layout s (a + 12 + c.size) cs

pub at-nonempty : (a : Ptr) (cs : List Cell) → 0 < length cs → at a cs ≡ a
at-nonempty a [] h = absurd (omega arith)
at-nonempty a (c ∷ cs) h = refl

-- Every header below `a` is as it was.
abbrev pub SameBelow : Ptr → Store → Store → Type 0
SameBelow a s t = (x : Ptr) → x < a → t x ≡ s x

-- The globals represent the cells of a heap of `capacity` bytes at `g_heap`.
pub record IsHeap (g_heap capacity : ℕ) (h : Memory) (cs : List Cell) : Type 0 where
  pub first : h.first_block ≡ g_heap
  pub placed : 0 < g_heap
  pub nonempty : 0 < length cs
  pub full : extent cs ≡ capacity
  pub small : capacity ≤ 262144
  pub layout : Layout h.store g_heap cs

pub length-le-extent : (cs : List Cell) → 12 * length cs ≤ extent cs
length-le-extent [] = omega arith
length-le-extent (c ∷ cs) = omega (arith, length-le-extent cs)

-- Cells stand in every store that has the same headers from their address on.
pub Layout-same :
    (s t : Store) (a : Ptr) (cs : List Cell)
    → ((x : Ptr) → a ≤ x → t x ≡ s x)
    → Layout s a cs
    → Layout t a cs
Layout-same s t a [] same l = tt
Layout-same s t a (c ∷ cs) same (here, rest) = (
  same a (omega arith) ∙ here,
  Layout-same s t (a + 12 + c.size) cs (λ x le. same x (omega arith)) rest,
)

pub Layout-write_below :
    (s : Store) (a x : Ptr) (b : Block) (cs : List Cell)
    → x < a
    → Layout s a cs
    → Layout (write s x b) a cs
unfolding write
Layout-write_below s a x b cs lt l = Layout-same s _ a cs (λ y le. ground arith) l

pub write_self : (s : Store) (a : Ptr) (b : Block) → write s a b a ≡ some b
unfolding write
write_self s a b = ground arith

pub write_ne : (s : Store) {a x : Ptr} (b : Block) → x ≢ a → write s a b x ≡ s x
unfolding write
write_ne s b ne = ground arith

-- What an operation that works from `a` on leaves behind.
pub record Leaves (a : Ptr) (after : List Cell) (h h' : Memory) : Type 0 where
  pub layout : Layout h'.store a after
  pub below : SameBelow a h.store h'.store
  pub first : h'.first_block ≡ h.first_block
  pub bytes : h'.bytes ≡ h.bytes

-- A block that the operation passes keeps its place in front.
pub Leaves-cons :
    (a : Ptr) (c : Cell) (after : List Cell) (h h' : Memory)
    → h.store a ≡ some (block c (at (a + 12 + c.size) after))
    → Leaves (a + 12 + c.size) after h h'
    → Leaves a (c ∷ after) h h'
Leaves-cons a c after h h' here t = record {
  layout = (t.below a (omega arith) ∙ here, t.layout);
  below = λ x lt. t.below x (omega arith);
  first = t.first;
  bytes = t.bytes;
}

pub at-split :
    (a : Ptr) (before : List Cell) (c : Cell) (behind : List Cell) → at a (before ++ c ∷ behind) ≡ a
at-split a [] c behind = refl
at-split a (d ∷ before) c behind = refl

-- The header of a block in the middle.
pub Layout-middle :
    (s : Store) (a : Ptr) (before : List Cell) (c : Cell) (behind : List Cell)
    → Layout s a (before ++ c ∷ behind)
    → s (a + extent before) ≡ some (block c (at (a + extent before + 12 + c.size) behind))
Layout-middle s a [] c behind (here, rest) = let e : a + 0 ≡ a = omega arith in rw e here
Layout-middle s a (d ∷ before) c behind (here, rest) =
    let e : a + (12 + d.size + extent before) ≡ a + 12 + d.size + extent before = omega arith in
    rw e (Layout-middle s (a + 12 + d.size) before c behind rest)

-- Writing the header of a block in the middle anew, at the size that it had.
pub Layout-remark :
    (s : Store) (a b p : Ptr) (before : List Cell) (c d : Cell) (behind : List Cell)
    → b ≡ a + extent before
    → d.size ≡ c.size
    → s b ≡ some (block c p)
    → Layout s a (before ++ c ∷ behind)
    → Layout (write s b (block d p)) a (before ++ d ∷ behind)
unfolding write
Layout-remark s a b p [] c d behind eb e is (here, rest) = (
  ground (arith, ap (λ n. at (a + 12 + n) behind) e),
  rw e (Layout-same s _ (a + 12 + c.size) behind (λ x le. ground arith) rest),
)
Layout-remark s a b p (f ∷ before) c d behind eb e is (here, rest) = (
  ground (
    arith,
    at-split (a + 12 + f.size) before c behind,
    at-split (a + 12 + f.size) before d behind,
  ),
  Layout-remark s (a + 12 + f.size) b p before c d behind (omega arith) e is rest,
)

pub Leaves-self : (a : Ptr) (cs : List Cell) (h : Memory) → Layout h.store a cs → Leaves a cs h h
Leaves-self a cs h l = record { layout = l; below = λ x lt. refl; first = refl; bytes = refl }

-- Writing a header at `a`, in front of cells that stand behind it.
pub Leaves-put :
    (a : Ptr) (c : Cell) (cs : List Cell) (h : Memory)
    → Layout h.store (a + 12 + c.size) cs
    → Leaves a (c ∷ cs) h (put h a (block c (at (a + 12 + c.size) cs)))
unfolding write
Leaves-put a c cs h l = record {
  layout = (ground arith, Layout-write_below h.store (a + 12 + c.size) a _ cs (omega arith) l);
  below = λ x lt. ground arith;
  first = refl;
  bytes = refl;
}

pub Leaves-trans :
    {a : Ptr} {bs cs : List Cell} {h h' h'' : Memory}
    → Leaves a bs h h'
    → Leaves a cs h' h''
    → Leaves a cs h h''
Leaves-trans p q = record {
  layout = q.layout;
  below = λ x lt. q.below x lt ∙ p.below x lt;
  first = q.first ∙ p.first;
  bytes = q.bytes ∙ p.bytes;
}

-- Memory determines the cells.
pub Layout-unique :
    (s : Store) (a : Ptr) (cs ds : List Cell)
    → 0 < a
    → at a cs ≡ at a ds
    → Layout s a cs
    → Layout s a ds
    → cs ≡ ds
Layout-unique s a [] [] pos e l m = refl
Layout-unique s a [] (d ∷ ds) pos e l m = absurd (omega arith)
Layout-unique s a (c ∷ cs) [] pos e l m = absurd (omega arith)
Layout-unique s a (c ∷ cs) (d ∷ ds) pos e (here, rest) (here', rest') =
    let same : c ≡ d = ground arith in
    let next : at (a + 12 + c.size) cs ≡ at (a + 12 + d.size) ds = ground arith in
    let sizes : c.size ≡ d.size = ground arith in
    cc (
      same,
      Layout-unique s (a + 12 + c.size) cs ds (omega arith)
          (next ∙ ap (λ n. at (a + 12 + n) ds) (sym sizes)) rest (rw sizes rest'),
    )

pub Layout-behind :
    (s : Store) (a b : Ptr) (before cs : List Cell)
    → b ≡ a + extent before
    → Layout s a (before ++ cs)
    → Layout s b cs
Layout-behind s a b [] cs e l = let same : b ≡ a = omega arith in rw same l
Layout-behind s a b (d ∷ before) cs e (here, rest) =
    Layout-behind s (a + 12 + d.size) b before cs (omega arith) rest

at-append :
    (a b : Ptr) (before cs : List Cell)
    → b ≡ a + extent before
    → at b cs ≡ b
    → at a (before ++ cs) ≡ a
at-append a b [] cs e q = let same : a ≡ b = omega arith in rw same q
at-append a b (d ∷ before) cs e q = refl

-- An operation that works from the middle on keeps what stands in front.
pub Leaves-behind :
    (a b : Ptr) (before : List Cell) (c : Cell) (cs ds : List Cell) (h h' : Memory)
    → b ≡ a + extent before
    → at b ds ≡ b
    → Layout h.store a (before ++ c ∷ cs)
    → Leaves b ds h h'
    → Leaves a (before ++ ds) h h'
Leaves-behind a b [] c cs ds h h' e q l after = let same : a ≡ b = omega arith in rw same after
Leaves-behind a b (f ∷ before) c cs ds h h' e q (here, rest) after =
    Leaves-cons a f (before ++ ds) h h'
      (rw (at-append (a + 12 + f.size) b before ds (omega arith) q) (rw at-split at here))
      (Leaves-behind (a + 12 + f.size) b before c cs ds h h' (omega arith) q rest after)
