-- ===== src/Mm/Heap/Alloc.antt =====
-- `kmalloc` of mm/heap.c on the cells that the headers represent.
use zythos.Base.{
  ℕ, zero, suc, ◌+◌, ◌-◌, ◌≤◌, ◌<◌, ◌≡◌, ◌≢◌, refl, sym, ap, ◌∙◌, inl, inr, true, false, some, List,
  [], ◌∷◌, arith, length, ◌==◌, leb, Bool-cases,
}
use zythos.Mm.{Ptr, null, Memory, write, mm_align_size, max_rounds, max_rounds_large}
use zythos.Mm.Cells.{Cell, extent, fits, carve, allocate, payload}
use zythos.Mm.Layout.{
  Leaves-cons, Leaves, at-nonempty, block, at, Layout, Layout-same, IsHeap, length-le-extent,
}
use zythos.Mm.Heap.{take_block, kmalloc_loop, kmalloc}

take_block-Leaves :
    (request : ℕ) (a : Ptr) (c : Cell) (cs : List Cell) (h : Memory)
    → fits request c ≡ true
    → 0 < a
    → Layout h.store a (c ∷ cs)
    → Leaves a (carve request c cs) h (take_block a (block c (at (a + 12 + c.size) cs)) request h)
unfolding take_block write
take_block-Leaves request a c cs h ok pos (here, rest) =
    elim (Bool-cases (leb 28 (c.size - request))) [
      | inl split ↦
          let e : a + 12 + request + 12 + (c.size - request - 12) ≡ a + 12 + c.size =
            ground arith in
          rw split (record {
            layout = (
              ground arith,
              (
                ground (arith, ap (λ x. at x cs) e),
                rw e (Layout-same h.store _ (a + 12 + c.size) cs (λ x le. ground arith) rest),
              ),
            );
            below = λ x lt. ground arith;
            first = refl;
            bytes = refl;
          })
      | inr whole ↦ rw whole (record {
        layout =
            (ground arith, Layout-same h.store _ (a + 12 + c.size) cs (λ x le. ground arith) rest);
        below = λ x lt. ground arith;
        first = refl;
        bytes = refl;
      })
    ]

at-allocate : (a request : ℕ) (cs : List Cell) → at a (allocate request cs) ≡ at a cs
at-allocate a request [] = refl
at-allocate a request (c ∷ cs) = ground arith

kmalloc_loop-Leaves :
    (fuel request : ℕ) (a : Ptr) (cs : List Cell) (h : Memory)
    → length cs < fuel
    → 0 < a
    → Layout h.store a cs
    → (h' : Memory) × (kmalloc_loop fuel (at a cs) request h ≡ some (payload request a cs, h'))
      × Leaves a (allocate request cs) h h'
unfolding kmalloc_loop
kmalloc_loop-Leaves zero request a cs h lt pos l = absurd (omega arith)
kmalloc_loop-Leaves (suc fuel) request a [] h lt pos l =
    (h, refl, record { layout = tt; below = λ x lt. refl; first = refl; bytes = refl })
kmalloc_loop-Leaves (suc fuel) request a (c ∷ cs) h lt pos (here, rest) =
    let ne : (a == null) ≡ false = ground arith in
    elim (Bool-cases (fits request c)) [
      | inl ok ↦ (
        take_block a (block c (at (a + 12 + c.size) cs)) request h,
        rw (ne, here, ok),
        rw ok (take_block-Leaves request a c cs h ok pos (here, rest)),
      )
      | inr miss ↦
          let (h', run, took) =
            kmalloc_loop-Leaves fuel request (a + 12 + c.size) cs h (omega arith) (omega arith)
              rest in
          (
            h',
            rw (ne, here, miss) run,
            rw miss (
                Leaves-cons a c (allocate request cs) h h'
                  (here ∙ ap (λ p. some (block c p)) (sym (at-allocate _ request cs))) took),
          )
    ]

extent-carve :
    (request : ℕ) (c : Cell) (cs : List Cell)
    → fits request c ≡ true
    → extent (carve request c cs) ≡ 12 + c.size + extent cs
extent-carve request c cs ok = ground arith

extent-allocate : (request : ℕ) (cs : List Cell) → extent (allocate request cs) ≡ extent cs
extent-allocate request [] = refl
extent-allocate request (c ∷ cs) =
    ground (arith, extent-carve request c cs, extent-allocate request cs)

length-allocate : (request : ℕ) (cs : List Cell) → length cs ≤ length (allocate request cs)
length-allocate request [] = omega arith
length-allocate request (c ∷ cs) = ground (arith, length-allocate request cs)

-- `kmalloc` with a size other than 0 always returns. It is first fit on the blocks: the pointer is
-- the payload of the first free block that is large enough, or null if there is none, the headers
-- afterwards are those of the block list with that block taken and split, they still take the whole
-- heap, and no payload byte has changed.
pub kmalloc_lem :
    {g_heap capacity size : ℕ} {h : Memory} {cs : List Cell}
    → IsHeap g_heap capacity h cs
    → size ≢ 0
    → let request = mm_align_size size in
      (h' : Memory) × (kmalloc size h ≡ some (payload request g_heap cs, h'))
      × IsHeap g_heap capacity h' (allocate request cs)
      × (h'.bytes ≡ h.bytes)
unfolding kmalloc
kmalloc_lem {g_heap} {capacity} {size} {h} {cs} is ne =
    let request = mm_align_size size in
    let (h', run, took) =
      kmalloc_loop-Leaves max_rounds request g_heap cs h
        (omega (arith, length-le-extent cs, max_rounds_large)) is.placed is.layout in
    (
      h',
      ground (arith, at-nonempty g_heap cs is.nonempty, is.first, run),
      record {
        first = took.first ∙ is.first;
        placed = is.placed;
        nonempty = omega (arith, is.nonempty, length-allocate request cs);
        full = extent-allocate request cs ∙ is.full;
        small = is.small;
        layout = took.layout;
      },
      took.bytes,
    )
