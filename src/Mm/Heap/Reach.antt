-- ===== src/Mm/Heap/Reach.antt =====
-- What holds of the heap of mm/heap.c after any calls of its functions.

use mathlib.Core.Path.{subst₂, subst}
use zythos.Base.{
  ℕ, zero, suc, ◌+◌, ◌-◌, ◌≤◌, ◌<◌, ◌≡◌, refl, sym, ap, ◌∙◌, ◌≢◌, ◌⊎◌, inl, inr, true, false, ◌||◌,
  some, List, [], ◌∷◌, ◌++◌, arith, ltb, leb, ◌==◌, if◌then◌else◌,
}
use zythos.Mm.{write, null, Ptr, Memory, mm_align_size, mm_block_payload}
use zythos.Mm.Cells.{extent-append, Cell, cell, extent, allocate, release}
use zythos.Mm.Layout.{IsHeap, Layout-unique, at-nonempty}
use zythos.Mm.Merged.{
  carve_eq, carved, carved_behind, IsMerged, NoneFits, allocate-IsMerged, release-IsMerged,
  allocate_cases, Found, release-carve,
}
use zythos.Mm.Heap.{mem_init, heap_capacity, kmalloc, kfree}
use zythos.Mm.Heap.Alloc.{kmalloc_lem}
use zythos.Mm.Heap.Free.{kfree_lem}
use zythos.Mm.Heap.Wrap.{mm_align_size-enough}
use zythos.Base.{◌^◌, ◌-◌}

-- The capacity that `mem_init` settles on.
abbrev pub usable : ℕ → ℕ
usable total_ram =
    if (total_ram == 0) || leb heap_capacity total_ram
    then heap_capacity
    else if ltb total_ram 12
    then 12
    else total_ram

pub mem_init-IsHeap :
    (g_heap total_ram : ℕ) (h : Memory)
    → 0 < g_heap
    → IsHeap g_heap
        (usable total_ram)
        (mem_init g_heap total_ram h)
        (cell false (usable total_ram - 12) ∷ [])
unfolding mem_init write
mem_init-IsHeap g_heap total_ram h pos = record {
  first = refl;
  placed = pos;
  nonempty = omega arith;
  full = ground arith;
  small = ground arith;
  layout = (ground arith, tt);
}

-- The memories that calls lead to after `mem_init`. `kfree` is called with the payload of a block.
pub data Reach (g_heap total_ram : ℕ) : Memory → Type 0 where
  booted : (h : Memory) → Reach g_heap total_ram (mem_init g_heap total_ram h)
  allocated :
      {h h' : Memory} (size : ℕ) {p : Ptr}
      → Reach g_heap total_ram h
      → kmalloc size h ≡ some (p, h')
      → Reach g_heap total_ram h'
  freed :
      {h h' : Memory} {capacity : ℕ} (before : List Cell) (c : Cell) (behind : List Cell)
      → Reach g_heap total_ram h
      → IsHeap g_heap capacity h (before ++ c ∷ behind)
      → kfree (mm_block_payload (g_heap + extent before)) h ≡ some h'
      → Reach g_heap total_ram h'

-- The memory holds blocks that take the whole of the heap, no two free ones of them next to one
-- another.
abbrev pub IsSound : ℕ → ℕ → Memory → Type 0
IsSound g_heap capacity h = (cs : List Cell) × IsHeap g_heap capacity h cs × IsMerged cs

kmalloc-zero : (h : Memory) → kmalloc 0 h ≡ some (null, h)
unfolding kmalloc
kmalloc-zero h = refl

kmalloc-IsSound :
    {g_heap capacity p : ℕ} {h h' : Memory} (size : ℕ)
    → IsSound g_heap capacity h
    → kmalloc size h ≡ some (p, h')
    → IsSound g_heap capacity h'
kmalloc-IsSound {g_heap} {capacity} {h} zero s run =
    subst (IsSound g_heap capacity) (cc (kmalloc-zero h)) s
kmalloc-IsSound {g_heap} {capacity} (suc n) (cs, is, m) run =
    let (g, run', is', same) = kmalloc_lem is (ground arith) in
    subst (IsSound g_heap capacity) (cc run')
      (allocate (mm_align_size (suc n)) cs, is', allocate-IsMerged (mm_align_size (suc n)) cs m)

kfree-IsSound :
    {g_heap capacity other : ℕ} {h h' : Memory} (before : List Cell) (c : Cell) (behind : List Cell)
    → IsSound g_heap capacity h
    → IsHeap g_heap other h (before ++ c ∷ behind)
    → kfree (mm_block_payload (g_heap + extent before)) h ≡ some h'
    → IsSound g_heap capacity h'
kfree-IsSound {g_heap} {capacity} {h} before c behind (cs, is, m) there run =
    let same : cs ≡ before ++ c ∷ behind =
      Layout-unique h.store g_heap cs _ is.placed
        (at-nonempty g_heap cs is.nonempty ∙ sym (at-nonempty g_heap _ there.nonempty)) is.layout
        there.layout in
    let (g, run', is', _) = kfree_lem before c behind (rw same at is) in
    subst (IsSound g_heap capacity) (cc run')
      (release before c.size behind, is', release-IsMerged before c behind (rw same at m))

-- Whatever the calls, as long as `kfree` is only given payloads of the blocks there are, the memory
-- holds blocks that take the whole of the heap, no two free ones of them next to one another.
pub Reach-IsHeap :
    {g_heap total_ram : ℕ} {h : Memory}
    → 0 < g_heap
    → Reach g_heap total_ram h
    → IsSound g_heap (usable total_ram) h
Reach-IsHeap {g_heap} {total_ram} pos (booted h) = (_, mem_init-IsHeap g_heap total_ram h pos, tt)
Reach-IsHeap pos (allocated size r run) = kmalloc-IsSound size (Reach-IsHeap pos r) run
Reach-IsHeap pos (freed before c behind r there run) =
    kfree-IsSound before c behind (Reach-IsHeap pos r) there run

-- The memory after a successful `kmalloc`, with the block taken in the middle.
taken-IsHeap :
    {g_heap capacity request p q : ℕ} {g h' : Memory} {cs : List Cell} (size : ℕ) (h : Memory)
    (f : Found request cs)
    → kmalloc size h ≡ some (q, g)
    → kmalloc size h ≡ some (p, h')
    → IsHeap g_heap capacity g (allocate request cs)
    → IsHeap g_heap capacity h'
        (f.before ++ cell true (carved request f.block) ∷ carved_behind request f.block f.behind)
taken-IsHeap {g_heap} {capacity} {request} {g} {h'} size h f e e' is =
    let same : g ≡ h' = cc in
    subst₂ (IsHeap g_heap capacity) same
      (f.taken ∙ ap (λ xs. f.before ++ xs) (carve_eq request f.block f.behind)) is

-- `kmalloc` of a size from 1 to 2^32 - 8 returns null only if no free block is large enough for the
-- rounded size. Otherwise it returns the payload of a block that is used afterwards and has at least
-- the bytes asked for, inside the heap.
pub kmalloc_result :
    {g_heap capacity size p : ℕ} {h h' : Memory} {cs : List Cell}
    → IsHeap g_heap capacity h cs
    → size ≢ 0
    → size ≤ 2 ^ 32 - 8
    → kmalloc size h ≡ some (p, h')
    → (NoneFits (mm_align_size size) cs × (p ≡ null))
      ⊎ ((before behind : List Cell) × (n : ℕ) × IsHeap g_heap capacity h'
            (before ++ cell true n ∷ behind)
          × (p ≡ g_heap + extent before + 12)
          × (size ≤ n)
          × (p + n ≤ g_heap + capacity))
kmalloc_result {g_heap} {capacity} {size} {p} {h} {h'} {cs} is ne small run =
    let request = mm_align_size size in
    let (g, run', is', _) = kmalloc_lem is ne in
    elim (allocate_cases request g_heap cs) [
      | inl (n, e, _) ↦ inl (n, cc (run', e))
      | inr (f, e) ↦
          let rest = carved_behind request f.block f.behind in
          let after = taken-IsHeap size h f run' run is' in
          let pointer : p ≡ g_heap + extent f.before + 12 = cc (run', e) in
          inr (
            f.before,
            rest,
            carved request f.block,
            after,
            pointer,
            ground (arith, f.fit, mm_align_size-enough size ne small),
            omega (
              arith,
              pointer,
              after.full,
              extent-append f.before (cell true (carved request f.block) ∷ rest),
            ),
          )
    ]

-- Freeing at once what `kmalloc` returned gives the blocks back that were there before.
pub kfree-kmalloc :
    {g_heap capacity size p : ℕ} {h h' : Memory} {cs : List Cell}
    → IsHeap g_heap capacity h cs
    → IsMerged cs
    → size ≢ 0
    → kmalloc size h ≡ some (p, h')
    → p ≢ null
    → (h'' : Memory) × (kfree p h' ≡ some h'') × IsHeap g_heap capacity h'' cs
kfree-kmalloc {g_heap} {capacity} {size} {p} {h} {h'} {cs} is m ne run nn =
    let request = mm_align_size size in
    let (g, run', is', _) = kmalloc_lem is ne in
    elim (allocate_cases request g_heap cs) [
      | inl (n, e, _) ↦ absurd (nn (cc (run', e)))
      | inr (f, e) ↦
          let rest = carved_behind request f.block f.behind in
          let after = taken-IsHeap size h f run' run is' in
          let pointer : p ≡ mm_block_payload (g_heap + extent f.before) = cc (run', e) in
          let (k, run'', back, _) =
            kfree_lem f.before (cell true (carved request f.block)) rest after in
          let cells =
            release-carve request f.before f.block f.behind f.fit (subst IsMerged f.splits m) in
          (
            k,
            subst (λ u. kfree u h' ≡ some k) (sym pointer) run'',
            subst (IsHeap g_heap capacity k) (cells ∙ sym f.splits) back,
          )
    ]
