-- ===== src/Mm/Malloc.antt =====
-- mm/malloc.c: a heap of 256 KiB. `kmalloc` is the code of mm/heap.c (which keeps one more pointer
-- that it never reads), `kfree` joins with the block behind first, and there is `krealloc`.
mod Free
mod Resize
mod Stays
mod Moves
mod Tests
use zythos.Base.{
  copy_bytes, ℕ, zero, suc, ◌+◌, ◌-◌, ◌*◌, ◌/◌, ◌%◌, ◌^◌, ◌≤◌, ◌<◌, ◌≡◌, refl, sym, ap, ◌∙◌, ◌≢◌,
  ◌↔◌, ◌⊎◌, inl, inr, Bool, true, false, not, ◌&&◌, ◌||◌, Option, none, some, List, [], ◌∷◌, ◌++◌,
  map, arith, ltb, leb, ◌==◌, if◌then◌else◌, add32, ◌>>=◌, Bool-cases, Option-cases, ==_iff,
  ==-refl, length, get_elem?, get_or, set, take, drop, replicate, length-append, length-set,
  get_or-set_self, get_or-set_ne,
}
use zythos.Mm.{Ptr, null, Block, Memory, put, sizeof_block, mm_align_size, mm_find_previous_block}
use zythos.Mm.Heap
use zythos.Mm.Heap.{init_with, merge_next, merge_prev, min_split_size}

abbrev pub heap_capacity : ℕ
heap_capacity = 256 * 1024

pub mem_init : Ptr → ℕ → Memory → Memory
mem_init = init_with heap_capacity

abbrev pub kmalloc : ℕ → Memory → Option (Ptr × Memory)
kmalloc = Heap.kmalloc

-- The two merges of `kfree`, the search between them.
pub join : Ptr → Memory → Option Memory
join block h = do
  behind ← merge_next block h
  prev ← mm_find_previous_block behind.store behind.first_block block
  (kept, merged) ← merge_prev prev block behind
  some merged

pub kfree : Ptr → Memory → Option Memory
kfree ptr h = if (ptr == null) || (h.first_block == null) then some h else do
  let block = ptr - sizeof_block
  b ← h.store block
  join block (put h block (record b { used = false }))

-- `block` keeps `request` of its bytes; the `leftover` others become a free block whose successor
-- is `next`.
abbrev pub split_off : Ptr → Block → ℕ → ℕ → Ptr → Memory → Memory
split_off block b request leftover next h =
    let split = block + sizeof_block + request in
    put (put h split (record { size = leftover - sizeof_block; used = false; next = next })) block
      (record b { size = request; next = split })

-- `request` is at most the size of the block.
pub shrink : Ptr → Block → ℕ → Memory → Option Memory
shrink block b request h =
    let leftover = b.size - request in
    if leb min_split_size leftover
    then merge_next (block + sizeof_block + request) (split_off block b request leftover b.next h)
    else some h

-- The block `n` behind, at `b.next`, is taken in, if it is free and there is enough of it; `none` if
-- not.
pub absorb_next : Ptr → Block → Block → ℕ → Memory → Option Memory
absorb_next block b n request h =
    let combined = add32 (add32 b.size sizeof_block) n.size in
    let leftover = combined - request in
    if not n.used && leb request combined
    then some (
        if leb min_split_size leftover
        then split_off block b request leftover n.next h
        else put h block (record b { size = combined; next = n.next }))
    else none

-- Allocate, copy, and free the old block.
pub relocate : Ptr → ℕ → ℕ → Memory → Option (Ptr × Memory)
relocate ptr old_size new_size h = do
  (newptr, g) ← kmalloc new_size h
  let copy_size = (if ltb old_size new_size then old_size else new_size)
  let copied = record g { bytes = copy_bytes copy_size 0 newptr ptr g.bytes }
  let freed = kfree ptr copied
  if newptr == null then some (null, g) else freed >>= λ k. some (newptr, k)

-- What `krealloc` does when the block is too small: take in the block behind, or move.
pub grow : Ptr → Ptr → Block → ℕ → ℕ → Memory → Option (Ptr × Memory)
grow ptr block b request new_size h =
    let moved = relocate ptr b.size new_size h in
    if b.next == null then moved else do
      n ← h.store b.next
      elim (absorb_next block b n request h) [ some g ↦ some (ptr, g) | none ↦ moved ]

pub krealloc : Ptr → ℕ → Memory → Option (Ptr × Memory)
krealloc ptr new_size h =
    if ptr == null
    then kmalloc new_size h
    else if new_size == 0
    then (kfree ptr h >>= λ g. some (null, g))
    else do
      let block = ptr - sizeof_block
      b ← h.store block
      let request = mm_align_size new_size
      if leb request b.size
          then (shrink block b request h >>= λ g. some (ptr, g))
          else grow ptr block b request new_size h
