-- ===== src/Mm/Heap.antt =====
-- mm/heap.c: a heap of 64 KiB with a first-fit `kmalloc` and a coalescing `kfree`.
pub mod Alloc
pub mod Free
pub mod Reach
pub mod Room
pub mod Serves
mod Tests
pub mod Wrap
use zythos.Base.{
  ℕ, zero, suc, ◌+◌, ◌-◌, ◌*◌, Bool, true, false, not, ◌&&◌, ◌||◌, Option, none, some, ◌==◌, leb,
  ltb, if◌then◌else◌, add32, ◌>>=◌,
}
use zythos.Mm.{
  Ptr, null, Block, Memory, write, put, sizeof_block, mm_align_size, max_rounds,
  mm_find_previous_block, mm_block_payload,
}

abbrev pub min_split_size : ℕ
min_split_size = sizeof_block + 16

-- `mem_init` for a heap of the given capacity, whose array is at the address `g_heap`.
pub init_with : ℕ → Ptr → ℕ → Memory → Memory
init_with capacity g_heap total_ram h =
    let asked : ℕ =
      (if not (total_ram == 0) && ltb total_ram capacity then total_ram else capacity) in
    let usable : ℕ = (if ltb asked sizeof_block then sizeof_block else asked) in
    put (record h { first_block = g_heap }) g_heap
      (record { size = usable - sizeof_block; used = false; next = null })

abbrev pub heap_capacity : ℕ
heap_capacity = 64 * 1024

pub mem_init : Ptr → ℕ → Memory → Memory
unfolding init_with
mem_init = init_with heap_capacity

-- The block found is used whole, or split when the rest is worth a block. The guard of the loop
-- makes `request` at most `b.size`.
pub take_block : Ptr → Block → ℕ → Memory → Memory
take_block current b request h =
    let leftover = b.size - request in
    let split = current + sizeof_block + request in
    if leb min_split_size leftover
    then put (put h split (record { size = leftover - sizeof_block; used = false; next = b.next }))
        current (record { size = request; used = true; next = split })
    else put h current (record b { used = true })

-- The loop of `kmalloc`, first fit. Running out of rounds and a load where no header stands are
-- `none`.
pub kmalloc_loop : ℕ → Ptr → ℕ → Memory → Option (Ptr × Memory)
unfolding take_block
kmalloc_loop zero current request h = none
kmalloc_loop (suc fuel) current request h = if current == null then some (null, h) else do
  b ← h.store current
  let rest = kmalloc_loop fuel b.next request h
  if not b.used && leb request b.size
      then some (mm_block_payload current, take_block current b request h)
      else rest

pub kmalloc : ℕ → Memory → Option (Ptr × Memory)
kmalloc size h =
    if size == 0
    then some (null, h)
    else kmalloc_loop max_rounds h.first_block (mm_align_size size) h

-- `block` absorbs its successor if that is free.
pub merge_next : Ptr → Memory → Option Memory
merge_next block h = do
  b ← h.store block
  if b.next == null then some h else do
    n ← h.store b.next
    if n.used
        then some h
        else some (
            put h block
              (record b { size = add32 b.size (add32 n.size sizeof_block); next = n.next }))

-- `prev`, if there is one and it is free, absorbs `block`. What is returned is the block that the
-- bytes belong to afterwards.
pub merge_prev : Ptr → Ptr → Memory → Option (Ptr × Memory)
merge_prev prev block h = if prev == null then some (block, h) else do
  p ← h.store prev
  b ← h.store block
  if p.used
      then some (block, h)
      else some (
        prev,
        put h prev (record p { size = add32 p.size (add32 b.size sizeof_block); next = b.next }),
      )

-- What `kfree` does after the search.
abbrev pub merges : Ptr → Ptr → Memory → Option Memory
merges prev block h = merge_prev prev block h >>= λ (kept, merged). merge_next kept merged

pub kfree : Ptr → Memory → Option Memory
kfree ptr h = if (ptr == null) || (h.first_block == null) then some h else do
  let block = ptr - sizeof_block
  b ← h.store block
  let freed = put h block (record b { used = false })
  prev ← mm_find_previous_block freed.store freed.first_block block
  merges prev block freed
