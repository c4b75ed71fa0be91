-- ===== src/Mm.antt =====
-- mm/mm_private.h and mm/blocks.c: block headers at addresses, and the walks over their chain.
-- `size_t` and pointers are 32 bits wide (the Makefile compiles with -m32), so a header takes 12
-- bytes. Headers are kept in a store of their own, beside the bytes of the payloads.
pub mod Cells
pub mod Calls
pub mod Heap
pub mod Layout
pub mod Malloc
pub mod Merged
pub mod Previous
use zythos.Base.{
  ℕ, zero, suc, ◌+◌, ◌*◌, ◌/◌, ◌^◌, ◌<◌, Bool, Option, none, some, ◌==◌, if◌then◌else◌, add32,
  arith, ◌>>=◌,
}

abbrev pub Ptr : Type 0
Ptr = ℕ

abbrev pub null : Ptr
null = 0

-- `block_t`; `used` is only ever written 0 or 1.
pub record Block : Type 0 where
  pub size : ℕ
  pub used : Bool
  pub next : Ptr

abbrev pub Store : Type 0
Store = Ptr → Option Block

unfoldable pub write : Store → Ptr → Block → Store
write s p b a = if a == p then some b else s a

-- The globals of heap.c and malloc.c: `g_first_block`, and `g_heap` as headers and payload bytes.
pub record Memory : Type 0 where
  pub first_block : Ptr
  pub store : Store
  pub bytes : ℕ → ℕ

abbrev pub put : Memory → Ptr → Block → Memory
put h p b = record h { store = write h.store p b }

-- sizeof(block_t)
abbrev pub sizeof_block : ℕ
sizeof_block = 12

-- `(size + 7u) & ~7u` clears the three low bits.
pub mm_align_size : ℕ → ℕ
mm_align_size size = if size == 0 then 8 else add32 size 7 / 8 * 8

-- The loop of `mm_find_previous_block`, with what follows it.
pub find_previous_loop : ℕ → Store → Ptr → Ptr → Option Ptr
find_previous_loop zero s current block = none
find_previous_loop (suc fuel) s current block = if current == null then some null else do
  c ← s current
  let rest = find_previous_loop fuel s c.next block
  if c.next == block then some current else if c.next == null then some null else rest

-- More rounds than a heap of 256 KiB has headers.
pub max_rounds : ℕ
max_rounds = 2 ^ 16

pub max_rounds_large : 262144 < 12 * max_rounds
unfolding max_rounds
max_rounds_large = omega arith

pub mm_find_previous_block : Store → Ptr → Ptr → Option Ptr
mm_find_previous_block s first_block block = find_previous_loop max_rounds s first_block block

abbrev pub mm_block_payload : Ptr → Ptr
mm_block_payload block = block + sizeof_block
