-- ===== src/Mm/Heap/Tests.antt =====
-- Runs of mm/heap.c, and its theorems at a heap that has just been set up.
use zythos.Base.{ℕ, ◌+◌, ◌≤◌, ◌≡◌, refl, ◌⊎◌, true, false, none, some, List, [], ◌∷◌, ◌++◌, arith}
use zythos.Mm.{max_rounds, write, Memory, put, null, mm_align_size, mm_block_payload}
use zythos.Mm.Cells.{Cell, cell, extent, allocate, payload}
use zythos.Mm.Layout.{IsHeap}
use zythos.Mm.Merged.{NoneFits}
use zythos.Mm.Heap.{mem_init, kmalloc_loop, kmalloc, kfree}
use zythos.Mm.Heap.Alloc.{kmalloc_lem}
use zythos.Mm.Heap.Free.{kfree_lem}
use zythos.Mm.Calls.{IsAllocator}
use zythos.Mm.Heap.Serves.{Owned, HasRoom, heap_calls, heap_calls-IsAllocator}
use zythos.Mm.Heap.Reach.{mem_init-IsHeap, booted, allocated, IsSound, Reach-IsHeap, kmalloc_result}

abbrev blank : Memory
blank = record { first_block = 0; store = λ a. none; bytes = λ a. 0 }

-- `g_heap` stands at 4096.
abbrev start : Memory
start = mem_init 4096 0 blank

abbrev start_cells : List Cell
start_cells = cell false 65524 ∷ []

start-IsHeap : IsHeap 4096 65536 start start_cells
start-IsHeap = mem_init-IsHeap 4096 0 blank (omega arith)

abbrev one_taken : Memory
one_taken =
    put (put start 4212 (record { size = 65408; used = false; next = 0 })) 4096
      (record { size = 104; used = true; next = 4212 })

kmalloc_100 : kmalloc 100 start ≡ some (4108, one_taken)
unfolding kmalloc kmalloc_loop mem_init mm_align_size max_rounds write
kmalloc_100 = refl

kmalloc_lem_example :
    (h' : Memory) × (kmalloc 100 start ≡ some (payload (mm_align_size 100) 4096 start_cells, h'))
    × IsHeap 4096 65536 h' (allocate (mm_align_size 100) start_cells)
    × (h'.bytes ≡ start.bytes)
kmalloc_lem_example = kmalloc_lem {size = 100} start-IsHeap (omega arith)

kfree_lem_example :
    (h' : Memory) × (kfree (mm_block_payload 4096) start ≡ some h')
    × IsHeap 4096 65536 h' start_cells
    × (h'.bytes ≡ start.bytes)
kfree_lem_example = kfree_lem [] (cell false 65524) [] start-IsHeap

Reach-IsHeap_example : IsSound 4096 65536 one_taken
Reach-IsHeap_example =
    Reach-IsHeap {total_ram = 0} (omega arith) (allocated 100 (booted blank) kmalloc_100)

kmalloc_result_example :
    (NoneFits (mm_align_size 100) start_cells × (4108 ≡ null))
    ⊎ ((before behind : List Cell) × (n : ℕ) × IsHeap 4096 65536 one_taken
          (before ++ cell true n ∷ behind)
        × (4108 ≡ 4096 + extent before + 12)
        × (100 ≤ n)
        × (4108 + n ≤ 4096 + 65536))
kmalloc_result_example = kmalloc_result start-IsHeap (omega arith) (omega arith) kmalloc_100

heap_calls-IsAllocator_example :
    IsAllocator heap_calls 20 (Owned 4096 65536) (HasRoom 4096 65536 20)
heap_calls-IsAllocator_example = heap_calls-IsAllocator 4096 65536 20 (omega arith) (omega arith)

-- A heap that is set up has room for 3 blocks of 20 bytes.
room_for_3 : HasRoom 4096 65536 20 3 start
unfolding mm_align_size
room_for_3 = (start_cells, start-IsHeap, refl)
