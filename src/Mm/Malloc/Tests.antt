-- ===== src/Mm/Malloc/Tests.antt =====
-- The theorems on mm/malloc.c at a heap with two used blocks.
use zythos.Base.{
  ℕ, ◌+◌, ◌%◌, ◌<◌, ◌≡◌, refl, ◌≢◌, ◌⊎◌, true, false, Option, none, some, List, [], ◌∷◌, ◌++◌,
  arith, ◌==◌, if◌then◌else◌,
}
use zythos.Mm.{Memory, Block, null, mm_align_size, mm_block_payload, Ptr}
use zythos.Mm.Cells.{Cell, cell, allocate, release}
use zythos.Mm.Layout.{IsHeap}
use zythos.Mm.Malloc.{kfree, krealloc}
use zythos.Mm.Malloc.Free.{malloc_kfree_lem}
use zythos.Mm.Malloc.Stays.{krealloc_stays}
use zythos.Mm.Malloc.Moves.{krealloc_moves}

abbrev two_used : List Cell
two_used = cell true 16 ∷ cell true 16 ∷ cell false 262076 ∷ []

abbrev headers : Ptr → Option Block
headers a =
    if a == 4096
    then some (record { size = 16; used = true; next = 4124 })
    else if a == 4124
    then some (record { size = 16; used = true; next = 4152 })
    else if a == 4152
    then some (record { size = 262076; used = false; next = 0 })
    else none

abbrev heap : Memory
heap = record { first_block = 4096; store = headers; bytes = λ a. a % 256 }

heap-IsHeap : IsHeap 4096 262144 heap two_used
heap-IsHeap = record {
  first = refl;
  placed = omega arith;
  nonempty = omega arith;
  full = refl;
  small = omega arith;
  layout = (refl, (refl, (refl, tt)));
}

malloc_kfree_lem_example :
    (h' : Memory) × (kfree (mm_block_payload 4124) heap ≡ some h')
    × IsHeap 4096 262144 h' (cell true 16 ∷ cell false 262104 ∷ [])
    × (h'.bytes ≡ heap.bytes)
malloc_kfree_lem_example =
    malloc_kfree_lem (cell true 16 ∷ []) (cell true 16) (cell false 262076 ∷ []) heap-IsHeap

krealloc_stays_example :
    (h' : Memory) × (krealloc (mm_block_payload 4124) 40 heap ≡ some (mm_block_payload 4124, h'))
    × IsHeap 4096 262144 h' (cell true 16 ∷ cell true 40 ∷ cell false 262052 ∷ [])
    × (h'.bytes ≡ heap.bytes)
unfolding mm_align_size
krealloc_stays_example =
    krealloc_stays {size = 40} (cell true 16 ∷ []) (cell true 16) (cell false 262076 ∷ [])
      heap-IsHeap (omega arith) refl

krealloc_moves_example :
    (h' : Memory) × (krealloc 4108 40 heap ≡ some (4164, h'))
    × (((4164 ≡ null) × IsHeap 4096 262144 h' two_used × (h'.bytes ≡ heap.bytes))
        ⊎ ((4164 ≢ null)
            × ((front rear : List Cell) × (allocate (mm_align_size 40) two_used
                  ≡ front ++ cell true 16 ∷ rear)
                × IsHeap 4096 262144 h' (release front 16 rear))
            × ((j : ℕ) → j < 16 → j < 40 → h'.bytes (4164 + j) ≡ heap.bytes (4108 + j))))
unfolding mm_align_size
krealloc_moves_example =
    krealloc_moves {size = 40} [] (cell true 16) (cell true 16 ∷ cell false 262076 ∷ []) heap-IsHeap
      refl (omega arith) (omega arith) refl
