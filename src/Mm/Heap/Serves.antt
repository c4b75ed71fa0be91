-- ===== src/Mm/Heap/Serves.antt =====
-- What kmalloc of mm/heap.c gives its clients.
use mathlib.Core.Path.{subst, subst₂}
use zythos.Base.{
  ℕ, suc, ◌+◌, ◌-◌, ◌^◌, ◌≤◌, ◌<◌, ◌≡◌, sym, ap, ◌∙◌, ◌≢◌, ◌⊎◌, inl, inr, true, Option, none, some,
  List, ◌∷◌, ◌++◌, arith,
}
use zythos.Mm.{Ptr, Memory, mm_align_size}
use zythos.Mm.Calls.{HeapCalls, IsAllocator}
use zythos.Mm.Cells.{Cell, cell, extent, allocate, payload}
use zythos.Mm.Layout.{IsHeap}
use zythos.Mm.Heap.Room.{
  payload-above, payload-apart, allocate-Kept, has_room, some_fits, payload-some,
}
use zythos.Mm.Heap.{kmalloc, kfree}
use zythos.Mm.Heap.Alloc.{kmalloc_lem}
use zythos.Mm.Heap.Reach.{kmalloc_result}

abbrev or_null : Memory → Option (Ptr × Memory) → ℕ × Memory
or_null h none = (0, h)
or_null h (some r) = r

-- The calls on a heap that is set up, where both always return.
pub heap_calls : HeapCalls Memory
heap_calls = record {
  kmalloc = λ size h. or_null h (kmalloc size h);
  kfree = λ p h. elim (kfree p h) [ none ↦ h | some h' ↦ h' ];
}

-- A block in use with the payload at `a`.
pub record InUse (g_heap capacity : ℕ) (h : Memory) (a : ℕ) : Type 0 where
  pub before : List Cell
  pub behind : List Cell
  pub bytes : ℕ
  pub is_heap : IsHeap g_heap capacity h (before ++ cell true bytes ∷ behind)
  pub pointer : a ≡ g_heap + extent before + 12

-- The heap is set up, and so many blocks of `size` bytes, rounded as `kmalloc` does, can be taken.
abbrev pub HasRoom : ℕ → ℕ → ℕ → ℕ → Memory → Type 0
HasRoom g_heap capacity size n h =
    (cs : List Cell) × IsHeap g_heap capacity h cs × (has_room (mm_align_size size) n cs ≡ true)

-- The addresses below the heap, and the payloads of its used blocks.
abbrev pub Owned : ℕ → ℕ → Memory → ℕ → Type 0
Owned g_heap capacity h a = (a < g_heap) ⊎ InUse g_heap capacity h a

module _ (g_heap capacity size : ℕ) (ne : size ≢ 0) (small : size ≤ 2 ^ 32 - 8) where
  call :
      (h : Memory) (cs : List Cell)
      → IsHeap g_heap capacity h cs
      → (h' : Memory) × (kmalloc size h ≡ some (payload (mm_align_size size) g_heap cs, h'))
        × (heap_calls.kmalloc size h ≡ (payload (mm_align_size size) g_heap cs, h'))
        × IsHeap g_heap capacity h' (allocate (mm_align_size size) cs)
  unfolding heap_calls
  call h cs is =
      let (h', run, is', _) = kmalloc_lem {size = size} is ne in (h', run, ap (or_null h) run, is')

  not_given :
      (h : Memory) (cs : List Cell)
      → IsHeap g_heap capacity h cs
      → (heap_calls.kmalloc size h).0 ≢ 0
      → ((heap_calls.kmalloc size h).0 < g_heap)
        ⊎ InUse g_heap capacity h (heap_calls.kmalloc size h).0
      → ⊥
  not_given h cs is some_p (inl low) =
      let (_, _, got, _) = call h cs is in
      let pointer = ap (λ (r : ℕ × Memory). r.0) got in
      elim (payload-above (mm_align_size size) g_heap cs) [
        | inl e ↦ some_p (pointer ∙ e)
        | inr le ↦ absurd (omega (arith, low, pointer, le))
      ]
  not_given h cs is some_p (inr u) =
      let (_, _, got, _) = call h (u.before ++ cell true u.bytes ∷ u.behind) u.is_heap in
      payload-apart (mm_align_size size) g_heap u.bytes u.before u.behind
        (sym (ap (λ (r : ℕ × Memory). r.0) got) ∙ u.pointer)

  given :
      (h : Memory) (cs : List Cell)
      → IsHeap g_heap capacity h cs
      → (heap_calls.kmalloc size h).0 ≢ 0
      → InUse g_heap capacity (heap_calls.kmalloc size h).1 (heap_calls.kmalloc size h).0
  given h cs is some_p =
      let (h', run, got, _) = call h cs is in
      let pointer = ap (λ (r : ℕ × Memory). r.0) got in
      elim (kmalloc_result is ne small run) [
        | inl (_, e) ↦ absurd (some_p (pointer ∙ e))
        | inr (before, behind, n, is', at, _, _) ↦ record {
          before = before;
          behind = behind;
          bytes = n;
          is_heap =
              subst (λ x. IsHeap g_heap capacity x (before ++ cell true n ∷ behind))
                (sym (ap (λ (r : ℕ × Memory). r.1) got)) is';
          pointer = pointer ∙ at;
        }
      ]

  still :
      (h : Memory) (a : ℕ)
      → InUse g_heap capacity h a
      → InUse g_heap capacity (heap_calls.kmalloc size h).1 a
  still h a u =
      let (h', _, got, is') = call h (u.before ++ cell true u.bytes ∷ u.behind) u.is_heap in
      let k = allocate-Kept (mm_align_size size) u.bytes u.before u.behind in
      record {
        before = k.front;
        behind = k.back;
        bytes = u.bytes;
        is_heap =
            subst₂ (IsHeap g_heap capacity) (sym (ap (λ (r : ℕ × Memory). r.1) got)) k.all is';
        pointer = u.pointer ∙ ap (λ x. g_heap + x + 12) (sym k.same);
      }

  some_given :
      (n : ℕ) (h : Memory)
      → HasRoom g_heap capacity size (suc n) h
      → (heap_calls.kmalloc size h).0 ≢ 0
  some_given n h (cs, is, room) null =
      let (_, _, got, _) = call h cs is in
      let pointer = ap (λ (r : ℕ × Memory). r.0) got in
      let fit : some_fits (mm_align_size size) cs ≡ true = ground (arith, room) in
      let above = payload-some (mm_align_size size) g_heap cs fit in
      absurd (omega (arith, pointer, null, above))

  less_room :
      (n : ℕ) (h : Memory)
      → HasRoom g_heap capacity size (suc n) h
      → HasRoom g_heap capacity size n (heap_calls.kmalloc size h).1
  less_room n h (cs, is, room) =
      let (h', _, got, is') = call h cs is in
      (
        allocate (mm_align_size size) cs,
        subst (λ x. IsHeap g_heap capacity x (allocate (mm_align_size size) cs))
            (sym (ap (λ (r : ℕ × Memory). r.1) got)) is',
        ground (arith, room),
      )

  -- For a size from 1 to 2^32 - 8, on a heap that is set up and whose list of blocks has room for so many
  -- blocks of the size by first fit, `kmalloc` of mm/heap.c gives that many addresses that are not null
  -- and not in use; each is in use from then on, and what is in use stays so. In use are the addresses
  -- below the heap and the payloads of its used blocks.
  pub heap_calls-IsAllocator :
      IsAllocator heap_calls size (Owned g_heap capacity) (HasRoom g_heap capacity size)
  heap_calls-IsAllocator = record {
    gives = some_given;
    leaves = less_room;
    fresh = λ n h room own. not_given h room.0 room.1 (some_given n h room) own;
    owned = λ n h room. inr (given h room.0 room.1 (some_given n h room));
    keeps = λ n a h room own. elim own [ inl low ↦ inl low | inr u ↦ inr (still h a u) ];
  }
