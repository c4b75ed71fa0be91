-- ===== src/Mm/Heap/Wrap.antt =====
-- The rounding of `mm_align_size` at the end of the range, and what `kmalloc` makes of it.
use native.Mathlib.Decide.{dec_le}
use zythos.Base.{
  ℕ, ◌+◌, ◌-◌, ◌%◌, ◌^◌, ◌≤◌, ◌<◌, ◌≡◌, ap, ◌∙◌, ◌≢◌, ◌⊎◌, inl, inr, true, false, some, List, [],
  ◌∷◌, ◌++◌, arith,
}
use zythos.Mm.{Memory, mm_align_size}
use zythos.Mm.Cells.{Cell, extent, payload}
use zythos.Mm.Layout.{IsHeap}
use zythos.Mm.Heap.{kmalloc}
use zythos.Mm.Heap.Alloc.{kmalloc_lem}

-- A size whose rounding does not overflow is rounded up to the next multiple of 8; the sizes from
-- 2 ^ 32 - 7 on are rounded to 0.
pub mm_align_size_lem :
    (size : ℕ)
    → size ≢ 0
    → size < 2 ^ 32
    → ((size ≤ 2 ^ 32 - 8)
        × (size ≤ mm_align_size size)
        × (mm_align_size size < size + 8)
        × (mm_align_size size % 8 ≡ 0))
      ⊎ ((2 ^ 32 - 8 < size) × (mm_align_size size ≡ 0))
unfolding mm_align_size
mm_align_size_lem size ne lt = elim (dec_le size (2 ^ 32 - 8)) [
  | yes small ↦ inl (small, ground arith, ground arith, ground arith)
  | no large ↦ inr (omega arith, ground arith)
]

pub mm_align_size-enough : (size : ℕ) → size ≢ 0 → size ≤ 2 ^ 32 - 8 → size ≤ mm_align_size size
mm_align_size-enough size ne small = elim (mm_align_size_lem size ne (omega arith)) [
  | inl (_, enough, _, _) ↦ enough
  | inr (large, _) ↦ omega arith
]

abbrev pub AllUsed : List Cell → Type 0
AllUsed [] = Unit
AllUsed (c ∷ cs) = (c.used ≡ true) × AllUsed cs

payload-zero :
    (a : ℕ) (before : List Cell) (c : Cell) (behind : List Cell)
    → AllUsed before
    → c.used ≡ false
    → payload 0 a (before ++ c ∷ behind) ≡ a + extent before + 12
payload-zero a [] c behind used free = ground arith
payload-zero a (d ∷ before) c behind used free =
    ground (arith, payload-zero (a + 12 + d.size) before c behind used.1 free)

mm_align_size-zero : (size : ℕ) → 2 ^ 32 - 8 < size → size < 2 ^ 32 → mm_align_size size ≡ 0
unfolding mm_align_size
mm_align_size-zero size lo hi = ground arith

-- A request of nearly 4 GiB succeeds whenever any block is free: it gets the first free block.
kmalloc_wraps :
    {g_heap capacity size : ℕ} {h : Memory} (before : List Cell) (c : Cell) (behind : List Cell)
    → IsHeap g_heap capacity h (before ++ c ∷ behind)
    → AllUsed before
    → c.used ≡ false
    → 2 ^ 32 - 8 < size
    → size < 2 ^ 32
    → (h' : Memory) × (kmalloc size h ≡ some (g_heap + extent before + 12, h'))
kmalloc_wraps {g_heap} {capacity} {size} {h} before c behind is used free lo hi =
    let (h', run, is', same) = kmalloc_lem {size = size} is (omega arith) in
    (
      h',
      run
          ∙ ap (λ r. some (payload r g_heap (before ++ c ∷ behind), h'))
              (mm_align_size-zero size lo hi)
          ∙ ap (λ p. some (p, h')) (payload-zero g_heap before c behind used free),
    )
