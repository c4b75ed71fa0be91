-- ===== src/Mm/Previous.antt =====
-- `mm_find_previous_block` of mm/blocks.c on the cells that the headers represent.
use zythos.Base.{ℕ, zero, suc, ◌+◌, ◌≤◌, ◌<◌, ◌≡◌, refl, some, List, [], ◌∷◌, ◌++◌, arith, length}
use zythos.Mm.{
  max_rounds_large, max_rounds, mm_find_previous_block, null, Ptr, Store, find_previous_loop,
}
use zythos.Mm.Cells.{Cell, extent, previous}
use zythos.Mm.Layout.{length-le-extent, at-split, Layout, at}

-- Behind a block nothing points back at it.
find_previous_loop-null :
    (fuel : ℕ) (s : Store) (a b : Ptr) (cs : List Cell)
    → length cs < fuel
    → 0 < b
    → b ≤ a
    → Layout s a cs
    → find_previous_loop fuel s (at a cs) b ≡ some null
unfolding find_previous_loop
find_previous_loop-null zero s a b cs lt pos le l = absurd (omega arith)
find_previous_loop-null (suc fuel) s a b [] lt pos le l = refl
find_previous_loop-null (suc fuel) s a b (c ∷ []) lt pos le (here, rest) = ground arith
find_previous_loop-null (suc fuel) s a b (c ∷ d ∷ cs) lt pos le (here, rest) = ground (
  arith,
  find_previous_loop-null fuel s (a + 12 + c.size) b (d ∷ cs) (omega arith) pos (omega arith) rest,
)

find_previous_loop-previous :
    (fuel : ℕ) (s : Store) (a : Ptr) (before : List Cell) (c : Cell) (behind : List Cell)
    → length (before ++ c ∷ behind) < fuel
    → 0 < a
    → Layout s a (before ++ c ∷ behind)
    → find_previous_loop fuel s (at a (before ++ c ∷ behind)) (a + extent before)
      ≡ some (previous a before)
unfolding find_previous_loop
find_previous_loop-previous zero s a before c behind lt pos l = absurd (omega arith)
find_previous_loop-previous (suc fuel) s a [] c behind lt pos l =
    find_previous_loop-null (suc fuel) s a (a + 0) (c ∷ behind) lt (omega arith) (omega arith) l
find_previous_loop-previous (suc fuel) s a (d ∷ []) c behind lt pos (here, rest) = ground arith
find_previous_loop-previous (suc fuel) s a (d ∷ e ∷ before) c behind lt pos (here, rest) =
    let moved : a + extent (d ∷ e ∷ before) ≡ a + 12 + d.size + extent (e ∷ before) = omega arith in
    ground (
      arith,
      moved,
      find_previous_loop-previous fuel s (a + 12 + d.size) (e ∷ before) c behind (omega arith)
          (omega arith) rest,
    )

-- In a heap, `mm_find_previous_block` returns the header in front of a block, and null for the
-- first block.
pub mm_find_previous_block_lem :
    (g_heap : ℕ) (s : Store) (before : List Cell) (c : Cell) (behind : List Cell)
    → 0 < g_heap
    → extent (before ++ c ∷ behind) ≤ 262144
    → Layout s g_heap (before ++ c ∷ behind)
    → mm_find_previous_block s g_heap (g_heap + extent before) ≡ some (previous g_heap before)
unfolding mm_find_previous_block
mm_find_previous_block_lem g_heap s before c behind pos small l =
    let cs = before ++ c ∷ behind in
    ground (
      arith,
      at-split g_heap before c behind,
      find_previous_loop-previous max_rounds s g_heap before c behind
          (omega (arith, length-le-extent cs, max_rounds_large)) pos l,
    )
