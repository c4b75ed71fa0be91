-- ===== src/Mm/Heap/Free.antt =====
-- `kfree` of mm/heap.c on the cells that the headers represent.
use zythos.Base.{
  ℕ, ◌+◌, ◌-◌, ◌^◌, ◌≤◌, ◌<◌, ◌≡◌, refl, ap, ◌∙◌, ◌≢◌, Bool, true, false, ◌||◌, some, List, [], ◌∷◌,
  ◌++◌, arith, ◌==◌, add32, length,
}
use zythos.Mm.{mm_find_previous_block, mm_block_payload, Block, null, Ptr, Memory, put}
use zythos.Mm.Cells.{Cell, cell, extent, absorb, release, previous}
use zythos.Mm.Previous.{mm_find_previous_block_lem}
use zythos.Mm.Layout.{
  Layout-remark, Layout-middle, IsHeap, Leaves-trans, Leaves-cons, Leaves-put, Leaves-self, Layout,
  Leaves, block, at,
}
use zythos.Mm.Heap.{merges, kfree, merge_next, merge_prev}

abbrev pub header : ℕ → Bool → Ptr → Block
header n u next = record { size = n; used = u; next = next }

module _ (h : Memory) (b p n m : ℕ) (q : Ptr) (u : Bool) where
  pub merge_next-used :
      h.store b ≡ some (header n u p)
      → p ≢ null
      → h.store p ≡ some (header m true q)
      → merge_next b h ≡ some h
  unfolding merge_next
  merge_next-used e ne e' = ground arith

  pub merge_next-free :
      h.store b ≡ some (header n u p)
      → p ≢ null
      → h.store p ≡ some (header m false q)
      → n + (m + 12) < 2 ^ 32
      → merge_next b h ≡ some (put h b (header (n + (m + 12)) u q))
  unfolding merge_next
  merge_next-free e ne e' lt =
      let sum : add32 n (add32 m 12) ≡ n + (m + 12) = omega arith in
      let no : (p == null) ≡ false = ground arith in
      rw (e, no, e') (ap (λ k. some (put h b (header k u q))) sum)

  pub merge_prev-used :
      p ≢ null
      → h.store p ≡ some (header n true b)
      → h.store b ≡ some (header m u q)
      → merge_prev p b h ≡ some (b, h)
  unfolding merge_prev
  merge_prev-used ne e e' = ground arith

  pub merge_prev-free :
      p ≢ null
      → h.store p ≡ some (header n false b)
      → h.store b ≡ some (header m u q)
      → n + (m + 12) < 2 ^ 32
      → merge_prev p b h ≡ some (p, put h p (header (n + (m + 12)) false q))
  unfolding merge_prev
  merge_prev-free ne e e' lt =
      let sum : add32 n (add32 m 12) ≡ n + (m + 12) = omega arith in
      let no : (p == null) ≡ false = ground arith in
      rw (no, e, e') (ap (λ k. some (p, put h p (header k false q))) sum)

merge_next-cons :
    (u : Bool) (b n m : ℕ) (ds : List Cell) (h : Memory)
    → 12 + n + extent (cell u m ∷ ds) ≤ 262144
    → Layout h.store b (cell false n ∷ cell u m ∷ ds)
    → (h' : Memory) × (merge_next b h ≡ some h') × Leaves b (absorb n (cell u m ∷ ds)) h h'
merge_next-cons true b n m ds h small (here, (next, rest)) = (
  h,
  merge_next-used h b (b + 12 + n) n m _ false here (omega arith) next,
  Leaves-self b _ h (here, (next, rest)),
)
merge_next-cons false b n m ds h small (here, (next, rest)) =
    let e : b + 12 + n + 12 + m ≡ b + 12 + (n + (m + 12)) = omega arith in
    let joined = cell false (n + (m + 12)) in
    (
      put h b (block joined (at (b + 12 + (n + (m + 12))) ds)),
      merge_next-free h b (b + 12 + n) n m _ false here (omega arith) (rw (← e) next) (omega arith),
      Leaves-put b joined ds h (rw (← e) rest),
    )

pub merge_prev-null : (b : Ptr) (h : Memory) → merge_prev null b h ≡ some (b, h)
unfolding merge_prev
merge_prev-null b h = refl

pub merge_next-Leaves :
    (b n : ℕ) (behind : List Cell) (h : Memory)
    → 12 + n + extent behind ≤ 262144
    → Layout h.store b (cell false n ∷ behind)
    → (h' : Memory) × (merge_next b h ≡ some h') × Leaves b (absorb n behind) h h'
unfolding merge_next
merge_next-Leaves b n [] h small (here, rest) = (h, rw here, Leaves-self b _ h (here, rest))
merge_next-Leaves b n (d ∷ ds) h small l = merge_next-cons d.used b n d.size ds h small l

pub at-absorb : (a n : ℕ) (behind : List Cell) → at a (absorb n behind) ≡ a
at-absorb a n [] = refl
at-absorb a n (d ∷ ds) = ground arith

at-release : (a n : ℕ) (before behind : List Cell) → at a (release before n behind) ≡ a
at-release a n [] behind = at-absorb a n behind
at-release a n (d ∷ []) behind = ground (arith, at-absorb a (d.size + (n + 12)) behind)
at-release a n (d ∷ e ∷ before) behind = refl

merges-kept :
    (prev b : Ptr) (h : Memory) {kept : Ptr} {g h' : Memory}
    → merge_prev prev b h ≡ some (kept, g)
    → merge_next kept g ≡ some h'
    → merges prev b h ≡ some h'
merges-kept prev b h e e' = rw e e'

merges-one :
    (u : Bool) (a n m : ℕ) (behind : List Cell) (h : Memory)
    → 0 < a
    → 12 + m + (12 + n + extent behind) ≤ 262144
    → Layout h.store a (cell u m ∷ cell false n ∷ behind)
    → (h' : Memory) × (merges a (a + 12 + m) h ≡ some h')
      × Leaves a (release (cell u m ∷ []) n behind) h h'
merges-one true a n m behind h pos small (here, (next, rest)) =
    let (h', run, after) = merge_next-Leaves (a + 12 + m) n behind h (omega arith) (next, rest) in
    (
      h',
      merges-kept a (a + 12 + m) h
          (merge_prev-used h (a + 12 + m) a m n _ false (omega arith) here next) run,
      Leaves-cons a (cell true m) (absorb n behind) h h' (rw at-absorb here) after,
    )
merges-one false a n m behind h pos small (here, (next, rest)) =
    let e : a + 12 + m + 12 + n ≡ a + 12 + (m + (n + 12)) = omega arith in
    let q = at (a + 12 + (m + (n + 12))) behind in
    let g = put h a (header (m + (n + 12)) false q) in
    let step = Leaves-put a (cell false (m + (n + 12))) behind h (rw (← e) rest) in
    let (h', run, after) = merge_next-Leaves a (m + (n + 12)) behind g (omega arith) step.layout in
    (
      h',
      merges-kept a (a + 12 + m) h
          (merge_prev-free h (a + 12 + m) a m n q false (omega arith) here (rw (← e) next)
            (omega arith))
          run,
      Leaves-trans step after,
    )

-- After a block of `n` bytes behind `before` has been marked free, the two merges join it with its
-- neighbours.
pub merges-Leaves :
    (a b n : ℕ) (before behind : List Cell) (h : Memory)
    → b ≡ a + extent before
    → 0 < a
    → extent (before ++ cell false n ∷ behind) ≤ 262144
    → Layout h.store a (before ++ cell false n ∷ behind)
    → (h' : Memory) × (merges (previous a before) b h ≡ some h')
      × Leaves a (release before n behind) h h'
unfolding merge_prev
merges-Leaves a b n [] behind h eb pos small l =
    let e : b ≡ a = omega arith in rw e (merge_next-Leaves a n behind h small l)
merges-Leaves a b n (d ∷ []) behind h eb pos small l =
    let e : b ≡ a + 12 + d.size = omega arith in
    rw e (merges-one d.used a n d.size behind h pos (omega arith) l)
merges-Leaves a b n (d ∷ e ∷ before) behind h eb pos small (here, rest) =
    let (h', run, after) =
      merges-Leaves (a + 12 + d.size) b n (e ∷ before) behind h (omega arith) (omega arith)
        (omega arith) rest in
    (h', run, Leaves-cons a d (release (e ∷ before) n behind) h h' (rw at-release here) after)

pub extent-absorb : (n : ℕ) (behind : List Cell) → extent (absorb n behind) ≡ 12 + n + extent behind
extent-absorb n [] = refl
extent-absorb n (d ∷ ds) = ground arith

pub extent-release :
    (before : List Cell) (c : Cell) (behind : List Cell)
    → extent (release before c.size behind) ≡ extent (before ++ c ∷ behind)
extent-release [] c behind = extent-absorb c.size behind
extent-release (d ∷ []) c behind =
    ground (arith, extent-absorb c.size behind, extent-absorb (d.size + (c.size + 12)) behind)
extent-release (d ∷ e ∷ before) c behind =
    ap (λ k. 12 + d.size + k) (extent-release (e ∷ before) c behind)

pub extent-middle :
    (before : List Cell) (c d : Cell) (behind : List Cell)
    → d.size ≡ c.size
    → extent (before ++ d ∷ behind) ≡ extent (before ++ c ∷ behind)
extent-middle [] c d behind e = omega arith
extent-middle (f ∷ before) c d behind e = omega (arith, extent-middle before c d behind e)

length-absorb : (n : ℕ) (behind : List Cell) → 0 < length (absorb n behind)
length-absorb n [] = omega arith
length-absorb n (d ∷ ds) = ground arith

pub length-release :
    (before : List Cell) (n : ℕ) (behind : List Cell) → 0 < length (release before n behind)
length-release [] n behind = length-absorb n behind
length-release (d ∷ []) n behind = ground (arith, length-absorb (d.size + (n + 12)) behind)
length-release (d ∷ e ∷ before) n behind = omega arith

kfree-steps :
    (h : Memory) (b n p prev : Ptr) (u : Bool) {h' : Memory}
    → h.first_block ≢ null
    → h.store b ≡ some (header n u p)
    → let freed = put h b (header n false p) in
      mm_find_previous_block freed.store h.first_block b ≡ some prev
      → merges prev b (put h b (header n false p)) ≡ some h'
      → kfree (mm_block_payload b) h ≡ some h'
unfolding kfree
kfree-steps h b n p prev u ne here found run =
    let given : ((b + 12 == null) || (h.first_block == null)) ≡ false = ground arith in
    let back : b + 12 - 12 ≡ b = omega arith in rw (given, back, here, found) run

-- `kfree` of the payload of any block returns. Afterwards the headers are those of the block list in
-- which that block is free and has become one with its free neighbours; they still take the whole
-- heap, and no payload byte has changed.
pub kfree_lem :
    {g_heap capacity : ℕ} {h : Memory} (before : List Cell) (c : Cell) (behind : List Cell)
    → IsHeap g_heap capacity h (before ++ c ∷ behind)
    → (h' : Memory) × (kfree (mm_block_payload (g_heap + extent before)) h ≡ some h')
      × IsHeap g_heap capacity h' (release before c.size behind)
      × (h'.bytes ≡ h.bytes)
kfree_lem {g_heap} {capacity} {h} before c behind is =
    let b = g_heap + extent before in
    let p = at (b + 12 + c.size) behind in
    let freed = put h b (block (cell false c.size) p) in
    let here = Layout-middle h.store g_heap before c behind is.layout in
    let marked =
      Layout-remark h.store g_heap b p before c (cell false c.size) behind refl refl here
        is.layout in
    let small : extent (before ++ cell false c.size ∷ behind) ≤ 262144 =
      omega (arith, is.full, is.small, extent-middle before c (cell false c.size) behind refl) in
    let found =
      mm_find_previous_block_lem g_heap freed.store before (cell false c.size) behind is.placed
        small marked in
    let (h', run, after) =
      merges-Leaves g_heap b c.size before behind freed refl is.placed small marked in
    (
      h',
      kfree-steps h b c.size p (previous g_heap before) c.used (ground (arith, is.first)) here
          (rw is.first found) run,
      record {
        first = after.first ∙ is.first;
        placed = is.placed;
        nonempty = length-release before c.size behind;
        full = extent-release before c behind ∙ is.full;
        small = is.small;
        layout = after.layout;
      },
      after.bytes,
    )
