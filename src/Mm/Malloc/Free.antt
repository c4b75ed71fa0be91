-- ===== src/Mm/Malloc/Free.antt =====
-- `kfree` of mm/malloc.c, which merges with the block behind before it looks for the one in front.
use zythos.Base.{
  ℕ, ◌+◌, ◌-◌, ◌≤◌, ◌<◌, ◌≡◌, refl, sym, ap, ◌∙◌, ◌≢◌, Bool, true, false, ◌||◌, some, List, [], ◌∷◌,
  ◌++◌, arith, ◌==◌, if◌then◌else◌,
}
use zythos.Mm.{null, Ptr, Memory, put, mm_block_payload, mm_find_previous_block}
use mathlib.Core.Path.{subst}
use zythos.Mm.Cells.{extent-append, Cell, cell, extent, absorb, release, previous}
use zythos.Mm.Previous.{mm_find_previous_block_lem}
use zythos.Mm.Layout.{
  Layout, Leaves, at, Leaves-self, Leaves-put, Leaves-trans, Leaves-cons, Leaves-behind,
  Layout-behind, IsHeap, Layout-middle, Layout-remark,
}
use zythos.Mm.Heap.{merge_next, merge_prev}
use zythos.Mm.Heap.Free.{
  merge_prev-null, extent-absorb, header, merge_prev-used, merge_prev-free, merge_next-Leaves,
  extent-release, extent-middle, length-release,
}
use zythos.Mm.Malloc.{join, kfree}

-- The free block of `n` bytes behind `before` joins a free one in front of it.
abbrev attach : List Cell → ℕ → List Cell → List Cell
attach [] n behind = cell false n ∷ behind
attach (d ∷ []) n behind =
    if d.used then d ∷ cell false n ∷ behind else cell false (d.size + (n + 12)) ∷ behind
attach (d ∷ e ∷ before) n behind = d ∷ attach (e ∷ before) n behind

at-attach : (a n : ℕ) (before behind : List Cell) → at a (attach before n behind) ≡ a
at-attach a n [] behind = refl
at-attach a n (d ∷ []) behind = ground arith
at-attach a n (d ∷ e ∷ before) behind = refl

attach-one :
    (u : Bool) (a n m : ℕ) (behind : List Cell) (h : Memory)
    → 0 < a
    → 12 + m + (12 + n + extent behind) ≤ 262144
    → Layout h.store a (cell u m ∷ cell false n ∷ behind)
    → (kept : Ptr) × (h' : Memory) × (merge_prev a (a + 12 + m) h ≡ some (kept, h'))
      × Leaves a (attach (cell u m ∷ []) n behind) h h'
attach-one true a n m behind h pos small (here, (next, rest)) = (
  a + 12 + m,
  h,
  merge_prev-used h (a + 12 + m) a m n _ false (omega arith) here next,
  Leaves-self a _ h (here, (next, rest)),
)
attach-one false a n m behind h pos small (here, (next, rest)) =
    let e : a + 12 + m + 12 + n ≡ a + 12 + (m + (n + 12)) = omega arith in
    let q = at (a + 12 + (m + (n + 12))) behind in
    (
      a,
      put h a (header (m + (n + 12)) false q),
      merge_prev-free h (a + 12 + m) a m n q false (omega arith) here (rw (← e) next) (omega arith),
      Leaves-put a (cell false (m + (n + 12))) behind h (rw (← e) rest),
    )

attach-Leaves :
    (a b n : ℕ) (before behind : List Cell) (h : Memory)
    → b ≡ a + extent before
    → 0 < a
    → extent (before ++ cell false n ∷ behind) ≤ 262144
    → Layout h.store a (before ++ cell false n ∷ behind)
    → (kept : Ptr) × (h' : Memory) × (merge_prev (previous a before) b h ≡ some (kept, h'))
      × Leaves a (attach before n behind) h h'
attach-Leaves a b n [] behind h eb pos small l = (b, h, merge_prev-null b h, Leaves-self a _ h l)
attach-Leaves a b n (d ∷ []) behind h eb pos small l =
    let e : b ≡ a + 12 + d.size = omega arith in
    rw e (attach-one d.used a n d.size behind h pos (omega arith) l)
attach-Leaves a b n (d ∷ e ∷ before) behind h eb pos small (here, rest) =
    let (kept, h', run, after) =
      attach-Leaves (a + 12 + d.size) b n (e ∷ before) behind h (omega arith) (omega arith)
        (omega arith) rest in
    (kept, h', run, Leaves-cons a d (attach (e ∷ before) n behind) h h' (rw at-attach here) after)

-- What a merge with the block behind makes of a free block of `n` bytes.
abbrev grown : ℕ → List Cell → ℕ
grown n [] = n
grown n (d ∷ ds) = if d.used then n else n + (d.size + 12)

abbrev left : List Cell → List Cell
left [] = []
left (d ∷ ds) = if d.used then d ∷ ds else ds

absorb_eq :
    (n : ℕ) (behind : List Cell) → absorb n behind ≡ cell false (grown n behind) ∷ left behind
absorb_eq n [] = refl
absorb_eq n (d ∷ ds) = ground arith

attach-release :
    (before : List Cell) (n : ℕ) (behind : List Cell)
    → attach before (grown n behind) (left behind) ≡ release before n behind
attach-release [] n behind = sym (absorb_eq n behind)
attach-release (d ∷ []) n [] = ground arith
attach-release (d ∷ []) n (f ∷ behind) = ground arith
attach-release (d ∷ e ∷ before) n behind = ap (λ cs. d ∷ cs) (attach-release (e ∷ before) n behind)

extent-left :
    (before : List Cell) (n : ℕ) (behind : List Cell)
    → extent (before ++ cell false (grown n behind) ∷ left behind)
      ≡ extent (before ++ cell false n ∷ behind)
extent-left before n behind =
    extent-append before _
    ∙ ap (λ k. extent before + k) (ap extent (sym (absorb_eq n behind)) ∙ extent-absorb n behind)
    ∙ sym (extent-append before (cell false n ∷ behind))

join-steps :
    (a b : Ptr) (h : Memory) {prev kept : Ptr} {g h' : Memory}
    → merge_next b h ≡ some g
    → g.first_block ≡ a
    → mm_find_previous_block g.store a b ≡ some prev
    → merge_prev prev b g ≡ some (kept, h')
    → join b h ≡ some h'
unfolding join
join-steps a b h run first found run' = ground arith

join-Leaves :
    (a b n : ℕ) (before behind : List Cell) (h : Memory)
    → h.first_block ≡ a
    → b ≡ a + extent before
    → 0 < a
    → extent (before ++ cell false n ∷ behind) ≤ 262144
    → Layout h.store a (before ++ cell false n ∷ behind)
    → (h' : Memory) × (join b h ≡ some h') × Leaves a (release before n behind) h h'
join-Leaves a b n before behind h first eb pos small l =
    let k = grown n behind in
    let small' : extent (before ++ cell false k ∷ left behind) ≤ 262144 = rw extent-left small in
    let (g, run, merged) =
      merge_next-Leaves b n behind h (omega (arith, extent-append before (cell false n ∷ behind)))
        (Layout-behind h.store a b before (cell false n ∷ behind) eb l) in
    let mid =
      Leaves-behind a b before (cell false n) behind (cell false k ∷ left behind) h g eb refl l
        (subst (λ cs. Leaves b cs h g) (absorb_eq n behind) merged) in
    let found =
      mm_find_previous_block_lem a g.store before (cell false k) (left behind) pos small'
        mid.layout in
    let (kept, h', run', after) =
      attach-Leaves a b k before (left behind) g eb pos small' mid.layout in
    (
      h',
      join-steps a b h run (merged.first ∙ first)
          (subst (λ x. mm_find_previous_block g.store a x ≡ some (previous a before)) (sym eb)
            found)
          run',
      subst (λ cs. Leaves a cs h h') (attach-release before n behind) (Leaves-trans mid after),
    )

kfree-steps :
    (h : Memory) (b n p : Ptr) (u : Bool) {h' : Memory}
    → h.first_block ≢ null
    → h.store b ≡ some (header n u p)
    → join b (put h b (header n false p)) ≡ some h'
    → kfree (mm_block_payload b) h ≡ some h'
unfolding kfree
kfree-steps h b n p u ne here run =
    let given : ((mm_block_payload b == null) || (h.first_block == null)) ≡ false = ground arith in
    let back : mm_block_payload b - 12 ≡ b = omega arith in rw (given, back, here) run

-- `kfree` of mm/malloc.c leaves the blocks that `kfree` of mm/heap.c leaves: of the payload of any
-- block it returns, and afterwards that block is free and has become one with its free neighbours;
-- the blocks still take the whole heap, and no payload byte has changed.
pub malloc_kfree_lem :
    {g_heap capacity : ℕ} {h : Memory} (before : List Cell) (c : Cell) (behind : List Cell)
    → IsHeap g_heap capacity h (before ++ c ∷ behind)
    → (h' : Memory) × (kfree (mm_block_payload (g_heap + extent before)) h ≡ some h')
      × IsHeap g_heap capacity h' (release before c.size behind)
      × (h'.bytes ≡ h.bytes)
malloc_kfree_lem {g_heap} {capacity} {h} before c behind is =
    let b = g_heap + extent before in
    let p = at (b + 12 + c.size) behind in
    let freed = put h b (header c.size false p) in
    let here = Layout-middle h.store g_heap before c behind is.layout in
    let marked =
      Layout-remark h.store g_heap b p before c (cell false c.size) behind refl refl here
        is.layout in
    let small : extent (before ++ cell false c.size ∷ behind) ≤ 262144 =
      omega (arith, is.full, is.small, extent-middle before c (cell false c.size) behind refl) in
    let (h', run, after) =
      join-Leaves g_heap b c.size before behind freed is.first refl is.placed small marked in
    (
      h',
      kfree-steps h b c.size p c.used (ground (arith, is.first, is.placed)) here run,
      record {
        first = after.first ∙ is.first;
        placed = is.placed;
        nonempty = length-release before c.size behind;
        full = extent-release before c behind ∙ is.full;
        small = is.small;
        layout = after.layout;
      },
      after.bytes,
    )
