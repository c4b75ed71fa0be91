-- ===== src/Mm/Malloc/Stays.antt =====
-- `krealloc` of mm/malloc.c where the block can stay in its place.
use mathlib.Core.Path.{subst}
use mathlib.Core.Option.{some-injective}
use zythos.Base.{
  ℕ, ◌+◌, ◌-◌, ◌≤◌, ◌<◌, ◌≡◌, refl, ◌∙◌, ◌≢◌, inl, inr, true, false, not, ◌&&◌, none, some, List,
  [], ◌∷◌, ◌++◌, arith, leb, ◌==◌, if◌then◌else◌, ◌>>=◌, Bool-cases, length, length-append,
}
use zythos.Mm.{null, Memory, Block, mm_block_payload, mm_align_size}
use zythos.Mm.Cells.{Cell, extent, extent-append, shrunk, united, enlarged, resized}
use zythos.Mm.Layout.{Layout, Leaves, block, at, Leaves-behind, Layout-behind, IsHeap}
use zythos.Mm.Heap.Free.{extent-absorb}
use zythos.Mm.Malloc.{shrink, absorb_next, grow, krealloc}
use zythos.Mm.Malloc.Resize.{shrink-Leaves, united-Leaves}

pub krealloc-steps :
    (h : Memory) (b size : ℕ) (k : Block)
    → size ≢ 0
    → h.store b ≡ some k
    → krealloc (mm_block_payload b) size h ≡ (
        if leb (mm_align_size size) k.size
        then (shrink b k (mm_align_size size) h >>= λ g. some (mm_block_payload b, g))
        else grow (mm_block_payload b) b k (mm_align_size size) size h)
unfolding krealloc
krealloc-steps h b size k ne here =
    let given : (mm_block_payload b == null) ≡ false = ground arith in
    let more : (size == 0) ≡ false = ground arith in
    let back : mm_block_payload b - 12 ≡ b = omega arith in rw (given, more, back, here) refl

pub grow-some :
    (ptr b request size : ℕ) (k n : Block) (h g : Memory)
    → k.next ≢ null
    → h.store k.next ≡ some n
    → absorb_next b k n request h ≡ some g
    → grow ptr b k request size h ≡ some (ptr, g)
unfolding grow
grow-some ptr b request size k n h g ne here run =
    let more : (k.next == null) ≡ false = ground arith in rw (more, here, ◌>>=◌, run) refl

none-ne-some {ℓ} : {A : Type ℓ} {a : A} → none ≡ some a → ⊥
none-ne-some e = cc

shrunk_of_resized :
    (request : ℕ) (c : Cell) (behind : List Cell) {after : List Cell}
    → leb request c.size ≡ true
    → resized request c behind ≡ some after
    → shrunk request c behind ≡ after
shrunk_of_resized request c behind fits ok = some-injective _ _ (rw fits at ok)

enlarged_of_resized :
    (request : ℕ) (c : Cell) (behind : List Cell) {after : List Cell}
    → leb request c.size ≡ false
    → resized request c behind ≡ some after
    → enlarged request c behind ≡ some after
enlarged_of_resized request c behind larger ok = rw larger at ok

united_of_enlarged :
    (request : ℕ) (c d : Cell) (ds : List Cell) {after : List Cell}
    → enlarged request c (d ∷ ds) ≡ some after
    → ((not d.used && leb request (c.size + 12 + d.size)) ≡ true) × (united request c d ds ≡ after)
united_of_enlarged request c d ds ok =
    elim (Bool-cases (not d.used && leb request (c.size + 12 + d.size))) [
      | inl u ↦ (u, some-injective _ _ (rw u at ok))
      | inr u ↦ absurd (none-ne-some (rw u at ok))
    ]

-- The block takes in the one behind it.
stays-larger :
    (b size : ℕ) (c : Cell) (behind : List Cell) (h : Memory) {after : List Cell}
    → size ≢ 0
    → 12 + c.size + extent behind ≤ 262144
    → Layout h.store b (c ∷ behind)
    → leb (mm_align_size size) c.size ≡ false
    → enlarged (mm_align_size size) c behind ≡ some after
    → (h' : Memory) × (krealloc (mm_block_payload b) size h ≡ some (mm_block_payload b, h'))
      × Leaves b after h h'
stays-larger b size c [] h ne small l larger ok = absurd (none-ne-some ok)
stays-larger b size c (d ∷ ds) h ne small l larger ok =
    let request = mm_align_size size in
    let (u, same) = united_of_enlarged request c d ds ok in
    let (h', run, after) = united-Leaves b request (b + 12 + c.size) _ c d ds h refl u small l in
    (
      h',
      krealloc-steps h b size _ ne l.0
          ∙ rw larger (
              grow-some (mm_block_payload b) b request size (block c (b + 12 + c.size)) _ h h'
                (omega arith) l.1.0 run),
      subst (λ cs. Leaves b cs h h') same after,
    )

-- The block is resized where it stands.
stays :
    (b size : ℕ) (c : Cell) (behind : List Cell) (h : Memory) {after : List Cell}
    → size ≢ 0
    → 12 + c.size + extent behind ≤ 262144
    → Layout h.store b (c ∷ behind)
    → resized (mm_align_size size) c behind ≡ some after
    → (h' : Memory) × (krealloc (mm_block_payload b) size h ≡ some (mm_block_payload b, h'))
      × Leaves b after h h'
stays b size c behind h ne small l ok = elim (Bool-cases (leb (mm_align_size size) c.size)) [
  | inl fits ↦
      let (h', run, after) = shrink-Leaves b (mm_align_size size) _ c behind h refl small l in
      (
        h',
        krealloc-steps h b size _ ne l.0 ∙ rw (fits, run) refl,
        subst (λ cs. Leaves b cs h h') (shrunk_of_resized (mm_align_size size) c behind fits ok)
            after,
      )
  | inr larger ↦
      stays-larger b size c behind h ne small l larger
        (enlarged_of_resized (mm_align_size size) c behind larger ok)
]

-- Cells that take `n` bytes from `a` on, one of them there.
abbrev Takes : ℕ → ℕ → List Cell → Type 0
Takes a n cs = (at a cs ≡ a) × (extent cs ≡ n) × (0 < length cs)

shrunk-Takes :
    (a request : ℕ) (c : Cell) (behind : List Cell)
    → Takes a (12 + c.size + extent behind) (shrunk request c behind)
shrunk-Takes a request c behind = elim (Bool-cases (leb 28 (c.size - request))) [
  | inl split ↦
      let k = c.size - request - 12 in
      rw split (refl, ground (arith, extent-absorb k behind), omega arith)
  | inr whole ↦ rw whole (refl, refl, omega arith)
]

united-Takes :
    (a request : ℕ) (c d : Cell) (ds : List Cell)
    → Takes a (12 + c.size + (12 + d.size + extent ds)) (united request c d ds)
united-Takes a request c d ds = ground arith

enlarged-Takes :
    (a request : ℕ) (c : Cell) (behind : List Cell) {after : List Cell}
    → enlarged request c behind ≡ some after
    → Takes a (12 + c.size + extent behind) after
enlarged-Takes a request c [] ok = absurd (none-ne-some ok)
enlarged-Takes a request c (d ∷ ds) ok =
    subst (Takes a _) (united_of_enlarged request c d ds ok).1 (united-Takes a request c d ds)

resized-Takes :
    (a request : ℕ) (c : Cell) (behind : List Cell) {after : List Cell}
    → resized request c behind ≡ some after
    → Takes a (12 + c.size + extent behind) after
resized-Takes a request c behind ok = elim (Bool-cases (leb request c.size)) [
  | inl fits ↦
      subst (Takes a _) (shrunk_of_resized request c behind fits ok)
        (shrunk-Takes a request c behind)
  | inr larger ↦ enlarged-Takes a request c behind (enlarged_of_resized request c behind larger ok)
]

-- Where a block can be given a size other than 0 in its place (the rest split off or the next block
-- taken in, as the block list says), `krealloc` returns the pointer that it was given; the blocks
-- afterwards are those, they still take the whole heap, and no payload byte has changed.
pub krealloc_stays :
    {g_heap capacity size : ℕ} {h : Memory} (before : List Cell) (c : Cell) (behind : List Cell)
    {after : List Cell}
    → IsHeap g_heap capacity h (before ++ c ∷ behind)
    → size ≢ 0
    → resized (mm_align_size size) c behind ≡ some after
    → let p = mm_block_payload (g_heap + extent before) in
      (h' : Memory) × (krealloc p size h ≡ some (p, h'))
      × IsHeap g_heap capacity h' (before ++ after)
      × (h'.bytes ≡ h.bytes)
krealloc_stays {g_heap} {capacity} {size} {h} before c behind {after} is ne ok =
    let b = g_heap + extent before in
    let total = extent-append before (c ∷ behind) in
    let (h', run, left) =
      stays b size c behind h ne (omega (arith, is.full, is.small, total))
        (Layout-behind h.store g_heap b before (c ∷ behind) refl is.layout) ok in
    let (first, same, more) = resized-Takes b (mm_align_size size) c behind ok in
    let whole = Leaves-behind g_heap b before c behind after h h' refl first is.layout left in
    (
      h',
      run,
      record {
        first = whole.first ∙ is.first;
        placed = is.placed;
        nonempty = omega (arith, length-append before after, more);
        full = omega (arith, is.full, total, same, extent-append before after);
        small = is.small;
        layout = whole.layout;
      },
      whole.bytes,
    )
