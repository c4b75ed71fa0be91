-- ===== src/Mm/Malloc/Moves.antt =====
-- `krealloc` of mm/malloc.c where the block has to move.
use native.Mathlib.Decide.{ℕ_discrete}
use mathlib.Core.Path.{subst}
use zythos.Base.{
  copy_bytes, copy_bytes-inside, Apart, ℕ, ◌+◌, ◌^◌, ◌≤◌, ◌<◌, ◌≡◌, refl, ap, ◌∙◌, ◌≢◌, ◌⊎◌, inl,
  inr, true, false, none, some, List, [], ◌∷◌, ◌++◌, arith, ltb, leb, ◌==◌, if◌then◌else◌, ◌>>=◌,
  Bool-cases,
}
use zythos.Mm.{null, Memory, Block, mm_block_payload, mm_align_size}
use zythos.Mm.Cells.{
  Cell, extent, extent-append, fits, carve, allocate, payload, release, enlarged, resized,
}
use zythos.Mm.Layout.{Layout, block, at, Layout-behind, IsHeap}
use zythos.Mm.Merged.{allocate_cases}
use zythos.Mm.Heap.Alloc.{kmalloc_lem}
use zythos.Mm.Heap.Wrap.{mm_align_size_lem}
use zythos.Mm.Malloc.{relocate, grow, krealloc, kmalloc, kfree, absorb_next}
use zythos.Mm.Malloc.Resize.{absorb_next-none}
use zythos.Mm.Malloc.Free.{malloc_kfree_lem}
use zythos.Mm.Malloc.Stays.{krealloc-steps}

-- The rest of the list is as before round a block that is in use.
record Around (request a : ℕ) (before : List Cell) (c : Cell) (behind : List Cell) : Type 0 where
  front : List Cell
  rear : List Cell
  cells : allocate request (before ++ c ∷ behind) ≡ front ++ c ∷ rear
  same : extent front ≡ extent before

payload-above :
    (request a : ℕ) (cs : List Cell) → (payload request a cs ≡ 0) ⊎ (a + 12 ≤ payload request a cs)
payload-above request a [] = inl refl
payload-above request a (d ∷ cs) = ground (arith, payload-above request (a + 12 + d.size) cs)

payload-apart :
    (request a : ℕ) (before : List Cell) (c : Cell) (behind : List Cell)
    → c.used ≡ true
    → let q = payload request a (before ++ c ∷ behind) in
      (q ≡ 0) ⊎ (q + request ≤ a + extent before) ⊎ (a + extent before + 12 + c.size ≤ q)
payload-apart request a [] c behind u =
    ground (arith, payload-above request (a + 12 + c.size) behind)
payload-apart request a (d ∷ before) c behind u =
    let e : a + (12 + d.size + extent before) ≡ a + 12 + d.size + extent before = omega arith in
    rw e (ground (arith, payload-apart request (a + 12 + d.size) before c behind u))

around :
    (request a : ℕ) (before : List Cell) (c : Cell) (behind : List Cell)
    → c.used ≡ true
    → Around request a before c behind
around request a [] c behind u = record {
  front = [];
  rear = allocate request behind;
  cells = ground arith;
  same = refl;
}
around request a (d ∷ before) c behind u = elim (Bool-cases (fits request d)) [
  | inl ok ↦ record {
    front = carve request d before;
    rear = behind;
    cells = ground arith;
    same = ground arith;
  }
  | inr miss ↦
      let r = around request (a + 12 + d.size) before c behind u in
      record {
        front = d ∷ r.front;
        rear = r.rear;
        cells = rw miss (ap (λ cs. d ∷ cs) r.cells);
        same = omega (arith, r.same);
      }
]

some-ne-none {ℓ} : {A : Type ℓ} {a : A} → some a ≡ none → ⊥
some-ne-none e = cc

grow-none :
    (ptr b request size : ℕ) (k n : Block) (h : Memory)
    → k.next ≢ null
    → h.store k.next ≡ some n
    → absorb_next b k n request h ≡ none
    → grow ptr b k request size h ≡ relocate ptr k.size size h
unfolding grow
grow-none ptr b request size k n h ne here stuck =
    let more : (k.next == null) ≡ false = ground arith in rw (more, here, ◌>>=◌, stuck) refl

grow-stuck :
    (ptr b request size : ℕ) (c : Cell) (behind : List Cell) (h : Memory)
    → 12 + c.size + extent behind ≤ 262144
    → Layout h.store b (c ∷ behind)
    → enlarged request c behind ≡ none
    → grow ptr b (block c (at (b + 12 + c.size) behind)) request size h ≡ relocate ptr c.size size h
unfolding grow
grow-stuck ptr b request size c [] h small l stuck = refl
grow-stuck ptr b request size c (d ∷ ds) h small (here, (next, rest)) stuck =
    grow-none ptr b request size (block c (b + 12 + c.size)) _ h (omega arith) next
      (absorb_next-none b request _ _ c d ds h small (ground arith))

stuck_of_resized :
    (request : ℕ) (c : Cell) (behind : List Cell)
    → resized request c behind ≡ none
    → (leb request c.size ≡ false) × (enlarged request c behind ≡ none)
stuck_of_resized request c behind stuck = elim (Bool-cases (leb request c.size)) [
  | inl fits ↦ absurd (some-ne-none (rw fits at stuck))
  | inr larger ↦ (larger, rw larger at stuck)
]

-- `krealloc` when there is no room where the block stands.
krealloc-relocate :
    (h : Memory) (b size : ℕ) (c : Cell) (behind : List Cell)
    → size ≢ 0
    → 12 + c.size + extent behind ≤ 262144
    → Layout h.store b (c ∷ behind)
    → resized (mm_align_size size) c behind ≡ none
    → krealloc (mm_block_payload b) size h ≡ relocate (mm_block_payload b) c.size size h
krealloc-relocate h b size c behind ne small l stuck =
    let (larger, no_room) = stuck_of_resized (mm_align_size size) c behind stuck in
    krealloc-steps h b size _ ne l.0
    ∙ rw larger
        (grow-stuck (mm_block_payload b) b (mm_align_size size) size c behind h small l no_room)

relocate-null :
    (p old size : ℕ) (h h' : Memory)
    → kmalloc size h ≡ some (null, h')
    → relocate p old size h ≡ some (null, h')
unfolding relocate
relocate-null p old size h h' run = rw run refl

relocate-some :
    (p old size q : ℕ) (h g k : Memory)
    → q ≢ null
    → kmalloc size h ≡ some (q, g)
    → let n = (if ltb old size then old else size) in
      kfree p (record g { bytes = copy_bytes n 0 q p g.bytes }) ≡ some k
      → relocate p old size h ≡ some (q, k)
unfolding relocate
relocate-some p old size q h g k ne run freed =
    let more : (q == null) ≡ false = ground arith in rw (run, ◌>>=◌, more, freed) refl

fitting :
    (size old : ℕ)
    → size ≢ 0
    → size < 2 ^ 32
    → leb (mm_align_size size) old ≡ false
    → size ≤ mm_align_size size
fitting size old ne lt larger = elim (mm_align_size_lem size ne lt) [
  | inl (_, low, _, _) ↦ low
  | inr (_, wraps) ↦ absurd (ground (arith, wraps, larger))
]

copied-bytes :
    (m : ℕ → ℕ) (q b old size request j : ℕ)
    → size ≤ request
    → (q + request ≤ b) ⊎ (b + 12 + old ≤ q)
    → j < old
    → j < size
    → copy_bytes (if ltb old size then old else size) 0 q (b + 12) m (q + j) ≡ m (b + 12 + j)
copied-bytes m q b old size request j low apart lo ls =
    let zero_add : 0 + j ≡ j = omega arith in
    let inside = λ (n : ℕ) (lt : j < n) (ap' : Apart (0 + n) q (b + 12)).
      subst (λ i. copy_bytes n 0 q (b + 12) m (q + i) ≡ m (b + 12 + i)) zero_add
        (copy_bytes-inside n 0 j q (b + 12) m lt ap') in
    elim (Bool-cases (ltb old size)) [
      | inl smaller ↦ rw smaller (inside old lo (ground arith))
      | inr larger ↦ rw larger (inside size ls (ground arith))
    ]

-- The old block of `size` bytes is freed once the bytes are copied.
freed-after :
    (g_heap capacity request q : ℕ) (g : Memory) (before : List Cell) (c : Cell)
    (behind : List Cell)
    → (m : ℕ → ℕ) → (r : Around request g_heap before c behind)
    → IsHeap g_heap capacity g (allocate request (before ++ c ∷ behind))
    → (h' : Memory) × (kfree (mm_block_payload (g_heap + extent before)) (record g { bytes = m })
        ≡ some h')
      × IsHeap g_heap capacity h' (release r.front c.size r.rear)
      × (h'.bytes ≡ m)
freed-after g_heap capacity request q g before c behind m r is =
    let is' : IsHeap g_heap capacity g (r.front ++ c ∷ r.rear) =
      subst (IsHeap g_heap capacity g) r.cells is in
    let copied : IsHeap g_heap capacity (record g { bytes = m }) (r.front ++ c ∷ r.rear) = record {
      first = is'.first;
      placed = is'.placed;
      nonempty = is'.nonempty;
      full = is'.full;
      small = is'.small;
      layout = is'.layout;
    } in
    let (h', run, after, same) = malloc_kfree_lem r.front c r.rear copied in
    (
      h',
      subst (λ e. kfree (mm_block_payload (g_heap + e)) (record g { bytes = m }) ≡ some h') r.same
          run,
      after,
      same,
    )

unchanged_of_null :
    (request a : ℕ) (cs : List Cell) → payload request a cs ≡ null → allocate request cs ≡ cs
unchanged_of_null request a cs z = elim (allocate_cases request a cs) [
  | inl (_, _, e) ↦ e
  | inr (f, e) ↦ absurd (omega (arith, e, z))
]

-- What `krealloc` with a size other than 0 does to a used block at `p` for which there is no room
-- where it stands. It returns null if no free block is large enough either, and then the blocks and
-- the payload bytes are as before. Otherwise it returns the payload of the block that first fit
-- gives; its bytes are those of the old block, as many as the smaller of the two sizes, and the old
-- block is freed.
pub krealloc_moves :
    {g_heap capacity size : ℕ} {h : Memory} (before : List Cell) (c : Cell) (behind : List Cell)
    → IsHeap g_heap capacity h (before ++ c ∷ behind)
    → c.used ≡ true
    → size ≢ 0
    → size < 2 ^ 32
    → resized (mm_align_size size) c behind ≡ none
    → let p = mm_block_payload (g_heap + extent before) in
      let request = mm_align_size size in
      let q = payload request g_heap (before ++ c ∷ behind) in
      (h' : Memory) × (krealloc p size h ≡ some (q, h'))
      × (((q ≡ null) × IsHeap g_heap capacity h' (before ++ c ∷ behind) × (h'.bytes ≡ h.bytes))
          ⊎ ((q ≢ null)
              × ((front rear : List Cell) × (allocate request (before ++ c ∷ behind)
                    ≡ front ++ c ∷ rear)
                  × IsHeap g_heap capacity h' (release front c.size rear))
              × ((j : ℕ) → j < c.size → j < size → h'.bytes (q + j) ≡ h.bytes (p + j))))
krealloc_moves {g_heap} {capacity} {size} {h} before c behind is u ne lt stuck =
    let request = mm_align_size size in
    let cs = before ++ c ∷ behind in
    let b = g_heap + extent before in
    let p = mm_block_payload b in
    let q = payload request g_heap cs in
    let (g, run, is', same) = kmalloc_lem {size = size} is ne in
    let moved =
      krealloc-relocate h b size c behind ne
        (omega (arith, is.full, is.small, extent-append before (c ∷ behind)))
        (Layout-behind h.store g_heap b before (c ∷ behind) refl is.layout) stuck in
    elim (ℕ_discrete q null) [
      | yes z ↦
          let run' : kmalloc size h ≡ some (null, g) = cc (run, z) in
          (
            g,
            moved ∙ relocate-null p c.size size h g run' ∙ cc z,
            inl (
              z,
              subst (IsHeap g_heap capacity g) (unchanged_of_null request g_heap cs z) is',
              same,
            ),
          )
      | no nz ↦
          let n = (if ltb c.size size then c.size else size) in
          let r = around request g_heap before c behind u in
          let (h', freed, after, bytes) =
            freed-after g_heap capacity request q g before c behind (copy_bytes n 0 q p g.bytes) r
              is' in
          (
            h',
            moved ∙ relocate-some p c.size size q h g h' nz run freed,
            inr (
              nz,
              (r.front, r.rear, r.cells, after),
              λ j lo ls.
                  ap (λ m. m (q + j)) bytes
                  ∙ copied-bytes g.bytes q b c.size size request j
                      (fitting size c.size ne lt (stuck_of_resized request c behind stuck).0)
                      (ground (arith, payload-apart request g_heap before c behind u, nz)) lo ls
                  ∙ ap (λ m. m (p + j)) same,
            ),
          )
    ]
