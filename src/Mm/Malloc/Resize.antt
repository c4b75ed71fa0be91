-- ===== src/Mm/Malloc/Resize.antt =====
-- The two ways in which `krealloc` of mm/malloc.c changes the size of a block in its place.
use zythos.Base.{
  ℕ, ◌+◌, ◌-◌, ◌≤◌, ◌≡◌, refl, ◌∙◌, inl, inr, Bool, true, false, not, ◌&&◌, none, some, List, ◌∷◌,
  arith, leb, add32, Bool-cases,
}
use zythos.Mm.{Memory, put}
use zythos.Mm.Cells.{united, Cell, cell, extent, absorb, shrunk}
use zythos.Mm.Layout.{Layout, Leaves, block, at, Leaves-self, Leaves-put, Leaves-trans, Leaves-cons}
use zythos.Mm.Heap.{merge_next}
use zythos.Mm.Heap.Free.{at-absorb, header, merge_next-Leaves}
use zythos.Mm.Malloc.{split_off, shrink, absorb_next}

-- The block at `b` becomes one of `request` bytes with a free block of `k` bytes behind it.
pub split_off-Leaves :
    (b request leftover k next n : ℕ) (u : Bool) (behind : List Cell) (h : Memory)
    → leftover - 12 ≡ k
    → next ≡ at (b + 12 + request + 12 + k) behind
    → Layout h.store (b + 12 + request + 12 + k) behind
    → Leaves b
        (cell u request ∷ cell false k ∷ behind)
        h
        (split_off b (header n u next) request leftover next h)
split_off-Leaves b request leftover k next n u behind h ek en l =
    let g = put h (b + 12 + request) (header k false (at (b + 12 + request + 12 + k) behind)) in
    let one = Leaves-put (b + 12 + request) (cell false k) behind h l in
    let two = Leaves-put b (cell u request) (cell false k ∷ behind) g one.layout in
    rw (ek, en)
      (record {
        layout = two.layout;
        below = λ x lt. two.below x lt ∙ one.below x (omega arith);
        first = refl;
        bytes = refl;
      })

shrink-split :
    (b request p : ℕ) (c : Cell) (behind : List Cell) (h : Memory)
    → p ≡ at (b + 12 + c.size) behind
    → leb 28 (c.size - request) ≡ true
    → 12 + c.size + extent behind ≤ 262144
    → Layout h.store b (c ∷ behind)
    → (h' : Memory) × (merge_next
          (b + 12 + request)
          (split_off b (block c p) request (c.size - request) p h)
        ≡ some h')
      × Leaves b (cell c.used request ∷ absorb (c.size - request - 12) behind) h h'
shrink-split b request p c behind h ep split small (here, rest) =
    let k = c.size - request - 12 in
    let e : b + 12 + request + 12 + k ≡ b + 12 + c.size = ground arith in
    let g = split_off b (block c p) request (c.size - request) p h in
    let first =
      split_off-Leaves b request (c.size - request) k p c.size c.used behind h refl (rw e ep)
        (rw e rest) in
    let (h', run, after) =
      merge_next-Leaves (b + 12 + request) k behind g (ground arith) first.layout.1 in
    (
      h',
      run,
      Leaves-trans first (
          Leaves-cons b (cell c.used request) (absorb k behind) g h' (rw at-absorb first.layout.0)
            after),
    )

pub shrink-Leaves :
    (b request p : ℕ) (c : Cell) (behind : List Cell) (h : Memory)
    → p ≡ at (b + 12 + c.size) behind
    → 12 + c.size + extent behind ≤ 262144
    → Layout h.store b (c ∷ behind)
    → (h' : Memory) × (shrink b (block c p) request h ≡ some h')
      × Leaves b (shrunk request c behind) h h'
unfolding shrink
shrink-Leaves b request p c behind h ep small l = elim (Bool-cases (leb 28 (c.size - request))) [
  | inl split ↦ rw split (shrink-split b request p c behind h ep split small l)
  | inr whole ↦ rw whole (h, refl, Leaves-self b (c ∷ behind) h l)
]

pub united-Leaves :
    (b request p q : ℕ) (c d : Cell) (ds : List Cell) (h : Memory)
    → q ≡ at (b + 12 + c.size + 12 + d.size) ds
    → (not d.used && leb request (c.size + 12 + d.size)) ≡ true
    → 12 + c.size + (12 + d.size + extent ds) ≤ 262144
    → Layout h.store b (c ∷ d ∷ ds)
    → (h' : Memory) × (absorb_next b (block c p) (block d q) request h ≡ some h')
      × Leaves b (united request c d ds) h h'
unfolding absorb_next
united-Leaves b request p q c d ds h eq ok small (here, (next, rest)) =
    let sum : add32 (add32 c.size 12) d.size ≡ c.size + 12 + d.size = omega arith in
    let n = c.size + 12 + d.size in
    elim (Bool-cases (leb 28 (n - request))) [
      | inl split ↦
          let k = n - request - 12 in
          let e : b + 12 + request + 12 + k ≡ b + 12 + c.size + 12 + d.size = ground arith in
          (
            split_off b (block c p) request (n - request) q h,
            rw (sum, ok, split) refl,
            rw split (
                split_off-Leaves b request (n - request) k q c.size c.used ds h refl (rw e eq)
                  (rw e rest)),
          )
      | inr whole ↦
          let e : b + 12 + n ≡ b + 12 + c.size + 12 + d.size = omega arith in
          (
            put h b (header n c.used (at (b + 12 + n) ds)),
            rw (sum, ok, whole, eq, e) refl,
            rw whole (Leaves-put b (cell c.used n) ds h (rw e rest)),
          )
    ]

pub absorb_next-none :
    (b request p q : ℕ) (c d : Cell) (ds : List Cell) (h : Memory)
    → 12 + c.size + (12 + d.size + extent ds) ≤ 262144
    → (not d.used && leb request (c.size + 12 + d.size)) ≡ false
    → absorb_next b (block c p) (block d q) request h ≡ none
unfolding absorb_next
absorb_next-none b request p q c d ds h small miss =
    let sum : add32 (add32 c.size 12) d.size ≡ c.size + 12 + d.size = omega arith in
    rw (sum, miss) refl
