-- ===== src/Mm/Cells.antt =====
-- What the heap of mm/ stands for: its blocks in address order, a size and a mark each, and the
-- allocator on those alone.
use zythos.Base.{
  some, none, Option, arith, ◌≡◌, ◌++◌, ℕ, ◌+◌, ◌-◌, List, [], ◌∷◌, Bool, true, false, not, ◌&&◌,
  leb, if◌then◌else◌,
}

-- A block without its pointer.
pub record Cell : Type 0 where
  pub size : ℕ
  pub used : Bool

abbrev pub cell : Bool → ℕ → Cell
cell u n = record { size = n; used = u }

-- The bytes that the blocks take, headers included.
abbrev pub extent : List Cell → ℕ
extent [] = 0
extent (c ∷ cs) = 12 + c.size + extent cs

pub extent-append : (xs ys : List Cell) → extent (xs ++ ys) ≡ extent xs + extent ys
extent-append [] ys = omega arith
extent-append (x ∷ xs) ys = omega (arith, extent-append xs ys)

abbrev pub fits : ℕ → Cell → Bool
fits request c = not c.used && leb request c.size

-- The first block that is free and large enough is marked; what is left of it becomes a free block
-- if a header and 16 bytes fit in.
abbrev pub carve : ℕ → Cell → List Cell → List Cell
carve request c cs =
    if leb 28 (c.size - request)
    then cell true request ∷ cell false (c.size - request - 12) ∷ cs
    else cell true c.size ∷ cs

abbrev pub allocate : ℕ → List Cell → List Cell
allocate request [] = []
allocate request (c ∷ cs) = if fits request c then carve request c cs else c ∷ allocate request cs

-- Where the payload starts if the first block is at `a`; 0 if no block fits.
abbrev pub payload : ℕ → ℕ → List Cell → ℕ
payload request a [] = 0
payload request a (c ∷ cs) = if fits request c then a + 12 else payload request (a + 12 + c.size) cs

-- A free block of `n` bytes absorbs a free one behind it.
abbrev pub absorb : ℕ → List Cell → List Cell
absorb n [] = cell false n ∷ []
absorb n (d ∷ ds) = if d.used then cell false n ∷ d ∷ ds else cell false (n + (d.size + 12)) ∷ ds

-- The block of `n` bytes between `before` and `behind` becomes free, and joins its free neighbours.
abbrev pub release : List Cell → ℕ → List Cell → List Cell
release [] n behind = absorb n behind
release (d ∷ []) n behind =
    if d.used then d ∷ absorb n behind else absorb (d.size + (n + 12)) behind
release (d ∷ e ∷ before) n behind = d ∷ release (e ∷ before) n behind

-- The header in front of what follows `before`, null if there is none.
abbrev pub previous : ℕ → List Cell → ℕ
previous a [] = 0
previous a (d ∷ []) = a
previous a (d ∷ e ∷ before) = previous (a + 12 + d.size) (e ∷ before)

-- The block `c` keeps `request` of its bytes, and the rest joins a free block behind it, if the rest
-- is worth a block.
abbrev pub shrunk : ℕ → Cell → List Cell → List Cell
shrunk request c behind =
    if leb 28 (c.size - request)
    then cell c.used request ∷ absorb (c.size - request - 12) behind
    else c ∷ behind

-- The block `c` takes the block `d` behind it in, and gives back what is left if that is worth a
-- block.
abbrev pub united : ℕ → Cell → Cell → List Cell → List Cell
united request c d ds =
    if leb 28 (c.size + 12 + d.size - request)
    then cell c.used request ∷ cell false (c.size + 12 + d.size - request - 12) ∷ ds
    else cell c.used (c.size + 12 + d.size) ∷ ds

-- It does so if `d` is free and the two are large enough.
abbrev pub enlarged : ℕ → Cell → List Cell → Option (List Cell)
enlarged request c [] = none
enlarged request c (d ∷ ds) =
    if not d.used && leb request (c.size + 12 + d.size) then some (united request c d ds) else none

-- The blocks from `c` on when it is given the size `request` where it stands; `none` if it cannot.
abbrev pub resized : ℕ → Cell → List Cell → Option (List Cell)
resized request c behind =
    if leb request c.size then some (shrunk request c behind) else enlarged request c behind
