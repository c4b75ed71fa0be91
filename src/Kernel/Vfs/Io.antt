-- ===== src/Kernel/Vfs/Io.antt =====
-- `vfs_read` of kernel/include/vfs.h with a driver that gives no more than it is asked for.
use mathlib.Core.Path.{subst}
use mathlib.Core.Option.{some-injective}
use zythos.Base.{
  ℕ, ◌+◌, ◌-◌, ◌^◌, ◌≤◌, ◌<◌, ◌≡◌, refl, sym, ap, ◌∙◌, ◌≢◌, inl, inr, true, false, not, ◌||◌,
  Option, none, some, List, [], arith, leb, ◌==◌, add32, Bool-cases, length, get_or,
}
use zythos.Kernel.Vfs.{VfsNode, VfsFile, no_node, Driver, clamp, vfs_read}

-- A driver gives at most the bytes that it is asked for, and at most those up to the size.
pub record IsHonest {D : Type 0} (driver : Driver D) : Type 0 where
  pub bounded :
      (node : VfsNode) (offset size : ℕ) (d : D) (bytes : List ℕ)
      → (driver.read node offset size d).0 ≡ some bytes
      → length bytes ≤ size

-- The file that is open for reading: its node has a driver, and the offset is within 32 bits.
pub record IsReadable {D : Type 0} (driver : Driver D) (file : VfsFile) (nodes : List VfsNode)
    : Type 0 where
  pub ops : (get_or nodes file.node no_node).ops ≢ 0
  pub reads : driver.has_read (get_or nodes file.node no_node) ≡ true
  pub size : (get_or nodes file.node no_node).size < 2 ^ 32
  pub offset : file.offset ≤ (get_or nodes file.node no_node).size

abbrev pub advance : VfsFile → Option (List ℕ) → VfsFile
advance file none = file
advance file (some bytes) = record file { offset = add32 file.offset (length bytes) }

module _ {D : Type 0} (driver : Driver D) where
  pub read-steps :
      (size : ℕ) (file : VfsFile) (nodes : List VfsNode) (d : D)
      → IsReadable driver file nodes
      → let node = get_or nodes file.node no_node in
        leb node.size file.offset ≡ false
        → let (result, e) = driver.read node file.offset (clamp driver file node size) d in
          vfs_read driver size file nodes d ≡ (result, advance file result, e)
  unfolding vfs_read
  read-steps size file nodes d is more =
      let node = get_or nodes file.node no_node in
      let has : ((node.ops == 0) || not (driver.has_read node)) ≡ false =
        ground (arith, is.ops, is.reads) in
      rw (has, more) refl

  pub end-of-file :
      (size : ℕ) (file : VfsFile) (nodes : List VfsNode) (d : D)
      → IsReadable driver file nodes
      → leb (get_or nodes file.node no_node).size file.offset ≡ true
      → vfs_read driver size file nodes d ≡ (some [], file, d)
  unfolding vfs_read
  end-of-file size file nodes d is over =
      let node = get_or nodes file.node no_node in
      let has : ((node.ops == 0) || not (driver.has_read node)) ≡ false =
        ground (arith, is.ops, is.reads) in
      rw (has, over) refl

  bounded-result :
      (size : ℕ) (file : VfsFile) (nodes : List VfsNode) (d : D) (bytes : List ℕ)
      → IsHonest driver
      → IsReadable driver file nodes
      → file.offset + size < 2 ^ 32
      → (vfs_read driver size file nodes d).0 ≡ some bytes
      → let node = get_or nodes file.node no_node in
        ((vfs_read driver size file nodes d).1
          ≡ record file { offset = file.offset + length bytes })
        × (length bytes ≤ size)
        × (file.offset + length bytes ≤ node.size)
  bounded-result size file nodes d bytes honest is small read =
      let node = get_or nodes file.node no_node in
      elim (Bool-cases (leb node.size file.offset)) [
        | inl over ↦
            let run = end-of-file size file nodes d is over in
            let empty : bytes ≡ [] = some-injective _ _ (sym read ∙ ap (λ r. r.0) run) in
            let zero_add : file.offset + 0 ≡ file.offset = omega arith in
            (
              ap (λ r. r.1) run ∙ rw (empty, zero_add) refl,
              rw empty (omega arith),
              rw empty (omega (arith, is.offset)),
            )
        | inr more ↦
            let run = read-steps size file nodes d is more in
            let asked = clamp driver file node size in
            let got : (driver.read node file.offset asked d).0 ≡ some bytes =
              sym (ap (λ r. r.0) run) ∙ read in
            let le = honest.bounded node file.offset asked d bytes got in
            let below : file.offset + length bytes ≤ node.size =
              ground (arith, le, more, small, is.size) in
            let whole : add32 file.offset (length bytes) ≡ file.offset + length bytes =
              omega (arith, below, is.size) in
            (
              ap (λ r. r.1) run ∙ ap (advance file) got ∙ rw whole refl,
              ground (arith, le, more, small, is.size),
              below,
            )
      ]

  -- A read from an open file, whose end (the offset and the size asked for) is below 4 GiB, with a driver
  -- that gives no more than it is asked for: the bytes are at most as many as asked for and as there are
  -- up to the end of the file, the offset advances by their number, and the file stays readable.
  pub vfs_read_lem :
      (size : ℕ) (file : VfsFile) (nodes : List VfsNode) (d : D) (bytes : List ℕ)
      → IsHonest driver
      → IsReadable driver file nodes
      → file.offset + size < 2 ^ 32
      → (vfs_read driver size file nodes d).0 ≡ some bytes
      → let after = (vfs_read driver size file nodes d).1 in
        (length bytes ≤ size)
        × (file.offset + length bytes ≤ (get_or nodes file.node no_node).size)
        × (after.offset ≡ file.offset + length bytes)
        × IsReadable driver after nodes
  vfs_read_lem size file nodes d bytes honest is small read =
      let (after, le, below) = bounded-result size file nodes d bytes honest is small read in
      (
        le,
        below,
        ap (λ (f : VfsFile). f.offset) after,
        subst (λ f. IsReadable driver f nodes) (sym after)
            (record { ops = is.ops; reads = is.reads; size = is.size; offset = below }),
      )

  -- The end of a read is computed in 32 bits. Where it passes 4 GiB and what is left of it is within the
  -- file, the driver is asked for the whole size, which is more than the rest of the file.
  vfs_read-wraps :
      (size : ℕ) (file : VfsFile) (nodes : List VfsNode) (d : D)
      → IsReadable driver file nodes
      → let node = get_or nodes file.node no_node in
        file.offset < node.size
        → size < 2 ^ 32
        → 2 ^ 32 ≤ file.offset + size
        → file.offset + size - 2 ^ 32 ≤ node.size
        → let (result, e) = driver.read node file.offset size d in
          (node.size < file.offset + size)
          × (vfs_read driver size file nodes d ≡ (result, advance file result, e))
  vfs_read-wraps size file nodes d is more small wraps left =
      let node = get_or nodes file.node no_node in
      let asked : clamp driver file node size ≡ size =
        ground (arith, wraps, left, small, more, is.size) in
      let going : leb node.size file.offset ≡ false = ground (arith, more) in
      (
        omega (arith, wraps, is.size),
        read-steps size file nodes d is going
            ∙ ap
                (λ k.
                  let (result, e) = driver.read node file.offset k d in
                  (result, advance file result, e))
                asked,
      )
