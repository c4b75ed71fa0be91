-- ===== src/Kernel/Vfs.antt =====
-- kernel/vfs.c and kernel/include/vfs.h: the table of nodes. A file's node is its index in the table,
-- whose used part is a list. The functions behind `ops` are not of this file and are a parameter.
pub mod Names
pub mod Io
mod Tests
use zythos.Base.{
  ℕ, zero, suc, ◌+◌, ◌-◌, ◌*◌, ◌/◌, ◌%◌, ◌^◌, ◌≤◌, ◌<◌, ◌≡◌, refl, sym, ap, ◌∙◌, ◌≢◌, ◌↔◌, ◌⊎◌, inl,
  inr, Bool, true, false, not, ◌&&◌, ◌||◌, Option, none, some, List, [], ◌∷◌, ◌++◌, map, arith, ltb,
  leb, ◌==◌, if◌then◌else◌, add32, ◌>>=◌, Bool-cases, Option-cases, ==_iff, ==-refl, length,
  get_elem?, get_or, set, take, drop, replicate, length-append, length-set, get_or-set_self,
  get_or-set_ne,
}
use zythos.Base.{str_cmp, is_zero}

abbrev pub vfs_max_path : ℕ
vfs_max_path = 256

abbrev pub vfs_max_nodes : ℕ
vfs_max_nodes = 128

-- The results of the functions, `VFS_OK` and the negative numbers.
pub data VfsCode : Type 0 where
  vfs_ok vfs_error vfs_enoent vfs_enomem : VfsCode

abbrev pub vfs_directory : ℕ
vfs_directory = 2

-- `ops` is 0 where there are none; the driver data of a node is left out.
pub record VfsNode : Type 0 where
  pub name : List ℕ
  pub size : ℕ
  pub flags : ℕ
  pub inode_id : ℕ
  pub ops : ℕ

pub record VfsFile : Type 0 where
  pub node : ℕ
  pub offset : ℕ
  pub flags : ℕ

pub vfs_init : List VfsNode → List VfsNode
vfs_init nodes = []

pub vfs_register_node : VfsNode → List VfsNode → VfsCode × List VfsNode
vfs_register_node node nodes =
    if leb vfs_max_nodes (length nodes) then (vfs_enomem, nodes) else (vfs_ok, nodes ++ node ∷ [])

abbrev pub vfs_strcmp : List ℕ → List ℕ → ℕ × ℕ
vfs_strcmp = str_cmp

-- The loop of `vfs_lookup` from `index` on.
abbrev pub lookup_from : ℕ → List ℕ → List VfsNode → Option ℕ
lookup_from index path [] = none
lookup_from index path (node ∷ nodes) =
    if is_zero (vfs_strcmp node.name path) then some index else lookup_from (index + 1) path nodes

-- `path` is not null.
unfoldable pub vfs_lookup : List ℕ → List VfsNode → Option ℕ
vfs_lookup path nodes = lookup_from 0 path nodes

abbrev pub is_some {ℓ} : {A : Type ℓ} → Option A → Bool
is_some none = false
is_some (some a) = true

unfoldable pub vfs_exists : List ℕ → List VfsNode → Bool
vfs_exists path nodes = is_some (vfs_lookup path nodes)

-- The name is cut to 255 bytes.
pub vfs_mkdir : List ℕ → List VfsNode → VfsCode × List VfsNode
vfs_mkdir path nodes =
    if vfs_exists path nodes
    then (vfs_error, nodes)
    else vfs_register_node
        (record {
          name = take (vfs_max_path - 1) path;
          size = 0;
          flags = vfs_directory;
          inode_id = 0;
          ops = 0;
        })
        nodes

-- The result, and what is written to `out_file`.
unfoldable pub vfs_open : List ℕ → List VfsNode → VfsCode × Option VfsFile
vfs_open path nodes = elim (vfs_lookup path nodes) [
  | none ↦ (vfs_enoent, none)
  | some index ↦ (vfs_ok, some (record { node = index; offset = 0; flags = 0 }))
]

abbrev pub no_node : VfsNode
no_node = record { name = []; size = 0; flags = 0; inode_id = 0; ops = 0 }

-- What a driver does: whether a node's `ops` has the function, and the function, on a state of the
-- device. A result is `none` for a negative number, and the bytes or their number otherwise.
pub record Driver (D : Type 0) : Type 0 where
  pub has_read : VfsNode → Bool
  pub has_write : VfsNode → Bool
  pub read : VfsNode → ℕ → ℕ → D → Option (List ℕ) × D
  pub write : VfsNode → ℕ → List ℕ → D → Option ℕ × D

module _ {D : Type 0} (driver : Driver D) where
  -- The number of bytes that `vfs_read` asks the driver for.
  abbrev pub clamp : VfsFile → VfsNode → ℕ → ℕ
  clamp file node size =
      if ltb node.size (add32 file.offset size) then node.size - file.offset else size

  -- `none` for a negative result; the file and the device afterwards.
  unfoldable pub vfs_read : ℕ → VfsFile → List VfsNode → D → Option (List ℕ) × VfsFile × D
  vfs_read size file nodes d =
      let node = get_or nodes file.node no_node in
      if (node.ops == 0) || not (driver.has_read node)
      then (none, file, d)
      else if leb node.size file.offset
      then (some [], file, d)
      else (let (bytes_read, e) = driver.read node file.offset (clamp file node size) d in
          let advanced = λ (n : ℕ). record file { offset = add32 file.offset n } in
          (bytes_read, elim bytes_read [ none ↦ file | some bytes ↦ advanced (length bytes) ], e))

  unfoldable pub vfs_write :
      List ℕ → VfsFile → List VfsNode → D → Option ℕ × VfsFile × List VfsNode × D
  vfs_write buffer file nodes d =
      let node = get_or nodes file.node no_node in
      if (node.ops == 0) || not (driver.has_write node)
      then (none, file, nodes, d)
      else (let (written, e) = driver.write node file.offset buffer d in
          let moved = λ (n : ℕ). add32 file.offset n in
          (
            written,
            elim written [ none ↦ file | some n ↦ record file { offset = moved n } ],
            elim written [
              | none ↦ nodes
              | some n ↦
                  if ltb 0 n && ltb node.size (moved n)
                  then set nodes file.node (record node { size = moved n })
                  else nodes
            ],
            e,
          ))
