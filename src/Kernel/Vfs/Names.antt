-- ===== src/Kernel/Vfs/Names.antt =====
-- The names in the table of kernel/vfs.c.
use zythos.Base.{
  ℕ, suc, ◌+◌, ◌≤◌, ◌<◌, ◌≡◌, refl, sym, ap, ◌∙◌, ◌≢◌, ◌⊎◌, inl, inr, false, Option, none, some,
  List, [], ◌∷◌, ◌++◌, arith, leb, if◌then◌else◌, Bool-cases, Option-cases, length, take,
  length-append,
}
use zythos.Base.{
  str_cmp, str_cmp_refl, str_cmp_zero, is_zero, IsText, take-IsText, take-short, length-take-le,
}
use zythos.Kernel.Vfs.{
  vfs_ok, vfs_error, vfs_enomem, VfsNode, vfs_max_nodes, lookup_from, is_some, vfs_register_node,
  vfs_lookup, vfs_exists, vfs_mkdir,
}

-- All names are strings of at most 255 bytes.
abbrev pub Named : List VfsNode → Type 0
Named [] = Unit
Named (n ∷ ns) = (IsText n.name × (length n.name < 256)) × Named ns

pub record IsTable (nodes : List VfsNode) : Type 0 where
  pub room : length nodes ≤ 128
  pub named : Named nodes

-- No node of the table has this name.
abbrev pub Absent : List ℕ → List VfsNode → Type 0
Absent path [] = Unit
Absent path (n ∷ ns) = (n.name ≢ path) × Absent path ns

lookup_from-some :
    (index : ℕ) (path : List ℕ) (nodes : List VfsNode)
    → is_some (lookup_from index path nodes) ≡ is_some (lookup_from 0 path nodes)
lookup_from-some index path [] = refl
lookup_from-some index path (n ∷ ns) = elim (Bool-cases (is_zero (str_cmp n.name path))) [
  | inl here ↦ rw here refl
  | inr other ↦ rw other (lookup_from-some (index + 1) path ns ∙ sym (lookup_from-some 1 path ns))
]

lookup_from-Absent :
    (index : ℕ) (path : List ℕ) (nodes : List VfsNode)
    → Named nodes
    → IsText path
    → Absent path nodes
    → lookup_from index path nodes ≡ none
lookup_from-Absent index path [] named text absent = refl
lookup_from-Absent index path (n ∷ ns) ((t, _), named) text (ne, absent) =
    elim (Bool-cases (is_zero (str_cmp n.name path))) [
      | inl same ↦ absurd (ne (str_cmp_zero n.name path t text same))
      | inr other ↦ rw other (lookup_from-Absent (index + 1) path ns named text absent)
    ]

-- The first of two results.
abbrev pub first_of : Option ℕ → Option ℕ → Option ℕ
first_of none b = b
first_of (some a) b = some a

zero_add : (n : ℕ) → 0 + n ≡ n
zero_add n = omega arith

lookup_from-append :
    (index : ℕ) (path : List ℕ) (nodes : List VfsNode) (node : VfsNode)
    → lookup_from index path (nodes ++ node ∷ [])
      ≡ first_of
          (lookup_from index path nodes)
          (if is_zero (str_cmp node.name path) then some (index + length nodes) else none)
lookup_from-append index path [] node =
    let zero_add : index + 0 ≡ index = omega arith in rw zero_add refl
lookup_from-append index path (n ∷ ns) node = elim (Bool-cases (is_zero (str_cmp n.name path))) [
  | inl here ↦ rw here refl
  | inr other ↦
      let count : index + 1 + length ns ≡ index + suc (length ns) = omega arith in
      rw (other, sym count) (lookup_from-append (index + 1) path ns node)
]

Named-append :
    (nodes : List VfsNode) (node : VfsNode)
    → Named nodes
    → IsText node.name
    → length node.name < 256
    → Named (nodes ++ node ∷ [])
Named-append [] node named text short = ((text, short), tt)
Named-append (n ∷ ns) node (this, named) text short = (this, Named-append ns node named text short)

-- `vfs_register_node` of a node with a name of at most 255 bytes refuses it, with `VFS_ENOMEM`, just if
-- the table has its 128 nodes. Otherwise the table stays a table, the node is found under its name if
-- no node had that name before, and what any other name is found as does not change.
register_lem :
    (node : VfsNode) (nodes : List VfsNode)
    → IsTable nodes
    → IsText node.name
    → length node.name < 256
    → ((length nodes ≡ 128) × (vfs_register_node node nodes ≡ (vfs_enomem, nodes)))
      ⊎ ((after : List VfsNode) × (vfs_register_node node nodes ≡ (vfs_ok, after))
          × IsTable after
          × (length after ≡ length nodes + 1)
          × ((path : List ℕ)
              → vfs_lookup path after
                ≡ first_of
                    (vfs_lookup path nodes)
                    (if is_zero (str_cmp node.name path) then some (length nodes) else none)))
unfolding vfs_register_node vfs_lookup
register_lem node nodes is text short = elim (Bool-cases (leb vfs_max_nodes (length nodes))) [
  | inl full ↦ inl (ground (arith, full, is.room), rw full refl)
  | inr more ↦ inr (
    nodes ++ node ∷ [],
    rw more refl,
    record {
      room = ground (arith, more, length-append nodes (node ∷ []));
      named = Named-append nodes node is.named text short;
    },
    length-append nodes (node ∷ []) ∙ omega arith,
    λ path. lookup_from-append 0 path nodes node ∙ rw (zero_add (length nodes)) refl,
  )
]

-- The node of a new directory.
abbrev made : List ℕ → VfsNode
made path = record { name = take 255 path; size = 0; flags = 2; inode_id = 0; ops = 0 }

vfs_mkdir-steps :
    (path : List ℕ) (nodes : List VfsNode)
    → vfs_lookup path nodes ≡ none
    → vfs_mkdir path nodes ≡ vfs_register_node (made path) nodes
unfolding vfs_mkdir vfs_exists
vfs_mkdir-steps path nodes e = rw e refl

not_found :
    (path : List ℕ) (nodes : List VfsNode)
    → vfs_exists path nodes ≡ false
    → vfs_lookup path nodes ≡ none
unfolding vfs_exists
not_found path nodes e = elim (Option-cases (vfs_lookup path nodes)) [
  | inl absent ↦ absent
  | inr (i, found) ↦ absurd (cc (rw found at e))
]

vfs_mkdir-refused :
    (path : List ℕ) (nodes : List VfsNode) (i : ℕ)
    → vfs_lookup path nodes ≡ some i
    → vfs_mkdir path nodes ≡ (vfs_error, nodes)
unfolding vfs_mkdir vfs_exists
vfs_mkdir-refused path nodes i e = rw e refl

-- The node for one path is not the one for another.
other_name :
    (name other : List ℕ) (found : Option ℕ) (i : ℕ)
    → IsText name
    → IsText other
    → other ≢ name
    → is_some (first_of found (if is_zero (str_cmp name other) then some i else none))
      ≡ is_some found
other_name name other (some j) i text text' ne = refl
other_name name other none i text text' ne = elim (Bool-cases (is_zero (str_cmp name other))) [
  | inl same ↦ absurd (ne (sym (str_cmp_zero name other text text' same)))
  | inr apart ↦ rw apart refl
]

-- `vfs_mkdir` of a path of at most 255 bytes that does not exist makes it, unless the table is full:
-- the path exists afterwards, so that a second call is refused, and no other path comes into being.
pub vfs_mkdir_lem :
    (path : List ℕ) (nodes : List VfsNode)
    → IsTable nodes
    → IsText path
    → length path < 256
    → vfs_exists path nodes ≡ false
    → length nodes < 128
    → (after : List VfsNode) × (vfs_mkdir path nodes ≡ (vfs_ok, after))
      × IsTable after
      × (vfs_mkdir path after ≡ (vfs_error, after))
      × ((other : List ℕ)
          → IsText other
          → other ≢ path
          → vfs_exists other after ≡ vfs_exists other nodes)
unfolding vfs_exists vfs_lookup
vfs_mkdir_lem path nodes is text short absent more =
    let name : take 255 path ≡ path = take-short 255 path (omega arith) in
    let gone = not_found path nodes absent in
    elim (register_lem (made path) nodes is (take-IsText 255 path text)
      (omega (arith, length-take-le 255 path))) [
        | inl (full, _) ↦ absurd (omega (arith, full, more))
        | inr (after, run, is', _, found) ↦
            let here : vfs_lookup path after ≡ some (length nodes) =
              found path ∙ rw (gone, name, str_cmp_refl path) refl in
            (
              after,
              vfs_mkdir-steps path nodes gone ∙ run,
              is',
              vfs_mkdir-refused path after (length nodes) here,
              λ other text' ne.
                  ap is_some (found other)
                  ∙ other_name (take 255 path) other (vfs_lookup other nodes) (length nodes)
                      (take-IsText 255 path text) text' (λ e. ne (e ∙ name)),
            )
      ]

long-Absent :
    (path : List ℕ) (nodes : List VfsNode) → Named nodes → 255 < length path → Absent path nodes
long-Absent path [] named long = tt
long-Absent path (n ∷ ns) ((_, short), named) long =
    ((λ e. absurd (omega (arith, ap length e, short, long))), long-Absent path ns named long)

long-lookup :
    (path : List ℕ) (nodes : List VfsNode)
    → IsTable nodes
    → IsText path
    → 255 < length path
    → vfs_lookup path nodes ≡ none
unfolding vfs_lookup
long-lookup path nodes is text long =
    lookup_from-Absent 0 path nodes is.named text (long-Absent path nodes is.named long)

-- A path of 256 bytes or more is never found, so `vfs_mkdir` makes a node for it again in every call,
-- with its first 255 bytes as the name.
vfs_mkdir-long :
    (path : List ℕ) (nodes : List VfsNode)
    → IsTable nodes
    → IsText path
    → 255 < length path
    → length nodes < 128
    → (after : List VfsNode) × (vfs_mkdir path nodes ≡ (vfs_ok, after))
      × IsTable after
      × (length after ≡ length nodes + 1)
      × (vfs_exists path after ≡ false)
unfolding vfs_exists vfs_lookup
vfs_mkdir-long path nodes is text long more =
    elim (register_lem (made path) nodes is (take-IsText 255 path text)
      (omega (arith, length-take-le 255 path))) [
        | inl (full, _) ↦ absurd (omega (arith, full, more))
        | inr (after, run, is', count, _) ↦ (
          after,
          vfs_mkdir-steps path nodes (long-lookup path nodes is text long) ∙ run,
          is',
          count,
          ap is_some (long-lookup path after is' text long),
        )
      ]
