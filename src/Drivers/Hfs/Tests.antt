-- ===== src/Drivers/Hfs/Tests.antt =====
-- Runs of drivers/hfs/hfs.c and hfs_register.c, and their theorems at a tree of three nodes.
use zythos.Base.{str_eq, ℕ, suc, ◌≡◌, refl, true, none, some, List, [], ◌∷◌, arith, ◌==◌, ◌>>=◌}
use zythos.Mm.Calls.{HeapCalls}
use zythos.Drivers.Hfs.{
  HfsNode, Nodes, write, fresh_node, Hfs, HfsStaticEntry, hfs_find_child, hfs_find_path,
  hfs_add_child, hfs_remove, unlink,
}
use zythos.Base.{none, if◌then◌else◌}
use zythos.Drivers.Hfs.Climbs.{top, IsForest, identity}
use zythos.Drivers.Hfs.Add.{hfs_add_child_lem}
use zythos.Drivers.Hfs.Find.{first_named, hfs_find_child_lem}
use zythos.Drivers.Hfs.Added.{added, with_child}
use zythos.Drivers.Hfs.Create.{with_node, create-IsForest}
use zythos.Drivers.Hfs.Unlink.{without}
use zythos.Drivers.Hfs.Remove.{hfs_remove_lem}

-- A heap that counts upwards.
abbrev counter : HeapCalls ℕ
counter = record { kmalloc = λ size h. (suc h, suc h); kfree = λ p h. h }

abbrev empty : Nodes
empty = λ a. none

abbrev no_kids : ℕ → List ℕ
no_kids = λ a. []

empty-IsForest : IsForest empty no_kids
empty-IsForest = record {
  linked = record {
    null = refl;
    chains = λ p n e. absurd (cc e);
    listed = λ c n e some_p. absurd (cc e);
  };
  roots = λ a n e. absurd (cc e);
}

-- The names are "r", "a" and "b".
abbrev root : HfsNode
root = fresh_node (114 ∷ []) 0

abbrev first : HfsNode
first = fresh_node (97 ∷ []) 7

abbrev second : HfsNode
second = fresh_node (98 ∷ []) 8

abbrev with_root : Nodes
with_root = write 1 (some root) empty

abbrev root_kids : ℕ → List ℕ
root_kids = with_node 1 no_kids

with_root-IsForest : IsForest with_root root_kids
with_root-IsForest = create-IsForest empty no_kids 1 (114 ∷ []) 0 empty-IsForest refl (omega arith)

abbrev apart : Nodes
apart = write 3 (some second) (write 2 (some first) with_root)

abbrev apart_kids : ℕ → List ℕ
apart_kids = with_node 3 (with_node 2 root_kids)

apart-IsForest : IsForest apart apart_kids
apart-IsForest =
    create-IsForest (write 2 (some first) with_root) (with_node 2 root_kids) 3 (98 ∷ []) 8
      (create-IsForest with_root root_kids 2 (97 ∷ []) 7 with_root-IsForest refl (omega arith)) refl
      (omega arith)

abbrev one_child : Nodes
one_child = added 1 2 root first apart

abbrev one_kids : ℕ → List ℕ
one_kids = with_child 1 2 apart_kids

hfs_add_child_lem_example :
    (hfs_add_child 1 2 apart ≡ some (true, one_child)) × IsForest one_child one_kids
hfs_add_child_lem_example =
    hfs_add_child_lem apart apart_kids 1 2 root first (1 ∷ []) apart-IsForest refl refl refl
      (top refl refl) refl

abbrev owner : HfsNode
owner = record root { first_child = 2 }

abbrev tree : Nodes
tree = added 1 3 owner second one_child

abbrev tree_kids : ℕ → List ℕ
tree_kids = with_child 1 3 one_kids

tree-IsForest : IsForest tree tree_kids
tree-IsForest =
    let (_, is_one) = hfs_add_child_lem_example in
    let (_, is_two) =
      hfs_add_child_lem one_child one_kids 1 3 owner second (1 ∷ []) is_one refl refl refl
        (top refl refl) refl in
    is_two

abbrev tree_root : HfsNode
tree_root = record root { first_child = 3 }

hfs_find_child_lem_example :
    hfs_find_child 1 (97 ∷ []) tree ≡ some (first_named tree (97 ∷ []) (tree_kids 1))
hfs_find_child_lem_example =
    hfs_find_child_lem tree tree_kids 1 tree_root (97 ∷ []) tree-IsForest.linked refl (omega arith)

first_named-tree : first_named tree (97 ∷ []) (tree_kids 1) ≡ 2
unfolding str_eq
first_named-tree = refl

abbrev removed_node : HfsNode
removed_node = record first { parent = 1 }

abbrev full : Hfs ℕ
full = record { nodes = tree; heap = 3 }

hfs_remove_lem_example :
    (after : Nodes) × (hfs_remove counter 2 full ≡ some (record { nodes = after; heap = 3 }))
    × ((a : ℕ) → identity (after a) ≡ (if 2 == a then none else identity (tree a)))
    × IsForest after (without 2 1 tree_kids)
hfs_remove_lem_example =
    hfs_remove_lem counter full tree_kids 2 removed_node tree-IsForest refl (omega arith) refl
      (omega arith)

abbrev entry : List ℕ → List ℕ → HfsStaticEntry
entry path name = record { parent_path = path; name = name; value = 0 }

-- A node "a" under the root and a node "b" under "a".
abbrev entries : List HfsStaticEntry
entries = entry [] (97 ∷ []) ∷ entry (97 ∷ []) (98 ∷ []) ∷ []

abbrev started : Hfs ℕ
started = record { nodes = with_root; heap = 1 }

-- A path of two names is looked up as one name.
find_path_ab : hfs_find_path 1 (97 ∷ 47 ∷ 98 ∷ []) tree ≡ some 0
unfolding hfs_find_path str_eq
find_path_ab =
    hfs_find_child_lem tree tree_kids 1 tree_root (97 ∷ 47 ∷ 98 ∷ []) tree-IsForest.linked refl
      (omega arith)

-- A child that is added again is its own sibling.
add_twice :
    (hfs_add_child 1 2 one_child >>= λ r. r.1 2) ≡ some (record removed_node { next_sibling = 2 })
unfolding hfs_add_child
add_twice = refl

-- A node that is removed before its child leaves the child with a parent that is no node.
remove_parent :
    ((hfs_add_child 2 3 one_child >>= λ r. hfs_remove counter 2 (record { nodes = r.1; heap = 3 }))
      >>= λ s. s.nodes 3)
    ≡ some (record second { parent = 2 })
unfolding hfs_add_child hfs_remove unlink
remove_parent = refl
