-- ===== src/Drivers/Hfs.antt =====
-- drivers/hfs/hfs.c and hfs_register.c: the tree of kernel objects, as nodes in a store. An address
-- that has no node is no valid pointer, and using it ends the run without a result.
pub mod Forest
pub mod Climbs
pub mod Find
pub mod Added
pub mod Add
pub mod Unlink
pub mod Cut
pub mod Remove
pub mod Create
pub mod Parent
pub mod Grows
pub mod Register
pub mod Tests
use zythos.Base.{
  ℕ, zero, suc, ◌+◌, ◌-◌, ◌*◌, ◌/◌, ◌%◌, ◌^◌, ◌≤◌, ◌<◌, ◌≡◌, refl, sym, ap, ◌∙◌, ◌≢◌, ◌↔◌, ◌⊎◌, inl,
  inr, Bool, true, false, not, ◌&&◌, ◌||◌, Option, none, some, List, [], ◌∷◌, ◌++◌, map, arith, ltb,
  leb, ◌==◌, if◌then◌else◌, add32, ◌>>=◌, Bool-cases, Option-cases, ==_iff, ==-refl, length,
  get_elem?, get_or, set, take, drop, replicate, length-append, length-set, get_or-set_self,
  get_or-set_ne,
}
use zythos.Base.{str_eq}
use zythos.Mm.{max_rounds}
use zythos.Mm.Calls.{HeapCalls}

-- The pointers are addresses, 0 for null.
pub record HfsNode : Type 0 where
  pub name : List ℕ
  pub value : ℕ
  pub parent : ℕ
  pub first_child : ℕ
  pub next_sibling : ℕ

abbrev pub Nodes : Type 0
Nodes = ℕ → Option HfsNode

-- `sizeof(hfs_node_t)`
abbrev pub sizeof_node : ℕ
sizeof_node = 20

-- The stores through a pointer, and the end of a node's life.
abbrev pub write : ℕ → Option HfsNode → Nodes → Nodes
write p n nodes q = if p == q then n else nodes q

abbrev pub change : ℕ → (HfsNode → HfsNode) → Nodes → Option Nodes
change p f nodes = (nodes p >>= λ n. some (write p (some (f n)) nodes))

abbrev pub fresh_node : List ℕ → ℕ → HfsNode
fresh_node name value = record {
  name = name;
  value = value;
  parent = 0;
  first_child = 0;
  next_sibling = 0;
}

pub hfs_init : ℕ → List ℕ → Nodes → Nodes
hfs_init root name nodes = write root (some (fresh_node name 0)) nodes

-- The walks over the children have rounds enough for those that fit a heap.
abbrev pub find_loop : ℕ → List ℕ → ℕ → Nodes → Option ℕ
find_loop zero name current nodes = none
find_loop (suc n) name current nodes =
    if current == 0
    then some 0
    else (nodes current >>= λ c.
        if str_eq c.name name then some current else find_loop n name c.next_sibling nodes)

-- The result is the address, 0 if there is none.
pub hfs_find_child : ℕ → List ℕ → Nodes → Option ℕ
hfs_find_child parent name nodes =
    (nodes parent >>= λ p. find_loop max_rounds name p.first_child nodes)

pub hfs_find_path : ℕ → List ℕ → Nodes → Option ℕ
hfs_find_path root path nodes = hfs_find_child root path nodes

pub hfs_add_child : ℕ → ℕ → Nodes → Option (Bool × Nodes)
hfs_add_child parent child nodes = if (parent == 0) || (child == 0) then some (false, nodes) else do
  owned ← change child (λ c. record c { parent = parent }) nodes
  p ← owned parent
  linked ← change child (λ c. record c { next_sibling = p.first_child }) owned
  after ← change parent (λ q. record q { first_child = child }) linked
  some (true, after)

-- The loop of `hfs_remove`, up to the node before `node`.
abbrev pub before_loop : ℕ → ℕ → ℕ → Nodes → Option ℕ
before_loop zero node current nodes = none
before_loop (suc n) node current nodes =
    if current == 0
    then some 0
    else (nodes current >>= λ c.
        if c.next_sibling == node then some current else before_loop n node c.next_sibling nodes)

-- The first child is taken out at its parent, another one at the child before it.
pub unlink : ℕ → ℕ → HfsNode → HfsNode → Nodes → Option Nodes
unlink node parent n p nodes =
    if p.first_child == node
    then change parent (λ q. record q { first_child = n.next_sibling }) nodes
    else (before_loop max_rounds node p.first_child nodes >>= λ current.
        if current == 0
        then some nodes
        else change current (λ c. record c { next_sibling = n.next_sibling }) nodes)

-- A node, the heap.
pub record Hfs (H : Type 0) : Type 0 where
  pub nodes : Nodes
  pub heap : H

module _ {H : Type 0} (calls : HeapCalls H) where
  -- The result is the address, 0 if there is no room.
  pub hfs_create_node : List ℕ → ℕ → Hfs H → ℕ × Hfs H
  hfs_create_node name value s =
      let (p, heap) = calls.kmalloc sizeof_node s.heap in
      if p == 0
      then (0, record s { heap = heap })
      else (p, record { nodes = write p (some (fresh_node name value)) s.nodes; heap = heap })

  pub hfs_remove : ℕ → Hfs H → Option (Hfs H)
  hfs_remove node s =
      if node == 0
      then some s
      else (s.nodes node >>= λ n. if n.parent == 0 then some s else do
        p ← s.nodes n.parent
        cut ← unlink node n.parent n p s.nodes
        some (record { nodes = write node none cut; heap = calls.kfree node s.heap }))

-- An entry of the section; a path that is null is empty.
pub record HfsStaticEntry : Type 0 where
  pub parent_path : List ℕ
  pub name : List ℕ
  pub value : ℕ

abbrev pub is_empty : List ℕ → Bool
is_empty [] = true
is_empty (c ∷ cs) = false

-- The node that an entry is attached to: a child of the root, or the root.
pub parent_of : ℕ → HfsStaticEntry → Nodes → Option ℕ
parent_of root e nodes =
    if is_empty e.parent_path
    then some root
    else (hfs_find_path root e.parent_path nodes >>= λ found.
        some (if found == 0 then root else found))

module _ {H : Type 0} (calls : HeapCalls H) where
  pub register_entry : ℕ → HfsStaticEntry → Hfs H → Option (Hfs H)
  register_entry root e s =
      (parent_of root e s.nodes >>= λ parent.
      let (node, created) = hfs_create_node calls e.name e.value s in
      if node == 0
      then some created
      else (hfs_add_child parent node created.nodes >>= λ r. some (record created { nodes = r.1 })))

  -- The entries are those of the section `hfs_nodes`, in its order.
  pub hfs_register_apply : ℕ → List HfsStaticEntry → Hfs H → Option (Hfs H)
  hfs_register_apply root [] s = some s
  hfs_register_apply root (e ∷ es) s =
      (register_entry root e s >>= λ t. hfs_register_apply root es t)
