-- ===== src/Drivers/Hfs/Register.antt =====
-- `hfs_register_apply` of drivers/hfs/hfs_register.c.

use zythos.Base.{
  ℕ, suc, ◌+◌, ◌≤◌, ◌≡◌, refl, ap, ◌≢◌, inl, inr, true, false, none, some, List, ◌∷◌, arith, ◌==◌,
  ◌>>=◌, Option-cases, ==-refl, length,
}
use zythos.Base.{str_eq_refl}
use zythos.Mm.Calls.{HeapCalls, IsAllocator}
use zythos.Drivers.Hfs.{
  sizeof_node, Nodes, write, fresh_node, Hfs, HfsStaticEntry, is_empty, hfs_create_node,
  register_entry, hfs_register_apply,
}
use zythos.Drivers.Hfs.Climbs.{Climbs, climb_there}
use zythos.Drivers.Hfs.Add.{hfs_add_child_lem}
use zythos.Base.{Bool-cases}
use zythos.Drivers.Hfs.Forest.{has}
use zythos.Drivers.Hfs.Parent.{parent_lem}
use zythos.Drivers.Hfs.Find.{is_named}
use zythos.Drivers.Hfs.Added.{added, with_child, added-holds}
use zythos.Drivers.Hfs.Grows.{
  entry-Keeps, both-Keeps, Keeps, IsGood, Grows, HasName, both, differ, grow_new, grow_added,
  owned_added, owned_new, size_added,
}
use zythos.Drivers.Hfs.Create.{create-Climbs, create-IsForest, with_node, kept_holds}

module _ {H : Type 0} (calls : HeapCalls H) {Owns : H → ℕ → Type 0} {HasRoom : ℕ → H → Type 0}
    (alloc : IsAllocator calls sizeof_node Owns HasRoom) (root : ℕ) where
  off_path :
      (nodes : Nodes) (parent node : ℕ) (path : List ℕ)
      → nodes node ≡ none
      → Climbs nodes parent path
      → has node path ≡ false
  off_path nodes parent node path free climbs = elim (Bool-cases (has node path)) [
    | inl is_in ↦ let (_, found) = climb_there node climbs is_in in absurd (cc (free, found))
    | inr out ↦ out
  ]

  record Step (e : HfsStaticEntry) (n : ℕ) (s : Hfs H) (kids : ℕ → List ℕ) : Type 0 where
    after : Hfs H
    kids_after : ℕ → List ℕ
    runs : register_entry calls root e s ≡ some after
    good : IsGood Owns root after kids_after
    room : HasRoom n after.heap
    size : length (kids_after root) ≤ suc (length (kids root))
    grows : Grows root s.nodes after.nodes kids kids_after
    keeps : Keeps s.nodes after.nodes
    there : is_empty e.parent_path ≡ true → HasName root e.name after.nodes kids_after

  not_owned :
      (s : Hfs H) (kids : ℕ → List ℕ) (a : ℕ)
      → IsGood Owns root s kids
      → (Owns s.heap a → ⊥)
      → s.nodes a ≡ none
  not_owned s kids a good not_in_use = elim (Option-cases (s.nodes a)) [
    | inl e ↦ e
    | inr (n, e) ↦ absurd (not_in_use (good.owned a n e))
  ]

  step :
      (e : HfsStaticEntry) (n : ℕ) (s : Hfs H) (kids : ℕ → List ℕ)
      → IsGood Owns root s kids
      → HasRoom (suc n) s.heap
      → length (kids root) ≤ 21845
      → Step e n s kids
  unfolding register_entry hfs_create_node
  step e n s kids good room few =
      let (r, hr) = good.rooted in
      let up = parent_lem s.nodes kids root r e good.forest.linked hr few in
      let node = (calls.kmalloc sizeof_node s.heap).0 in
      let heap = (calls.kmalloc sizeof_node s.heap).1 in
      let some_node : node ≢ 0 = alloc.gives n s.heap room in
      let other : (node == 0) ≡ false = ground (arith, some_node) in
      let free : s.nodes node ≡ none = not_owned s kids node good (alloc.fresh n s.heap room) in
      let made : Nodes = write node (some (fresh_node e.name e.value)) s.nodes in
      let fresh = fresh_node e.name e.value in
      let kids1 = with_node node kids in
      let is1 = create-IsForest s.nodes kids node e.name e.value good.forest free some_node in
      let hp =
        kept_holds s.nodes kids node e.name e.value good.forest.linked free some_node up.at up.node
          up.holds in
      let hc : made node ≡ some fresh = rw (==-refl node) refl in
      let apart : up.at ≢ node = λ at_node. absurd (cc (ap s.nodes at_node, up.holds, free)) in
      let hr1 =
        kept_holds s.nodes kids node e.name e.value good.forest.linked free some_node root r hr in
      let not_root : (node == root) ≡ false = ground (arith, differ s.nodes node root r free hr) in
      let (path, climbs) = good.forest.roots up.at up.node up.holds in
      let out : has node path ≡ false = off_path s.nodes up.at node path free climbs in
      let (run, is2) =
        hfs_add_child_lem made kids1 up.at node up.node fresh path is1 hp hc refl
          (create-Climbs node (some fresh) free climbs) out in
      record {
        after = record { nodes = added up.at node up.node fresh made; heap = heap };
        kids_after = with_child up.at node kids1;
        runs = rw (register_entry, up.runs, ◌>>=◌, hfs_create_node, other, other, run) refl;
        good = record {
          forest = is2;
          rooted =
              added-holds made kids1 up.at node up.node fresh is1.linked hp hc refl apart root r
                hr1;
          owned =
              owned_added (Owns heap) made up.at node up.node fresh
                (owned_new (Owns heap) s.nodes node fresh
                  (λ a m e'. alloc.keeps n a s.heap room (good.owned a m e'))
                  (alloc.owned n s.heap room))
                hp hc;
        };
        room = alloc.leaves n s.heap room;
        size = size_added kids up.at node root not_root;
        grows =
            both (grow_new root s.nodes kids node fresh free not_root)
              (grow_added root made kids1 up.at node up.node fresh hp hc);
        keeps = entry-Keeps s.nodes up.at node up.node fresh free hp;
        there = λ path.
            let at_root : (up.at == root) ≡ true = ground (arith, up.at_root path) in
            let no_parent : (up.at == node) ≡ false = ground (arith, apart) in
            let first : has node (with_child up.at node kids1 root) ≡ true =
              rw (at_root, ==-refl node) refl in
            let reads : added up.at node up.node fresh made node
                ≡ some (record fresh { parent = up.at; next_sibling = up.node.first_child }) =
              rw (no_parent, ==-refl node) refl in
            (node, first, rw (is_named, reads) (str_eq_refl e.name));
      }

  record Run (es : List HfsStaticEntry) (s : Hfs H) (kids : ℕ → List ℕ) : Type 0 where
    after : Hfs H
    kids_after : ℕ → List ℕ
    runs : hfs_register_apply calls root es s ≡ some after
    good : IsGood Owns root after kids_after
    size : length (kids_after root) ≤ length (kids root) + length es
    grows : Grows root s.nodes after.nodes kids kids_after
    keeps : Keeps s.nodes after.nodes

  one_more :
      (e : HfsStaticEntry) (es : List HfsStaticEntry) (s : Hfs H) (kids : ℕ → List ℕ)
      (t : Step e (length es) s kids)
      → Run es t.after t.kids_after
      → Run (e ∷ es) s kids
  unfolding hfs_register_apply
  one_more e es s kids t r = record {
    after = r.after;
    kids_after = r.kids_after;
    runs = rw (hfs_register_apply, t.runs, ◌>>=◌) r.runs;
    good = r.good;
    size = let l = t.size in let m = r.size in omega (arith, l, m);
    grows = both t.grows r.grows;
    keeps = both-Keeps s.nodes t.after.nodes r.after.nodes t.keeps r.keeps;
  }

  record Found (e : HfsStaticEntry) (es : List HfsStaticEntry) (s : Hfs H) (kids : ℕ → List ℕ)
      : Type 0 where
    run : Run es s kids
    there : HasName root e.name run.after.nodes run.kids_after
