-- ===== src/Drivers/Hfs/Add.antt =====
-- `hfs_add_child` of drivers/hfs/hfs.c.

use zythos.Base.{
  ℕ, ◌≡◌, refl, sym, ap, ◌∙◌, ◌≢◌, inl, inr, true, false, some, List, arith, ◌==◌, ==_iff, ==-refl,
}
use zythos.Drivers.Hfs.{HfsNode, Nodes, hfs_add_child}
use zythos.Drivers.Hfs.Forest.{has}
use zythos.Drivers.Hfs.Added.{added, with_child, added-cases, add-IsLinked}
use zythos.Drivers.Hfs.Climbs.{Climbs, IsForest, identity, climb_self, climb_frame, climb_grown}

module _ (nodes : Nodes) (parent child : ℕ) (p c : HfsNode) (hp : nodes parent ≡ some p) where
  -- All nodes but the child keep their name, value and parent.
  pub added-same :
      (b : ℕ) → b ≢ child → identity (added parent child p c nodes b) ≡ identity (nodes b)
  added-same b apart = elim (added-cases nodes parent child p c b) [
    | inl (it, reads) ↦
        ap identity reads ∙ sym (ap identity (ap nodes (sym ((==_iff parent b).0 it)) ∙ hp))
    | inr (inl (_, it, reads)) ↦ absurd (apart (sym ((==_iff child b).0 it)))
    | inr (inr (_, _, reads)) ↦ ap identity reads
  ]

  added-was :
      (hc : nodes child ≡ some c) (a : ℕ) (n : HfsNode)
      → added parent child p c nodes a ≡ some n
      → (m : HfsNode) × (nodes a ≡ some m)
  added-was hc a n found = elim (added-cases nodes parent child p c a) [
    | inl (it, _) ↦ (p, ap nodes (sym ((==_iff parent a).0 it)) ∙ hp)
    | inr (inl (_, it, _)) ↦ (c, ap nodes (sym ((==_iff child a).0 it)) ∙ hc)
    | inr (inr (_, _, reads)) ↦ (n, sym reads ∙ found)
  ]

-- In a forest `hfs_add_child` of a node without a parent, which is not on the path from the new parent
-- up, succeeds. It leaves a forest, again without a cycle, in which the node is the new first child of
-- its parent and no other list of children has changed.
pub hfs_add_child_lem :
    (nodes : Nodes) (kids : ℕ → List ℕ) (parent child : ℕ) (p c : HfsNode) (path : List ℕ)
    → IsForest nodes kids
    → nodes parent ≡ some p
    → nodes child ≡ some c
    → c.parent ≡ 0
    → Climbs nodes parent path
    → has child path ≡ false
    → (hfs_add_child parent child nodes ≡ some (true, added parent child p c nodes))
      × IsForest (added parent child p c nodes) (with_child parent child kids)
hfs_add_child_lem nodes kids parent child p c path is hp hc orphan climbs out =
    let after = added parent child p c nodes in
    let apart : parent ≢ child = λ e. cc (ap (λ x. has x path) e, climb_self climbs, out) in
    let (runs, linked) = add-IsLinked nodes kids parent child p c is.linked hp hc orphan apart in
    let some_parent : parent ≢ 0 = λ e. cc (ap nodes e, is.linked.null, hp) in
    let above : Climbs after parent path = climb_frame climbs λ b is_in.
      added-same nodes parent child p c hp b λ e. cc (ap (λ x. has x path) e, is_in, out) in
    let unlike : (parent == child) ≡ false = ground (arith, apart) in
    let moved : after child ≡ some (record c { parent = parent; next_sibling = p.first_child }) =
      rw (unlike, ==-refl child) refl in
    let is_forest : IsForest after (with_child parent child kids) = record {
      linked = linked;
      roots = λ a n found.
          let (m, old) = added-was nodes parent child p c hp hc a n found in
          let (_, was) = is.roots a m old in
          climb_grown hc orphan moved refl some_parent above (added-same nodes parent child p c hp)
            was;
    } in
    (runs, is_forest)
