-- ===== src/Drivers/Hfs/Remove.antt =====
-- `hfs_remove` of drivers/hfs/hfs.c.
use mathlib.Core.Option.{some-injective}
use mathlib.Core.Path.{subst}
use zythos.Base.{
  if◌then◌else◌, ℕ, ◌≤◌, ◌≡◌, refl, sym, ap, ◌∙◌, ◌≢◌, inl, inr, true, false, Option, none, some,
  List, [], arith, ◌==◌, ◌>>=◌, Bool-cases, ==_iff, length,
}
use zythos.Mm.Calls.{HeapCalls}
use zythos.Drivers.Hfs.{HfsNode, Nodes, write, Hfs, hfs_remove}
use zythos.Drivers.Hfs.Forest.{has, Link, Chain, frame, IsListed, IsLinked}
use zythos.Drivers.Hfs.Climbs.{Climbs, IsForest, identity, climb_cut}
use zythos.Drivers.Hfs.Unlink.{erase, without, has-erase_ne}
use zythos.Drivers.Hfs.Cut.{Cut, cut_at, cut_cases, cut-Link, cut}

module _ (nodes : Nodes) (kids : ℕ → List ℕ) (node parent : ℕ) (n p : HfsNode)
    (is : IsLinked nodes kids) (hn : nodes node ≡ some n) (up : n.parent ≡ parent)
    (c : Cut nodes node parent n p (kids parent)) (alone : kids node ≡ []) where
  abbrev after : Nodes
  after = cut_at node c.at c.new nodes

  not_under : (a q : ℕ) → has a (kids q) ≡ true → (node == q) ≡ false
  not_under a q is_in = elim (Bool-cases (node == q)) [
    | inl it ↦ absurd (cc (ap kids ((==_iff node q).0 it), ap (has a) alone, is_in))
    | inr away ↦ away
  ]

  cut-IsListed :
      (a q : ℕ) → a ≢ node → IsListed nodes kids a q → IsListed after (without node parent kids) a q
  cut-IsListed a q not_node (is_in, m, holds) =
      let not_q = not_under a q is_in in
      let still : has a (without node parent kids q) ≡ true = elim (Bool-cases (parent == q)) [
        | inl it ↦ rw it (has-erase_ne a node (kids q) not_node is_in)
        | inr away ↦ rw away is_in
      ] in
      elim (cut_cases nodes node c.at c.new q) [
        | inl (it, _) ↦ absurd (ground (arith, it, not_q))
        | inr (inl (_, _, reads)) ↦ (still, _, reads)
        | inr (inr (_, _, reads)) ↦ (still, m, reads ∙ holds)
      ]

  other-Link : (q a next : ℕ) → parent ≢ q → Link nodes a q next → Link after a q next
  other-Link q a next apart link =
      cut-Link nodes node c.at c.old c.new a q next c.holds c.same_parent
        (λ e.
          let same = some-injective _ _ (sym c.holds ∙ ap nodes e ∙ link.holds) in
          c.same_next
            λ under. apart (sym under ∙ ap (λ (m : HfsNode). m.parent) same ∙ link.parent))
        (λ e.
          let same = some-injective _ _ (sym hn ∙ ap nodes (sym e) ∙ link.holds) in
          apart (sym up ∙ ap (λ (m : HfsNode). m.parent) same ∙ link.parent))
        link

  other-Chain :
      (q : ℕ) (k : HfsNode) → parent ≢ q → after q ≡ some k → Chain after q k.first_child (kids q)
  other-Chain q k apart e = elim (cut_cases nodes node c.at c.new q) [
    | inl (_, reads) ↦ absurd (cc (reads, e))
    | inr (inl (_, it, reads)) ↦
        let is_q = (==_iff c.at q).0 it in
        let first =
          sym (c.same_first λ here. apart (sym here ∙ is_q))
          ∙ ap (λ (m : HfsNode). m.first_child) (some-injective _ _ (sym reads ∙ e)) in
        subst (λ x. Chain after q x (kids q)) first
          (frame (is.chains q c.old (ap nodes (sym is_q) ∙ c.holds))
            λ a next _ l. other-Link q a next apart l)
    | inr (inr (_, _, reads)) ↦
        frame (is.chains q k (sym reads ∙ e)) λ a next _ l. other-Link q a next apart l
  ]

  cut-chains :
      (q : ℕ) (k : HfsNode)
      → after q ≡ some k
      → Chain after q k.first_child (without node parent kids q)
  cut-chains q k e = elim (Bool-cases (parent == q)) [
    | inl it ↦
        let is_q = (==_iff parent q).0 it in
        rw it (
          subst (λ x. Chain after x k.first_child (erase node (kids x))) is_q
            (subst (λ x. Chain after parent x (erase node (kids parent)))
              (c.starts k (ap after is_q ∙ e)) c.chain))
    | inr away ↦ rw away (other-Chain q k (ground (arith, away)) e)
  ]

  cut-parents :
      (a : ℕ) (k : HfsNode)
      → after a ≡ some k
      → k.parent ≢ 0
      → IsListed after (without node parent kids) a k.parent
  cut-parents a k e some_p = elim (cut_cases nodes node c.at c.new a) [
    | inl (_, reads) ↦ absurd (cc (reads, e))
    | inr (inl (apart, it, reads)) ↦
        let here = ap nodes (sym ((==_iff c.at a).0 it)) ∙ c.holds in
        let over =
          sym c.same_parent ∙ ap (λ (m : HfsNode). m.parent) (some-injective _ _ (sym reads ∙ e)) in
        subst (IsListed after (without node parent kids) a) over (
          cut-IsListed a c.old.parent (ground (arith, apart))
            (is.listed a c.old here λ z. some_p (sym over ∙ z)))
    | inr (inr (apart, _, reads)) ↦
        cut-IsListed a k.parent (ground (arith, apart)) (is.listed a k (sym reads ∙ e) some_p)
  ]

  cut-IsLinked : IsLinked after (without node parent kids)
  cut-IsLinked = record {
    null = elim (cut_cases nodes node c.at c.new 0) [
      | inl (_, reads) ↦ reads
      | inr (inl (_, it, reads)) ↦ absurd (cc (ap nodes ((==_iff c.at 0).0 it), c.holds, is.null))
      | inr (inr (_, _, reads)) ↦ reads ∙ is.null
    ];
    chains = cut-chains;
    listed = cut-parents;
  }

  -- All nodes but the one that is taken out keep their name, value and parent.
  cut-same : (a : ℕ) → identity (after a) ≡ (if node == a then none else identity (nodes a))
  cut-same a = elim (cut_cases nodes node c.at c.new a) [
    | inl (it, _) ↦ rw it refl
    | inr (inl (away, it, _)) ↦
        let here : nodes a ≡ some c.old = ap nodes (sym ((==_iff c.at a).0 it)) ∙ c.holds in
        let kept : identity (some c.new) ≡ identity (some c.old) =
          λ i. some (c.same_name i, c.same_value i, c.same_parent i) in
        rw (away, it) (kept ∙ sym (ap identity here))
    | inr (inr (away, it, _)) ↦ rw (away, it) refl
  ]

  cut-was :
      (a : ℕ) (k : HfsNode) → after a ≡ some k → (a ≢ node) × (m : HfsNode) × (nodes a ≡ some m)
  cut-was a k e = elim (cut_cases nodes node c.at c.new a) [
    | inl (_, reads) ↦ absurd (cc (reads, e))
    | inr (inl (apart, it, _)) ↦
        (ground (arith, apart), c.old, ap nodes (sym ((==_iff c.at a).0 it)) ∙ c.holds)
    | inr (inr (apart, _, reads)) ↦ (ground (arith, apart), k, sym reads ∙ e)
  ]

  cut-IsForest :
      ((a : ℕ) (m : HfsNode) → nodes a ≡ some m → (path : List ℕ) × Climbs nodes a path)
      → IsForest after (without node parent kids)
  cut-IsForest roots = record {
    linked = cut-IsLinked;
    roots = λ a k found.
        let (apart, m, old) = cut-was a k found in
        let (path, climbs) = roots a m old in
        (
          path,
          climb_cut node
              (λ b m' holds some_p at_node.
                let (is_in, _, _) = is.listed b m' holds some_p in
                cc (ap kids at_node, ap (has b) alone, is_in))
              (λ b other.
                let away : (node == b) ≡ false = ground (arith, other) in cut-same b ∙ rw away refl)
              apart climbs,
        );
  }

-- In a forest `hfs_remove` of a node that has a parent with at most 21845 children and no child of its
-- own always returns: the node is given back to the heap and is no node any more, every other node
-- that was there stays, with its name, its value and its parent, what is left is a forest, without a
-- cycle, and the one list of children that changes is that of the parent, which loses the node.
pub hfs_remove_lem :
    {H : Type 0} (calls : HeapCalls H) (s : Hfs H) (kids : ℕ → List ℕ) (node : ℕ) (n : HfsNode)
    → IsForest s.nodes kids
    → s.nodes node ≡ some n
    → n.parent ≢ 0
    → kids node ≡ []
    → length (kids n.parent) ≤ 21845
    → (after : Nodes) × (hfs_remove calls node s
        ≡ some (record { nodes = after; heap = calls.kfree node s.heap }))
      × ((a : ℕ) → identity (after a) ≡ (if node == a then none else identity (s.nodes a)))
      × IsForest after (without node n.parent kids)
unfolding hfs_remove
hfs_remove_lem calls s kids node n is hn some_p alone few =
    let (is_in, p, hp) = is.linked.listed node n hn some_p in
    let some_node : node ≢ 0 = λ e. absurd (cc (ap s.nodes e, hn, is.linked.null)) in
    let apart : n.parent ≢ node = λ e. absurd (cc (ap kids e, ap (has node) alone, is_in)) in
    let c = cut s.nodes kids node n.parent n p is.linked hn hp refl apart some_node is_in few in
    let node_there : (node == 0) ≡ false = ground (arith, some_node) in
    let parent_there : (n.parent == 0) ≡ false = ground (arith, some_p) in
    (
      cut_at node c.at c.new s.nodes,
      rw (hfs_remove, node_there, hn, ◌>>=◌, parent_there, hp)
          (ap
            (λ (o : Option Nodes). o >>= λ m.
              some (record { nodes = write node none m; heap = calls.kfree node s.heap }))
            c.runs),
      cut-same s.nodes kids node n.parent n p is.linked hn refl c alone,
      cut-IsForest s.nodes kids node n.parent n p is.linked hn refl c alone is.roots,
    )
