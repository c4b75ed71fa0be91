-- ===== src/Drivers/Hfs/Create.antt =====
-- `hfs_create_node` of drivers/hfs/hfs.c on a forest.
use mathlib.Core.Path.{subst}
use mathlib.Core.Option.{some-injective}
use zythos.Base.{
  refl, Option, ◌∷◌, ℕ, ◌≡◌, sym, ap, ◌≢◌, inl, inr, false, none, some, List, [], arith, ◌==◌,
  if◌then◌else◌, Bool-cases, ==_iff,
}
use zythos.Drivers.Hfs.Climbs.{Climbs, top, IsForest, identity, climb_frame, climb_there}
use zythos.Drivers.Hfs.{HfsNode, Nodes, write, fresh_node}
use zythos.Drivers.Hfs.Forest.{Link, Chain, nil, frame, IsListed, IsLinked}

-- A new node has no children.
abbrev pub with_node : ℕ → (ℕ → List ℕ) → ℕ → List ℕ
with_node p kids q = if p == q then [] else kids q

module _ (nodes : Nodes) (kids : ℕ → List ℕ) (p : ℕ) (name : List ℕ) (value : ℕ)
    (is : IsLinked nodes kids) (free : nodes p ≡ none) (some_p : p ≢ 0) where
  abbrev after : Nodes
  after = write p (some (fresh_node name value)) nodes

  pub kept_holds : (a : ℕ) (n : HfsNode) → nodes a ≡ some n → after a ≡ some n
  kept_holds a n found = elim (Bool-cases (p == a)) [
    | inl it ↦ absurd (cc (ap nodes ((==_iff p a).0 it), free, found))
    | inr away ↦ rw away found
  ]

  kept_Link : (q a next : ℕ) → Link nodes a q next → Link after a q next
  kept_Link q a next link = record {
    node = link.node;
    holds = kept_holds a link.node link.holds;
    parent = link.parent;
    next_is = link.next_is;
  }

  pub kept-IsListed : (a q : ℕ) → IsListed nodes kids a q → IsListed after (with_node p kids) a q
  kept-IsListed a q (is_in, n, found) = elim (Bool-cases (p == q)) [
    | inl it ↦ absurd (cc (ap nodes ((==_iff p q).0 it), free, found))
    | inr away ↦ (rw away is_in, n, kept_holds q n found)
  ]

  new-Chain :
      (q : ℕ) (n : HfsNode) → after q ≡ some n → Chain after q n.first_child (with_node p kids q)
  new-Chain q n found = elim (Bool-cases (p == q)) [
    | inl it ↦
        let same = some-injective _ _ (rw it at found) in
        rw it (subst (λ x. Chain after q x []) (ap (λ (m : HfsNode). m.first_child) same) nil)
    | inr away ↦
        rw away (frame (is.chains q n (rw away at found)) λ a next _ l. kept_Link q a next l)
  ]

  new-IsListed :
      (a : ℕ) (n : HfsNode)
      → after a ≡ some n
      → n.parent ≢ 0
      → IsListed after (with_node p kids) a n.parent
  new-IsListed a n found some_parent = elim (Bool-cases (p == a)) [
    | inl it ↦
        let same = some-injective _ _ (rw it at found) in
        absurd (some_parent (sym (ap (λ (m : HfsNode). m.parent) same)))
    | inr away ↦ kept-IsListed a n.parent (is.listed a n (rw away at found) some_parent)
  ]

  pub create-IsLinked : IsLinked after (with_node p kids)
  create-IsLinked =
      let other : (p == 0) ≡ false = ground (arith, some_p) in
      record { null = rw other is.null; chains = new-Chain; listed = new-IsListed }

-- The nodes that were there are as they were.
pub create-same :
    (nodes : Nodes) (p b : ℕ) (o : Option HfsNode) (n : HfsNode)
    → nodes p ≡ none
    → nodes b ≡ some n
    → write p o nodes b ≡ nodes b
create-same nodes p b o n free found = elim (Bool-cases (p == b)) [
  | inl it ↦ absurd (cc (ap nodes ((==_iff p b).0 it), free, found))
  | inr away ↦ rw away refl
]

pub create-Climbs :
    {nodes : Nodes} {a : ℕ} {path : List ℕ} (p : ℕ) (o : Option HfsNode)
    → nodes p ≡ none
    → Climbs nodes a path
    → Climbs (write p o nodes) a path
create-Climbs {nodes} p o free climbs = climb_frame climbs λ b is_in.
    let (n, found) = climb_there b climbs is_in in
    ap identity (create-same nodes p b o n free found)

pub create-IsForest :
    (nodes : Nodes) (kids : ℕ → List ℕ) (p : ℕ) (name : List ℕ) (value : ℕ)
    → IsForest nodes kids
    → nodes p ≡ none
    → p ≢ 0
    → IsForest (write p (some (fresh_node name value)) nodes) (with_node p kids)
create-IsForest nodes kids p name value is free some_p = record {
  linked = create-IsLinked nodes kids p name value is.linked free some_p;
  roots = λ a n found. elim (Bool-cases (p == a)) [
    | inl it ↦
        let same = some-injective _ _ (rw it at found) in
        (a ∷ [], top found (sym (ap (λ (m : HfsNode). m.parent) same)))
    | inr away ↦
        let (path, climbs) = is.roots a n (rw away at found) in
        (path, create-Climbs p (some (fresh_node name value)) free climbs)
  ];
}
