-- ===== src/Drivers/Hfs/Grows.antt =====
-- What an entry of `hfs_register_apply` keeps, of drivers/hfs/hfs_register.c.
use mathlib.Core.Option.{some-injective}
use mathlib.Core.Path.{subst}
use zythos.Base.{
  ℕ, suc, ◌≤◌, ◌≡◌, sym, ap, ◌∙◌, ◌≢◌, inl, inr, true, false, none, some, List, arith, ◌==◌,
  Bool-cases, Option-cases, ==_iff, length,
}
use zythos.Base.{str_eq}
use zythos.Drivers.Hfs.{HfsNode, Nodes, write, Hfs}
use zythos.Drivers.Hfs.Climbs.{IsForest, identity, identity-there}
use zythos.Drivers.Hfs.Create.{create-same}
use zythos.Drivers.Hfs.Add.{added-same}
use zythos.Drivers.Hfs.Forest.{has}
use zythos.Drivers.Hfs.Find.{is_named}
use zythos.Drivers.Hfs.Added.{added, with_child, added-cases}
use zythos.Drivers.Hfs.Create.{with_node}

-- What stays true from entry to entry.
pub record IsGood {H : Type 0} (Owns : H → ℕ → Type 0) (root : ℕ) (s : Hfs H) (kids : ℕ → List ℕ)
    : Type 0 where
  pub forest : IsForest s.nodes kids
  pub rooted : (r : HfsNode) × (s.nodes root ≡ some r)
  pub owned : (a : ℕ) (n : HfsNode) → s.nodes a ≡ some n → Owns s.heap a

-- No child of the root and no name is lost.
pub record Grows (root : ℕ) (nodes after : Nodes) (kids kids' : ℕ → List ℕ) : Type 0 where
  pub children : (a : ℕ) → has a (kids root) ≡ true → has a (kids' root) ≡ true
  pub names : (name : List ℕ) (a : ℕ) → is_named nodes name a ≡ true → is_named after name a ≡ true

-- The nodes that were there keep name, value and parent.
abbrev pub Keeps : Nodes → Nodes → Type 0
Keeps nodes after =
    (a : ℕ) (n : HfsNode) → nodes a ≡ some n → identity (after a) ≡ identity (some n)

-- A child of the root has the name.
abbrev pub HasName : ℕ → List ℕ → Nodes → (ℕ → List ℕ) → Type 0
HasName root name nodes kids = (a : ℕ) × (has a (kids root) ≡ true) × (is_named nodes name a ≡ true)

pub both :
    {root : ℕ} {k l m : Nodes} {x y z : ℕ → List ℕ}
    → Grows root k l x y
    → Grows root l m y z
    → Grows root k m x z
both first second = record {
  children = λ a is_in. second.children a (first.children a is_in);
  names = λ name a named. second.names name a (first.names name a named);
}

pub both-Keeps : (k l m : Nodes) → Keeps k l → Keeps l m → Keeps k m
both-Keeps k l m first second a n found =
    let same = first a n found in
    let (o, there, _) = identity-there (l a) n same in
    second a o there ∙ sym (ap identity there) ∙ same

-- A new node is added under another one.
pub entry-Keeps :
    (nodes : Nodes) (parent child : ℕ) (p fresh : HfsNode)
    → nodes child ≡ none
    → write child (some fresh) nodes parent ≡ some p
    → Keeps nodes (added parent child p fresh (write child (some fresh) nodes))
entry-Keeps nodes parent child p fresh free hp a n found =
    added-same (write child (some fresh) nodes) parent child p fresh hp a
      (λ e. cc (ap nodes e, free, found))
    ∙ ap identity (create-same nodes child a (some fresh) n free found ∙ found)

pub differ : (nodes : Nodes) (a b : ℕ) (n : HfsNode) → nodes a ≡ none → nodes b ≡ some n → a ≢ b
differ nodes a b n free found same = cc (ap nodes same, free, found)

pub named-holds :
    (nodes : Nodes) (name : List ℕ) (a : ℕ)
    → is_named nodes name a ≡ true
    → (n : HfsNode) × (nodes a ≡ some n) × (str_eq n.name name ≡ true)
named-holds nodes name a named = elim (Option-cases (nodes a)) [
  | inl e ↦ absurd (let it = rw (is_named, e) at named in ground (arith, it))
  | inr (n, e) ↦ (n, e, rw (is_named, e) at named)
]

pub grow_new :
    (root : ℕ) (nodes : Nodes) (kids : ℕ → List ℕ) (p : ℕ) (fresh : HfsNode)
    → nodes p ≡ none
    → (p == root) ≡ false
    → Grows root nodes (write p (some fresh) nodes) kids (with_node p kids)
grow_new root nodes kids p fresh free other = record {
  children = λ a is_in. rw other is_in;
  names = λ name a named.
      let (n, e, it) = named-holds nodes name a named in
      elim (Bool-cases (p == a)) [
        | inl same ↦ absurd (cc (ap nodes ((==_iff p a).0 same), free, e))
        | inr away ↦ rw (is_named, away, e) it
      ];
}

pub grow_added :
    (root : ℕ) (nodes : Nodes) (kids : ℕ → List ℕ) (parent child : ℕ) (p c : HfsNode)
    → nodes parent ≡ some p
    → nodes child ≡ some c
    → Grows root nodes (added parent child p c nodes) kids (with_child parent child kids)
grow_added root nodes kids parent child p c hp hc = record {
  children = λ a is_in. elim (Bool-cases (parent == root)) [
    | inl it ↦ rw it (ground (arith, is_in))
    | inr unlike ↦ rw unlike is_in
  ];
  names = λ name a named.
      let (n, e, it) = named-holds nodes name a named in
      elim (added-cases nodes parent child p c a) [
        | inl (same, reads) ↦
            let node =
              some-injective _ _ (sym e ∙ ap nodes (sym ((==_iff parent a).0 same)) ∙ hp) in
            rw (is_named, reads) (subst (λ (m : HfsNode). str_eq m.name name ≡ true) node it)
        | inr (inl (_, same, reads)) ↦
            let node = some-injective _ _ (sym e ∙ ap nodes (sym ((==_iff child a).0 same)) ∙ hc) in
            rw (is_named, reads) (subst (λ (m : HfsNode). str_eq m.name name ≡ true) node it)
        | inr (inr (_, _, reads)) ↦ rw (is_named, reads, e) it
      ];
}

-- What is in use after a node is added.
pub owned_added :
    (In : ℕ → Type 0) (nodes : Nodes) (parent child : ℕ) (p c : HfsNode)
    → ((a : ℕ) (n : HfsNode) → nodes a ≡ some n → In a)
    → nodes parent ≡ some p
    → nodes child ≡ some c
    → (a : ℕ) (n : HfsNode) → added parent child p c nodes a ≡ some n
    → In a
owned_added In nodes parent child p c owned hp hc a n e =
    elim (added-cases nodes parent child p c a) [
      | inl (it, _) ↦ owned a p (ap nodes (sym ((==_iff parent a).0 it)) ∙ hp)
      | inr (inl (_, it, _)) ↦ owned a c (ap nodes (sym ((==_iff child a).0 it)) ∙ hc)
      | inr (inr (_, _, reads)) ↦ owned a n (sym reads ∙ e)
    ]

pub owned_new :
    (In : ℕ → Type 0) (nodes : Nodes) (p : ℕ) (fresh : HfsNode)
    → ((a : ℕ) (n : HfsNode) → nodes a ≡ some n → In a)
    → In p
    → (a : ℕ) (n : HfsNode) → write p (some fresh) nodes a ≡ some n
    → In a
owned_new In nodes p fresh owned in_p a n e = elim (Bool-cases (p == a)) [
  | inl it ↦ subst In ((==_iff p a).0 it) in_p
  | inr away ↦ owned a n (rw away at e)
]

pub size_added :
    (kids : ℕ → List ℕ) (parent child root : ℕ)
    → (child == root) ≡ false
    → length (with_child parent child (with_node child kids) root) ≤ suc (length (kids root))
size_added kids parent child root other = elim (Bool-cases (parent == root)) [
  | inl it ↦ rw (it, other) (omega arith)
  | inr away ↦ rw (away, other) (omega arith)
]
