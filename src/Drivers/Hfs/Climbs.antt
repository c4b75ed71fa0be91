-- ===== src/Drivers/Hfs/Climbs.antt =====
-- The way from a node of drivers/hfs/hfs.c up to a node without a parent, and forests, where every node
-- has one, so that no node is above itself.
use mathlib.Core.Path.{subst}
use mathlib.Core.Option.{some-injective}
use zythos.Drivers.Hfs.Forest.{has, IsLinked}
use zythos.Drivers.Hfs.{HfsNode, Nodes}
use zythos.Base.{
  ℕ, ◌≡◌, refl, sym, ap, ◌∙◌, ◌≢◌, inl, inr, true, Option, none, some, List, [], ◌∷◌, arith, ◌==◌,
  Bool-cases, ==_iff, ==-refl,
}

-- The path from `a` up: `a` itself, its parent and so on, and last a node without a parent.
pub data Climbs (nodes : Nodes) : ℕ → List ℕ → Type 0 where
  top : {a : ℕ} {n : HfsNode} → nodes a ≡ some n → n.parent ≡ 0 → Climbs nodes a (a ∷ [])
  up :
      {a : ℕ} {n : HfsNode} {path : List ℕ}
      → nodes a ≡ some n
      → n.parent ≢ 0
      → Climbs nodes n.parent path
      → Climbs nodes a (a ∷ path)

-- The lists of children are right, and every node climbs to one without a parent: there is no cycle.
pub record IsForest (nodes : Nodes) (kids : ℕ → List ℕ) : Type 0 where
  pub linked : IsLinked nodes kids
  pub roots : (a : ℕ) (n : HfsNode) → nodes a ≡ some n → (path : List ℕ) × Climbs nodes a path

-- What a node is, without its place among the siblings and its children.
abbrev pub identity : Option HfsNode → Option (List ℕ × ℕ × ℕ)
identity none = none
identity (some n) = some (n.name, n.value, n.parent)

pub identity-there :
    (o : Option HfsNode) (n : HfsNode)
    → identity o ≡ identity (some n)
    → (m : HfsNode) × (o ≡ some m) × (m.parent ≡ n.parent)
identity-there none n e = absurd (cc e)
identity-there (some m) n e = (m, refl, ap (λ (r : List ℕ × ℕ × ℕ). r.2) (some-injective _ _ e))

-- The path starts with the node itself.
pub climb_self : {nodes : Nodes} {a : ℕ} {path : List ℕ} → Climbs nodes a path → has a path ≡ true
climb_self {a = a} (top holds root) = rw (==-refl a) refl
climb_self {a = a} (up holds some_p rest) = rw (==-refl a) refl

pub climb_there :
    {nodes : Nodes} {a : ℕ} {path : List ℕ} (b : ℕ)
    → Climbs nodes a path
    → has b path ≡ true
    → (n : HfsNode) × (nodes b ≡ some n)
climb_there {nodes} {a} b (top {n = n} holds root) is_in =
    let same : b ≡ a = ground (arith, is_in) in (n, ap nodes same ∙ holds)
climb_there {nodes} {a} b (up {n = n} holds some_p rest) is_in = elim (Bool-cases (b == a)) [
  | inl it ↦ (n, ap nodes ((==_iff b a).0 it) ∙ holds)
  | inr away ↦ climb_there b rest (ground (arith, is_in, away))
]

-- One more step up in other nodes, where `a` is as it was.
climb_up :
    {after : Nodes} {a : ℕ} {path : List ℕ} (n : HfsNode)
    → identity (after a) ≡ identity (some n)
    → n.parent ≢ 0
    → Climbs after n.parent path
    → Climbs after a (a ∷ path)
climb_up {after = after} {a} {path} n same some_p rest =
    let (m, reads, parent) = identity-there (after a) n same in
    up reads (λ z. some_p (sym parent ∙ z)) (subst (λ q. Climbs after q path) (sym parent) rest)

climb_top :
    {after : Nodes} {a : ℕ} (n : HfsNode)
    → identity (after a) ≡ identity (some n)
    → n.parent ≡ 0
    → Climbs after a (a ∷ [])
climb_top {after = after} {a} n same root =
    let (m, reads, parent) = identity-there (after a) n same in top reads (parent ∙ root)

-- The nodes of the path are as they were.
pub climb_frame :
    {nodes after : Nodes} {a : ℕ} {path : List ℕ}
    → Climbs nodes a path
    → ((b : ℕ) → has b path ≡ true → identity (after b) ≡ identity (nodes b))
    → Climbs after a path
climb_frame {a = a} (top {n = n} holds root) same =
    climb_top n (same a (rw (==-refl a) refl) ∙ ap identity holds) root
climb_frame {a = a} (up {n = n} holds some_p rest) same =
    climb_up n (same a (rw (==-refl a) refl) ∙ ap identity holds) some_p
      (climb_frame rest λ b is_in. same b (ground (arith, is_in)))

-- A node without a parent gets one, which itself climbs.
pub climb_grown :
    {nodes after : Nodes} {a parent child : ℕ} {path above : List ℕ} {c m : HfsNode}
    → nodes child ≡ some c
    → c.parent ≡ 0
    → after child ≡ some m
    → m.parent ≡ parent
    → parent ≢ 0
    → Climbs after parent above
    → ((b : ℕ) → b ≢ child → identity (after b) ≡ identity (nodes b))
    → Climbs nodes a path
    → (path' : List ℕ) × Climbs after a path'
climb_grown {nodes} {after} {a} {parent} {child} {above = above} {c} {m} hc orphan hm under some_p
      climbs same (top {n = n} holds root) =
    elim (Bool-cases (a == child)) [
      | inl it ↦
          let here : a ≡ child = (==_iff a child).0 it in
          (
            a ∷ above,
            up (ap after here ∙ hm) (λ z. some_p (sym under ∙ z))
                (subst (λ q. Climbs after q above) (sym under) climbs),
          )
      | inr away ↦ (a ∷ [], climb_top n (same a (ground (arith, away)) ∙ ap identity holds) root)
    ]
climb_grown {nodes} {after} {a} {parent} {child} {above = above} {c} {m} hc orphan hm under some_p
      climbs same (up {n = n} holds some_n rest) =
    let not_child : a ≢ child = λ e. some_n (
      ap (λ (k : HfsNode). k.parent) (some-injective _ _ (sym holds ∙ ap nodes e ∙ hc)) ∙ orphan) in
    let (path', is) = climb_grown hc orphan hm under some_p climbs same rest in
    (a ∷ path', climb_up n (same a not_child ∙ ap identity holds) some_n is)

-- A node that is the parent of no other is no node any more.
pub climb_cut :
    {nodes after : Nodes} {a : ℕ} {path : List ℕ} (node : ℕ)
    → ((b : ℕ) (n : HfsNode) → nodes b ≡ some n → n.parent ≢ 0 → n.parent ≢ node)
    → ((b : ℕ) → b ≢ node → identity (after b) ≡ identity (nodes b))
    → a ≢ node
    → Climbs nodes a path
    → Climbs after a path
climb_cut {a = a} node no_kids same apart (top {n = n} holds root) =
    climb_top n (same a apart ∙ ap identity holds) root
climb_cut {a = a} node no_kids same apart (up {n = n} holds some_p rest) =
    climb_up n (same a apart ∙ ap identity holds) some_p
      (climb_cut node no_kids same (no_kids a n holds some_p) rest)
