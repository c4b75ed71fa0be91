-- ===== src/Drivers/Hfs/Forest.antt =====
-- The nodes of drivers/hfs/hfs.c as a forest: each node has a list of children.
use mathlib.Core.Path.{subst}
use zythos.Base.{
  ℕ, ◌≡◌, sym, ◌≢◌, inl, inr, Bool, true, false, ◌||◌, none, some, List, [], ◌∷◌, arith, ◌==◌,
  Bool-cases, ==_iff,
}
use zythos.Drivers.Hfs.{HfsNode, Nodes}

abbrev pub has : ℕ → List ℕ → Bool
has a [] = false
has a (c ∷ cs) = (a == c) || has a cs

-- The node `c` is a child of `p`, with `next` behind it.
pub record Link (nodes : Nodes) (c p next : ℕ) : Type 0 where
  pub node : HfsNode
  pub holds : nodes c ≡ some node
  pub parent : node.parent ≡ p
  pub next_is : node.next_sibling ≡ next

-- From `c` on the siblings are the nodes of the list, all children of `p` and all different.
pub data Chain (nodes : Nodes) (p : ℕ) : ℕ → List ℕ → Type 0 where
  nil : Chain nodes p 0 []
  cons :
      {c next : ℕ} {cs : List ℕ}
      → c ≢ 0
      → Link nodes c p next
      → has c cs ≡ false
      → Chain nodes p next cs
      → Chain nodes p c (c ∷ cs)

pub frame :
    {nodes after : Nodes} {p c : ℕ} {cs : List ℕ}
    → Chain nodes p c cs
    → ((a next : ℕ) → has a cs ≡ true → Link nodes a p next → Link after a p next)
    → Chain after p c cs
frame nil same = nil
frame (cons {c} {next} some_c link out rest) same =
    cons some_c (same c next (ground arith) link) out
      (frame rest λ a n i. same a n (ground (arith, i)))

-- The node at `p` is there and has `c` among its children.
abbrev pub IsListed : Nodes → (ℕ → List ℕ) → ℕ → ℕ → Type 0
IsListed nodes kids c p = (has c (kids p) ≡ true) × (n : HfsNode) × (nodes p ≡ some n)

-- `kids` gives the children of each node.
pub record IsLinked (nodes : Nodes) (kids : ℕ → List ℕ) : Type 0 where
  pub null : nodes 0 ≡ none
  pub chains : (p : ℕ) (n : HfsNode) → nodes p ≡ some n → Chain nodes p n.first_child (kids p)
  pub listed :
      (c : ℕ) (n : HfsNode) → nodes c ≡ some n → n.parent ≢ 0 → IsListed nodes kids c n.parent

pub member-Link :
    {nodes : Nodes} {p c : ℕ} {cs : List ℕ} (a : ℕ)
    → Chain nodes p c cs
    → has a cs ≡ true
    → (next : ℕ) × Link nodes a p next
member-Link a nil is_in = absurd (ground (arith, is_in))
member-Link {nodes} {p} a (cons {c} {next} some_c link out rest) is_in =
    elim (Bool-cases (a == c)) [
      | inl it ↦ (next, subst (λ x. Link nodes x p next) (sym ((==_iff a c).0 it)) link)
      | inr away ↦ member-Link a rest (ground (arith, is_in, away))
    ]
