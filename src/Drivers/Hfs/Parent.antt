-- ===== src/Drivers/Hfs/Parent.antt =====
-- The choice of a parent in `hfs_register_apply` of drivers/hfs/hfs_register.c.
use mathlib.Core.Path.{subst}
use zythos.Base.{
  ℕ, ◌≤◌, ◌≡◌, refl, sym, ap, ◌⊎◌, inl, inr, true, false, some, List, [], ◌∷◌, arith, ◌==◌, ◌>>=◌,
  Bool-cases, ==_iff, ==-refl, length,
}
use zythos.Drivers.Hfs.{HfsNode, Nodes, HfsStaticEntry, is_empty, hfs_find_path, parent_of}
use zythos.Drivers.Hfs.Forest.{has, IsLinked, member-Link}
use zythos.Drivers.Hfs.Find.{is_named, first_named, hfs_find_child_lem}

pub first_named-cases :
    (nodes : Nodes) (name : List ℕ) (cs : List ℕ)
    → (first_named nodes name cs ≡ 0) ⊎ (has (first_named nodes name cs) cs ≡ true)
first_named-cases nodes name [] = inl refl
first_named-cases nodes name (c ∷ cs) = elim (Bool-cases (is_named nodes name c)) [
  | inl it ↦ inr (rw (it, ==-refl c) refl)
  | inr away ↦ elim (first_named-cases nodes name cs) [
    | inl none_there ↦ inl (rw away none_there)
    | inr is_in ↦
        let e : first_named nodes name (c ∷ cs) ≡ first_named nodes name cs = rw away refl in
        inr (subst (λ x. has x (c ∷ cs) ≡ true) (sym e) (ground (arith, is_in)))
  ]
]

-- A child of the name that is there is found.
pub first_named-is :
    (nodes : Nodes) (name : List ℕ) (a : ℕ) (cs : List ℕ)
    → has a cs ≡ true
    → is_named nodes name a ≡ true
    → (has (first_named nodes name cs) cs ≡ true)
      × (is_named nodes name (first_named nodes name cs) ≡ true)
first_named-is nodes name a [] is_in named = absurd (ground (arith, is_in))
first_named-is nodes name a (c ∷ cs) is_in named = elim (Bool-cases (is_named nodes name c)) [
  | inl it ↦
      let e : first_named nodes name (c ∷ cs) ≡ c = rw it refl in
      (
        subst (λ x. has x (c ∷ cs) ≡ true) (sym e) (rw (==-refl c) refl),
        subst (λ x. is_named nodes name x ≡ true) (sym e) it,
      )
  | inr away ↦
      let other : (a == c) ≡ false = elim (Bool-cases (a == c)) [
        | inl same ↦ absurd (cc (ap (is_named nodes name) ((==_iff a c).0 same), named, away))
        | inr it ↦ it
      ] in
      let (later, has_name) = first_named-is nodes name a cs (ground (arith, is_in, other)) named in
      let e : first_named nodes name (c ∷ cs) ≡ first_named nodes name cs = rw away refl in
      (
        subst (λ x. has x (c ∷ cs) ≡ true) (sym e) (ground (arith, later)),
        subst (λ x. is_named nodes name x ≡ true) (sym e) has_name,
      )
]

pub record Parent (root : ℕ) (e : HfsStaticEntry) (nodes : Nodes) : Type 0 where
  pub at : ℕ
  pub node : HfsNode
  pub runs : parent_of root e nodes ≡ some at
  pub holds : nodes at ≡ some node
  pub at_root : is_empty e.parent_path ≡ true → at ≡ root

pub parent_lem :
    (nodes : Nodes) (kids : ℕ → List ℕ) (root : ℕ) (r : HfsNode) (e : HfsStaticEntry)
    → IsLinked nodes kids
    → nodes root ≡ some r
    → length (kids root) ≤ 21845
    → Parent root e nodes
unfolding parent_of hfs_find_path
parent_lem nodes kids root r e is hr few = elim (Bool-cases (is_empty e.parent_path)) [
  | inl it ↦ record {
    at = root;
    node = r;
    runs = rw (parent_of, it) refl;
    holds = hr;
    at_root = λ _. refl;
  }
  | inr path ↦
      let runs = hfs_find_child_lem nodes kids root r e.parent_path is hr few in
      let name = first_named nodes e.parent_path (kids root) in
      let not_empty : is_empty e.parent_path ≡ true → name ≡ root =
        λ it. absurd (ground (arith, it, path)) in
      elim (Bool-cases (name == 0)) [
        | inl zero_it ↦ record {
          at = root;
          node = r;
          runs = rw (parent_of, path, runs, ◌>>=◌, zero_it) refl;
          holds = hr;
          at_root = λ _. refl;
        }
        | inr some_it ↦
            let is_in : has name (kids root) ≡ true =
              elim (first_named-cases nodes e.parent_path (kids root)) [
                | inl zero_it ↦ absurd (ground (arith, zero_it, some_it))
                | inr it ↦ it
              ] in
            let (_, link) = member-Link name (is.chains root r hr) is_in in
            record {
              at = name;
              node = link.node;
              runs = rw (parent_of, path, runs, ◌>>=◌, some_it) refl;
              holds = link.holds;
              at_root = not_empty;
            }
      ]
]
