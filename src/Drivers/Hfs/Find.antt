-- ===== src/Drivers/Hfs/Find.antt =====
-- `hfs_find_child` of drivers/hfs/hfs.c.
use zythos.Base.{
  ℕ, zero, suc, ◌≤◌, ◌<◌, ◌≡◌, refl, ◌∙◌, inl, inr, Bool, true, false, none, some, List, [], ◌∷◌,
  arith, ◌==◌, if◌then◌else◌, ◌>>=◌, Bool-cases, length,
}
use zythos.Base.{str_eq}
use zythos.Drivers.Hfs.{HfsNode, Nodes, find_loop, hfs_find_child}
use zythos.Mm.{max_rounds, max_rounds_large}
use zythos.Drivers.Hfs.Forest.{Chain, nil, cons, IsLinked}

abbrev pub is_named : Nodes → List ℕ → ℕ → Bool
is_named nodes name c = elim (nodes c) [ none ↦ false | some n ↦ str_eq n.name name ]

-- The first of the nodes that has the name, 0 if none has.
abbrev pub first_named : Nodes → List ℕ → List ℕ → ℕ
first_named nodes name [] = 0
first_named nodes name (c ∷ cs) = if is_named nodes name c then c else first_named nodes name cs

find_loop_lem :
    (rounds : ℕ) (name : List ℕ) (nodes : Nodes) {p c : ℕ} {cs : List ℕ}
    → Chain nodes p c cs
    → length cs < rounds
    → find_loop rounds name c nodes ≡ some (first_named nodes name cs)
find_loop_lem zero name nodes chain enough = absurd (omega arith)
find_loop_lem (suc rounds) name nodes nil enough = refl
find_loop_lem (suc rounds) name nodes (cons {c} {next} {cs} some_c link out rest) enough =
    let other : (c == 0) ≡ false = ground (arith, some_c) in
    elim (Bool-cases (str_eq link.node.name name)) [
      | inl here ↦
          let named : is_named nodes name c ≡ true = rw (is_named, link.holds) here in
          rw (find_loop, other, link.holds, ◌>>=◌, here) (rw named refl)
      | inr away ↦
          let other_name : is_named nodes name c ≡ false = rw (is_named, link.holds) away in
          rw (find_loop, other, link.holds, ◌>>=◌, away, link.next_is)
            (find_loop_lem rounds name nodes rest (omega (arith, enough)) ∙ rw other_name refl)
    ]

-- Where the lists of children are right, `hfs_find_child` of a node with at most 21845 children always returns: it gives the
-- first of the children that has the name, and null if none has.
pub hfs_find_child_lem :
    (nodes : Nodes) (kids : ℕ → List ℕ) (parent : ℕ) (n : HfsNode) (name : List ℕ)
    → IsLinked nodes kids
    → nodes parent ≡ some n
    → length (kids parent) ≤ 21845
    → hfs_find_child parent name nodes ≡ some (first_named nodes name (kids parent))
unfolding hfs_find_child
hfs_find_child_lem nodes kids parent n name is found few =
    rw (hfs_find_child, found, ◌>>=◌)
      (find_loop_lem max_rounds name nodes (is.chains parent n found)
        (omega (arith, few, max_rounds_large)))
