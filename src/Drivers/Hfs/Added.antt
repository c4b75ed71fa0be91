-- ===== src/Drivers/Hfs/Added.antt =====
-- The lists of children after `hfs_add_child` of drivers/hfs/hfs.c.
use mathlib.Core.Option.{some-injective}
use mathlib.Core.Path.{fun_ext, subst}
use zythos.Base.{
  ℕ, ◌≡◌, refl, sym, ap, ◌∙◌, ◌≢◌, ◌⊎◌, inl, inr, true, false, Option, none, some, List, ◌∷◌, arith,
  ◌==◌, if◌then◌else◌, ◌>>=◌, Bool-cases, ==_iff, ==-refl,
}
use zythos.Drivers.Hfs.{HfsNode, Nodes, write, hfs_add_child}
use zythos.Drivers.Hfs.Forest.{IsListed, member-Link, has, Link, Chain, cons, frame, IsLinked}

-- The children afterwards.
abbrev pub with_child : ℕ → ℕ → (ℕ → List ℕ) → ℕ → List ℕ
with_child parent child kids p = if parent == p then child ∷ kids p else kids p

-- The nodes afterwards.
abbrev pub added : ℕ → ℕ → HfsNode → HfsNode → Nodes → Nodes
added parent child p c nodes =
    write parent (some (record p { first_child = child }))
      (write child (some (record c { parent = parent; next_sibling = p.first_child })) nodes)

some_address :
    (nodes : Nodes) (a : ℕ) (n : HfsNode) → nodes 0 ≡ none → nodes a ≡ some n → (a == 0) ≡ false
some_address nodes a n null found = elim (Bool-cases (a == 0)) [
  | inl zero_it ↦ absurd (cc (ap nodes ((==_iff a 0).0 zero_it), null, found))
  | inr it ↦ it
]

write-write :
    (nodes : Nodes) (a : ℕ) (m n : Option HfsNode) → write a m (write a n nodes) ≡ write a m nodes
write-write nodes a m n = fun_ext λ x. ground arith

add-steps :
    (nodes : Nodes) (parent child : ℕ) (p c : HfsNode)
    → nodes 0 ≡ none
    → nodes parent ≡ some p
    → nodes child ≡ some c
    → parent ≢ child
    → hfs_add_child parent child nodes ≡ some (true, added parent child p c nodes)
unfolding hfs_add_child
add-steps nodes parent child p c null hp hc apart =
    let some_parent = some_address nodes parent p null hp in
    let some_child = some_address nodes child c null hc in
    let other : (child == parent) ≡ false = ground (arith, apart) in
    rw
      (
        hfs_add_child,
        some_parent,
        some_child,
        hc,
        ◌>>=◌,
        other,
        hp,
        ==-refl child,
        ◌>>=◌,
        other,
        hp,
      )
      (ap (λ m. some (true, write parent (some (record p { first_child = child })) m))
        (write-write nodes child _ _))

-- The three kinds of address.
pub added-cases :
    (nodes : Nodes) (parent child : ℕ) (p c : HfsNode) (q : ℕ)
    → ((parent == q) ≡ true)
        × (added parent child p c nodes q ≡ some (record p { first_child = child }))
      ⊎ ((parent == q) ≡ false)
        × ((child == q) ≡ true)
        × (added parent child p c nodes q
            ≡ some (record c { parent = parent; next_sibling = p.first_child }))
      ⊎ ((parent == q) ≡ false)
        × ((child == q) ≡ false)
        × (added parent child p c nodes q ≡ nodes q)
added-cases nodes parent child p c q = elim (Bool-cases (parent == q)) [
  | inl it ↦ inl (it, rw it refl)
  | inr apart ↦ elim (Bool-cases (child == q)) [
    | inl it ↦ inr (inl (apart, it, rw (apart, it) refl))
    | inr away ↦ inr (inr (apart, away, rw (apart, away) refl))
  ]
]

module _ (nodes : Nodes) (kids : ℕ → List ℕ) (parent child : ℕ) (p c : HfsNode)
    (is : IsLinked nodes kids) (hp : nodes parent ≡ some p) (hc : nodes child ≡ some c)
    (orphan : c.parent ≡ 0) (apart : parent ≢ child) where
  abbrev after : Nodes
  after = added parent child p c nodes

  not_null : (q : ℕ) (n : HfsNode) → nodes q ≡ some n → q ≢ 0
  not_null q n found it = cc (ap nodes it, is.null, found)

  added-Link : (q a next : ℕ) → q ≢ 0 → Link nodes a q next → Link after a q next
  added-Link q a next some_q link = elim (added-cases nodes parent child p c a) [
    | inl (it, reads) ↦
        let here : nodes a ≡ some p = cc (ap nodes ((==_iff parent a).0 it), hp) in
        let same : p ≡ link.node = some-injective _ _ (sym here ∙ link.holds) in
        record {
          node = record p { first_child = child };
          holds = reads;
          parent = ap (λ (n : HfsNode). n.parent) same ∙ link.parent;
          next_is = ap (λ (n : HfsNode). n.next_sibling) same ∙ link.next_is;
        }
    | inr (inl (_, it, reads)) ↦
        let here : nodes a ≡ some c = cc (ap nodes ((==_iff child a).0 it), hc) in
        let same : c ≡ link.node = some-injective _ _ (sym here ∙ link.holds) in
        absurd (some_q (sym link.parent ∙ sym (ap (λ (n : HfsNode). n.parent) same) ∙ orphan))
    | inr (inr (_, _, reads)) ↦ record {
      node = link.node;
      holds = reads ∙ link.holds;
      parent = link.parent;
      next_is = link.next_is;
    }
  ]

  pub added-holds : (q : ℕ) (n : HfsNode) → nodes q ≡ some n → (m : HfsNode) × (after q ≡ some m)
  added-holds q n found = elim (added-cases nodes parent child p c q) [
    | inl (_, reads) ↦ (_, reads)
    | inr (inl (_, _, reads)) ↦ (_, reads)
    | inr (inr (_, _, reads)) ↦ (n, reads ∙ found)
  ]

  not_child : (q : ℕ) (n : HfsNode) → nodes q ≡ some n → has child (kids q) ≡ false
  not_child q n found = elim (Bool-cases (has child (kids q))) [
    | inl is_in ↦
        let (_, link) = member-Link child (is.chains q n found) is_in in
        let same = some-injective _ _ (sym link.holds ∙ hc) in
        absurd (not_null q n found (sym link.parent ∙ ap (λ (m : HfsNode). m.parent) same ∙ orphan))
    | inr out ↦ out
  ]

  added-first : (q : ℕ) → (parent == q) ≡ true → Chain after q child (child ∷ kids q)
  added-first q it =
      let is_q = (==_iff parent q).0 it in
      let found = ap nodes (sym is_q) ∙ hp in
      let other : (parent == child) ≡ false = ground (arith, apart) in
      cons (not_null child c hc)
        (record {
          node = record c { parent = parent; next_sibling = p.first_child };
          holds = rw (other, ==-refl child) refl;
          parent = is_q;
          next_is = refl;
        })
        (not_child q p found)
        (frame (is.chains q p found) λ a next _ l. added-Link q a next (not_null q p found) l)

  pub more_has : (a q : ℕ) → has a (kids q) ≡ true → has a (with_child parent child kids q) ≡ true
  more_has a q is_in = elim (Bool-cases (parent == q)) [
    | inl it ↦ rw it (ground (arith, is_in))
    | inr unlike ↦ rw unlike is_in
  ]

  added-chains :
      (q : ℕ) (n : HfsNode)
      → after q ≡ some n
      → Chain after q n.first_child (with_child parent child kids q)
  added-chains q n found = elim (added-cases nodes parent child p c q) [
    | inl (it, reads) ↦
        let same = some-injective _ _ (sym reads ∙ found) in
        subst (λ (m : HfsNode). Chain after q m.first_child (with_child parent child kids q)) same
          (rw it (added-first q it))
    | inr (inl (unlike, it, reads)) ↦
        let same = some-injective _ _ (sym reads ∙ found) in
        subst (λ (m : HfsNode). Chain after q m.first_child (with_child parent child kids q)) same
          (let found_c = ap nodes (sym ((==_iff child q).0 it)) ∙ hc in
            rw unlike (
              frame (is.chains q c found_c)
                λ a next _ l. added-Link q a next (not_null q c found_c) l))
    | inr (inr (unlike, _, reads)) ↦
        let old = is.chains q n (sym reads ∙ found) in
        rw unlike (frame old λ a next _ l. added-Link q a next (not_null q n (sym reads ∙ found)) l)
  ]

  abbrev Afterwards : ℕ → ℕ → Type 0
  Afterwards = IsListed after (with_child parent child kids)

  keep-IsListed : (a q : ℕ) → IsListed nodes kids a q → Afterwards a q
  keep-IsListed a q (is_in, m, holds) =
      let (m', holds') = added-holds q m holds in (more_has a q is_in, m', holds')

  child-IsListed : (a : ℕ) → (child == a) ≡ true → Afterwards a parent
  child-IsListed a it =
      let first : has a (with_child parent child kids parent) ≡ true =
        rw (==-refl parent) (ground (arith, it)) in
      let (m, holds) = added-holds parent p hp in (first, m, holds)

  added-IsListed : (a : ℕ) (n : HfsNode) → after a ≡ some n → n.parent ≢ 0 → Afterwards a n.parent
  added-IsListed a n found some_p = elim (added-cases nodes parent child p c a) [
    | inl (it, reads) ↦
        let up = ap (λ (m : HfsNode). m.parent) (some-injective _ _ (sym reads ∙ found)) in
        let here = ap nodes (sym ((==_iff parent a).0 it)) ∙ hp in
        subst (Afterwards a) up
          (keep-IsListed a p.parent (is.listed a p here (λ z. some_p (sym up ∙ z))))
    | inr (inl (unlike, it, reads)) ↦
        let up = ap (λ (m : HfsNode). m.parent) (some-injective _ _ (sym reads ∙ found)) in
        subst (Afterwards a) up (child-IsListed a it)
    | inr (inr (unlike, _, reads)) ↦
        keep-IsListed a n.parent (is.listed a n (sym reads ∙ found) some_p)
  ]

  pub add-IsLinked :
      (hfs_add_child parent child nodes ≡ some (true, after))
      × IsLinked after (with_child parent child kids)
  add-IsLinked =
      let other_p = some_address nodes parent p is.null hp in
      let other_c = some_address nodes child c is.null hc in
      let is_forest : IsLinked after (with_child parent child kids) = record {
        null = rw (other_p, other_c) is.null;
        chains = added-chains;
        listed = added-IsListed;
      } in
      (add-steps nodes parent child p c is.null hp hc apart, is_forest)
