-- ===== src/Drivers/Hfs/Cut.antt =====
-- The unlinking in `hfs_remove` of drivers/hfs/hfs.c.
use mathlib.Core.Option.{some-injective}
use mathlib.Core.Path.{subst}
use zythos.Base.{
  ℕ, ◌≤◌, ◌≡◌, refl, sym, ap, ◌∙◌, ◌≢◌, ◌⊎◌, inl, inr, true, false, none, some, List, arith, ◌==◌,
  ◌>>=◌, Bool-cases, ==_iff, ==-refl, length,
}
use zythos.Mm.{max_rounds, max_rounds_large}
use zythos.Drivers.Hfs.{HfsNode, Nodes, write, unlink}
use zythos.Drivers.Hfs.Forest.{has, Link, Chain, frame, IsLinked}
use zythos.Drivers.Hfs.Unlink.{erase, front, Link-next, has-apart, find-Before}

-- The nodes after a change of one of them and the end of another.
abbrev pub cut_at : ℕ → ℕ → HfsNode → Nodes → Nodes
cut_at node x m nodes = write node none (write x (some m) nodes)

-- The change of one node takes `node` out of the children of `parent`.
pub record Cut (nodes : Nodes) (node parent : ℕ) (n p : HfsNode) (kids : List ℕ) : Type 0 where
  pub at : ℕ
  pub old : HfsNode
  pub new : HfsNode
  pub runs : unlink node parent n p nodes ≡ some (write at (some new) nodes)
  pub holds : nodes at ≡ some old
  pub apart : at ≢ node
  pub same_name : new.name ≡ old.name
  pub same_value : new.value ≡ old.value
  pub same_parent : new.parent ≡ old.parent
  pub same_first : at ≢ parent → new.first_child ≡ old.first_child
  pub same_next : old.parent ≢ parent → new.next_sibling ≡ old.next_sibling
  pub start : ℕ
  pub starts : (k : HfsNode) → cut_at node at new nodes parent ≡ some k → start ≡ k.first_child
  pub chain : Chain (cut_at node at new nodes) parent start (erase node kids)

pub cut_cases :
    (nodes : Nodes) (node x : ℕ) (m : HfsNode) (q : ℕ)
    → ((node == q) ≡ true) × (cut_at node x m nodes q ≡ none)
      ⊎ ((node == q) ≡ false) × ((x == q) ≡ true) × (cut_at node x m nodes q ≡ some m)
      ⊎ ((node == q) ≡ false) × ((x == q) ≡ false) × (cut_at node x m nodes q ≡ nodes q)
cut_cases nodes node x m q = elim (Bool-cases (node == q)) [
  | inl it ↦ inl (it, rw it refl)
  | inr apart ↦ elim (Bool-cases (x == q)) [
    | inl it ↦ inr (inl (apart, it, rw (apart, it) refl))
    | inr away ↦ inr (inr (apart, away, rw (apart, away) refl))
  ]
]

pub cut-Link :
    (nodes : Nodes) (node x : ℕ) (m m' : HfsNode) (a q next : ℕ)
    → nodes x ≡ some m
    → m'.parent ≡ m.parent
    → (x ≡ a → m'.next_sibling ≡ m.next_sibling)
    → a ≢ node
    → Link nodes a q next
    → Link (cut_at node x m' nodes) a q next
cut-Link nodes node x m m' a q next holds up same apart link = elim (cut_cases nodes node x m' a) [
  | inl (it, _) ↦ absurd (ground (arith, it, apart))
  | inr (inl (_, it, reads)) ↦
      let is_x = (==_iff x a).0 it in
      let same_node = some-injective _ _ (sym holds ∙ ap nodes is_x ∙ link.holds) in
      record {
        node = m';
        holds = reads;
        parent = up ∙ ap (λ (k : HfsNode). k.parent) same_node ∙ link.parent;
        next_is = same is_x ∙ ap (λ (k : HfsNode). k.next_sibling) same_node ∙ link.next_is;
      }
  | inr (inr (_, _, reads)) ↦ record {
    node = link.node;
    holds = reads ∙ link.holds;
    parent = link.parent;
    next_is = link.next_is;
  }
]

cut-starts :
    (nodes : Nodes) (node x parent start : ℕ) (m p k : HfsNode)
    → nodes parent ≡ some p
    → parent ≢ node
    → (x ≡ parent → start ≡ m.first_child)
    → (x ≢ parent → start ≡ p.first_child)
    → cut_at node x m nodes parent ≡ some k
    → start ≡ k.first_child
cut-starts nodes node x parent start m p k hp apart same other e =
    elim (cut_cases nodes node x m parent) [
      | inl (it, _) ↦ absurd (ground (arith, it, apart))
      | inr (inl (_, it, reads)) ↦
          same ((==_iff x parent).0 it)
          ∙ ap (λ (y : HfsNode). y.first_child) (some-injective _ _ (sym reads ∙ e))
      | inr (inr (_, it, reads)) ↦
          let away : x ≢ parent = ground (arith, it) in
          other away
          ∙ ap (λ (y : HfsNode). y.first_child) (some-injective _ _ (sym hp ∙ sym reads ∙ e))
    ]

module _ (nodes : Nodes) (kids : ℕ → List ℕ) (node parent : ℕ) (n p : HfsNode)
    (is : IsLinked nodes kids) (hn : nodes node ≡ some n) (hp : nodes parent ≡ some p)
    (up : n.parent ≡ parent) (apart : parent ≢ node) (some_node : node ≢ 0)
    (is_in : has node (kids parent) ≡ true) (few : length (kids parent) ≤ 21845) where
  first-Cut : (p.first_child == node) ≡ true → Cut nodes node parent n p (kids parent)
  unfolding unlink
  first-Cut it =
      let is_first = (==_iff p.first_child node).0 it in
      let f =
        front some_node
          (subst (λ x. Chain nodes parent x (kids parent)) is_first (is.chains parent p hp)) in
      let next : f.next ≡ n.next_sibling =
        Link-next {nodes = nodes} refl f.link
          (record { node = n; holds = hn; parent = refl; next_is = refl }) in
      let new : HfsNode = record p { first_child = n.next_sibling } in
      let after : Nodes = cut_at node parent new nodes in
      let tail = frame f.chain λ a m i l.
        cut-Link nodes node parent p new a parent m hp refl (λ _. refl)
          (has-apart a node f.rest i f.out) l in
      let shorter : f.rest ≡ erase node (kids parent) = rw (f.all, ==-refl node) refl in
      let tail_next = subst (λ x. Chain after parent x f.rest) next tail in
      record {
        at = parent;
        old = p;
        new = new;
        runs = rw (unlink, it, hp, ◌>>=◌) refl;
        holds = hp;
        apart = apart;
        same_name = refl;
        same_value = refl;
        same_parent = refl;
        same_first = λ away. absurd (away refl);
        same_next = λ _. refl;
        start = n.next_sibling;
        starts = λ k e.
            cut-starts nodes node parent parent n.next_sibling new p k hp apart (λ _. refl)
              (λ away. absurd (away refl)) e;
        chain = subst (λ l. Chain after parent n.next_sibling l) shorter tail_next;
      }

  inner-Cut : (p.first_child == node) ≡ false → Cut nodes node parent n p (kids parent)
  unfolding unlink
  inner-Cut away =
      let r =
        find-Before max_rounds nodes parent node p.first_child (kids parent) some_node
          (ground (arith, away)) is_in (omega (arith, few, max_rounds_large))
          (is.chains parent p hp) in
      let old = r.before.node in
      let new : HfsNode = record old { next_sibling = n.next_sibling } in
      let after : Nodes = cut_at node r.at new nodes in
      let hit : (r.at == r.at) ≡ true = ==-refl r.at in
      let miss : (node == r.at) ≡ false = let away_at = r.apart in ground (arith, away_at) in
      let there : Link after r.at parent n.next_sibling = record {
        node = new;
        holds = rw (miss, hit) refl;
        parent = r.before.parent;
        next_is = refl;
      } in
      let some_at : (r.at == 0) ≡ false = ground (arith, r.some_at) in
      record {
        at = r.at;
        old = old;
        new = new;
        runs = rw (unlink, away, r.stops, ◌>>=◌, some_at, r.before.holds, ◌>>=◌) refl;
        holds = r.before.holds;
        apart = r.apart;
        same_name = refl;
        same_value = refl;
        same_parent = refl;
        same_first = λ _. refl;
        same_next = λ other. absurd (other r.before.parent);
        start = p.first_child;
        starts = λ k e.
            cut-starts nodes node r.at parent p.first_child new p k hp apart
              (λ at_parent.
                ap (λ (y : HfsNode). y.first_child)
                  (some-injective _ _ (sym hp ∙ sym (ap nodes at_parent) ∙ r.before.holds)))
              (λ _. refl) e;
        chain = r.chain after n hn there λ a m not_at not_node l.
            cut-Link nodes node r.at old new a parent m r.before.holds refl
              (λ e. absurd (not_at (sym e))) not_node l;
      }

  pub cut : Cut nodes node parent n p (kids parent)
  cut = elim (Bool-cases (p.first_child == node)) [
    | inl it ↦ first-Cut it
    | inr away ↦ inner-Cut away
  ]
