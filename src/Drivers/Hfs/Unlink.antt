-- ===== src/Drivers/Hfs/Unlink.antt =====
-- The walk of `hfs_remove` of drivers/hfs/hfs.c.
use mathlib.Core.Option.{some-injective}
use mathlib.Core.Path.{subst}
use zythos.Base.{
  ℕ, zero, suc, ◌<◌, ◌≡◌, refl, sym, ap, ◌∙◌, ◌≢◌, inl, inr, true, false, some, List, [], ◌∷◌,
  arith, ◌==◌, if◌then◌else◌, ◌>>=◌, Bool-cases, ==_iff, length,
}
use zythos.Drivers.Hfs.{HfsNode, Nodes, before_loop}
use zythos.Drivers.Hfs.Forest.{has, Link, Chain, nil, cons, frame}

-- The children without one of them.
abbrev pub erase : ℕ → List ℕ → List ℕ
erase a [] = []
erase a (c ∷ cs) = if a == c then cs else c ∷ erase a cs

abbrev pub without : ℕ → ℕ → (ℕ → List ℕ) → ℕ → List ℕ
without node parent kids p = if parent == p then erase node (kids p) else kids p

pub has-erase : (a b : ℕ) (cs : List ℕ) → has a cs ≡ false → has a (erase b cs) ≡ false
has-erase a b [] out = refl
has-erase a b (c ∷ cs) out = elim (Bool-cases (b == c)) [
  | inl it ↦ rw it (ground (arith, out))
  | inr it ↦ rw it (let rest = has-erase a b cs (ground (arith, out)) in ground (arith, out, rest))
]

pub has-erase_ne : (a b : ℕ) (cs : List ℕ) → a ≢ b → has a cs ≡ true → has a (erase b cs) ≡ true
has-erase_ne a b [] apart is_in = absurd (ground (arith, is_in))
has-erase_ne a b (c ∷ cs) apart is_in = elim (Bool-cases (b == c)) [
  | inl it ↦ rw it (ground (arith, is_in, apart))
  | inr it ↦ elim (Bool-cases (a == c)) [
    | inl here ↦ rw (it, here) refl
    | inr away ↦
        let rest : has a cs ≡ true = ground (arith, is_in, away) in
        rw (it, away) (has-erase_ne a b cs apart rest)
  ]
]

-- The front of a chain that is not empty.
pub record Front (nodes : Nodes) (p c : ℕ) (cs : List ℕ) : Type 0 where
  pub next : ℕ
  pub rest : List ℕ
  pub all : cs ≡ c ∷ rest
  pub link : Link nodes c p next
  pub out : has c rest ≡ false
  pub chain : Chain nodes p next rest

pub front :
    {nodes : Nodes} {p c : ℕ} {cs : List ℕ} → c ≢ 0 → Chain nodes p c cs → Front nodes p c cs
front some_c nil = absurd (some_c refl)
front some_c (cons {next = next} {cs = cs} other link out chain) = record {
  next = next;
  rest = cs;
  all = refl;
  link = link;
  out = out;
  chain = chain;
}

-- Two links of one node are one link.
pub Link-next :
    {nodes : Nodes} {a b p q m n : ℕ} → a ≡ b → Link nodes a p m → Link nodes b q n → m ≡ n
Link-next {nodes} same l r =
    let nodes_same = some-injective _ _ (sym l.holds ∙ ap nodes same ∙ r.holds) in
    sym l.next_is ∙ ap (λ (x : HfsNode). x.next_sibling) nodes_same ∙ r.next_is

pub has-apart : (a b : ℕ) (cs : List ℕ) → has a cs ≡ true → has b cs ≡ false → a ≢ b
has-apart a b cs is_in out it = absurd (cc (ap (λ x. has x cs) it, is_in, out))

-- The child before `node`, and the chain once it is taken out behind that child.
pub record Before (nodes : Nodes) (p node c : ℕ) (cs : List ℕ) (rounds : ℕ) : Type 0 where
  pub at : ℕ
  pub stops : before_loop rounds node c nodes ≡ some at
  pub some_at : at ≢ 0
  pub apart : at ≢ node
  pub before : Link nodes at p node
  pub chain :
      (after : Nodes) (n : HfsNode)
      → nodes node ≡ some n
      → Link after at p n.next_sibling
      → ((a next : ℕ) → a ≢ at → a ≢ node → Link nodes a p next → Link after a p next)
      → Chain after p c (erase node cs)

pub find-Before :
    (rounds : ℕ) (nodes : Nodes) (p node c : ℕ) (cs : List ℕ)
    → node ≢ 0
    → node ≢ c
    → has node cs ≡ true
    → length cs < rounds
    → Chain nodes p c cs
    → Before nodes p node c cs rounds
find-Before zero nodes p node c cs some_node apart is_in few chain = absurd (omega (arith, few))
find-Before (suc rounds) nodes p node c cs some_node apart is_in few nil =
    absurd (ground (arith, is_in))
find-Before (suc rounds) nodes p node c (c' ∷ cs) some_node apart is_in few
      (cons {next = next} some_c link out rest) =
    elim (Bool-cases (next == node)) [
      | inl it ↦
          let next_node = (==_iff next node).0 it in
          let f = front (λ z. some_node (sym next_node ∙ z)) rest in
          let other : (c == 0) ≡ false = ground (arith, some_c) in
          let away : (node == c) ≡ false = ground (arith, apart) in
          let node_next : (node == next) ≡ true = ground (arith, it) in
          let out_all : has c (next ∷ f.rest) ≡ false = sym (ap (has c) f.all) ∙ out in
          let out_rest : has c f.rest ≡ false = ground (arith, out_all) in
          record {
            at = c;
            stops = rw (before_loop, other, link.holds, ◌>>=◌, link.next_is, it) refl;
            some_at = some_c;
            apart = λ e. apart (sym e);
            before = record {
              node = link.node;
              holds = link.holds;
              parent = link.parent;
              next_is = link.next_is ∙ next_node;
            };
            chain = λ after n found there keep.
                let n_next : f.next ≡ n.next_sibling =
                  Link-next {nodes = nodes} next_node f.link
                    (record { node = n; holds = found; parent = refl; next_is = refl }) in
                let tail = frame f.chain λ a m i l.
                  keep a m (has-apart a c f.rest i out_rest)
                    (λ e. has-apart a next f.rest i f.out (e ∙ sym next_node)) l in
                subst (λ l. Chain after p c l) (rw (away, f.all, node_next) refl)
                  (cons some_c there out_rest (subst (λ x. Chain after p x f.rest) n_next tail));
          }
      | inr it ↦
          let r =
            find-Before rounds nodes p node next cs some_node (ground (arith, it))
              (ground (arith, is_in, apart)) (omega (arith, few)) rest in
          let other : (c == 0) ≡ false = ground (arith, some_c) in
          let away : (node == c) ≡ false = ground (arith, apart) in
          let not_at : c ≢ r.at = λ e. absurd (ground (arith, it, Link-next e link r.before)) in
          record {
            at = r.at;
            stops = rw (before_loop, other, link.holds, ◌>>=◌, link.next_is, it) r.stops;
            some_at = r.some_at;
            apart = r.apart;
            before = r.before;
            chain = λ after n found there keep.
                subst (λ l. Chain after p c l) (rw away refl)
                  (cons some_c (keep c next not_at (λ e. apart (sym e)) link)
                    (has-erase c node cs out) (r.chain after n found there keep));
          }
    ]
