-- ===== src/Init/Sched/Pick.antt =====
-- The choice of `pick_next` in init/init_sched.c.
use mathlib.Core.Path.{subst}
use zythos.Base.{
  refl, sym, ◌∙◌, ap, inl, inr, ◌⊎◌, arith, ltb, Bool-cases, map, ◌<◌, ◌≤◌, [], ◌∷◌, ◌++◌, some,
  none, if◌then◌else◌, ◌⊎◌, ap, ◌<◌, ltb, inr, Bool-cases, inl, ℕ, ◌≤◌, ◌≡◌, Bool, true, false, not,
  ◌&&◌, Option, some, List, [], ◌∷◌, ◌++◌, arith, ◌==◌, if◌then◌else◌,
}
use zythos.Init.Sched.{wake, pick_loop, Task, is_ready, consider, better}

-- Another task that can run.
abbrev pub is_candidate : ℕ → Task → Bool
is_candidate current t = is_ready t.state && not (t.address == current)

-- The candidates of the list have at most this priority.
abbrev pub AtMost : ℕ → ℕ → List Task → Type 0
AtMost current p [] = Unit
AtMost current p (t ∷ ts) = (is_candidate current t ≡ true → t.priority ≤ p) × AtMost current p ts

-- The candidates of the list have less than this priority.
abbrev pub Below : ℕ → ℕ → List Task → Type 0
Below current p [] = Unit
Below current p (t ∷ ts) = (is_candidate current t ≡ true → t.priority < p) × Below current p ts

abbrev pub NoCandidate : ℕ → List Task → Type 0
NoCandidate current [] = Unit
NoCandidate current (t ∷ ts) = (is_candidate current t ≡ false) × NoCandidate current ts

-- The first of the candidates with the highest priority.
pub record IsBest (current : ℕ) (ts : List Task) (b : Task) : Type 0 where
  pub before : List Task
  pub behind : List Task
  pub splits : ts ≡ before ++ b ∷ behind
  pub candidate : is_candidate current b ≡ true
  pub lower : Below current b.priority before
  pub highest : AtMost current b.priority behind

consider-not :
    (current : ℕ) (best : Option Task) (t : Task)
    → is_candidate current t ≡ false
    → consider current best t ≡ best
consider-not current best t no_one = ground arith

consider-candidate :
    (current : ℕ) (best : Option Task) (t : Task)
    → is_candidate current t ≡ true
    → consider current best t ≡ (if better best t then some t else best)
consider-candidate current best t one = ground arith

IsBest-cons :
    {current : ℕ} {ts : List Task} {b : Task} (t : Task)
    → (is_candidate current t ≡ true → t.priority < b.priority)
    → IsBest current ts b
    → IsBest current (t ∷ ts) b
IsBest-cons t lower best = record {
  before = t ∷ best.before;
  behind = best.behind;
  splits = ap (λ ts. t ∷ ts) best.splits;
  candidate = best.candidate;
  lower = (lower, best.lower);
  highest = best.highest;
}

-- A loop that has found `a` before keeps it or finds a better one.
abbrev Improves : ℕ → Task → Option Task × List Task → Type 0
Improves current a (picked, woken) =
    (b : Task) × (picked ≡ some b)
    × (((b ≡ a) × AtMost current a.priority woken)
        ⊎ ((a.priority < b.priority) × IsBest current woken b))

-- A task in front that is no better changes nothing.
keep :
    {current : ℕ} {a : Task} (u : Task) (r : Option Task × List Task)
    → (is_candidate current u ≡ true → u.priority ≤ a.priority)
    → Improves current a r
    → Improves current a (r.0, u ∷ r.1)
keep u r le (b, found, inl (same, all)) = (b, found, inl (same, (le, all)))
keep u r le (b, found, inr (more, best)) =
    (b, found, inr (more, IsBest-cons u (λ one. omega (arith, le one)) best))

-- A candidate in front that nothing behind it beats is the best; one that is beaten is lower.
front :
    {current : ℕ} (u : Task) (r : Option Task × List Task)
    → is_candidate current u ≡ true
    → Improves current u r
    → (b : Task) × (r.0 ≡ some b) × (u.priority ≤ b.priority) × IsBest current (u ∷ r.1) b
front {current} u r one (b, found, inl (same, all)) = (
  u,
  found ∙ ap (λ t. some t) same,
  omega arith,
  record { before = []; behind = r.1; splits = refl; candidate = one; lower = tt; highest = all },
)
front u r one (b, found, inr (more, best)) =
    (b, found, omega (arith, more), IsBest-cons u (λ _. more) best)

replaced :
    {current : ℕ} {a : Task} (u : Task) (r : Option Task × List Task)
    → a.priority < u.priority
    → is_candidate current u ≡ true
    → Improves current u r
    → Improves current a (r.0, u ∷ r.1)
replaced u r more one found =
    let (b, same, le, best) = front u r one found in (b, same, inr (omega (arith, more, le), best))

step : ℕ → ℕ → Option Task → Task → List Task → Option Task × List Task
step ticks current best t ts =
    ((pick_loop ticks current best ts).0, t ∷ (pick_loop ticks current best ts).1)

pub pick_loop-some :
    (ticks current : ℕ) (a : Task) (ts : List Task)
    → Improves current a (pick_loop ticks current (some a) ts)
unfolding step
pick_loop-some ticks current a [] = (a, refl, inl (refl, tt))
pick_loop-some ticks current a (t ∷ ts) =
    let u = wake ticks t in
    let P = λ (best : Option Task). Improves current a (step ticks current best u ts) in
    elim (Bool-cases (is_candidate current u)) [
      | inr no_one ↦ subst P (sym (consider-not current (some a) u no_one)) (
          keep u (pick_loop ticks current (some a) ts) (λ one. absurd (cc (no_one, one)))
            (pick_loop-some ticks current a ts))
      | inl one ↦ elim (Bool-cases (ltb a.priority u.priority)) [
        | inl more ↦
            let taken : consider current (some a) u ≡ some u =
              consider-candidate current (some a) u one ∙ rw more refl in
            subst P (sym taken) (
              replaced u (pick_loop ticks current (some u) ts) (ground (arith, more)) one
                (pick_loop-some ticks current u ts))
        | inr less ↦
            let left : consider current (some a) u ≡ some a =
              consider-candidate current (some a) u one ∙ rw less refl in
            subst P (sym left) (
              keep u (pick_loop ticks current (some a) ts) (λ _. ground (arith, less))
                (pick_loop-some ticks current a ts))
      ]
    ]

-- A loop that has found nothing before.
abbrev pub Finds : ℕ → Option Task × List Task → Type 0
Finds current (picked, woken) =
    ((picked ≡ none) × NoCandidate current woken)
    ⊎ ((b : Task) × (picked ≡ some b) × IsBest current woken b)

nothing :
    {current : ℕ} (u : Task) (r : Option Task × List Task)
    → is_candidate current u ≡ false
    → Finds current r
    → Finds current (r.0, u ∷ r.1)
nothing u r no_one (inl (stays, all)) = inl (stays, (no_one, all))
nothing u r no_one (inr (b, found, best)) =
    inr (b, found, IsBest-cons u (λ one. absurd (cc (no_one, one))) best)

pub pick_loop-none :
    (ticks current : ℕ) (ts : List Task) → Finds current (pick_loop ticks current none ts)
unfolding step
pick_loop-none ticks current [] = inl (refl, tt)
pick_loop-none ticks current (t ∷ ts) =
    let u = wake ticks t in
    let P = λ (best : Option Task). Finds current (step ticks current best u ts) in
    elim (Bool-cases (is_candidate current u)) [
      | inr no_one ↦
          subst P (sym (consider-not current none u no_one))
            (nothing u (pick_loop ticks current none ts) no_one (pick_loop-none ticks current ts))
      | inl one ↦
          let (b, found, _, best) =
            front u (pick_loop ticks current (some u) ts) one (pick_loop-some ticks current u ts) in
          subst P (sym (consider-candidate current none u one)) (inr (b, found, best))
    ]

pub woken_lem :
    (ticks current : ℕ) (best : Option Task) (ts : List Task)
    → (pick_loop ticks current best ts).1 ≡ map (wake ticks) ts
woken_lem ticks current best [] = refl
woken_lem ticks current best (t ∷ ts) =
    ap (λ us. wake ticks t ∷ us) (woken_lem ticks current (consider current best (wake ticks t)) ts)
