-- ===== src/Init/Sched/Starve.antt =====
-- init/init_sched.c with tasks of the same priority.
use mathlib.Core.Path.{subst}
use zythos.Base.{
  ℕ, zero, suc, ◌≤◌, ◌≡◌, refl, sym, ap, ◌∙◌, ◌≢◌, ◌⊎◌, inl, inr, false, ◌&&◌, some, List, [], ◌∷◌,
  ◌++◌, map, arith, ◌==◌, add32, Bool-cases, ==-refl,
}
use zythos.Init.State.{TaskState, ready, running}
use zythos.Init.Sched.{Task, Sched, is_running, wake, pick_loop, hand_over, sys_yield}
use zythos.Init.Sched.Yield.{yielded, sys_yield-yielded}
use zythos.Base.{none}
use zythos.Init.Sched.Pick.{pick_loop-some, woken_lem}

abbrev pub task : ℕ → ℕ → TaskState → ℕ → ℕ → Task
task address id state priority wake_tick = record {
  address = address;
  id = id;
  state = state;
  priority = priority;
  wake_tick = wake_tick;
}

-- No task of the list has a higher priority.
abbrev pub AllAtMost : ℕ → List Task → Type 0
AllAtMost p [] = Unit
AllAtMost p (t ∷ ts) = (t.priority ≤ p) × AllAtMost p ts

wake-priority : (ticks : ℕ) (t : Task) → (wake ticks t).priority ≡ t.priority
wake-priority ticks t = ground arith

hand_over-priority : (prev next : ℕ) (t : Task) → (hand_over prev next t).priority ≡ t.priority
hand_over-priority prev next t = elim (Bool-cases ((t.address == prev) && is_running t.state)) [
  | inl left ↦ elim (Bool-cases (t.address == next)) [
    | inl here ↦ rw (left, here) refl
    | inr away ↦ rw (left, away) refl
  ]
  | inr stays ↦ elim (Bool-cases (t.address == next)) [
    | inl here ↦ rw (stays, here) refl
    | inr away ↦ rw (stays, away) refl
  ]
]

AllAtMost-map :
    (p : ℕ) (f : Task → Task) (ts : List Task)
    → ((t : Task) → (f t).priority ≡ t.priority)
    → AllAtMost p ts
    → AllAtMost p (map f ts)
AllAtMost-map p f [] same all = tt
AllAtMost-map p f (t ∷ ts) same (le, all) =
    (omega (arith, same t, le), AllAtMost-map p f ts same all)

member-AtMost :
    (p : ℕ) (before : List Task) (b : Task) (behind : List Task)
    → AllAtMost p (before ++ b ∷ behind)
    → b.priority ≤ p
member-AtMost p [] b behind (le, _) = le
member-AtMost p (t ∷ before) b behind (_, all) = member-AtMost p before b behind all

-- The tasks behind do not beat one of priority `p`.
unbeaten :
    (ticks current : ℕ) (a : Task) (ts : List Task)
    → AllAtMost a.priority ts
    → pick_loop ticks current (some a) ts ≡ (some a, map (wake ticks) ts)
unbeaten ticks current a ts all =
    let (b, found, how) = pick_loop-some ticks current a ts in
    let same = woken_lem ticks current (some a) ts in
    let woken : AllAtMost a.priority (pick_loop ticks current (some a) ts).1 =
      subst (AllAtMost a.priority) (sym same)
        (AllAtMost-map a.priority (wake ticks) ts (wake-priority ticks) all) in
    elim how [
      | inl (is_a, _) ↦ cc (found, is_a, same)
      | inr (more, best) ↦ absurd (
          omega (
            arith,
            more,
            member-AtMost a.priority best.before b best.behind
                (subst (AllAtMost a.priority) best.splits woken),
          ))
    ]

-- One of the two in front is current and the other is ready.
abbrev pub first_runs : ℕ → ℕ → ℕ → ℕ → ℕ → ℕ → ℕ → ℕ → List Task → Sched
first_runs a b i j p w v ticks rest = record {
  g_current_task = a;
  g_task_list = task a i running p w ∷ task b j ready p v ∷ rest;
  g_sched_ticks = ticks;
}

abbrev pub second_runs : ℕ → ℕ → ℕ → ℕ → ℕ → ℕ → ℕ → ℕ → List Task → Sched
second_runs a b i j p w v ticks rest = record {
  g_current_task = b;
  g_task_list = task a i ready p w ∷ task b j running p v ∷ rest;
  g_sched_ticks = ticks;
}

yield_first_picks :
    (a b i j p w v ticks : ℕ) (rest : List Task)
    → (a == b) ≡ false
    → (b == a) ≡ false
    → AllAtMost p rest
    → pick_loop ticks a none (task a i running p w ∷ task b j ready p v ∷ rest) ≡ (
      some (task b j ready p v),
      task a i running p w ∷ task b j ready p v ∷ map (wake ticks) rest,
    )
yield_first_picks a b i j p w v ticks rest ab ba all =
    rw (==-refl a, ba, unbeaten ticks a (task b j ready p v) rest all) refl

yield_first_hands_over :
    (a b i j p w v ticks : ℕ) (rest : List Task) (s : Sched)
    → (a == b) ≡ false
    → (b == a) ≡ false
    → s.g_current_task ≡ a
    → yielded
        (record s { g_current_task = a })
        ticks
        (some (task b j ready p v), task a i running p w ∷ task b j ready p v ∷ rest)
      ≡ second_runs a b i j p w v ticks (map (hand_over a b) rest)
yield_first_hands_over a b i j p w v ticks rest s ab ba is = rw (ba, ==-refl a, ab, ==-refl b) refl

yield_first :
    (a b i j p w v ticks : ℕ) (rest : List Task)
    → a ≢ b
    → AllAtMost p rest
    → (later : List Task) × (sys_yield (first_runs a b i j p w v ticks rest)
        ≡ second_runs a b i j p w v (add32 ticks 1) later)
      × AllAtMost p later
yield_first a b i j p w v ticks rest ne all =
    let ab : (a == b) ≡ false = ground (arith, ne) in
    let ba : (b == a) ≡ false = ground (arith, ne) in
    let t = add32 ticks 1 in
    let s = first_runs a b i j p w v ticks rest in
    (
      map (hand_over a b) (map (wake t) rest),
      sys_yield-yielded s
          ∙ ap (yielded s t) (yield_first_picks a b i j p w v t rest ab ba all)
          ∙ yield_first_hands_over a b i j p w v t (map (wake t) rest) s ab ba refl,
      AllAtMost-map p (hand_over a b) _ (hand_over-priority a b)
          (AllAtMost-map p (wake t) rest (wake-priority t) all),
    )

yield_second_picks :
    (a b i j p w v ticks : ℕ) (rest : List Task)
    → (a == b) ≡ false
    → (b == a) ≡ false
    → AllAtMost p rest
    → pick_loop ticks b none (task a i ready p w ∷ task b j running p v ∷ rest) ≡ (
      some (task a i ready p w),
      task a i ready p w ∷ task b j running p v ∷ map (wake ticks) rest,
    )
yield_second_picks a b i j p w v ticks rest ab ba all =
    rw (ab, ==-refl b, unbeaten ticks b (task a i ready p w) rest all) refl

yield_second_hands_over :
    (a b i j p w v ticks : ℕ) (rest : List Task) (s : Sched)
    → (a == b) ≡ false
    → (b == a) ≡ false
    → s.g_current_task ≡ b
    → yielded
        (record s { g_current_task = b })
        ticks
        (some (task a i ready p w), task a i ready p w ∷ task b j running p v ∷ rest)
      ≡ first_runs a b i j p w v ticks (map (hand_over b a) rest)
yield_second_hands_over a b i j p w v ticks rest s ab ba is = rw (ab, ==-refl b, ba, ==-refl a) refl

yield_second :
    (a b i j p w v ticks : ℕ) (rest : List Task)
    → a ≢ b
    → AllAtMost p rest
    → (later : List Task) × (sys_yield (second_runs a b i j p w v ticks rest)
        ≡ first_runs a b i j p w v (add32 ticks 1) later)
      × AllAtMost p later
yield_second a b i j p w v ticks rest ne all =
    let ab : (a == b) ≡ false = ground (arith, ne) in
    let ba : (b == a) ≡ false = ground (arith, ne) in
    let t = add32 ticks 1 in
    let s = second_runs a b i j p w v ticks rest in
    (
      map (hand_over b a) (map (wake t) rest),
      sys_yield-yielded s
          ∙ ap (yielded s t) (yield_second_picks a b i j p w v t rest ab ba all)
          ∙ yield_second_hands_over a b i j p w v t (map (wake t) rest) s ab ba refl,
      AllAtMost-map p (hand_over b a) _ (hand_over-priority b a)
          (AllAtMost-map p (wake t) rest (wake-priority t) all),
    )

abbrev pub yields : ℕ → Sched → Sched
yields zero s = s
yields (suc n) s = yields n (sys_yield s)

-- The tasks `a` and `b` in front, of which one runs, have priority `p`, and no other has a higher one.
abbrev pub TwoInFront : ℕ → ℕ → ℕ → Sched → Type 0
TwoInFront a b p s =
    (i j w v ticks : ℕ) × (rest : List Task) × AllAtMost p rest
    × ((s ≡ first_runs a b i j p w v ticks rest) ⊎ (s ≡ second_runs a b i j p w v ticks rest))

two_stay : (a b p : ℕ) (s : Sched) → a ≢ b → TwoInFront a b p s → TwoInFront a b p (sys_yield s)
two_stay a b p s ne (i, j, w, v, ticks, rest, all, inl is) =
    let (later, run, all') = yield_first a b i j p w v ticks rest ne all in
    (i, j, w, v, add32 ticks 1, later, all', inr (ap sys_yield is ∙ run))
two_stay a b p s ne (i, j, w, v, ticks, rest, all, inr is) =
    let (later, run, all') = yield_second a b i j p w v ticks rest ne all in
    (i, j, w, v, add32 ticks 1, later, all', inl (ap sys_yield is ∙ run))

-- When two tasks stand in front of the chain, one running and one ready, with the same priority, and
-- no task behind has a higher one, then however often tasks yield, the current task is always one of
-- the two: the tasks of the same priority behind them never run.
pub yields-two :
    (n a b p : ℕ) (s : Sched)
    → a ≢ b
    → TwoInFront a b p s
    → ((yields n s).g_current_task ≡ a) ⊎ ((yields n s).g_current_task ≡ b)
yields-two zero a b p s ne (i, j, w, v, ticks, rest, all, inl is) =
    inl (ap (λ t. t.g_current_task) is)
yields-two zero a b p s ne (i, j, w, v, ticks, rest, all, inr is) =
    inr (ap (λ t. t.g_current_task) is)
yields-two (suc n) a b p s ne two = yields-two n a b p (sys_yield s) ne (two_stay a b p s ne two)
