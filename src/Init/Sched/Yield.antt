-- ===== src/Init/Sched/Yield.antt =====
-- `sys_yield` of init/init_sched.c, and the marks of the tasks.
use mathlib.Core.Path.{subst}
use zythos.Base.{
  ℕ, ◌≡◌, refl, sym, ap, ◌∙◌, ◌⊎◌, inl, inr, true, false, ◌&&◌, Option, none, List, [], ◌∷◌, map,
  arith, leb, ◌==◌, if◌then◌else◌, add32, Bool-cases, ==_iff, ==-refl,
}
use zythos.Init.Sched.{
  Task, Sched, is_running, is_blocked, wake, pick_loop, pick_next, address_of, hand_over,
  at_current, sys_yield, sys_sleep, sys_task_exit,
}
use zythos.Init.Sched.Pick.{is_candidate, NoCandidate, IsBest, Finds, pick_loop-none, woken_lem}

-- `sys_yield` from the result of the loop.
abbrev pub yielded : Sched → ℕ → Option Task × List Task → Sched
yielded s ticks (best, tasks) =
    let next = address_of best s.g_current_task in
    if next == s.g_current_task
    then record s { g_task_list = tasks; g_sched_ticks = ticks }
    else record {
      g_current_task = next;
      g_task_list = map (hand_over s.g_current_task next) tasks;
      g_sched_ticks = ticks;
    }

pub sys_yield-yielded :
    (s : Sched)
    → let ticks = add32 s.g_sched_ticks 1 in
      sys_yield s ≡ yielded s ticks (pick_loop ticks s.g_current_task none s.g_task_list)
unfolding sys_yield pick_next
sys_yield-yielded s = refl

candidate-other :
    (current : ℕ) (b : Task) → is_candidate current b ≡ true → (b.address == current) ≡ false
candidate-other current b one = ground (arith, one)

yield-cases :
    (s : Sched) (ticks : ℕ) (r : Option Task × List Task)
    → Finds s.g_current_task r
    → let current = s.g_current_task in
      (NoCandidate current r.1
        × (yielded s ticks r ≡ record s { g_task_list = r.1; g_sched_ticks = ticks }))
      ⊎ ((b : Task) × IsBest current r.1 b
          × (yielded s ticks r ≡ record {
            g_current_task = b.address;
            g_task_list = map (hand_over current b.address) r.1;
            g_sched_ticks = ticks;
          }))
yield-cases s ticks (best, tasks) (inl (none_found, all)) =
    inl (all, ap (λ o. yielded s ticks (o, tasks)) none_found ∙ rw (==-refl s.g_current_task) refl)
yield-cases s ticks (best, tasks) (inr (b, found, is)) =
    let other = candidate-other s.g_current_task b is.candidate in
    inr (b, is, ap (λ o. yielded s ticks (o, tasks)) found ∙ rw other refl)

-- `sys_yield` counts a tick and wakes the blocked tasks whose time has come. If then no other task is
-- ready, that is all, and the current task goes on whatever its own state is. Otherwise the first of
-- the ready tasks with the highest priority becomes the current one and is marked as running, and the
-- task before it, if it was running, is marked as ready.
pub sys_yield_lem :
    (s : Sched)
    → let current = s.g_current_task in
      let ticks = add32 s.g_sched_ticks 1 in
      let woken = map (wake ticks) s.g_task_list in
      (NoCandidate current woken
        × (sys_yield s ≡ record s { g_task_list = woken; g_sched_ticks = ticks }))
      ⊎ ((b : Task) × IsBest current woken b
          × (sys_yield s ≡ record {
            g_current_task = b.address;
            g_task_list = map (hand_over current b.address) woken;
            g_sched_ticks = ticks;
          }))
sys_yield_lem s =
    let current = s.g_current_task in
    let ticks = add32 s.g_sched_ticks 1 in
    let r = pick_loop ticks current none s.g_task_list in
    let same = woken_lem ticks current none s.g_task_list in
    let found : Finds current (r.0, map (wake ticks) s.g_task_list) =
      subst (λ ts. Finds current (r.0, ts)) same (pick_loop-none ticks current s.g_task_list) in
    let start : sys_yield s ≡ yielded s ticks (r.0, map (wake ticks) s.g_task_list) =
      sys_yield-yielded s ∙ ap (λ ts. yielded s ticks (r.0, ts)) same in
    elim (yield-cases s ticks (r.0, map (wake ticks) s.g_task_list) found) [
      | inl (all, run) ↦ inl (all, start ∙ run)
      | inr (b, is, run) ↦ inr (b, is, start ∙ run)
    ]

-- No task but the one at `current` is marked as running.
abbrev pub OnlyRunning : ℕ → List Task → Type 0
OnlyRunning current [] = Unit
OnlyRunning current (t ∷ ts) =
    (is_running t.state ≡ true → t.address ≡ current) × OnlyRunning current ts

wake-one :
    (ticks current : ℕ) (t : Task)
    → (is_running t.state ≡ true → t.address ≡ current)
    → is_running (wake ticks t).state ≡ true
    → (wake ticks t).address ≡ current
wake-one ticks current t one = elim (Bool-cases (is_blocked t.state && leb t.wake_tick ticks)) [
  | inl due ↦ rw due (λ run. absurd (cc run))
  | inr rests ↦ rw rests one
]

wake-OnlyRunning :
    (ticks current : ℕ) (ts : List Task)
    → OnlyRunning current ts
    → OnlyRunning current (map (wake ticks) ts)
wake-OnlyRunning ticks current [] all = tt
wake-OnlyRunning ticks current (t ∷ ts) (one, all) =
    (wake-one ticks current t one, wake-OnlyRunning ticks current ts all)

hand_over-one :
    (current next : ℕ) (t : Task)
    → (is_running t.state ≡ true → t.address ≡ current)
    → is_running (hand_over current next t).state ≡ true
    → (hand_over current next t).address ≡ next
hand_over-one current next t one =
    elim (Bool-cases ((t.address == current) && is_running t.state)) [
      | inl left ↦ elim (Bool-cases (t.address == next)) [
        | inl here ↦ rw (left, here) (λ _. (==_iff t.address next).0 here)
        | inr away ↦ rw (left, away) (λ run. absurd (cc run))
      ]
      | inr stays ↦ elim (Bool-cases (t.address == next)) [
        | inl here ↦ rw (stays, here) (λ _. (==_iff t.address next).0 here)
        | inr away ↦ rw (stays, away) (λ run. absurd (ground (arith, stays, one run, run)))
      ]
    ]

hand_over-OnlyRunning :
    (current next : ℕ) (ts : List Task)
    → OnlyRunning current ts
    → OnlyRunning next (map (hand_over current next) ts)
hand_over-OnlyRunning current next [] all = tt
hand_over-OnlyRunning current next (t ∷ ts) (one, all) =
    (hand_over-one current next t one, hand_over-OnlyRunning current next ts all)

at_current-OnlyRunning :
    (current : ℕ) (f : Task → Task) (ts : List Task)
    → ((t : Task) → (f t).address ≡ t.address)
    → OnlyRunning current ts
    → OnlyRunning current (at_current current f ts)
at_current-OnlyRunning current f [] same all = tt
at_current-OnlyRunning current f (t ∷ ts) same (one, all) =
    let rest = at_current-OnlyRunning current f ts same all in
    elim (Bool-cases (t.address == current)) [
      | inl here ↦ rw here ((λ _. same t ∙ (==_iff t.address current).0 here), rest)
      | inr away ↦ rw away (one, rest)
    ]

-- What a task can do with the processor.
pub data Turn : Type 0 where
  yields : Turn
  sleeps : ℕ → Turn
  exits : Turn

abbrev pub take_turn : Turn → Sched → Sched
take_turn yields s = sys_yield s
take_turn (sleeps ms) s = sys_sleep ms s
take_turn exits s = sys_task_exit s

abbrev pub take_turns : List Turn → Sched → Sched
take_turns [] s = s
take_turns (t ∷ ts) s = take_turns ts (take_turn t s)

abbrev pub IsSound : Sched → Type 0
IsSound s = OnlyRunning s.g_current_task s.g_task_list

sys_yield-IsSound : (s : Sched) → IsSound s → IsSound (sys_yield s)
sys_yield-IsSound s sound =
    let current = s.g_current_task in
    let ticks = add32 s.g_sched_ticks 1 in
    let woken = wake-OnlyRunning ticks current s.g_task_list sound in
    elim (sys_yield_lem s) [
      | inl (_, run) ↦ subst IsSound (sym run) woken
      | inr (b, _, run) ↦
          subst IsSound (sym run)
            (hand_over-OnlyRunning current b.address (map (wake ticks) s.g_task_list) woken)
    ]

take_turn-IsSound : (t : Turn) (s : Sched) → IsSound s → IsSound (take_turn t s)
unfolding sys_sleep sys_task_exit
take_turn-IsSound yields s sound = sys_yield-IsSound s sound
take_turn-IsSound (sleeps ms) s sound =
    sys_yield-IsSound _ (at_current-OnlyRunning s.g_current_task _ s.g_task_list (λ t. refl) sound)
take_turn-IsSound exits s sound =
    sys_yield-IsSound _ (at_current-OnlyRunning s.g_current_task _ s.g_task_list (λ t. refl) sound)

-- Whatever the tasks do in their turns, whether they yield, sleep or exit, no task but the current one
-- is marked as running, if it is so at the start.
pub take_turns-IsSound : (ts : List Turn) (s : Sched) → IsSound s → IsSound (take_turns ts s)
take_turns-IsSound [] s sound = sound
take_turns-IsSound (t ∷ ts) s sound =
    take_turns-IsSound ts (take_turn t s) (take_turn-IsSound t s sound)
