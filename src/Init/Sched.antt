-- ===== src/Init/Sched.antt =====
-- init/init_sched.c: the cooperative scheduler. The chain of tasks is a list, its head first, and a
-- task's address is a field of it. What `context_switch` does to the stacks is left out.
pub mod Pick
pub mod Yield
pub mod Starve
pub mod Create
use zythos.Base.{
  ℕ, zero, suc, ◌+◌, ◌-◌, ◌*◌, ◌/◌, ◌%◌, ◌^◌, ◌≤◌, ◌<◌, ◌≡◌, refl, sym, ap, ◌∙◌, ◌≢◌, ◌↔◌, ◌⊎◌, inl,
  inr, Bool, true, false, not, ◌&&◌, ◌||◌, Option, none, some, List, [], ◌∷◌, ◌++◌, map, arith, ltb,
  leb, ◌==◌, if◌then◌else◌, add32, ◌>>=◌, Bool-cases, Option-cases, ==_iff, ==-refl, length,
  get_elem?, get_or, set, take, drop, replicate, length-append, length-set, get_or-set_self,
  get_or-set_ne,
}
use zythos.Init.State.{TaskState, ready, running, blocked, dead}

pub record Task : Type 0 where
  pub address : ℕ
  pub id : ℕ
  pub state : TaskState
  pub priority : ℕ
  pub wake_tick : ℕ

pub record Sched : Type 0 where
  pub g_current_task : ℕ
  pub g_task_list : List Task
  pub g_sched_ticks : ℕ

abbrev pub is_ready : TaskState → Bool
is_ready ready = true
is_ready running = false
is_ready blocked = false
is_ready dead = false

abbrev pub is_running : TaskState → Bool
is_running running = true
is_running ready = false
is_running blocked = false
is_running dead = false

abbrev pub is_blocked : TaskState → Bool
is_blocked blocked = true
is_blocked ready = false
is_blocked running = false
is_blocked dead = false

-- A blocked task whose time has come is ready.
abbrev pub wake : ℕ → Task → Task
wake ticks t = if is_blocked t.state && leb t.wake_tick ticks then record t { state = ready } else t

-- `!best || t->priority > best->priority`
abbrev pub better : Option Task → Task → Bool
better none t = true
better (some best) t = ltb best.priority t.priority

-- `best` after `t` has been looked at.
abbrev pub consider : ℕ → Option Task → Task → Option Task
consider current best t =
    if not (is_ready t.state) && not (t.address == current)
    then best
    else if t.address == current
    then best
    else if is_ready t.state && better best t
    then some t
    else best

abbrev pub pick_loop : ℕ → ℕ → Option Task → List Task → Option Task × List Task
pick_loop ticks current best [] = (best, [])
pick_loop ticks current best (t ∷ ts) =
    let woken = wake ticks t in
    let (picked, rest) = pick_loop ticks current (consider current best woken) ts in
    (picked, woken ∷ rest)

abbrev pub address_of : Option Task → ℕ → ℕ
address_of none current = current
address_of (some t) current = t.address

pub pick_next : Sched → ℕ × Sched
pick_next s =
    let (best, tasks) = pick_loop s.g_sched_ticks s.g_current_task none s.g_task_list in
    (address_of best s.g_current_task, record s { g_task_list = tasks })

-- The stores to `prev->state` and `next->state`.
abbrev pub hand_over : ℕ → ℕ → Task → Task
hand_over prev next t =
    let left =
      (if (t.address == prev) && is_running t.state then record t { state = ready } else t) in
    if left.address == next then record left { state = running } else left

pub sys_yield : Sched → Sched
sys_yield s =
    let ticked = record s { g_sched_ticks = add32 s.g_sched_ticks 1 } in
    let (next, picked) = pick_next ticked in
    let prev = s.g_current_task in
    if next == prev then picked else record picked {
      g_task_list = map (hand_over prev next) picked.g_task_list;
      g_current_task = next;
    }

-- A store to the current task, through `g_current_task`.
abbrev pub at_current : ℕ → (Task → Task) → List Task → List Task
at_current current f ts = map (λ t. if t.address == current then f t else t) ts

pub sys_sleep : ℕ → Sched → Sched
sys_sleep ms s = sys_yield (record s {
  g_task_list =
      at_current s.g_current_task
        (λ t. record t { wake_tick = add32 s.g_sched_ticks ms; state = blocked }) s.g_task_list;
})

-- Up to the endless loop.
pub sys_task_exit : Sched → Sched
sys_task_exit s = sys_yield (record s {
  g_task_list = at_current s.g_current_task (λ t. record t { state = dead }) s.g_task_list;
})

abbrev pub find_task : List Task → ℕ → Option Task
find_task [] id = none
find_task (t ∷ ts) id = if t.id == id then some t else find_task ts id
