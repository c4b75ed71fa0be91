-- ===== src/Init/Sched/Create.antt =====
-- init/init_sched.c: the creation of tasks, on a heap that is a parameter, and the questions about them.
-- The frame on a new task's stack is for `context_switch`, and is left out with it.
pub mod Query
use zythos.Base.{
  ℕ, zero, suc, ◌+◌, ◌-◌, ◌*◌, ◌/◌, ◌%◌, ◌^◌, ◌≤◌, ◌<◌, ◌≡◌, refl, sym, ap, ◌∙◌, ◌≢◌, ◌↔◌, ◌⊎◌, inl,
  inr, Bool, true, false, not, ◌&&◌, ◌||◌, Option, none, some, List, [], ◌∷◌, ◌++◌, map, arith, ltb,
  leb, ◌==◌, if◌then◌else◌, add32, ◌>>=◌, Bool-cases, Option-cases, ==_iff, ==-refl, length,
  get_elem?, get_or, set, take, drop, replicate, length-append, length-set, get_or-set_self,
  get_or-set_ne,
}
use zythos.Mm.Calls.{HeapCalls}
use zythos.Init.Calls.{TaskInfo, TaskCalls}
use zythos.Init.State.{TaskState, ready, running}
use zythos.Init.Sched.{Task, Sched, find_task, sys_yield}

abbrev pub task_stack_size : ℕ
task_stack_size = 8192

-- `sizeof(task_t)`
abbrev pub sizeof_task : ℕ
sizeof_task = 32

-- The scheduler, `g_next_id`, and the heap.
pub record Tasks (H : Type 0) : Type 0 where
  pub sched : Sched
  pub g_next_id : ℕ
  pub heap : H

-- A task has an identifier below `g_next_id`; `none` is INVALID_TASK_ID.
unfoldable pub sys_query_task : {H : Type 0} → Option ℕ → Tasks H → Option TaskInfo
sys_query_task none s = none
sys_query_task (some tid) s =
    (find_task s.sched.g_task_list tid >>= λ t.
    some (record { id = t.id; state = t.state; priority = t.priority }))

module _ {H : Type 0} (calls : HeapCalls H) where
  pub sys_sched_init : Tasks H → Tasks H
  sys_sched_init s =
      let (boot, heap) = calls.kmalloc sizeof_task s.heap in
      let task : Task = record {
        address = boot;
        id = 0;
        state = running;
        priority = 0;
        wake_tick = 0;
      } in
      record {
        sched = record s.sched { g_current_task = boot; g_task_list = task ∷ [] };
        g_next_id = 1;
        heap = heap;
      }

  unfoldable pub sys_create_task : ℕ → Tasks H → Option ℕ × Tasks H
  sys_create_task prio s =
      let (t, heap) = calls.kmalloc sizeof_task s.heap in
      let (stack_base, both) = calls.kmalloc task_stack_size heap in
      let task : Task = record {
        address = t;
        id = s.g_next_id;
        state = ready;
        priority = prio;
        wake_tick = 0;
      } in
      if t == 0
      then (none, record s { heap = heap })
      else if stack_base == 0
      then (none, record s { heap = calls.kfree t both })
      else (
        some s.g_next_id,
        record {
          sched = record s.sched { g_task_list = task ∷ s.sched.g_task_list };
          g_next_id = s.g_next_id + 1;
          heap = both;
        },
      )

  -- The functions that init.c and initlib.c call.
  abbrev pub task_calls : TaskCalls (Tasks H)
  task_calls = record {
    sys_query_task = sys_query_task;
    sys_create_task = sys_create_task;
    sys_yield = λ s. record s { sched = sys_yield s.sched };
  }
