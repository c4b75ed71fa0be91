-- ===== src/Init/Tests.antt =====
-- The theorems on init/ at three tasks of one priority, of which the first runs.
use zythos.Base.{◌≡◌, refl, ◌⊎◌, inl, List, [], ◌∷◌, arith}
use zythos.Base.{ℕ, ◌+◌, ◌≢◌, some}
use zythos.Mm.Calls.{HeapCalls}
use zythos.Init.State.{ready, running, dead}
use zythos.Init.Calls.{TaskInfo, TaskLaws}
use zythos.Init.Sched.Create.{Tasks, sys_create_task, sys_query_task, task_calls}
use zythos.Init.Sched.Create.Query.{Given, task_calls-TaskLaws}
use zythos.Init.Watchdog.{
  Supervisor, watchdog_ok, watchdog_dead, init_main_round, initlib_check_task_health,
}
use zythos.Init.Watchdog.Revive.{round-revives}
use zythos.Init.Sched.{Task, Sched}
use zythos.Init.Sched.Yield.{yields, sleeps, exits, take_turns, IsSound, take_turns-IsSound}
use zythos.Init.Sched.Starve as Starve
use zythos.Init.Sched.Starve.{task, yields-two}

abbrev tasks : List Task
tasks = task 100 1 running 5 0 ∷ task 200 2 ready 5 0 ∷ task 300 3 ready 5 0 ∷ []

abbrev three : Sched
three = record { g_current_task = 100; g_task_list = tasks; g_sched_ticks = 7 }

take_turns-IsSound_example : IsSound (take_turns (yields ∷ sleeps 3 ∷ exits ∷ []) three)
take_turns-IsSound_example =
    take_turns-IsSound (yields ∷ sleeps 3 ∷ exits ∷ []) three
      ((λ _. refl), ((λ run. absurd (cc run)), ((λ run. absurd (cc run)), tt)))

yields-two_example :
    ((Starve.yields 50 three).g_current_task ≡ 100)
    ⊎ ((Starve.yields 50 three).g_current_task ≡ 200)
yields-two_example =
    yields-two 50 100 200 5 three (omega arith)
      (1, 2, 0, 0, 7, task 300 3 ready 5 0 ∷ [], (omega arith, tt), inl refl)

-- A heap that never ends, by the address of what it gives next.
abbrev calls : HeapCalls ℕ
calls = record { kmalloc = λ size next. (next, next + size); kfree = λ p next. next }

task_calls-TaskLaws_example : TaskLaws (task_calls calls) Given
task_calls-TaskLaws_example = task_calls-TaskLaws calls

-- The supervisor's own task and a console that has ended.
abbrev ended : Tasks ℕ
ended = record {
  sched = record {
    g_current_task = 100;
    g_task_list = task 200 1 dead 1 0 ∷ task 100 0 running 0 0 ∷ [];
    g_sched_ticks = 7;
  };
  g_next_id = 2;
  heap = 4096;
}

abbrev console : TaskInfo
console = record { id = 1; state = dead; priority = 1 }

abbrev supervisor : Supervisor (Tasks ℕ)
supervisor = record { tid = some 1; s = console; ticks = 10; world = ended }

abbrev one : ℕ
one = 1

round-revives_example :
    let y = init_main_round (task_calls calls) supervisor in
    (y.tid ≡ some 2)
    × (one ≢ 2)
    × Given y.world
    × (initlib_check_task_health (task_calls calls) y.tid y.world ≡ watchdog_ok)
    × (initlib_check_task_health (task_calls calls) (some 1) y.world ≡ watchdog_dead)
unfolding sys_create_task sys_query_task
round-revives_example =
    round-revives (task_calls calls) Given (task_calls-TaskLaws calls) supervisor 1 2 console
      (sys_create_task calls 1 ended).1 (omega arith, (omega arith, tt)) refl refl refl refl
      (λ e. absurd (omega (arith, e)))
