-- ===== src/Init/Watchdog/Revive.antt =====
-- What the supervisor of init/init.c does for a console that has ended.
use zythos.Base.{ℕ, ◌%◌, ◌≡◌, refl, ap, ◌≢◌, true, false, some, arith, ◌==◌, add32}
use zythos.Init.State.{dead}
use zythos.Init.Calls.{TaskInfo, TaskCalls, TaskLaws}
use zythos.Init.Watchdog.{
  is_dead, is_running, watchdog_ok, watchdog_dead, Supervisor, initlib_check_task_health,
  init_main_round,
}

module _ {W : Type 0} (calls : TaskCalls W) (IsWorld : W → Type 0)
    (laws : TaskLaws calls IsWorld) where
  round-steps :
      (x : Supervisor W) (new : ℕ) (info : TaskInfo) (v : W)
      → calls.sys_query_task x.tid x.world ≡ some info
      → info.state ≡ dead
      → calls.sys_create_task 1 x.world ≡ (some new, v)
      → (add32 x.ticks 1 % 50 == 0) ≡ false
      → init_main_round calls x
        ≡ record { tid = some new; s = info; ticks = add32 x.ticks 1; world = v }
  unfolding init_main_round
  round-steps x new info v found ended created tick =
      let dead_now : is_dead info.state ≡ true = ap is_dead ended in
      let stopped : is_running info.state ≡ false = ap is_running ended in
      rw (init_main_round, found, dead_now, stopped, created, tick) refl

  -- In a round that is not the 50th, the supervisor whose console has ended starts a new one, if a task
  -- can be created: it watches the new task from then on, which is another one and in good health. The
  -- old task is not removed: it is still there, and dead.
  pub round-revives :
      (x : Supervisor W) (old new : ℕ) (info : TaskInfo) (v : W)
      → IsWorld x.world
      → x.tid ≡ some old
      → calls.sys_query_task (some old) x.world ≡ some info
      → info.state ≡ dead
      → calls.sys_create_task 1 x.world ≡ (some new, v)
      → add32 x.ticks 1 % 50 ≢ 0
      → let y = init_main_round calls x in
        (y.tid ≡ some new)
        × (old ≢ new)
        × IsWorld y.world
        × (initlib_check_task_health calls y.tid y.world ≡ watchdog_ok)
        × (initlib_check_task_health calls (some old) y.world ≡ watchdog_dead)
  unfolding initlib_check_task_health
  round-revives x old new info v is watched asked ended created tick =
      let (is', fresh) = laws.created 1 new x.world v is created in
      let (apart, still) = laws.kept 1 new old x.world v info is created asked in
      let found : calls.sys_query_task x.tid x.world ≡ some info = rw watched asked in
      let run = round-steps x new info v found ended created (ground (arith, tick)) in
      let dead_now : is_dead info.state ≡ true = ap is_dead ended in
      rw run (
        refl,
        apart,
        is',
        rw (initlib_check_task_health, fresh) refl,
        rw (initlib_check_task_health, still, dead_now) refl,
      )
