-- ===== src/Init/Watchdog.antt =====
-- init/init.c and init/initlib.c: the supervisor of the console task. The texts it prints are left out.
pub mod Revive
use zythos.Base.{
  ℕ, zero, suc, ◌+◌, ◌-◌, ◌*◌, ◌/◌, ◌%◌, ◌^◌, ◌≤◌, ◌<◌, ◌≡◌, refl, sym, ap, ◌∙◌, ◌≢◌, ◌↔◌, ◌⊎◌, inl,
  inr, Bool, true, false, not, ◌&&◌, ◌||◌, Option, none, some, List, [], ◌∷◌, ◌++◌, map, arith, ltb,
  leb, ◌==◌, if◌then◌else◌, add32, ◌>>=◌, Bool-cases, Option-cases, ==_iff, ==-refl, length,
  get_elem?, get_or, set, take, drop, replicate, length-append, length-set, get_or-set_self,
  get_or-set_ne,
}
use zythos.Init.State.{TaskState, ready, running, blocked, dead}
use zythos.Init.Calls.{TaskInfo, TaskCalls}

abbrev pub is_dead : TaskState → Bool
is_dead dead = true
is_dead s = false

abbrev pub is_running : TaskState → Bool
is_running running = true
is_running s = false

pub data Health : Type 0 where
  watchdog_ok watchdog_dead watchdog_err : Health

-- The variables of `init_main`, with what the calls change.
pub record Supervisor (W : Type 0) : Type 0 where
  pub tid : Option ℕ
  pub s : TaskInfo
  pub ticks : ℕ
  pub world : W

module _ {W : Type 0} (calls : TaskCalls W) where
  pub initlib_check_task_health : Option ℕ → W → Health
  initlib_check_task_health tid w = elim (calls.sys_query_task tid w) [
    | none ↦ watchdog_err
    | some info ↦ if is_dead info.state then watchdog_dead else watchdog_ok
  ]

  pub initlib_respawn_console : W → Option ℕ × W
  initlib_respawn_console w = calls.sys_create_task 1 w

  -- Before the loop, with what stands in `s` then.
  pub init_main_start : TaskInfo → W → Supervisor W
  init_main_start garbage w =
      let (tid, v) = calls.sys_create_task 1 w in
      record { tid = tid; s = garbage; ticks = 0; world = v }

  -- `sys_yield` if the condition holds.
  abbrev pub yield_if : Bool → W → W
  yield_if b w = if b then calls.sys_yield w else w

  -- `s` after the question.
  abbrev pub seen : Option TaskInfo → TaskInfo → TaskInfo
  seen none s = s
  seen (some info) s = info

  -- A round of the loop.
  pub init_main_round : Supervisor W → Supervisor W
  init_main_round x =
      let ticks = add32 x.ticks 1 in
      let s = seen (calls.sys_query_task x.tid x.world) x.s in
      let (new, v) = calls.sys_create_task 1 x.world in
      let world = if is_dead s.state then v else x.world in
      record {
        tid = (if is_dead s.state then new else x.tid);
        s = s;
        ticks = ticks;
        world =
            yield_if (ticks % 50 == 0) (yield_if (is_running s.state && (ticks % 100 == 0)) world);
      }
