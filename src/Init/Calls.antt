-- ===== src/Init/Calls.antt =====
-- What init/init.c and init/initlib.c use of the scheduler, by init/include/sys_call.h, and what they rely
-- on. `none` is INVALID_TASK_ID.
use zythos.Base.{ℕ, ◌≡◌, ◌≢◌, Option, some}
use zythos.Init.State.{TaskState, ready}

pub record TaskInfo : Type 0 where
  pub id : ℕ
  pub state : TaskState
  pub priority : ℕ

pub record TaskCalls (W : Type 0) : Type 0 where
  pub sys_query_task : Option ℕ → W → Option TaskInfo
  pub sys_create_task : ℕ → W → Option ℕ × W
  pub sys_yield : W → W

-- A task that is created is ready, and every other task is what it was.
pub record TaskLaws {W : Type 0} (calls : TaskCalls W) (IsWorld : W → Type 0) : Type 0 where
  pub created :
      (prio tid : ℕ) (w v : W)
      → IsWorld w
      → calls.sys_create_task prio w ≡ (some tid, v)
      → IsWorld v
        × (calls.sys_query_task (some tid) v
            ≡ some (record { id = tid; state = ready; priority = prio }))
  pub kept :
      (prio tid other : ℕ) (w v : W) (info : TaskInfo)
      → IsWorld w
      → calls.sys_create_task prio w ≡ (some tid, v)
      → calls.sys_query_task (some other) w ≡ some info
      → (other ≢ tid) × (calls.sys_query_task (some other) v ≡ some info)
