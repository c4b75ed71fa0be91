-- ===== src/Init/Sched/Create/Query.antt =====
-- What `sys_query_task` of init/init_sched.c says of tasks that are created.
use mathlib.Core.Path.{subst}
use mathlib.Core.Option.{some-injective}
use zythos.Base.{
  ℕ, ◌+◌, ◌<◌, ◌≡◌, refl, sym, ap, ◌≢◌, inl, inr, false, Option, some, List, [], ◌∷◌, arith, ◌==◌,
  ◌>>=◌, Bool-cases, Option-cases, ==_iff, ==-refl,
}
use zythos.Base.{if_either}
use zythos.Mm.Calls.{HeapCalls}
use zythos.Init.State.{ready}
use zythos.Init.Calls.{TaskInfo, TaskLaws}
use zythos.Init.Sched.{Task, find_task}
use zythos.Init.Sched.Create.{
  Tasks, sys_sched_init, sys_query_task, sys_create_task, sizeof_task, task_stack_size, task_calls,
}

-- All identifiers are below `n`.
abbrev pub Below : ℕ → List Task → Type 0
Below n [] = Unit
Below n (t ∷ ts) = (t.id < n) × Below n ts

-- The tasks have identifiers that have been given out.
abbrev pub Given : {H : Type 0} → Tasks H → Type 0
Given s = Below s.g_next_id s.sched.g_task_list

Below-next : (n : ℕ) (ts : List Task) → Below n ts → Below (n + 1) ts
Below-next n [] below = tt
Below-next n (t ∷ ts) (this, below) = (omega (arith, this), Below-next n ts below)

find_task-Below :
    (n id : ℕ) (ts : List Task) (t : Task) → Below n ts → find_task ts id ≡ some t → id < n
find_task-Below n id [] t below found = absurd (cc found)
find_task-Below n id (x ∷ ts) t (this, below) found = elim (Bool-cases (x.id == id)) [
  | inl here ↦ omega (arith, this, (==_iff x.id id).0 here)
  | inr away ↦ find_task-Below n id ts t below (rw away at found)
]

-- So it is from the start on.
sys_sched_init-Given :
    {H : Type 0} (calls : HeapCalls H) (s : Tasks H) → Given (sys_sched_init calls s)
unfolding sys_sched_init
sys_sched_init-Given calls s = (omega arith, tt)

-- The task that `sys_create_task` adds.
abbrev added : ℕ → ℕ → ℕ → Task
added a id prio = record { address = a; id = id; state = ready; priority = prio; wake_tick = 0 }

record IsCreated {H : Type 0} (prio tid : ℕ) (s v : Tasks H) : Type 0 where
  same_id : tid ≡ s.g_next_id
  next_id : v.g_next_id ≡ s.g_next_id + 1
  address : ℕ
  tasks : v.sched.g_task_list ≡ added address s.g_next_id prio ∷ s.sched.g_task_list

module _ {H : Type 0} (calls : HeapCalls H) where
  create-IsCreated :
      (prio tid : ℕ) (s v : Tasks H)
      → sys_create_task calls prio s ≡ (some tid, v)
      → IsCreated prio tid s v
  unfolding sys_create_task
  create-IsCreated prio tid s v =
      let (t, heap) = calls.kmalloc sizeof_task s.heap in
      let (stack_base, both) = calls.kmalloc task_stack_size heap in
      if_either (λ (r : Option ℕ × Tasks H). r ≡ (some tid, v) → IsCreated prio tid s v) (t == 0)
        (λ _ e. absurd (cc (ap (λ r. r.0) e)))
        (λ _.
          if_either (λ (r : Option ℕ × Tasks H). r ≡ (some tid, v) → IsCreated prio tid s v)
            (stack_base == 0) (λ _ e. absurd (cc (ap (λ r. r.0) e)))
            (λ _ e. record {
              same_id = sym (some-injective _ _ (ap (λ r. r.0) e));
              next_id = sym (ap (λ (r : Option ℕ × Tasks H). r.1.g_next_id) e);
              address = t;
              tasks = sym (ap (λ (r : Option ℕ × Tasks H). r.1.sched.g_task_list) e);
            }))

  query-created :
      (prio tid : ℕ) (s v : Tasks H)
      → IsCreated prio tid s v
      → sys_query_task (some tid) v ≡ some (record { id = tid; state = ready; priority = prio })
  unfolding sys_query_task
  query-created prio tid s v is = rw (is.tasks, is.same_id, ==-refl s.g_next_id, ◌>>=◌) refl

  query-kept :
      (prio tid other : ℕ) (s v : Tasks H) (info : TaskInfo)
      → Given s
      → IsCreated prio tid s v
      → sys_query_task (some other) s ≡ some info
      → (other ≢ tid) × (sys_query_task (some other) v ≡ some info)
  unfolding sys_query_task
  query-kept prio tid other s v info given is asked =
      elim (Option-cases (find_task s.sched.g_task_list other)) [
        | inl missing ↦ absurd (cc (rw (missing, ◌>>=◌) at asked))
        | inr (t, found) ↦
            let low = find_task-Below s.g_next_id other s.sched.g_task_list t given found in
            let apart : (s.g_next_id == other) ≡ false = ground (arith, low) in
            ((λ e. absurd (omega (arith, low, e, is.same_id))), rw (is.tasks, apart) asked)
      ]

  -- The scheduler keeps what the supervisor relies on: while the identifiers of all tasks are ones that
  -- have been given out, a task that `sys_create_task` creates is ready and of the priority asked for,
  -- no earlier task has its identifier, and what `sys_query_task` says of the earlier ones stays.
  pub task_calls-TaskLaws : TaskLaws (task_calls calls) Given
  task_calls-TaskLaws = record {
    created = λ prio tid s v given run.
        let is = create-IsCreated prio tid s v run in
        (
          subst (λ n. Below n v.sched.g_task_list) (sym is.next_id)
              (subst (Below (s.g_next_id + 1)) (sym is.tasks)
                (omega arith, Below-next s.g_next_id s.sched.g_task_list given)),
          query-created prio tid s v is,
        );
    kept = λ prio tid other s v info given run.
        query-kept prio tid other s v info given (create-IsCreated prio tid s v run);
  }
