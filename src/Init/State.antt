-- ===== src/Init/State.antt =====
-- The states of a task, of init/include/sys_types.h.
pub data TaskState : Type 0 where
  ready : TaskState
  running : TaskState
  blocked : TaskState
  dead : TaskState
