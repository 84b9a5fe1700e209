-- ===== src/Models/Values.antt =====
-- The values of `TaskType` and its call on a text.
use batch_shutdown_assistant.Prelude.{String, ◌≡◌, refl, some, arith, eq_iff}
use batch_shutdown_assistant.Models.{TaskType, task_type_value, task_type_of}

-- `TaskType(t.value)` is `t`, for every task type.
pub task_type_of-value : (t : TaskType) → task_type_of (task_type_value t) ≡ some t
unfolding task_type_of task_type_value
task_type_of-value TaskType.sysprep = refl
task_type_of-value _ = refl

-- A text that `TaskType(s)` accepts is the value of the type that it returns.
pub value-task_type_of :
    (s : String) (t : TaskType) → task_type_of s ≡ some t → task_type_value t ≡ s
unfolding task_type_of task_type_value
value-task_type_of s t h = ground (
  arith,
  eq_iff s "sysprep",
  eq_iff s "sysprep_reboot",
  eq_iff s "shutdown",
  eq_iff s "reboot",
  eq_iff s "status",
  eq_iff s "upgrade",
  eq_iff s "file_push",
  eq_iff s "hostmsg",
  eq_iff s "sysinfo",
)
