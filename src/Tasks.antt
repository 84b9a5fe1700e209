-- ===== src/Tasks.antt =====
-- server/api/task_routes.py: tasks, their dispatch to the agents, cancellation and the timeout of
-- upgrades. `create_task` commits four times: the task with its results, its start, the outcomes of
-- the sends, and its failure if there were none. Here its parts run without another handler between
-- them; System takes them apart.
pub mod Lifecycle
pub mod Dispatch
pub mod Creation
pub mod Cancel
pub mod Timeout
pub mod Views
pub mod Addresses
mod Tests
use batch_shutdown_assistant.Prelude.{
  ℕ, suc, ◌+◌, ◌*◌, String, concat, len, decimal, Bool, true, false, not, ◌||◌, ◌&&◌, Option, none,
  some, List, [], ◌∷◌, ◌++◌, length, select, update_where, any_row, ltb, num_eq, is_some, Result,
  ok, err, http, scalar_one_or_none, ◌>>=◌, ◌==◌, if◌then◌else◌,
}
use batch_shutdown_assistant.Models.{
  Device, Task, TaskResult, TaskType, TaskStatus, task_type_of, task_type_value, Db,
}
use batch_shutdown_assistant.Devices.{has_id}
use batch_shutdown_assistant.Manager.{Command, Manager, send_command}
use batch_shutdown_assistant.Audit.{log_audit}
use batch_shutdown_assistant.World.{World}

-- A second in microseconds.
abbrev pub second : ℕ
second = 1000000

abbrev pub upgrade_timeout_seconds : ℕ
upgrade_timeout_seconds = 300

-- The parameters are the JSON text of the dict; `none` stands for `None` and for an empty dict,
-- which the code does not tell apart.
pub record TaskCreate : Type 0 where
  pub task_type : String
  pub device_ids : List String
  pub params : Option String

abbrev pub has_task_id : String → Task → Bool
has_task_id id t = t.id == id

abbrev pub has_result_id : String → TaskResult → Bool
has_result_id id r = r.id == id

abbrev pub of_task : String → TaskResult → Bool
of_task id r = r.task_id == id

abbrev pub set_status : TaskStatus → Task → Task
set_status status t = record t { status = status }

-- `did in existing_ids`
abbrev pub is_known : List Device → String → Bool
is_known devices did = any_row (has_id did) devices

-- One `TaskResult` for each valid id; its own id is the next result of `uuid4()`.
unfoldable pub pending_results : (ℕ → String) → ℕ → String → List String → List TaskResult
pending_results uuid i task_id [] = []
pending_results uuid i task_id (did ∷ dids) =
    record {
      id = uuid i;
      task_id = task_id;
      device_id = did;
      status = "pending";
      output = none;
      started_at = none;
      finished_at = none;
    }
    ∷ pending_results uuid (i + 1) task_id dids

-- The first commit: the task, which is pending, and its results.
abbrev pub add_task : (ℕ → String) → ℕ → TaskType → TaskCreate → List String → Db → Db
add_task uuid now task_type payload valid_ids db = record db {
  tasks =
      db.tasks
      ++ record {
        id = uuid 0;
        task_type = task_type;
        status = TaskStatus.pending;
        params = payload.params;
        created_at = now;
      }
        ∷ [];
  results = db.results ++ pending_results uuid 1 (uuid 0) valid_ids;
}

-- The second commit: the task runs, whatever its row says by then.
abbrev pub start_task : String → Db → Db
start_task task_id db = record db {
  tasks = update_where (has_task_id task_id) (set_status TaskStatus.running) db.tasks;
}

-- The two commits, with nothing between them.
unfoldable pub open_task : (ℕ → String) → ℕ → TaskType → TaskCreate → List String → Db → Db
unfolding pending_results
open_task uuid now task_type payload valid_ids db =
    start_task (uuid 0) (add_task uuid now task_type payload valid_ids db)

-- The outcome of a dispatch: the id of the result, and whether the command was sent.
abbrev pub Outcome : Type 0
Outcome = String × Bool

-- `params or {}`
abbrev pub command_params : Option String → String
command_params none = "{}"
command_params (some p) = p

-- The second step: `_dispatch` on each result. The semaphore bounds how many run at once; each
-- dispatch is one `send_command`.
unfoldable pub dispatch_all :
    (ℕ → Bool) → TaskType → Option String → List TaskResult → Manager → List Outcome × Manager
dispatch_all delivers task_type params [] m = ([], m)
dispatch_all delivers task_type params (tr ∷ trs) m =
    let (success, m') =
      send_command delivers tr.device_id
        (record { id = tr.id; action = task_type_value task_type; params = command_params params })
        m in
    let (outcomes, m'') = dispatch_all delivers task_type params trs m' in
    ((tr.id, success) ∷ outcomes, m'')

-- The columns that `_dispatch` sets on its result, flushed by the commit after all of them.
unfoldable pub settle : ℕ → Bool → TaskResult → TaskResult
settle now true tr = record tr { status = "sent"; started_at = some now }
settle now false tr = record tr {
  status = "failed";
  output = some "Agent offline";
  finished_at = some now;
}

unfoldable pub settle_all : ℕ → List Outcome → List TaskResult → List TaskResult
unfolding settle
settle_all now [] results = results
settle_all now ((id, success) ∷ outcomes) results =
    settle_all now outcomes (update_where (has_result_id id) (settle now success) results)

unfoldable pub sent_count : List Outcome → ℕ
sent_count [] = 0
sent_count ((id, success) ∷ outcomes) = let n = sent_count outcomes in if success then n + 1 else n

-- The third commit: what the dispatches set.
abbrev pub settle_task : ℕ → List Outcome → Db → Db
settle_task now outcomes db = record db { results = settle_all now outcomes db.results }

-- The fourth: the task fails if nothing was sent.
abbrev pub fail_task : String → List Outcome → Db → Db
fail_task task_id outcomes db = record db {
  tasks =
      if num_eq (sent_count outcomes) 0
      then update_where (has_task_id task_id) (set_status TaskStatus.failed) db.tasks
      else db.tasks;
}

-- The last two commits, with nothing between them.
unfoldable pub close_task : ℕ → String → List Outcome → Db → Db
unfolding settle_all sent_count
close_task now task_id outcomes db = fail_task task_id outcomes (settle_task now outcomes db)

-- The audit entry of a created task; `dumps` is `json.dumps` of the parameters and the skipped ids.
unfoldable pub audit_task_create :
    (Option String → List String → String)
    → String
    → ℕ
    → String
    → TaskCreate
    → List String
    → List String
    → Db
    → Db
unfolding log_audit
audit_task_create dumps fresh now username payload valid_ids skipped_ids db = record db {
  audits =
      log_audit fresh now "task_create"
        (record {
          username = some username;
          target = some (
              concat payload.task_type
                (concat ":" (concat (decimal (length valid_ids)) " devices")));
          detail =
              if is_some payload.params || ltb 0 (length skipped_ids)
              then some (dumps payload.params skipped_ids)
              else none;
          ip_address = none;
        })
        db.audits;
}

module _ (dumps : Option String → List String → String) (delivers : ℕ → Bool) (uuid : ℕ → String)
    (now : ℕ) (username : String) where
  -- `create_task` for a task type that `TaskType` accepts. The id of the task is the first
  -- `uuid4()`, those of the results follow, and that of the audit entry is the last.
  unfoldable pub run_task : TaskType → TaskCreate → World → Result TaskStatus × World
  unfolding open_task dispatch_all close_task audit_task_create
  run_task task_type payload w =
      let valid_ids = select (is_known w.db.devices) payload.device_ids in
      let skipped_ids = select (λ did. not (is_known w.db.devices did)) payload.device_ids in
      let opened = open_task uuid now task_type payload valid_ids w.db in
      let (outcomes, m) =
        dispatch_all delivers task_type payload.params (pending_results uuid 1 (uuid 0) valid_ids)
          w.manager in
      let closed = close_task now (uuid 0) outcomes opened in
      (
        ok (if num_eq (sent_count outcomes) 0 then TaskStatus.failed else TaskStatus.running),
        record {
          db =
              audit_task_create dumps (uuid (length valid_ids + 1)) now username payload valid_ids
                skipped_ids closed;
          manager = m;
        },
      )

  -- `create_task` on the value of `TaskType(payload.task_type)`
  unfoldable pub run_known : Option TaskType → TaskCreate → World → Result TaskStatus × World
  unfolding run_task
  run_known none payload w = (err (http 400 (concat "不支持的任务类型: " payload.task_type)), w)
  run_known (some task_type) payload w = run_task task_type payload w

  -- `POST /api/tasks`: the status of the task that is answered, and the next world.
  unfoldable pub create_task : TaskCreate → World → Result TaskStatus × World
  unfolding run_known
  create_task payload w = run_known (task_type_of payload.task_type) payload w
