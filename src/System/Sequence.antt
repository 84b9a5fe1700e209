-- ===== src/System/Sequence.antt =====
-- Without another step in between, `create_task` and a report are the steps of their commits, one after
-- another.
use batch_shutdown_assistant.Prelude.{
  ℕ, String, Bool, true, false, ◌≡◌, ◌≢◌, refl, Option, some, List, [], ◌∷◌, select, arith, eq_iff,
  ok, scalar_one_or_none,
}
use batch_shutdown_assistant.Models.{TaskType, TaskResult, task_type_of}
use batch_shutdown_assistant.World.{World}
use batch_shutdown_assistant.Tasks.{
  TaskCreate, has_result_id, is_known, pending_results, open_task, dispatch_all, close_task,
  audit_task_create, run_task, run_known, create_task,
}
use batch_shutdown_assistant.Sockets.{
  Message, Report, receive, receive_for, report_found, report_result,
}
use batch_shutdown_assistant.System.{
  Added, Flight, Told, Server, begin_task, run_added, settle_flight, finish_task, hear_found,
  hear_for, hear, inform, tell,
}

-- A server with no handler under way.
abbrev idle : World → Server
idle w = record {
  world = w;
  added = [];
  flights = [];
  closing = [];
  reports = [];
  interrupted = [];
}

-- With a task type that is accepted, `create_task` leaves the tasks, the results, the devices and the
-- sockets as its four steps do.
create_task-finish_task :
    {t : TaskType} (dumps : Option String → List String → String) (delivers : ℕ → Bool)
    (uuid : ℕ → String) (now : ℕ) (username : String) (payload : TaskCreate) (w : World)
    → task_type_of payload.task_type ≡ some t
    → let w' = (create_task dumps delivers uuid now username payload w).1 in
      let rows =
        pending_results uuid 1 (uuid 0) (select (is_known w.db.devices) payload.device_ids) in
      let a : Added = record {
        task_id = uuid 0;
        task_type = t;
        params = payload.params;
        rows = rows;
      } in
      let f : Flight = record {
        task_id = uuid 0;
        outcomes = (dispatch_all delivers t payload.params rows w.manager).0;
      } in
      let sent = run_added delivers a [] (begin_task uuid now t payload (idle w)) in
      let u = (finish_task f [] (settle_flight now f [] sent)).world in
      (w'.db.tasks ≡ u.db.tasks)
      × (w'.db.results ≡ u.db.results)
      × (w'.db.devices ≡ u.db.devices)
      × (w'.manager ≡ u.manager)
unfolding create_task run_known run_task begin_task run_added settle_flight finish_task open_task
    close_task audit_task_create
create_task-finish_task dumps delivers uuid now username payload w h = rw h (refl, refl, refl, refl)

-- A message that names a result leaves the world as its three steps do.
receive-tell :
    (loads : String → Option Report) (delivers : ℕ → Bool) (now : ℕ) (device_id : String)
    (msg : Message) (w : World) (k : String) {r : TaskResult}
    → msg.command_id ≡ some k
    → k ≢ ""
    → scalar_one_or_none (select (has_result_id k) w.db.results) ≡ ok (some r)
    → let p : Told = record {
      device_id = device_id;
      command_id = k;
      msg = msg;
      task_id = r.task_id;
      informed = false;
    } in
      let heard = hear now device_id msg (idle w) in
      (heard.reports ≡ p ∷ [])
      × (receive loads delivers now device_id msg w
          ≡ (tell delivers
              (record p { informed = true })
              []
              (inform loads now p [] [] heard)).world)
unfolding receive receive_for report_found report_result hear hear_for hear_found inform tell
receive-tell loads delivers now device_id msg w k named set found =
    rw (named, found) (ground (arith, eq_iff k "", set))
