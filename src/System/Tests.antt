-- ===== src/System/Tests.antt =====
-- A run of the server: a device is created and connects, a task is begun for it, the agent reports
-- before the outcomes are committed, and once more after the commit.
use Prim.Native.String as Text
use batch_shutdown_assistant.Prelude.{
  ℕ, zero, suc, ◌≡◌, refl, ap, String, len, true, false, none, some, [], ◌∷◌, any_row, num_eq,
  arith, lookup, insert,
}
use batch_shutdown_assistant.Models.{TaskType, new_device}
use batch_shutdown_assistant.Manager.{connect_agent, send_command, send_on}
use batch_shutdown_assistant.Tasks.{
  TaskCreate, has_task_id, has_result_id, of_task, pending_results, dispatch_all, settle_all,
  sent_count,
}
use batch_shutdown_assistant.Tasks.Lifecycle.{cancel_task, cancel_found, cancel_rows}
use batch_shutdown_assistant.Sockets.{
  Message, open_socket, may_open, token_equal, mark, write_result, limit_output, store_sysinfo,
  store_report, sync_parent_task, sync_with, final_status,
}
use batch_shutdown_assistant.Inventory.{DeviceFields, create_device, audit_device}
use batch_shutdown_assistant.System.{
  Added, Flight, Told, Server, started, begin_task, run_added, settle_flight, finish_task, hear,
  hear_for, hear_found, inform, tell, Outside, Reach, create, connect, begin, run, report, store,
  sync, settle, finish, here, next,
}
use batch_shutdown_assistant.System.Rows.{has_ended, is_ended}
use batch_shutdown_assistant.System.Busy.{is_opening, is_busy}
use batch_shutdown_assistant.System.Reachable.{IsSound, Reach-IsSound, ended_tasks_stay_ended}
use batch_shutdown_assistant.System.Progress.{Sent, run_reports, reported_task_ends}

abbrev outside : Outside
outside = record {
  config = record { enroll_secret = "s3"; secret_key = "key" };
  loads = λ _. none;
  delivers = λ ws. num_eq ws 1;
}

abbrev uuid : ℕ → String
uuid zero = "u"
uuid (suc n) = Text.◌∷◌ "u" (uuid n)

len-uuid : (n : ℕ) → len (uuid n) ≡ suc n
len-uuid zero = refl
len-uuid (suc n) = ap suc (len-uuid n)

uuid_injective : (i j : ℕ) → uuid i ≡ uuid j → i ≡ j
uuid_injective i j e = omega (arith, len-uuid i, len-uuid j, ap len e)

abbrev fields : DeviceFields
fields = record { hostname = some "PC-1"; ip = none; group_name = none }

abbrev request : TaskCreate
request = record { task_type = "reboot"; device_ids = "d1" ∷ []; params = none }

abbrev created : Server
created = record started {
  world = record started.world {
    db = (create_device "d1" "t1" "a1" 1 "admin" fields started.world.db).1;
  };
}

abbrev connected : Server
connected = record created { world = (open_socket 2 "d1" "t1" 1 created.world).1 }

abbrev begun : Server
begun = begin_task uuid 3 TaskType.reboot request connected

abbrev waiting : Added
waiting = record {
  task_id = "u";
  task_type = TaskType.reboot;
  params = none;
  rows = pending_results uuid 1 "u" ("d1" ∷ []);
}

abbrev running : Server
running = run_added outside.delivers waiting [] begun

abbrev done : Message
done = record { command_id = some "uu"; status = some "success"; output = some "ok" }

abbrev told : Told
told = record { device_id = "d1"; command_id = "uu"; msg = done; task_id = "u"; informed = false }

abbrev heard : Server
heard = hear 4 "d1" done running

abbrev informed : Server
informed = inform outside.loads 4 told [] [] heard

abbrev reported : Server
reported = tell outside.delivers (record told { informed = true }) [] informed

abbrev flight : Flight
flight = record { task_id = "u"; outcomes = ("uu", true) ∷ [] }

abbrev settled : Server
settled = settle_flight 5 flight [] reported

abbrev committed : Server
committed = finish_task flight [] settled

no_results : (i : ℕ) → any_row (has_result_id (uuid i)) connected.world.db.results ≡ false
unfolding open_socket may_open token_equal create_device audit_device new_device
no_results i = refl

no_task : any_row (has_task_id (uuid 0)) connected.world.db.tasks ≡ false
unfolding open_socket may_open token_equal create_device audit_device new_device
no_task = refl

begun-Reach : Reach outside started begun
begun-Reach =
    next (next (next here (create "d1" "t1" "a1" 1 "admin" fields refl)) (connect 2 "d1" "t1" 1))
      (begin uuid 3 TaskType.reboot request uuid_injective no_results no_task)

is_added : begun.added ≡ waiting ∷ []
unfolding begin_task open_socket may_open token_equal mark create_device audit_device new_device
is_added = refl

running-Reach : Reach outside started running
running-Reach = next begun-Reach (run [] [] waiting is_added)

is_told : heard.reports ≡ told ∷ []
unfolding hear hear_for hear_found run_added begin_task dispatch_all pending_results send_command
    send_on open_socket may_open token_equal mark connect_agent create_device audit_device
    new_device lookup insert
is_told = refl

is_informed : informed.reports ≡ record told { informed = true } ∷ []
unfolding inform
is_informed = refl

reported-Reach : Reach outside started reported
reported-Reach =
    next (next (next running-Reach (report 4 "d1" done)) (store 4 [] [] told is_told refl))
      (sync [] [] (record told { informed = true }) is_informed refl)

in_flight : reported.flights ≡ flight ∷ []
unfolding tell inform hear hear_for hear_found run_added begin_task dispatch_all pending_results
    send_command send_on open_socket may_open token_equal mark connect_agent create_device
    audit_device new_device lookup insert
in_flight = refl

is_closing : settled.closing ≡ flight ∷ []
unfolding settle_flight tell inform hear hear_for hear_found run_added begin_task dispatch_all
    pending_results send_command send_on open_socket may_open token_equal mark connect_agent
    create_device audit_device new_device lookup insert
is_closing = refl

committed-Reach : Reach outside started committed
committed-Reach =
    next (next reported-Reach (settle 5 [] [] flight in_flight)) (finish [] [] flight is_closing)

-- The early report completed the task.
completes : has_ended "u" reported.world.db.tasks ≡ true
unfolding begin_task run_added hear hear_for hear_found inform tell dispatch_all pending_results
    send_command send_on open_socket may_open token_equal mark connect_agent create_device
    audit_device new_device lookup insert write_result limit_output store_sysinfo store_report
    sync_parent_task sync_with final_status is_ended
completes = refl

task_there : any_row (has_task_id "u") reported.world.db.tasks ≡ true
unfolding begin_task run_added hear hear_for hear_found inform tell dispatch_all pending_results
    send_command send_on open_socket may_open token_equal mark connect_agent create_device
    audit_device new_device lookup insert write_result limit_output store_sysinfo store_report
    sync_parent_task sync_with final_status
task_there = refl

past_start : is_opening "u" reported ≡ false
unfolding begin_task run_added hear hear_for hear_found inform tell dispatch_all pending_results
    send_command send_on open_socket may_open token_equal mark connect_agent create_device
    audit_device new_device lookup insert
past_start = refl

-- A cancellation between the first two commits of `create_task` is written over by the second.
cancelled_runs :
    let s = record begun {
      world = record begun.world { db = (cancel_task "a2" 4 "admin" "u" begun.world.db).1 };
    } in
    (has_ended "u" s.world.db.tasks ≡ true)
    × (has_ended "u" (run_added outside.delivers waiting [] s).world.db.tasks ≡ false)
unfolding begin_task run_added dispatch_all pending_results send_command send_on open_socket
    may_open token_equal mark connect_agent create_device audit_device new_device lookup insert
    cancel_task cancel_found cancel_rows is_ended
cancelled_runs = (refl, refl)

Reach-IsSound_example : IsSound committed
Reach-IsSound_example = Reach-IsSound committed-Reach

ended_tasks_stay_ended_example :
    (any_row (has_task_id "u") committed.world.db.tasks ≡ true)
    × (has_ended "u" committed.world.db.tasks ≡ true)
ended_tasks_stay_ended_example =
    ended_tasks_stay_ended "u" reported-Reach
      (next (next here (settle 5 [] [] flight in_flight)) (finish [] [] flight is_closing))
      task_there completes past_start

-- The run without the early report.
abbrev sent_only : Server
sent_only = settle_flight 5 flight [] running

in_flight_still : running.flights ≡ flight ∷ []
unfolding run_added begin_task dispatch_all pending_results send_command send_on open_socket
    may_open token_equal mark connect_agent create_device audit_device new_device lookup insert
in_flight_still = refl

sent_only-Reach : Reach outside started sent_only
sent_only-Reach = next running-Reach (settle 5 [] [] flight in_flight_still)

result_there : any_row (of_task "u") sent_only.world.db.results ≡ true
unfolding settle_flight run_added begin_task pending_results open_socket may_open token_equal mark
    create_device audit_device new_device settle_all sent_count
result_there = refl

not_busy : is_busy "u" sent_only ≡ false
unfolding settle_flight run_added begin_task dispatch_all pending_results send_command send_on
    open_socket may_open token_equal mark connect_agent create_device audit_device new_device lookup
    insert sent_count
not_busy = refl

abbrev last : Sent
last = record { now = 6; device_id = "d1"; msg = done }

reported_task_ends_example :
    has_ended "u" (run_reports outside (last ∷ []) sent_only).world.db.tasks ≡ true
unfolding settle_flight run_added begin_task pending_results open_socket may_open token_equal mark
    create_device audit_device new_device settle_all sent_count
reported_task_ends_example =
    reported_task_ends "u" (last ∷ []) sent_only-Reach result_there refl refl not_busy
