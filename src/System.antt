-- ===== src/System.antt =====
-- The server as a whole: its state and the steps that requests, sockets and loops make of it, in any
-- order. A handler that commits tasks or results more than once is a step for each of its commits, so
-- that other steps, and a stop of the server, may come between them.
pub mod Rows
pub mod Moves
pub mod Reported
pub mod Commit
pub mod Opening
pub mod Tables
pub mod Imports
pub mod Handlers
pub mod Unmoved
pub mod Connections
pub mod Busy
pub mod Commits
pub mod Invariant
pub mod Steps
pub mod Reachable
pub mod Progress
pub mod Sequence
mod Tests
use batch_shutdown_assistant.Prelude.{
  ℕ, ◌+◌, String, ◌≡◌, Bool, true, false, map, Result, ok, err, some, scalar_one_or_none, ◌==◌,
  if◌then◌else◌, Option, none, List, [], ◌∷◌, ◌++◌, length, select, any_row, not,
}
use batch_shutdown_assistant.Models.{Db, TaskType, empty_db}
use batch_shutdown_assistant.Devices.{has_id}
use batch_shutdown_assistant.Manager.{new_manager}
use batch_shutdown_assistant.World.{World}
use batch_shutdown_assistant.Agent.{Config, Heartbeat, Headers, Recover}
use batch_shutdown_assistant.Agent.Handlers.{agent_heartbeat, agent_recover}
use batch_shutdown_assistant.Tasks.{
  TaskCreate, Outcome, has_task_id, has_result_id, is_known, pending_results, add_task, start_task,
  settle_task, fail_task, dispatch_all,
}
use batch_shutdown_assistant.Tasks.Lifecycle.{cancel_task, refresh_task}
use batch_shutdown_assistant.Models.{Task, TaskResult}
use batch_shutdown_assistant.Sockets.{
  Message, Report, open_socket, end_socket, store_result, store_output, tell_task,
}
use batch_shutdown_assistant.Inventory.{
  DeviceFields, create_device, update_device, delete_device, batch_delete_devices,
}
use batch_shutdown_assistant.Monitor.{expire_devices, ensure_default_admin}
use batch_shutdown_assistant.Auth.{Crypto}
use batch_shutdown_assistant.Database.{Schema, migrate}
use batch_shutdown_assistant.Deploy.{TokenRequest, generate_device_token}
use batch_shutdown_assistant.Imports.{IpRangeRequest, import_ip_range}
use batch_shutdown_assistant.Imports.Csv.{Row, import_csv}

-- A `create_task` whose task is added: it has its start and its sends before it.
pub record Added : Type 0 where
  pub task_id : String
  pub task_type : TaskType
  pub params : Option String
  pub rows : List TaskResult

-- A `create_task` that has sent its commands: its task, and the outcomes that it will commit.
pub record Flight : Type 0 where
  pub task_id : String
  pub outcomes : List Outcome

-- A report whose result is stored: the commits that follow it are before it, the hardware first.
pub record Told : Type 0 where
  pub device_id : String
  pub command_id : String
  pub msg : Message
  pub task_id : String
  pub informed : Bool

-- The handlers that are between two commits: in `flights` the outcomes are not committed, in `closing`
-- they are, and the task has not failed yet. `interrupted` has the tasks of the handlers that a stop
-- of the server has cut off.
pub record Server : Type 0 where
  pub world : World
  pub added : List Added
  pub flights : List Flight
  pub closing : List Flight
  pub reports : List Told
  pub interrupted : List String

-- A server that has just started on an empty database.
abbrev pub started : Server
started = record {
  world = record { db = empty_db; manager = new_manager };
  added = [];
  flights = [];
  closing = [];
  reports = [];
  interrupted = [];
}

-- `create_task` up to its first commit.
unfoldable pub begin_task : (ℕ → String) → ℕ → TaskType → TaskCreate → Server → Server
begin_task uuid now task_type payload s =
    let db = s.world.db in
    let valid_ids = select (is_known db.devices) payload.device_ids in
    record s {
      world = record s.world { db = add_task uuid now task_type payload valid_ids db };
      added =
          record {
            task_id = uuid 0;
            task_type = task_type;
            params = payload.params;
            rows = pending_results uuid 1 (uuid 0) valid_ids;
          }
          ∷ s.added;
    }

-- Its second commit, and the commands, which are sent in one step.
unfoldable pub run_added : (ℕ → Bool) → Added → List Added → Server → Server
unfolding dispatch_all
run_added delivers a others s =
    let (outcomes, m) = dispatch_all delivers a.task_type a.params a.rows s.world.manager in
    record s {
      world = record { db = start_task a.task_id s.world.db; manager = m };
      added = others;
      flights = record { task_id = a.task_id; outcomes = outcomes } ∷ s.flights;
    }

-- Its third commit.
unfoldable pub settle_flight : ℕ → Flight → List Flight → Server → Server
settle_flight now f others s = record s {
  world = record s.world { db = settle_task now f.outcomes s.world.db };
  flights = others;
  closing = f ∷ s.closing;
}

-- Its fourth.
unfoldable pub finish_task : Flight → List Flight → Server → Server
finish_task f others s = record s {
  world = record s.world { db = fail_task f.task_id f.outcomes s.world.db };
  closing = others;
}

-- A message up to its first commit, on the result that the search gave.
unfoldable pub hear_found :
    ℕ → String → String → Message → Result (Option TaskResult) → World → World × List Told
hear_found now device_id command_id msg (err e) w = (end_socket now device_id w, [])
hear_found now device_id command_id msg (ok none) w = (w, [])
hear_found now device_id command_id msg (ok (some r)) w = (
  record w { db = store_result now msg r w.db },
  record {
    device_id = device_id;
    command_id = command_id;
    msg = msg;
    task_id = r.task_id;
    informed = false;
  }
      ∷ [],
)

unfoldable pub hear_for : ℕ → String → Message → Option String → World → World × List Told
unfolding hear_found
hear_for now device_id msg none w = (w, [])
hear_for now device_id msg (some command_id) w =
    if command_id == ""
    then (w, [])
    else hear_found now device_id command_id msg
        (scalar_one_or_none (select (has_result_id command_id) w.db.results)) w

unfoldable pub hear : ℕ → String → Message → Server → Server
unfolding hear_for
hear now device_id msg s =
    let (w, told) = hear_for now device_id msg msg.command_id s.world in
    record s { world = w; reports = told ++ s.reports }

-- The second commit of a report.
unfoldable pub inform :
    (String → Option Report) → ℕ → Told → List Told → List Told → Server → Server
inform loads now p before later s = record s {
  world = record s.world { db = store_output loads now p.device_id p.msg s.world.db };
  reports = before ++ record p { informed = true } ∷ later;
}

-- Its third, and its news.
unfoldable pub tell : (ℕ → Bool) → Told → List Told → Server → Server
tell delivers p others s = record s {
  world = tell_task delivers p.device_id p.command_id p.msg p.task_id s.world;
  reports = others;
}

-- A stop of the server, between any two commits, and its next start: the sockets and the handlers
-- under way are gone, the tables stay, but for the migration and the first administrator.
unfoldable pub restart : Crypto → Schema → String → ℕ → Server → Server
unfolding migrate
restart crypto schema fresh now s =
    let db = s.world.db in
    record {
      world = record {
        db = record db {
          devices = (migrate schema db.devices).1;
          users = ensure_default_admin crypto fresh now db.users;
        };
        manager = new_manager;
      };
      added = [];
      flights = [];
      closing = [];
      reports = [];
      interrupted =
          map (λ (a : Added). a.task_id) s.added
          ++ (map (λ (f : Flight). f.task_id) s.flights
              ++ (map (λ (f : Flight). f.task_id) s.closing
                  ++ (map (λ (p : Told). p.task_id) s.reports ++ s.interrupted)));
    }

-- What the parameters of the steps are: bcrypt, json and the transport.
pub record Outside : Type 0 where
  pub config : Config
  pub loads : String → Option Report
  pub delivers : ℕ → Bool

-- One step from a state: a request, a turn of a loop, or a handler's part up to its next commit. What it assumes of `uuid4()` is
-- that a new id is in no row, and that the ids of one request differ.
pub data Step (o : Outside) (s : Server) : Server → Type 0 where
  heartbeat :
      (now : ℕ) (payload : Heartbeat) (request : Headers) (fresh fresh_token : String)
      → any_row (has_id fresh) s.world.db.devices ≡ false
      → Step o s (record s {
        world = record s.world {
          db = record s.world.db {
            devices =
                (agent_heartbeat o.config now payload request fresh fresh_token
                  s.world.db.devices).1;
          };
        };
      })
  recover :
      (now : ℕ) (payload : Recover) (request : Headers)
      → Step o s (record s {
        world = record s.world {
          db = record s.world.db {
            devices = (agent_recover now payload request s.world.db.devices).1;
          };
        };
      })
  connect :
      (now : ℕ) (device_id token : String) (websocket : ℕ)
      → Step o s (record s { world = (open_socket now device_id token websocket s.world).1 })
  disconnect :
      (now : ℕ) (device_id : String)
      → Step o s (record s { world = end_socket now device_id s.world })
  report : (now : ℕ) (device_id : String) (msg : Message) → Step o s (hear now device_id msg s)
  store :
      (now : ℕ) (before later : List Told) (p : Told)
      → s.reports ≡ before ++ p ∷ later
      → p.informed ≡ false
      → Step o s (inform o.loads now p before later s)
  sync :
      (before later : List Told) (p : Told)
      → s.reports ≡ before ++ p ∷ later
      → p.informed ≡ true
      → Step o s (tell o.delivers p (before ++ later) s)
  begin :
      (uuid : ℕ → String) (now : ℕ) (task_type : TaskType) (payload : TaskCreate)
      → ((i j : ℕ) → uuid i ≡ uuid j → i ≡ j)
      → ((i : ℕ) → any_row (has_result_id (uuid i)) s.world.db.results ≡ false)
      → any_row (has_task_id (uuid 0)) s.world.db.tasks ≡ false
      → Step o s (begin_task uuid now task_type payload s)
  run :
      (before later : List Added) (a : Added)
      → s.added ≡ before ++ a ∷ later
      → Step o s (run_added o.delivers a (before ++ later) s)
  settle :
      (now : ℕ) (before later : List Flight) (f : Flight)
      → s.flights ≡ before ++ f ∷ later
      → Step o s (settle_flight now f (before ++ later) s)
  finish :
      (before later : List Flight) (f : Flight)
      → s.closing ≡ before ++ f ∷ later
      → Step o s (finish_task f (before ++ later) s)
  cancel :
      (fresh : String) (now : ℕ) (username task_id : String)
      → Step o s (record s {
        world = record s.world { db = (cancel_task fresh now username task_id s.world.db).1 };
      })
  read_task :
      (now : ℕ) (task : Task)
      → Step o s (record s { world = record s.world { db = refresh_task now task s.world.db } })
  create :
      (id token fresh : String) (now : ℕ) (username : String) (payload : DeviceFields)
      → any_row (has_id id) s.world.db.devices ≡ false
      → Step o s (record s {
        world = record s.world {
          db = (create_device id token fresh now username payload s.world.db).1;
        };
      })
  update :
      (fresh : String) (now : ℕ) (username device_id : String) (payload : DeviceFields)
      → Step o s (record s {
        world = record s.world {
          db = (update_device fresh now username device_id payload s.world.db).1;
        };
      })
  delete :
      (command_id fresh : String) (now : ℕ) (username device_id : String)
      → Step o s (record s {
        world = (delete_device o.delivers command_id fresh now username device_id s.world).1;
      })
  delete_many :
      (uuid : ℕ → String) (fresh : String) (now : ℕ) (username : String) (device_ids : List String)
      → Step o s (record s {
        world = (batch_delete_devices o.delivers uuid fresh now username device_ids s.world).1;
      })
  expire :
      (now : ℕ)
      → Step o s (record s {
        world = record s.world {
          db = record s.world.db { devices = expire_devices now s.world.db.devices };
        };
      })
  generate :
      (id token fresh : String) (now : ℕ) (username : String) (payload : TokenRequest)
      → any_row (has_id id) s.world.db.devices ≡ false
      → Step o s (record s {
        world = record s.world {
          db = (generate_device_token id token fresh now username payload s.world.db).1;
        };
      })
  import_range :
      (ids tokens : ℕ → String) (message : String → String) (fresh : String) (now : ℕ)
      (username : String) (payload : IpRangeRequest)
      → ((i j : ℕ) → ids i ≡ ids j → i ≡ j)
      → ((i : ℕ) → any_row (has_id (ids i)) s.world.db.devices ≡ false)
      → Step o s (record s {
        world = record s.world {
          db = (import_ip_range ids tokens message fresh now username payload s.world.db).1;
        };
      })
  import_file :
      (strip : String → String) (ids tokens : ℕ → String) (fresh : String) (now : ℕ)
      (username filename group_name : String) (rows : List Row)
      → ((i j : ℕ) → ids i ≡ ids j → i ≡ j)
      → ((i : ℕ) → any_row (has_id (ids i)) s.world.db.devices ≡ false)
      → Step o s (record s {
        world = record s.world {
          db =
              (import_csv strip ids tokens fresh now username filename group_name rows
                s.world.db).1;
        };
      })
  reboot :
      (crypto : Crypto) (schema : Schema) (fresh : String) (now : ℕ)
      → Step o s (restart crypto schema fresh now s)

-- The states that steps reach.
pub data Reach (o : Outside) (s : Server) : Server → Type 0 where
  here : Reach o s s
  next : {t u : Server} → Reach o s t → Step o t u → Reach o s u
