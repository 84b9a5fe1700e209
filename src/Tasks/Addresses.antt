-- ===== src/Tasks/Addresses.antt =====
-- The addresses that the task list shows, collected in one pass, are those of each task's own query.
use batch_shutdown_assistant.Prelude.{
  String, ◌≡◌, refl, sym, ap, ◌∙◌, Bool, true, false, not, ◌&&◌, Option, none, some, List, [], ◌∷◌,
  ◌++◌, map, select, any_row, Dict, lookup, insert, lookup-insert, arith, ◌==◌, eq_iff,
  if◌then◌else◌, Bool-cases, inl, inr,
}
use mathlib.Core.List.{append_assoc, append-nil, map-map}
use batch_shutdown_assistant.Models.{Device, Task, TaskResult, Db}
use batch_shutdown_assistant.Devices.{has_id}
use batch_shutdown_assistant.Tasks.{has_task_id, of_task}
use batch_shutdown_assistant.Tasks.Views.{
  Params, TaskRow, joined_devices, joined_rows, addresses_at, list_or_empty, add_address,
  add_addresses, no_addresses, newest_tasks, list_tasks,
}

-- The addresses of one task among the rows of the join.
unfoldable pub addresses_of : String → List (String × Option String) → List String
addresses_of tid [] = []
addresses_of tid ((j, none) ∷ rows) = addresses_of tid rows
addresses_of tid ((j, some ip) ∷ rows) =
    let rest = addresses_of tid rows in if j == tid && not (ip == "") then ip ∷ rest else rest

addresses_at-insert :
    (j tid : String) (ips : List String) (m : Dict (List String))
    → addresses_at tid (insert j ips m) ≡ (if j == tid then ips else addresses_at tid m)
addresses_at-insert j tid ips m = ap list_or_empty (lookup-insert j tid ips m) ∙ ground arith

addresses_at-add_address :
    (tid j : String) (ip : Option String) (rows : List (String × Option String))
    (m : Dict (List String))
    → addresses_at tid (add_address j ip m) ++ addresses_of tid rows
      ≡ addresses_at tid m ++ addresses_of tid ((j, ip) ∷ rows)
unfolding add_address addresses_of
addresses_at-add_address tid j none rows m = refl
addresses_at-add_address tid j (some ip) rows m = elim (Bool-cases (ip == "")) [
  | inl empty ↦ elim (Bool-cases (j == tid)) [
    | inl same ↦ rw (empty, same) refl
    | inr other ↦ rw (empty, other) refl
  ]
  | inr full ↦ rw full (
      ground (
        arith,
        addresses_at-insert j tid (addresses_at j m ++ ip ∷ []) m,
        eq_iff j tid,
        append_assoc (addresses_at tid m) (ip ∷ []) (addresses_of tid rows),
      ))
]

addresses_at-add_addresses :
    (tid : String) (rows : List (String × Option String)) (m : Dict (List String))
    → addresses_at tid (add_addresses rows m) ≡ addresses_at tid m ++ addresses_of tid rows
unfolding add_addresses addresses_of
addresses_at-add_addresses tid [] m = sym (append-nil (addresses_at tid m))
addresses_at-add_addresses tid ((j, ip) ∷ rows) m =
    addresses_at-add_addresses tid rows (add_address j ip m)
    ∙ addresses_at-add_address tid j ip rows m

addresses_at-no_addresses :
    (tid : String) (ts : List Task) → addresses_at tid (no_addresses ts) ≡ []
unfolding no_addresses lookup
addresses_at-no_addresses tid [] = refl
addresses_at-no_addresses tid (t ∷ ts) = ground (arith, addresses_at-no_addresses tid ts)

addresses_of-append :
    (tid : String) (xs ys : List (String × Option String))
    → addresses_of tid (xs ++ ys) ≡ addresses_of tid xs ++ addresses_of tid ys
unfolding addresses_of
addresses_of-append tid [] ys = refl
addresses_of-append tid ((j, none) ∷ xs) ys = addresses_of-append tid xs ys
addresses_of-append tid ((j, some ip) ∷ xs) ys = ground (arith, addresses_of-append tid xs ys)

addresses_of-others :
    (tid j : String) (ds : List Device)
    → j == tid ≡ false
    → addresses_of tid (map (λ (e : Device). (j, e.ip)) ds) ≡ []
unfolding addresses_of
addresses_of-others tid j [] other = refl
addresses_of-others tid j (d ∷ ds) other = ground (arith, addresses_of-others tid j ds other, other)

addresses_of-joined_devices :
    (tid j : String) (ds : List Device)
    → j == tid ≡ false
    → addresses_of tid (joined_devices j ds) ≡ []
unfolding addresses_of
addresses_of-joined_devices tid j [] other = refl
addresses_of-joined_devices tid j (d ∷ ds) other = addresses_of-others tid j (d ∷ ds) other

-- The addresses of the devices of a task, by a query of its own.
unfoldable pub task_addresses : Db → String → List String
unfolding addresses_of
task_addresses db tid = addresses_of tid (joined_rows db.devices (select (of_task tid) db.results))

-- Results that no query for the task takes add nothing to its addresses.
addresses_of-joined_rows :
    (tid : String) (p : TaskResult → Bool) (devices : List Device) (rs : List TaskResult)
    → ((r : TaskResult) → of_task tid r ≡ true → p r ≡ true)
    → addresses_of tid (joined_rows devices (select p rs))
      ≡ addresses_of tid (joined_rows devices (select (of_task tid) rs))
addresses_of-joined_rows tid p devices [] takes = refl
addresses_of-joined_rows tid p devices (r ∷ rs) takes =
    let rest = addresses_of-joined_rows tid p devices rs takes in
    let own = joined_devices r.task_id (select (has_id r.device_id) devices) in
    elim (Bool-cases (of_task tid r)) [
      | inl of ↦
          rw (of, takes r of)
            (addresses_of-append tid own (joined_rows devices (select p rs))
              ∙ ap (λ xs. addresses_of tid own ++ xs) rest
              ∙ sym (addresses_of-append tid own (joined_rows devices (select (of_task tid) rs))))
      | inr other ↦ elim (Bool-cases (p r)) [
        | inl taken ↦
            rw (other, taken)
              (addresses_of-append tid own (joined_rows devices (select p rs))
                ∙ ap (λ xs. xs ++ addresses_of tid (joined_rows devices (select p rs)))
                    (addresses_of-joined_devices tid r.task_id (select (has_id r.device_id) devices)
                      other)
                ∙ rest)
        | inr left ↦ rw (other, left) rest
      ]
    ]

-- A task shows the same addresses in the list as by a query of its own, if its id is among those
-- that are shown.
addresses_at-task_addresses :
    (tid : String) (ts us : List Task) (db : Db)
    → any_row (has_task_id tid) ts ≡ true
    → addresses_at tid (
        add_addresses
          (joined_rows db.devices
            (select (λ (r : TaskResult). any_row (has_task_id r.task_id) ts) db.results))
          (no_addresses us))
      ≡ task_addresses db tid
unfolding task_addresses
addresses_at-task_addresses tid ts us db there =
    let shown = λ (r : TaskResult). any_row (has_task_id r.task_id) ts in
    let rows = joined_rows db.devices (select shown db.results) in
    addresses_at-add_addresses tid rows (no_addresses us)
    ∙ ap (λ xs. xs ++ addresses_of tid rows) (addresses_at-no_addresses tid us)
    ∙ addresses_of-joined_rows tid shown db.devices db.results
        (λ r of. ground (arith, eq_iff r.task_id tid, there))

shown_addresses :
    (f : Task → List String) (db : Db) (ts us : List Task)
    → ((t : Task) → any_row (has_task_id t.id) us ≡ true → f t ≡ task_addresses db t.id)
    → ((t : Task) → any_row (has_task_id t.id) ts ≡ true → any_row (has_task_id t.id) us ≡ true)
    → map f ts ≡ map (λ (t : Task). task_addresses db t.id) ts
shown_addresses f db [] us same within = refl
shown_addresses f db (t ∷ ts) us same within =
    let first = same t (within t (ground (arith, eq_iff t.id t.id))) in
    let rest = shown_addresses f db ts us same (λ u there. within u (ground (arith, there))) in
    rw (first, rest) refl

-- The task list shows for each task the addresses that a query for that task alone gives, in the
-- order of its results.
pub list_tasks-addresses :
    (read_params : String → Params) (strip : String → String) (db : Db)
    → map (λ (row : TaskRow). row.device_ips) (list_tasks read_params strip db)
      ≡ map (λ (t : Task). task_addresses db t.id) (newest_tasks db.tasks)
unfolding list_tasks
list_tasks-addresses read_params strip db =
    let ts = newest_tasks db.tasks in
    let f = λ (t : Task). addresses_at t.id (
      add_addresses
        (joined_rows db.devices
          (select (λ (r : TaskResult). any_row (has_task_id r.task_id) ts) db.results))
        (no_addresses ts)) in
    map-map (λ (row : TaskRow). row.device_ips) _ ts
    ∙ shown_addresses f db ts ts (λ t there. addresses_at-task_addresses t.id ts ts db there)
        (λ t there. there)
