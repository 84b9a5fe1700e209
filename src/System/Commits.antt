-- ===== src/System/Commits.antt =====
-- The steps of handlers that commit more than once.
use mathlib.Core.Path.{subst}
use batch_shutdown_assistant.Prelude.{
  Dict, ℕ, String, ◌≡◌, ◌∙◌, refl, sym, ap, Bool, true, not, ◌&&◌, ◌||◌, List, [], ◌∷◌, ◌++◌,
  select, update_where, any_row, all_rows, arith, eq_iff, eq_refl, num_eq, Bool-cases, inl, inr,
  ◌==◌, Option, none, some, Result, ok, err, scalar_one_or_none,
}
use batch_shutdown_assistant.Models.{TaskResult, TaskStatus}
use batch_shutdown_assistant.Devices.Rows.{scalar-eq-some}
use batch_shutdown_assistant.Tasks.{has_result_id, of_task, settle_all, sent_count}
use batch_shutdown_assistant.Tasks.Dispatch.{outcomes_of, dispatch_all-outcomes}
use batch_shutdown_assistant.Sockets.{
  Message, Report, get_or_default, limit_output, store_result, write_result, sync_with,
  sync_parent_task, end_socket,
}
use batch_shutdown_assistant.Sockets.Reports.{store_sysinfo-keeps, sync_with-results}
use batch_shutdown_assistant.System.{
  Added, Flight, Told, Server, run_added, settle_flight, finish_task, hear_found, hear_for, hear,
  inform, tell,
}
use batch_shutdown_assistant.System.Rows.{
  keys, key_of, ids, map-update_where, is_ended, has_ended, has_ended-set, has_ended-other, is_over,
  is_over-other,
}
use batch_shutdown_assistant.System.Moves.{Kept-same, ids-set}
use batch_shutdown_assistant.System.Reported.{
  all-select, update-one, select_id, Kept-end_socket, ids-sync_with, has_ended-sync_with, over-ends,
}
use batch_shutdown_assistant.System.Commit.{
  IsFlightOf, keys-settle_all, is_over-settle_all, settle_all-open,
}
use batch_shutdown_assistant.System.Busy.{
  is_opening, any-remove, AreFlights, AreAdded, All-remove, Move, Move-Kept,
}

module _ (now : ℕ) (device_id : String) (msg : Message) (s : Server) where
  -- A result that is stored, found by its id.
  Move-stored :
      (r : TaskResult) (told : Told)
      → select (has_result_id r.id) s.world.db.results ≡ r ∷ []
      → told.task_id ≡ r.task_id
      → Move s (record s {
        world = record s.world { db = store_result now msg r s.world.db };
        reports = told ∷ s.reports;
      })
  Move-stored r told one named =
      let p = has_result_id r.id in
      let rs = s.world.db.results in
      let results : update_where p (λ _. write_result now msg r) rs
          ≡ update_where p (write_result now msg) rs =
        update-one p (write_result now msg) rs one in
      let own : all_rows (λ u. not (p u) || of_task r.task_id u) rs ≡ true =
        sym (all-select p (of_task r.task_id) rs)
        ∙ ap (all_rows (of_task r.task_id)) one
        ∙ ground (arith, eq_refl r.task_id) in
      record {
        same_ids = refl;
        same_keys =
            ap keys results
            ∙ map-update_where key_of p (write_result now msg) rs
                (unfold write_result in λ u. refl);
        settles = λ id over old. elim (Bool-cases (r.task_id == id)) [
          | inl mine ↦ let busy : told.task_id == id ≡ true = rw named mine in ground (arith, busy)
          | inr other ↦
              let before : is_over id rs ≡ true =
                sym (
                  is_over-other r.task_id id p (write_result now msg) rs
                    (λ eq. ground (arith, other, eq_iff r.task_id id))
                    (unfold write_result in λ u. refl) own)
                ∙ ap (is_over id) (sym results)
                ∙ over in
              let settled = old before in ground (arith, settled)
        ];
        flights = λ f a. (f, a);
        ended = λ id o h. h;
        opening = λ id h. h;
      }

  Move-hear_found :
      (k : String) (found : Result (Option TaskResult))
      → scalar_one_or_none (select (has_result_id k) s.world.db.results) ≡ found
      → let (w, told) = hear_found now device_id k msg found s.world in
        Move s (record s { world = w; reports = told ++ s.reports })
  unfolding hear_found
  Move-hear_found k (err e) h =
      Move-Kept s (end_socket now device_id s.world) (Kept-end_socket now device_id s.world)
  Move-hear_found k (ok none) h = Move-Kept s s.world (Kept-same s.world.db s.world.db refl refl)
  Move-hear_found k (ok (some r)) h =
      let one = scalar-eq-some (select (has_result_id k) s.world.db.results) h in
      let e : r.id ≡ k = select_id k s.world.db.results one in
      Move-stored r _ (ap (λ i. select (has_result_id i) s.world.db.results) e ∙ one) refl

  Move-hear_for :
      (command_id : Option String)
      → let (w, told) = hear_for now device_id msg command_id s.world in
        Move s (record s { world = w; reports = told ++ s.reports })
  unfolding hear_for
  Move-hear_for none = Move-Kept s s.world (Kept-same s.world.db s.world.db refl refl)
  Move-hear_for (some k) = elim (Bool-cases (k == "")) [
    | inl empty ↦ rw empty (Move-Kept s s.world (Kept-same s.world.db s.world.db refl refl))
    | inr named ↦ rw named (Move-hear_found k _ refl)
  ]

  pub Move-hear : Move s (hear now device_id msg s)
  unfolding hear
  Move-hear = Move-hear_for msg.command_id

pub Move-inform :
    (loads : String → Option Report) (now : ℕ) (p : Told) (before later : List Told) (s : Server)
    → s.reports ≡ before ++ p ∷ later
    → Move s (inform loads now p before later s)
unfolding inform
Move-inform loads now p before later s there =
    let kept =
      store_sysinfo-keeps loads (λ _. true) now p.device_id (get_or_default p.msg.status "unknown")
        (limit_output (get_or_default p.msg.output "")) s.world.db in
    let p' : Told = record p { informed = true } in
    record {
      same_ids = ap ids kept.1;
      same_keys = ap keys kept.0;
      settles = λ id over old.
          let settled = old (ap (is_over id) (sym kept.0) ∙ over) in
          let was : any_row (λ (q : Told). q.task_id == id) s.reports
              ≡ ((p.task_id == id) || any_row (λ (q : Told). q.task_id == id) (before ++ later)) =
            ap (any_row (λ (q : Told). q.task_id == id)) there
            ∙ any-remove (λ (q : Told). q.task_id == id) before later p in
          let is = any-remove (λ (q : Told). q.task_id == id) before later p' in
          let tasks = ap (has_ended id) kept.1 in ground (arith, settled, was, is, tasks);
      flights = λ f a. (f, a);
      ended = λ id o h. ap (has_ended id) kept.1 ∙ h;
      opening = λ id h. h;
    }

pub Move-tell :
    (delivers : ℕ → Bool) (p : Told) (before later : List Told) (s : Server)
    → s.reports ≡ before ++ p ∷ later
    → Move s (tell delivers p (before ++ later) s)
unfolding tell sync_parent_task
Move-tell delivers p before later s there =
    let db = s.world.db in
    let sel = select (of_task p.task_id) db.results in
    let results = sync_with-results p.task_id sel db in
    record {
      same_ids = ids-sync_with p.task_id sel db;
      same_keys = ap keys results;
      settles = λ id over old.
          let over' : is_over id db.results ≡ true = ap (is_over id) (sym results) ∙ over in
          let settled = old over' in
          let was : any_row (λ (q : Told). q.task_id == id) s.reports
              ≡ ((p.task_id == id) || any_row (λ (q : Told). q.task_id == id) (before ++ later)) =
            ap (any_row (λ (q : Told). q.task_id == id)) there
            ∙ any-remove (λ (q : Told). q.task_id == id) before later p in
          elim (Bool-cases (p.task_id == id)) [
            | inl mine ↦
                let e : p.task_id ≡ id = (eq_iff p.task_id id).0 mine in
                let done : has_ended id (sync_with p.task_id sel db).tasks ≡ true =
                  ap (λ i. has_ended i (sync_with p.task_id sel db).tasks) (sym e)
                  ∙ over-ends p.task_id db.results db (ap (λ i. is_over i db.results) e ∙ over') in
                rw done refl
            | inr other ↦ elim (Bool-cases (has_ended id db.tasks)) [
              | inl done ↦ let still = has_ended-sync_with p.task_id id sel db done in rw still refl
              | inr open_task ↦ ground (arith, settled, was, other, open_task)
            ]
          ];
      flights = λ f a. (f, a);
      ended = λ id o h. has_ended-sync_with p.task_id id sel db h;
      opening = λ id h. h;
    }

pub Move-run_added :
    (delivers : ℕ → Bool) (a : Added) (before later : List Added) (s : Server)
    → s.added ≡ before ++ a ∷ later
    → Move s (run_added delivers a (before ++ later) s)
unfolding run_added
Move-run_added delivers a before later s there =
    let db = s.world.db in
    let ks = keys db.results in
    let outcomes = (dispatch_all-outcomes delivers a.task_type a.params a.rows s.world.manager).0 in
    let was : (id : String)
        → is_opening id s
          ≡ ((a.task_id == id) || any_row (λ (b : Added). b.task_id == id) (before ++ later)) =
      λ id.
        ap (any_row (λ (b : Added). b.task_id == id)) there
        ∙ any-remove (λ (b : Added). b.task_id == id) before later a in
    record {
      same_ids = ids-set TaskStatus.running a.task_id db.tasks;
      same_keys = refl;
      settles = λ id over old. elim (Bool-cases (a.task_id == id)) [
        | inl mine ↦ ground (arith, mine)
        | inr other ↦
            let settled = old over in
            let tasks = has_ended-other TaskStatus.running a.task_id id db.tasks other in
            let opening = was id in ground (arith, settled, other, tasks, opening)
      ];
      flights = λ f g.
          let (rest, mine) =
            All-remove
              (λ (b : Added).
                (d : ℕ → Bool) (sockets : Dict ℕ)
                → IsFlightOf b.task_id (outcomes_of d sockets b.rows) ks)
              before later a (subst (λ as_. AreAdded as_ ks) there g) in
          ((rw outcomes (mine delivers s.world.manager.active_connections), f), rest);
      ended = λ id o h.
          let opening = was id in
          has_ended-other TaskStatus.running a.task_id id db.tasks (ground (arith, o, opening)) ∙ h;
      opening = λ id o. let opening = was id in ground (arith, o, opening);
    }

pub Move-settle_flight :
    (now : ℕ) (f : Flight) (before later : List Flight) (s : Server)
    → s.flights ≡ before ++ f ∷ later
    → IsFlightOf f.task_id f.outcomes (keys s.world.db.results)
    → Move s (settle_flight now f (before ++ later) s)
unfolding settle_flight
Move-settle_flight now f before later s there mine =
    let db = s.world.db in
    let k = f.task_id in
    record {
      same_ids = refl;
      same_keys = keys-settle_all now f.outcomes db.results;
      settles = λ id over old.
          let was : any_row (λ (g : Flight). g.task_id == id) s.flights
              ≡ ((k == id) || any_row (λ (g : Flight). g.task_id == id) (before ++ later)) =
            ap (any_row (λ (g : Flight). g.task_id == id)) there
            ∙ any-remove (λ (g : Flight). g.task_id == id) before later f in
          elim (Bool-cases (k == id)) [
            | inl same ↦ elim (Bool-cases (num_eq (sent_count f.outcomes) 0)) [
              | inl none_sent ↦ ground (arith, same, none_sent)
              | inr some_sent ↦
                  let e : k ≡ id = (eq_iff k id).0 same in
                  let open_rows = settle_all-open now k f.outcomes db.results mine some_sent in
                  absurd (
                    ground (
                      arith,
                      open_rows,
                      ap (λ i. is_over i (settle_all now f.outcomes db.results)) e,
                      over,
                    ))
            ]
            | inr other ↦
                let settled = old (
                  sym (
                    is_over-settle_all now k id f.outcomes db.results
                      (λ eq. ground (arith, other, eq_iff k id)) mine)
                  ∙ over) in
                ground (arith, settled, was, other)
          ];
      flights = λ g a. (
        (All-remove (λ (h : Flight). IsFlightOf h.task_id h.outcomes (keys db.results)) before later
            f (subst (λ fs. AreFlights fs (keys db.results)) there g)).0,
        a,
      );
      ended = λ id o h. h;
      opening = λ id h. h;
    }

pub Move-finish_task :
    (f : Flight) (before later : List Flight) (s : Server)
    → s.closing ≡ before ++ f ∷ later
    → Move s (finish_task f (before ++ later) s)
unfolding finish_task is_ended
Move-finish_task f before later s there =
    let db = s.world.db in
    let k = f.task_id in
    let q : String → Flight → Bool = λ id g. num_eq (sent_count g.outcomes) 0 && g.task_id == id in
    let was : (id : String)
        → any_row (q id) s.closing ≡ (q id f || any_row (q id) (before ++ later)) =
      λ id. ap (any_row (q id)) there ∙ any-remove (q id) before later f in
    elim (Bool-cases (num_eq (sent_count f.outcomes) 0)) [
      | inl none_sent ↦ rw none_sent (record {
        same_ids = ids-set TaskStatus.failed k db.tasks;
        same_keys = refl;
        settles = λ id over old. elim (Bool-cases (k == id)) [
          | inl mine ↦
              let done =
                has_ended-set TaskStatus.failed k id db.tasks refl (ground (arith, mine)) in
              rw done refl
          | inr other ↦
              let settled = old over in
              let tasks = has_ended-other TaskStatus.failed k id db.tasks other in
              let closing = was id in ground (arith, settled, other, tasks, closing)
        ];
        flights = λ g a. (g, a);
        ended = λ id o h. has_ended-set TaskStatus.failed k id db.tasks refl (ground (arith, h));
        opening = λ id h. h;
      })
      | inr some_sent ↦ rw some_sent (record {
        same_ids = refl;
        same_keys = refl;
        settles = λ id over old.
            let settled = old over in
            let closing = was id in ground (arith, settled, some_sent, closing);
        flights = λ g a. (g, a);
        ended = λ id o h. h;
        opening = λ id h. h;
      })
    ]
