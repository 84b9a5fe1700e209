-- ===== src/System/Progress.antt =====
-- A task does not hang: once each of its open results is reported, it has ended.
use batch_shutdown_assistant.Prelude.{
  ℕ, ◌≤◌, String, ◌≡◌, ◌∙◌, refl, sym, ap, Bool, true, false, not, ◌&&◌, ◌||◌, List, [], ◌∷◌,
  select, update_where, any_row, all_rows, length, arith, Bool-cases, inl, inr, ◌==◌, Option, none,
  some, ok, scalar_one_or_none,
}
use batch_shutdown_assistant.Models.{TaskResult}
use batch_shutdown_assistant.Devices.Rows.{scalar-eq-some}
use batch_shutdown_assistant.World.{World}
use batch_shutdown_assistant.Tasks.{has_result_id, of_task}
use batch_shutdown_assistant.Sockets.{
  Message, is_terminal, get_or_default, write_result, report_found, receive_for, receive,
}
use batch_shutdown_assistant.Sockets.Reports.{report_result-results}
use batch_shutdown_assistant.System.{Server, started, Outside, Reach}
use batch_shutdown_assistant.System.Rows.{keys, has_ended, all_over, any-keys}
use batch_shutdown_assistant.System.Reported.{update-one, select_id, Kept-receive}
use batch_shutdown_assistant.System.Busy.{is_busy, Move-Kept}
use batch_shutdown_assistant.System.Invariant.{IsTaskSound, Move-IsTaskSound}
use batch_shutdown_assistant.System.Reachable.{Reach-IsSound}

-- A message of an agent, with the time and the device of the socket that it comes from.
pub record Sent : Type 0 where
  pub now : ℕ
  pub device_id : String
  pub msg : Message

-- The server after messages, each handled to its end before the next.
unfoldable pub run_reports : Outside → List Sent → Server → Server
run_reports o [] s = s
run_reports o (m ∷ ms) s =
    run_reports o ms
      (record s { world = receive o.loads o.delivers m.now m.device_id m.msg s.world })

-- The message names the result, and reports an end.
abbrev pub names : String → Sent → Bool
names i m = elim m.msg.command_id [ none ↦ false | some c ↦ not (c == "") && i == c ]

abbrev pub reports_end : Sent → Bool
reports_end m = is_terminal (get_or_default m.msg.status "unknown")

-- A test of rows that an UPDATE of the rows with one id makes true.
all_updated :
    (q : TaskResult → Bool) (i : String) (f : TaskResult → TaskResult) (rs : List TaskResult)
    → ((r : TaskResult) → q (f r) ≡ true)
    → all_rows (λ r. q r || r.id == i) rs ≡ true
    → all_rows q (update_where (has_result_id i) f rs) ≡ true
all_updated q i f [] good h = refl
all_updated q i f (r ∷ rs) good h = elim (Bool-cases (r.id == i)) [
  | inl hit ↦ rw hit (rw (good r, all_updated q i f rs good (ground (arith, h))) refl)
  | inr miss ↦
      let mine : q r ≡ true = ground (arith, h, miss) in
      rw miss (rw (mine, all_updated q i f rs good (ground (arith, h))) refl)
]

none_named :
    (q : TaskResult → Bool) (i : String) (rs : List TaskResult)
    → select (has_result_id i) rs ≡ []
    → all_rows (λ r. q r || r.id == i) rs ≡ true
    → all_rows q rs ≡ true
none_named q i [] e h = refl
none_named q i (r ∷ rs) e h = elim (Bool-cases (r.id == i)) [
  | inl hit ↦ absurd (cc (rw hit at e))
  | inr miss ↦
      let rest = none_named q i rs (rw miss at e) (ground (arith, h)) in
      ground (arith, h, miss, rest)
]

scalar-none {ℓ} : {A : Type ℓ} (xs : List A) → scalar_one_or_none xs ≡ ok none → xs ≡ []
scalar-none [] h = refl
scalar-none (x ∷ []) h = absurd (cc h)
scalar-none (x ∷ y ∷ xs) h = absurd (cc h)

few-scalar {ℓ} :
    {A : Type ℓ} (xs : List A) → length xs ≤ 1 → (o : Option A) × (scalar_one_or_none xs ≡ ok o)
few-scalar [] h = (none, refl)
few-scalar (x ∷ []) h = (some x, refl)
few-scalar (x ∷ y ∷ xs) h = absurd (omega arith)

count-keys :
    (i : String) (rs : List TaskResult)
    → length (select (has_result_id i) rs) ≡ length (select (λ e. e.0 == i) (keys rs))
count-keys i [] = refl
count-keys i (r ∷ rs) = ground (arith, count-keys i rs)

all_weaken {ℓ} :
    {A : Type ℓ} (p q : A → Bool) (xs : List A)
    → ((x : A) → p x ≡ true → q x ≡ true)
    → all_rows p xs ≡ true
    → all_rows q xs ≡ true
all_weaken p q [] f h = refl
all_weaken p q (x ∷ xs) f h =
    let mine : q x ≡ true = f x (ground (arith, h)) in
    rw (mine, all_weaken p q xs f (ground (arith, h))) refl

module _ (o : Outside) (m : Sent) (w : World) (q : TaskResult → Bool)
    (good : (r : TaskResult) → is_terminal r.status ≡ true → q r ≡ true)
    (ends : reports_end m ≡ true) where
  abbrev after : World
  after = receive o.loads o.delivers m.now m.device_id m.msg w

  written_good : (r : TaskResult) → q (write_result m.now m.msg r) ≡ true
  unfolding write_result
  written_good r = good _ ends

  report_found-good :
      (k : String) (found : Option TaskResult)
      → scalar_one_or_none (select (has_result_id k) w.db.results) ≡ ok found
      → all_rows (λ r. q r || r.id == k) w.db.results ≡ true
      → all_rows q
          (report_found o.loads o.delivers m.now m.device_id k m.msg (ok found) w).db.results
        ≡ true
  unfolding report_found
  report_found-good k none there h =
      none_named q k w.db.results (scalar-none (select (has_result_id k) w.db.results) there) h
  report_found-good k (some r) there h =
      let one = scalar-eq-some (select (has_result_id k) w.db.results) there in
      let e : r.id ≡ k = select_id k w.db.results one in
      let results =
        report_result-results o.loads o.delivers m.now m.device_id k m.msg r w
        ∙ ap (λ i. update_where (has_result_id i) (λ _. write_result m.now m.msg r) w.db.results) e
        ∙ update-one (has_result_id k) (write_result m.now m.msg) w.db.results one in
      ap (all_rows q) results
      ∙ all_updated q k (write_result m.now m.msg) w.db.results written_good h

  receive_for-good :
      ((k : String) → length (select (has_result_id k) w.db.results) ≤ 1)
      → (command_id : Option String)
      → all_rows
          (λ r. q r || (elim command_id [ none ↦ false | some c ↦ not (c == "") && r.id == c ]))
          w.db.results
        ≡ true
      → all_rows q (receive_for o.loads o.delivers m.now m.device_id m.msg command_id w).db.results
        ≡ true
  unfolding receive_for
  receive_for-good unique none h =
      all_weaken (λ r. q r || false) q w.db.results (λ r e. ground (arith, e)) h
  receive_for-good unique (some k) h = elim (Bool-cases (k == "")) [
    | inl empty ↦ rw empty (
        all_weaken (λ r. q r || (not (k == "") && r.id == k)) q w.db.results
          (λ r e. ground (arith, e, empty)) h)
    | inr named ↦
        let (found, there) = few-scalar (select (has_result_id k) w.db.results) (unique k) in
        rw named (
          rw there (
            report_found-good k found there (
              all_weaken (λ r. q r || (not (k == "") && r.id == k)) (λ r. q r || r.id == k)
                w.db.results (λ r e. ground (arith, e, named)) h)))
  ]

  -- A report of an end makes true of each result what is true of the results that it does not name,
  -- and of the results that have ended.
  receive-good :
      ((k : String) → length (select (has_result_id k) w.db.results) ≤ 1)
      → all_rows (λ r. q r || names r.id m) w.db.results ≡ true
      → all_rows q after.db.results ≡ true
  unfolding receive
  receive-good unique h = receive_for-good unique m.msg.command_id h

-- Each result of the task has ended, or one of the messages reports that it has.
abbrev pub is_covered : String → List Sent → List TaskResult → Bool
is_covered id ms rs =
    all_rows (λ r. not (of_task id r) || is_terminal r.status || any_row (λ m. names r.id m) ms) rs

run_reports-over :
    (o : Outside) (id : String) (ms : List Sent) (s : Server)
    → IsTaskSound s
    → any_row (of_task id) s.world.db.results ≡ true
    → all_rows reports_end ms ≡ true
    → is_covered id ms s.world.db.results ≡ true
    → is_busy id s ≡ false
    → has_ended id (run_reports o ms s).world.db.tasks ≡ true
unfolding run_reports
run_reports-over o id [] s sound there ends covered idle =
    let over : all_over id s.world.db.results ≡ true =
      all_weaken (λ r. not (of_task id r) || is_terminal r.status || false)
        (λ r. not (of_task id r) || is_terminal r.status) s.world.db.results
        (λ r e. ground (arith, e)) covered in
    let settled = sound.settled id (ground (arith, there, over)) in ground (arith, settled, idle)
run_reports-over o id (m ∷ ms) s sound there ends covered idle =
    let s' : Server = record s {
      world = receive o.loads o.delivers m.now m.device_id m.msg s.world;
    } in
    let kept = Kept-receive o.loads o.delivers m.now m.device_id m.msg s.world in
    let q = λ (r : TaskResult).
      not (of_task id r) || is_terminal r.status || any_row (λ m'. names r.id m') ms in
    run_reports-over o id ms s' (Move-IsTaskSound s s' (Move-Kept s s'.world kept) sound)
      (any-keys (λ e. e.1 == id) _
        ∙ ap (any_row (λ e. e.1 == id)) kept.same_keys
        ∙ sym (any-keys (λ e. e.1 == id) s.world.db.results)
        ∙ there)
      (ground (arith, ends))
      (receive-good o m s.world q (λ r e. ground (arith, e)) (ground (arith, ends))
        (λ k. rw (count-keys k s.world.db.results) (sound.unique k))
        (all_weaken
          (λ r.
            not (of_task id r)
            || is_terminal r.status
            || (names r.id m || any_row (λ m'. names r.id m') ms))
          (λ r. q r || names r.id m) s.world.db.results (λ r e. ground (arith, e)) covered))
      idle

-- From any reachable state in which a task is not busy (no handler of it is between two commits, and no
-- stop of the server has cut one off): when messages are handled, each to its end, that report the end
-- of each of its results that has not ended, in whatever order, from whatever sockets, also between such
-- reports of other results, then after them the task has ended.
pub reported_task_ends :
    {o : Outside} {s : Server} (id : String) (ms : List Sent)
    → Reach o started s
    → any_row (of_task id) s.world.db.results ≡ true
    → all_rows reports_end ms ≡ true
    → is_covered id ms s.world.db.results ≡ true
    → is_busy id s ≡ false
    → has_ended id (run_reports o ms s).world.db.tasks ≡ true
reported_task_ends {o} {s} id ms r there ends covered idle =
    run_reports-over o id ms s (Reach-IsSound r).of_tasks there ends covered idle
