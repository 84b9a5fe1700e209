-- ===== src/System/Reported.antt =====
-- A report keeps what `Kept` says: it changes the one result that it names, and where that was the
-- last of its task to end, the task ends.
use batch_shutdown_assistant.Prelude.{
  ℕ, String, ◌≡◌, ◌≢◌, ◌∙◌, refl, sym, ap, Bool, true, not, ◌&&◌, ◌||◌, List, [], ◌∷◌, select,
  update_where, any_row, all_rows, arith, eq_iff, eq_refl, Bool-cases, inl, inr, ◌==◌, Option, none,
  some, Result, ok, err, scalar_one_or_none,
}
use batch_shutdown_assistant.Models.{TaskResult, Db}
use batch_shutdown_assistant.Devices.Rows.{scalar-eq-some}
use batch_shutdown_assistant.Tasks.{has_result_id, of_task}
use batch_shutdown_assistant.World.{World}
use batch_shutdown_assistant.Sockets.{
  Message, Report, is_terminal, final_status, sync_with, write_result, report_result, report_found,
  receive_for, receive, end_socket,
}
use batch_shutdown_assistant.Manager.{is_agent_online, disconnect_agent}
use batch_shutdown_assistant.Sockets.Reports.{report_result-results, report_result-tasks}
use batch_shutdown_assistant.System.Rows.{
  keys, key_of, ids, map-update_where, is_ended, has_ended, has_ended-set, is_over, is_over-other,
}
use batch_shutdown_assistant.System.Moves.{Kept, Kept-same, ids-set}

-- A test that all selected rows pass.
pub all-select {ℓ} :
    {A : Type ℓ} (p q : A → Bool) (xs : List A)
    → all_rows q (select p xs) ≡ all_rows (λ x. not (p x) || q x) xs
all-select p q [] = refl
all-select p q (x ∷ xs) = ground (arith, all-select p q xs)

any-select {ℓ} : {A : Type ℓ} (p : A → Bool) (xs : List A) → any_row p xs ≡ true → select p xs ≢ []
any-select p [] h = λ e. cc
any-select p (x ∷ xs) h = λ e. ground (arith, any-select p xs)

update-none {ℓ} :
    {A : Type ℓ} (p : A → Bool) (f : A → A) (xs : List A)
    → select p xs ≡ []
    → update_where p f xs ≡ xs
update-none p f [] h = refl
update-none p f (x ∷ xs) h = ground (arith, update-none p f xs)

-- Where one row is selected, to write that row is to update what is selected.
pub update-one {ℓ} :
    {A : Type ℓ} (p : A → Bool) (f : A → A) (xs : List A) {r : A}
    → select p xs ≡ r ∷ []
    → update_where p (λ _. f r) xs ≡ update_where p f xs
update-one p f [] h = refl
update-one p f (x ∷ xs) {r} h = elim (Bool-cases (p x)) [
  | inl hit ↦
      let e : x ∷ select p xs ≡ r ∷ [] = rw hit at h in
      let same : x ≡ r = cc in
      let rest : select p xs ≡ [] = cc in
      rw hit (
        ap (λ y. f y ∷ update_where p (λ _. f r) xs) (sym same)
        ∙ ap (λ ys. f x ∷ ys) (update-none p (λ _. f r) xs rest ∙ sym (update-none p f xs rest)))
  | inr miss ↦
      let e : select p xs ≡ r ∷ [] = rw miss at h in
      rw miss (ap (λ ys. x ∷ ys) (update-one p f xs e))
]

is_ended-final_status : (rs : List TaskResult) → is_ended (final_status rs) ≡ true
unfolding final_status is_ended
is_ended-final_status rs = elim (Bool-cases (all_rows (λ r. r.status == "success") rs)) [
  | inl all ↦ rw all refl
  | inr some_lost ↦
      rw some_lost
        (elim (Bool-cases (
          any_row (λ (r : TaskResult). r.status == "cancelled") rs
          && all_rows (λ (r : TaskResult). r.status == "cancelled" || r.status == "success") rs)) [
            | inl cancelled ↦ rw cancelled refl
            | inr failed ↦ rw failed refl
          ])
]

pub ids-sync_with :
    (k : String) (rs : List TaskResult) (db : Db) → ids (sync_with k rs db).tasks ≡ ids db.tasks
unfolding sync_with
ids-sync_with k [] db = refl
ids-sync_with k (r ∷ rs) db =
    elim (Bool-cases (all_rows (λ (t : TaskResult). is_terminal t.status) (r ∷ rs))) [
      | inl over ↦ rw over (ids-set (final_status (r ∷ rs)) k db.tasks)
      | inr open_rows ↦ rw open_rows refl
    ]

pub has_ended-sync_with :
    (k id : String) (rs : List TaskResult) (db : Db)
    → has_ended id db.tasks ≡ true
    → has_ended id (sync_with k rs db).tasks ≡ true
unfolding sync_with
has_ended-sync_with k id [] db h = h
has_ended-sync_with k id (r ∷ rs) db h =
    elim (Bool-cases (all_rows (λ (t : TaskResult). is_terminal t.status) (r ∷ rs))) [
      | inl over ↦ rw over (
          has_ended-set (final_status (r ∷ rs)) k id db.tasks (is_ended-final_status (r ∷ rs))
            (ground (arith, h)))
      | inr open_rows ↦ rw open_rows h
    ]

sync_with-ends :
    (k : String) (rs : List TaskResult) (db : Db)
    → rs ≢ []
    → all_rows (λ t. is_terminal t.status) rs ≡ true
    → has_ended k (sync_with k rs db).tasks ≡ true
unfolding sync_with
sync_with-ends k [] db ne over = absurd (ne refl)
sync_with-ends k (r ∷ rs) db ne over = rw over (
    has_ended-set (final_status (r ∷ rs)) k k db.tasks (is_ended-final_status (r ∷ rs))
      (rw (eq_refl k) refl))

pub over-ends :
    (k : String) (rs : List TaskResult) (db : Db)
    → is_over k rs ≡ true
    → has_ended k (sync_with k (select (of_task k) rs) db).tasks ≡ true
over-ends k rs db h =
    sync_with-ends k (select (of_task k) rs) db (any-select (of_task k) rs (ground (arith, h)))
      (all-select (of_task k) (λ t. is_terminal t.status) rs ∙ ground (arith, h))

-- The row that a search by id returns has the id.
pub select_id :
    (k : String) (rs : List TaskResult) {r : TaskResult}
    → select (has_result_id k) rs ≡ r ∷ []
    → r.id ≡ k
select_id k [] h = cc
select_id k (x ∷ xs) {r} h = elim (Bool-cases (x.id == k)) [
  | inl hit ↦
      let e : x ∷ select (has_result_id k) xs ≡ r ∷ [] = rw hit at h in
      let same : x ≡ r = cc in ap (λ (u : TaskResult). u.id) (sym same) ∙ (eq_iff x.id k).0 hit
  | inr miss ↦ select_id k xs (rw miss at h)
]

-- The end of a socket leaves tasks and results alone.
pub Kept-end_socket :
    (now : ℕ) (device_id : String) (w : World) → Kept w.db (end_socket now device_id w).db
unfolding end_socket
Kept-end_socket now device_id w =
    elim (Bool-cases (is_agent_online device_id (disconnect_agent device_id w.manager))) [
      | inl here ↦ rw here (Kept-same w.db w.db refl refl)
      | inr gone ↦ rw gone (Kept-same w.db _ refl refl)
    ]

module _ (loads : String → Option Report) (delivers : ℕ → Bool) (now : ℕ) (device_id : String)
    (msg : Message) (w : World) where
  -- A report of a result that was found by its id.
  Kept-report_result :
      (k : String) (r : TaskResult)
      → select (has_result_id r.id) w.db.results ≡ r ∷ []
      → Kept w.db (report_result loads delivers now device_id k msg r w).db
  Kept-report_result k r one =
      let p = has_result_id r.id in
      let w' = report_result loads delivers now device_id k msg r w in
      let rows' = update_where p (write_result now msg) w.db.results in
      let results : w'.db.results ≡ rows' =
        report_result-results loads delivers now device_id k msg r w
        ∙ update-one p (write_result now msg) w.db.results one in
      let tasks : w'.db.tasks
          ≡ (sync_with r.task_id (select (of_task r.task_id) rows') w.db).tasks =
        report_result-tasks loads delivers now device_id k msg r w
        ∙ ap (λ rs. (sync_with r.task_id (select (of_task r.task_id) rs) w.db).tasks)
            (update-one p (write_result now msg) w.db.results one) in
      let own : all_rows (λ u. not (p u) || of_task r.task_id u) w.db.results ≡ true =
        sym (all-select p (of_task r.task_id) w.db.results)
        ∙ ap (all_rows (of_task r.task_id)) one
        ∙ ground (arith, eq_refl r.task_id) in
      let sel = select (of_task r.task_id) rows' in
      record {
        same_ids = ap ids tasks ∙ ids-sync_with r.task_id sel w.db;
        same_keys =
            ap keys results
            ∙ map-update_where key_of p (write_result now msg) w.db.results
                (unfold write_result in λ u. refl);
        ended = λ id h. rw tasks (has_ended-sync_with r.task_id id sel w.db h);
        over = λ id h. elim (Bool-cases (r.task_id == id)) [
          | inl mine ↦
              let e : r.task_id ≡ id = (eq_iff r.task_id id).0 mine in
              inr (
                ap (λ ts. has_ended id ts) tasks
                ∙ ap (λ i. has_ended i (sync_with r.task_id sel w.db).tasks) (sym e)
                ∙ over-ends r.task_id rows' w.db
                    (ap (λ i. is_over i rows') e ∙ ap (is_over id) (sym results) ∙ h))
          | inr other ↦ inl (
              sym (
                is_over-other r.task_id id p (write_result now msg) w.db.results
                  (λ eq. ground (arith, eq_iff r.task_id id)) (unfold write_result in λ u. refl)
                  own)
              ∙ ap (is_over id) (sym results)
              ∙ h)
        ];
      }

  Kept-report_found :
      (k : String) (found : Result (Option TaskResult))
      → scalar_one_or_none (select (has_result_id k) w.db.results) ≡ found
      → Kept w.db (report_found loads delivers now device_id k msg found w).db
  unfolding report_found
  Kept-report_found k (err e) h = Kept-end_socket now device_id w
  Kept-report_found k (ok none) h = Kept-same w.db w.db refl refl
  Kept-report_found k (ok (some r)) h =
      let one = scalar-eq-some (select (has_result_id k) w.db.results) h in
      let e : r.id ≡ k = select_id k w.db.results one in
      Kept-report_result k r (ap (λ i. select (has_result_id i) w.db.results) e ∙ one)

  Kept-receive_for :
      (command_id : Option String)
      → Kept w.db (receive_for loads delivers now device_id msg command_id w).db
  unfolding receive_for
  Kept-receive_for none = Kept-same w.db w.db refl refl
  Kept-receive_for (some k) = elim (Bool-cases (k == "")) [
    | inl empty ↦ rw empty (Kept-same w.db w.db refl refl)
    | inr named ↦ rw named (Kept-report_found k _ refl)
  ]

  pub Kept-receive : Kept w.db (receive loads delivers now device_id msg w).db
  unfolding receive
  Kept-receive = Kept-receive_for msg.command_id
