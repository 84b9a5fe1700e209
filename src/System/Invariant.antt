-- ===== src/System/Invariant.antt =====
-- What holds in every state that the server reaches.
use mathlib.Core.Path.{subst}
use batch_shutdown_assistant.Prelude.{
  ℕ, ◌+◌, ◌≤◌, String, ◌≡◌, ◌≢◌, ◌∙◌, sym, ap, Bool, true, false, not, ◌&&◌, ◌||◌, List, [], ◌∷◌,
  ◌++◌, any_row, select, length, arith, eq_iff, Bool-cases, inl, inr, ◌==◌,
}
use batch_shutdown_assistant.Models.{Task, TaskType, TaskStatus}
use batch_shutdown_assistant.Tasks.{
  TaskCreate, has_task_id, has_result_id, of_task, is_known, pending_results,
}
use batch_shutdown_assistant.Tasks.Dispatch.{outcomes_of}
use batch_shutdown_assistant.System.{Added, Flight, Server, begin_task}
use batch_shutdown_assistant.System.Rows.{
  keys, ids, has_ended, is_ended, is_over, any-keys, any-ids,
}
use batch_shutdown_assistant.System.Busy.{AreFlights, AreAdded, is_opening, is_settled, Move}
use batch_shutdown_assistant.System.Opening.{
  keys-append, ids-append, any-append, unique-pending, IsFlightOf-pending, IsFlightOf-outcomes,
  is_over-pending,
}

-- The tables of tasks and results, with the handlers under way: no two results have one id, each
-- result is of a task, the outcomes to be committed are of results of their task, and a task all of
-- whose results have ended has ended, unless it is busy.
pub record IsTaskSound (s : Server) : Type 0 where
  pub unique : (k : String) → length (select (λ e. e.0 == k) (keys s.world.db.results)) ≤ 1
  pub owned :
      (id : String)
      → any_row (λ e. e.1 == id) (keys s.world.db.results) ≡ true
      → any_row (λ i. i == id) (ids s.world.db.tasks) ≡ true
  pub flying : AreFlights s.flights (keys s.world.db.results)
  pub waiting : AreAdded s.added (keys s.world.db.results)
  pub settled : (id : String) → is_over id s.world.db.results ≡ true → is_settled id s ≡ true

-- A step that `Move` describes.
pub Move-IsTaskSound : (s t : Server) → Move s t → IsTaskSound s → IsTaskSound t
Move-IsTaskSound s t move sound =
    let both = move.flights sound.flying sound.waiting in
    record {
      unique = λ k. rw move.same_keys (sound.unique k);
      owned = λ id h. rw move.same_ids (sound.owned id (rw move.same_keys at h));
      flying = rw move.same_keys both.0;
      waiting = rw move.same_keys both.1;
      settled = λ id h. move.settles id h (sound.settled id);
    }

AreFlights-pending :
    (uuid : ℕ → String) (injective : (i j : ℕ) → uuid i ≡ uuid j → i ≡ j) (k : String)
    (fs : List Flight) (ks : List (String × String)) (dids : List String)
    → ((n : ℕ) → any_row (λ e. e.0 == uuid n) ks ≡ false)
    → AreFlights fs ks
    → AreFlights fs (ks ++ keys (pending_results uuid 1 k dids))
AreFlights-pending uuid injective k [] ks dids unused h = tt
AreFlights-pending uuid injective k (f ∷ fs) ks dids unused h = (
  IsFlightOf-pending uuid injective k f.task_id f.outcomes ks dids unused h.0,
  AreFlights-pending uuid injective k fs ks dids unused h.1,
)

AreAdded-pending :
    (uuid : ℕ → String) (injective : (i j : ℕ) → uuid i ≡ uuid j → i ≡ j) (k : String)
    (as_ : List Added) (ks : List (String × String)) (dids : List String)
    → ((n : ℕ) → any_row (λ e. e.0 == uuid n) ks ≡ false)
    → AreAdded as_ ks
    → AreAdded as_ (ks ++ keys (pending_results uuid 1 k dids))
AreAdded-pending uuid injective k [] ks dids unused h = tt
AreAdded-pending uuid injective k (a ∷ as_) ks dids unused h = (
  λ delivers sockets.
      IsFlightOf-pending uuid injective k a.task_id (outcomes_of delivers sockets a.rows) ks dids
        unused (h.0 delivers sockets),
  AreAdded-pending uuid injective k as_ ks dids unused h.1,
)

has_ended-append :
    (id : String) (ts : List Task) (t : Task)
    → t.id ≢ id
    → has_ended id (ts ++ t ∷ []) ≡ has_ended id ts
has_ended-append id [] t ne = ground (arith, ne, eq_iff t.id id)
has_ended-append id (u ∷ ts) t ne =
    ap (λ b. (not (u.id == id) || is_ended u.status) && b) (has_ended-append id ts t ne)

owned-append :
    (uuid : ℕ → String) (k id : String) (j : ℕ) (dids : List String)
    → any_row (λ e. e.1 == id) (keys (pending_results uuid j k dids)) ≡ true
    → k == id ≡ true
unfolding pending_results
owned-append uuid k id j [] h = cc
owned-append uuid k id j (d ∷ dids) h = ground (arith, h, owned-append uuid k id (j + 1) dids)

-- A task that is in the table, has ended and is past its start is so still.
abbrev pub KeepsEnded : Server → Server → Type 0
KeepsEnded s t =
    (id : String)
    → any_row (has_task_id id) s.world.db.tasks ≡ true
    → has_ended id s.world.db.tasks ≡ true
    → is_opening id s ≡ false
    → (any_row (has_task_id id) t.world.db.tasks ≡ true)
      × (has_ended id t.world.db.tasks ≡ true)
      × (is_opening id t ≡ false)

module _ (uuid : ℕ → String) (now : ℕ) (task_type : TaskType) (payload : TaskCreate) (s : Server)
    (new : any_row (has_task_id (uuid 0)) s.world.db.tasks ≡ false) where
  abbrev begun : Server
  begun = begin_task uuid now task_type payload s

  abbrev task : Task
  task = record {
    id = uuid 0;
    task_type = task_type;
    status = TaskStatus.pending;
    params = payload.params;
    created_at = now;
  }

  owner :
      (id : String) {b c d : Bool}
      → (b || c) ≡ true
      → (b ≡ true → d ≡ true)
      → (c ≡ true → uuid 0 == id ≡ true)
      → (d || ((uuid 0 == id) || false)) ≡ true
  owner id h old new_one = ground (arith, h, old, new_one)

  -- The first part of `create_task` adds a task that is pending and its results.
  pub begin_task-IsTaskSound :
      ((i j : ℕ) → uuid i ≡ uuid j → i ≡ j)
      → ((i : ℕ) → any_row (has_result_id (uuid i)) s.world.db.results ≡ false)
      → IsTaskSound s
      → IsTaskSound begun
  unfolding begin_task
  begin_task-IsTaskSound injective unused sound =
      let db = s.world.db in
      let valid = select (is_known db.devices) payload.device_ids in
      let rows = pending_results uuid 1 (uuid 0) valid in
      let ks = keys db.results in
      let no_key : (n : ℕ) → any_row (λ e. e.0 == uuid n) ks ≡ false =
        λ n. sym (any-keys (λ e. e.0 == uuid n) db.results) ∙ unused n in
      let no_task : any_row (λ i. i == uuid 0) (ids db.tasks) ≡ false =
        sym (any-ids (uuid 0) db.tasks) ∙ new in
      let no_row : any_row (of_task (uuid 0)) db.results ≡ false =
        elim (Bool-cases (any_row (of_task (uuid 0)) db.results)) [
          | inl some_row ↦
              let there =
                sound.owned (uuid 0) (sym (any-keys (λ e. e.1 == uuid 0) db.results) ∙ some_row) in
              absurd (ground (arith, there, no_task))
          | inr none_there ↦ none_there
        ] in
      record {
        unique = λ k.
            rw (keys-append db.results rows)
              (unique-pending uuid injective (uuid 0) k ks valid no_key (sound.unique k));
        owned = λ id h.
            ap (any_row (λ i. i == id)) (ids-append db.tasks (task ∷ []))
            ∙ any-append (λ i. i == id) (ids db.tasks) (uuid 0 ∷ [])
            ∙ owner id
                (sym (any-append (λ e. e.1 == id) ks (keys rows))
                  ∙ ap (any_row (λ e. e.1 == id)) (sym (keys-append db.results rows))
                  ∙ h)
                (sound.owned id) (owned-append uuid (uuid 0) id 1 valid);
        flying =
            subst (AreFlights s.flights) (sym (keys-append db.results rows))
              (AreFlights-pending uuid injective (uuid 0) s.flights ks valid no_key sound.flying);
        waiting = (
          λ delivers sockets. rw (keys-append db.results rows) (
              IsFlightOf-outcomes uuid injective (uuid 0) delivers sockets 1 ks valid
                (λ n le. no_key n)),
          subst (AreAdded s.added) (sym (keys-append db.results rows))
              (AreAdded-pending uuid injective (uuid 0) s.added ks valid no_key sound.waiting),
        );
        settled = λ id h.
            let (ne, over) = is_over-pending uuid injective (uuid 0) id db.results valid no_row h in
            let tasks = has_ended-append id db.tasks task ne in
            let before = sound.settled id over in ground (arith, tasks, before);
      }

  pub begin_task-keeps : KeepsEnded s begun
  unfolding begin_task
  begin_task-keeps id there over past =
      let ne : uuid 0 ≢ id =
        λ e. ground (arith, there, new, ap (λ i. any_row (has_task_id i) s.world.db.tasks) e) in
      (
        any-append (has_task_id id) s.world.db.tasks (task ∷ []) ∙ ground (arith, there),
        has_ended-append id s.world.db.tasks task ne ∙ over,
        ground (arith, past, ne, eq_iff (uuid 0) id),
      )
