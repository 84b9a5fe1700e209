-- ===== src/System/Busy.antt =====
-- The handlers that are between two commits, and what a step does to the tables and to them.
use batch_shutdown_assistant.Prelude.{
  String, ◌≡◌, refl, Bool, true, false, ◌&&◌, ◌||◌, List, [], ◌∷◌, ◌++◌, All, any_row, num_eq, ℕ,
  Dict, arith, Bool-cases, inl, inr, ◌==◌,
}
use batch_shutdown_assistant.World.{World}
use batch_shutdown_assistant.Tasks.{sent_count}
use batch_shutdown_assistant.Tasks.Dispatch.{outcomes_of}
use batch_shutdown_assistant.System.{Added, Flight, Told, Server}
use batch_shutdown_assistant.System.Rows.{keys, ids, has_ended, is_over}
use batch_shutdown_assistant.System.Moves.{Kept}
use batch_shutdown_assistant.System.Commit.{IsFlightOf}

-- Between the first two commits of its `create_task`.
abbrev pub is_opening : String → Server → Bool
is_opening id s = any_row (λ (a : Added). a.task_id == id) s.added

-- A handler that may still write the task's status, other than to end what has ended, is under way, or
-- a stop of the server has cut one off.
abbrev pub is_busy : String → Server → Bool
is_busy id s =
    is_opening id s
    || (any_row (λ (f : Flight). f.task_id == id) s.flights
        || (any_row (λ (f : Flight). num_eq (sent_count f.outcomes) 0 && f.task_id == id) s.closing
            || (any_row (λ (p : Told). p.task_id == id) s.reports
                || any_row (λ i. i == id) s.interrupted)))

-- The task has ended, or is busy.
abbrev pub is_settled : String → Server → Bool
is_settled id s = has_ended id s.world.db.tasks || is_busy id s

pub any-remove {ℓ} :
    {A : Type ℓ} (p : A → Bool) (before later : List A) (x : A)
    → any_row p (before ++ x ∷ later) ≡ (p x || any_row p (before ++ later))
any-remove p [] later x = refl
any-remove p (y ∷ before) later x = ground (arith, any-remove p before later x)

abbrev pub AreFlights : List Flight → List (String × String) → Type 0
AreFlights fs ks = All (λ (f : Flight). IsFlightOf f.task_id f.outcomes ks) fs

-- Whatever the outcomes of their sends will be.
abbrev pub AreAdded : List Added → List (String × String) → Type 0
AreAdded as_ ks =
    All
      (λ (a : Added).
        (delivers : ℕ → Bool) (sockets : Dict ℕ)
        → IsFlightOf a.task_id (outcomes_of delivers sockets a.rows) ks)
      as_

pub All-remove :
    {A : Type 0} (P : A → Type 0) (before later : List A) (x : A)
    → All P (before ++ x ∷ later)
    → All P (before ++ later) × P x
All-remove P [] later x h = (h.1, h.0)
All-remove P (y ∷ before) later x h =
    let (rest, mine) = All-remove P before later x h.1 in ((h.0, rest), mine)

-- A step that keeps the ids of tasks and results.
pub record Move (s t : Server) : Type 0 where
  pub same_ids : ids t.world.db.tasks ≡ ids s.world.db.tasks
  pub same_keys : keys t.world.db.results ≡ keys s.world.db.results
  pub settles :
      (id : String)
      → is_over id t.world.db.results ≡ true
      → (is_over id s.world.db.results ≡ true → is_settled id s ≡ true)
      → is_settled id t ≡ true
  pub flights :
      AreFlights s.flights (keys s.world.db.results)
      → AreAdded s.added (keys s.world.db.results)
      → AreFlights t.flights (keys s.world.db.results) × AreAdded t.added (keys s.world.db.results)
  pub ended :
      (id : String)
      → is_opening id s ≡ false
      → has_ended id s.world.db.tasks ≡ true
      → has_ended id t.world.db.tasks ≡ true
  pub opening : (id : String) → is_opening id s ≡ false → is_opening id t ≡ false

-- A step of one commit.
pub Move-Kept : (s : Server) (w : World) → Kept s.world.db w.db → Move s (record s { world = w })
Move-Kept s w kept = record {
  same_ids = kept.same_ids;
  same_keys = kept.same_keys;
  settles = λ id over old. elim (kept.over id over) [
    | inl before ↦
        let settled = old before in
        elim (Bool-cases (has_ended id s.world.db.tasks)) [
          | inl done ↦ let still = kept.ended id done in rw still refl
          | inr open_task ↦ ground (arith, settled, open_task)
        ]
    | inr now ↦ rw now refl
  ];
  flights = λ f a. (f, a);
  ended = λ id o h. kept.ended id h;
  opening = λ id h. h;
}
