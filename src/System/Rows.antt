-- ===== src/System/Rows.antt =====
-- What the handlers keep of the tables of tasks and results: the ids of the rows, and the task of
-- each result. The laws are those of an UPDATE, and of a list of them.
use batch_shutdown_assistant.Prelude.{
  String, ◌≡◌, ◌≢◌, ◌∙◌, refl, ap, Bool, true, false, not, ◌&&◌, ◌||◌, List, [], ◌∷◌, map,
  update_where, any_row, all_rows, arith, eq_iff, Bool-cases, inl, inr, ◌==◌,
}
use batch_shutdown_assistant.Models.{Task, TaskResult, TaskStatus}
use batch_shutdown_assistant.Tasks.{has_task_id, of_task, set_status}
use batch_shutdown_assistant.Sockets.{is_terminal}

-- The id of a result, and that of its task.
abbrev pub key_of : TaskResult → String × String
key_of r = (r.id, r.task_id)

abbrev pub keys : List TaskResult → List (String × String)
keys rs = map key_of rs

abbrev pub ids : List Task → List String
ids ts = map (λ (t : Task). t.id) ts

-- An UPDATE that leaves what `f` reads of a row leaves the list of it.
pub map-update_where {ℓ} :
    {A : Type ℓ} {B : Type 0} (f : A → B) (p : A → Bool) (g : A → A) (xs : List A)
    → ((x : A) → f (g x) ≡ f x)
    → map f (update_where p g xs) ≡ map f xs
map-update_where f p g [] same = refl
map-update_where f p g (x ∷ xs) same = elim (Bool-cases (p x)) [
  | inl hit ↦ rw hit (
      ap (λ y. y ∷ map f (update_where p g xs)) (same x)
      ∙ ap (λ ys. f x ∷ ys) (map-update_where f p g xs same))
  | inr miss ↦ rw miss (ap (λ ys. f x ∷ ys) (map-update_where f p g xs same))
]

-- A test of the rows by their key is a test of the keys.
pub any-keys :
    (q : String × String → Bool) (rs : List TaskResult)
    → any_row (λ r. q (key_of r)) rs ≡ any_row q (keys rs)
any-keys q [] = refl
any-keys q (r ∷ rs) = ap (λ b. q (key_of r) || b) (any-keys q rs)

pub all-keys :
    (q : String × String → Bool) (rs : List TaskResult)
    → all_rows (λ r. q (key_of r)) rs ≡ all_rows q (keys rs)
all-keys q [] = refl
all-keys q (r ∷ rs) = ap (λ b. q (key_of r) && b) (all-keys q rs)

pub any-ids :
    (id : String) (ts : List Task) → any_row (has_task_id id) ts ≡ any_row (λ i. i == id) (ids ts)
any-ids id [] = refl
any-ids id (t ∷ ts) = ap (λ b. (t.id == id) || b) (any-ids id ts)

-- Whether a task has ended.
unfoldable pub is_ended : TaskStatus → Bool
is_ended TaskStatus.pending = false
is_ended TaskStatus.running = false
is_ended TaskStatus.completed = true
is_ended TaskStatus.failed = true
is_ended TaskStatus.cancelled = true

-- Each task with the id has ended.
abbrev pub has_ended : String → List Task → Bool
has_ended id ts = all_rows (λ t. not (has_task_id id t) || is_ended t.status) ts

-- There are results of the task, and all of them have ended.
abbrev pub is_over : String → List TaskResult → Bool
is_over id rs =
    any_row (of_task id) rs && all_rows (λ r. not (of_task id r) || is_terminal r.status) rs

-- A task that is set to an end has ended, and the tasks that have ended stay so.
pub has_ended-set :
    (status : TaskStatus) (k id : String) (ts : List Task)
    → is_ended status ≡ true
    → (k == id) || has_ended id ts ≡ true
    → has_ended id (update_where (has_task_id k) (set_status status) ts) ≡ true
has_ended-set status k id [] e h = refl
has_ended-set status k id (t ∷ ts) e h =
    ground (arith, has_ended-set status k id ts e, eq_iff t.id k, eq_iff t.id id, eq_iff k id)

-- Setting the status of one task leaves whether another has ended.
pub has_ended-other :
    (status : TaskStatus) (k id : String) (ts : List Task)
    → k == id ≡ false
    → has_ended id (update_where (has_task_id k) (set_status status) ts) ≡ has_ended id ts
has_ended-other status k id [] ne = refl
has_ended-other status k id (t ∷ ts) ne =
    ground (arith, has_ended-other status k id ts ne, eq_iff t.id k, eq_iff t.id id, eq_iff k id)

-- Whether all results of a task have ended, without the test that there are any.
abbrev pub all_over : String → List TaskResult → Bool
all_over id rs = all_rows (λ r. not (of_task id r) || is_terminal r.status) rs

any-other :
    (id : String) (p : TaskResult → Bool) (f : TaskResult → TaskResult) (rs : List TaskResult)
    → ((r : TaskResult) → (f r).task_id ≡ r.task_id)
    → any_row (of_task id) (update_where p f rs) ≡ any_row (of_task id) rs
any-other id p f [] same = refl
any-other id p f (r ∷ rs) same = elim (Bool-cases (p r)) [
  | inl hit ↦ rw hit (rw (same r, any-other id p f rs same) refl)
  | inr miss ↦ rw miss (rw (any-other id p f rs same) refl)
]

all-other :
    (k id : String) (p : TaskResult → Bool) (f : TaskResult → TaskResult) (rs : List TaskResult)
    → k ≢ id
    → ((r : TaskResult) → (f r).task_id ≡ r.task_id)
    → all_rows (λ r. not (p r) || of_task k r) rs ≡ true
    → all_over id (update_where p f rs) ≡ all_over id rs
all-other k id p f [] ne same own = refl
all-other k id p f (r ∷ rs) ne same own = elim (Bool-cases (p r)) [
  | inl hit ↦
      let mine : of_task k r ≡ true = ground (arith, hit, own) in
      let not_id : of_task id r ≡ false =
        ground (arith, mine, ne, eq_iff r.task_id k, eq_iff r.task_id id) in
      let ih = all-other k id p f rs ne same (ground (arith, own)) in
      rw hit (rw (same r, not_id, ih) refl)
  | inr miss ↦ let ih = all-other k id p f rs ne same (ground (arith, own)) in rw miss (rw ih refl)
]

-- An UPDATE of results of one task does not change whether another task is over.
pub is_over-other :
    (k id : String) (p : TaskResult → Bool) (f : TaskResult → TaskResult) (rs : List TaskResult)
    → k ≢ id
    → ((r : TaskResult) → (f r).task_id ≡ r.task_id)
    → all_rows (λ r. not (p r) || of_task k r) rs ≡ true
    → is_over id (update_where p f rs) ≡ is_over id rs
is_over-other k id p f rs ne same own =
    rw (any-other id p f rs same, all-other k id p f rs ne same own) refl
