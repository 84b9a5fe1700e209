-- ===== src/System/Commit.antt =====
-- What the commit of outcomes does to the results: it keeps their ids and their tasks, and where a
-- command was sent, the result is open again.
use batch_shutdown_assistant.Prelude.{
  ℕ, String, ◌≡◌, ◌≢◌, ◌∙◌, refl, ap, Bool, true, false, not, ◌&&◌, ◌||◌, List, [], ◌∷◌,
  update_where, any_row, all_rows, arith, eq_iff, Bool-cases, inl, inr, ◌==◌, num_eq,
}
use batch_shutdown_assistant.Models.{TaskResult}
use batch_shutdown_assistant.Tasks.{Outcome, has_result_id, of_task, settle, settle_all, sent_count}
use batch_shutdown_assistant.System.Rows.{
  keys, key_of, map-update_where, is_over, all_over, is_over-other, any-keys, all-keys,
}

-- The outcomes name results of the task, each another one.
abbrev pub IsFlightOf : String → List Outcome → List (String × String) → Type 0
IsFlightOf k [] ks = Unit
IsFlightOf k ((i, sent) ∷ os) ks =
    (any_row (λ e. e.0 == i) ks ≡ true)
    × (all_rows (λ e. not (e.0 == i) || e.1 == k) ks ≡ true)
    × (any_row (λ o. o.0 == i) os ≡ false)
    × IsFlightOf k os ks

pub settle-key : (now : ℕ) (b : Bool) (r : TaskResult) → key_of (settle now b r) ≡ key_of r
unfolding settle
settle-key now true r = refl
settle-key now false r = refl

pub keys-settle_all :
    (now : ℕ) (os : List Outcome) (rs : List TaskResult) → keys (settle_all now os rs) ≡ keys rs
unfolding settle_all
keys-settle_all now [] rs = refl
keys-settle_all now ((i, b) ∷ os) rs =
    keys-settle_all now os (update_where (has_result_id i) (settle now b) rs)
    ∙ map-update_where key_of (has_result_id i) (settle now b) rs (settle-key now b)

pub is_over-settle_all :
    (now : ℕ) (k id : String) (os : List Outcome) (rs : List TaskResult)
    → k ≢ id
    → IsFlightOf k os (keys rs)
    → is_over id (settle_all now os rs) ≡ is_over id rs
unfolding settle_all
is_over-settle_all now k id [] rs ne f = refl
is_over-settle_all now k id ((i, b) ∷ os) rs ne f =
    let same = map-update_where key_of (has_result_id i) (settle now b) rs (settle-key now b) in
    is_over-settle_all now k id os (update_where (has_result_id i) (settle now b) rs) ne
      (rw same f.3)
    ∙ is_over-other k id (has_result_id i) (settle now b) rs ne
        (λ r. ap (λ x. x.1) (settle-key now b r))
        (all-keys (λ e. not (e.0 == i) || e.1 == k) rs ∙ f.1)

-- Whether the result `i` is "sent".
abbrev is_sent : String → List TaskResult → Bool
is_sent i rs = any_row (λ r. has_result_id i r && r.status == "sent") rs

is_sent-other :
    (now : ℕ) (i j : String) (b : Bool) (rs : List TaskResult)
    → j == i ≡ false
    → is_sent i (update_where (has_result_id j) (settle now b) rs) ≡ is_sent i rs
unfolding settle
is_sent-other now i j b [] ne = refl
is_sent-other now i j true (r ∷ rs) ne =
    ground (arith, is_sent-other now i j true rs ne, eq_iff r.id i, eq_iff r.id j, eq_iff j i)
is_sent-other now i j false (r ∷ rs) ne =
    ground (arith, is_sent-other now i j false rs ne, eq_iff r.id i, eq_iff r.id j, eq_iff j i)

is_sent-settle_all :
    (now : ℕ) (i : String) (os : List Outcome) (rs : List TaskResult)
    → any_row (λ o. o.0 == i) os ≡ false
    → is_sent i (settle_all now os rs) ≡ is_sent i rs
unfolding settle_all
is_sent-settle_all now i [] rs new = refl
is_sent-settle_all now i ((j, b) ∷ os) rs new =
    is_sent-settle_all now i os (update_where (has_result_id j) (settle now b) rs)
      (ground (arith, new))
    ∙ is_sent-other now i j b rs (ground (arith, new))

is_sent-settle :
    (now : ℕ) (i : String) (rs : List TaskResult)
    → any_row (has_result_id i) rs ≡ true
    → is_sent i (update_where (has_result_id i) (settle now true) rs) ≡ true
unfolding settle
is_sent-settle now i [] h = cc
is_sent-settle now i (r ∷ rs) h = elim (Bool-cases (r.id == i)) [
  | inl hit ↦ rw hit (rw hit refl)
  | inr miss ↦ rw miss (rw miss (is_sent-settle now i rs (rw miss at h)))
]

-- A task with a result that is "sent" is not over.
open_if_sent :
    (k i : String) (rs : List TaskResult)
    → all_rows (λ r. not (has_result_id i r) || of_task k r) rs ≡ true
    → is_sent i rs ≡ true
    → all_over k rs ≡ false
open_if_sent k i [] own h = cc
open_if_sent k i (r ∷ rs) own h = elim (Bool-cases (r.id == i && r.status == "sent")) [
  | inl hit ↦
      let status : r.status ≡ "sent" = (eq_iff r.status "sent").0 (ground (arith, hit)) in
      let mine : of_task k r ≡ true = ground (arith, hit, own) in rw (mine, status) refl
  | inr miss ↦ ground (arith, open_if_sent k i rs)
]

pub settle_all-open :
    (now : ℕ) (k : String) (os : List Outcome) (rs : List TaskResult)
    → IsFlightOf k os (keys rs)
    → num_eq (sent_count os) 0 ≡ false
    → all_over k (settle_all now os rs) ≡ false
unfolding settle_all sent_count
settle_all-open now k [] rs f h = absurd (ground arith)
settle_all-open now k ((i, true) ∷ os) rs f h =
    let rs' = update_where (has_result_id i) (settle now true) rs in
    let same =
      map-update_where key_of (has_result_id i) (settle now true) rs (settle-key now true) in
    let own : all_rows (λ r. not (has_result_id i r) || of_task k r) (settle_all now os rs')
        ≡ true =
      all-keys (λ e. not (e.0 == i) || e.1 == k) (settle_all now os rs')
      ∙ ap (all_rows (λ e. not (e.0 == i) || e.1 == k)) (keys-settle_all now os rs' ∙ same)
      ∙ f.1 in
    open_if_sent k i (settle_all now os rs') own (
      is_sent-settle_all now i os rs' f.2
      ∙ is_sent-settle now i rs (any-keys (λ e. e.0 == i) rs ∙ f.0))
settle_all-open now k ((i, false) ∷ os) rs f h =
    let same =
      map-update_where key_of (has_result_id i) (settle now false) rs (settle-key now false) in
    settle_all-open now k os (update_where (has_result_id i) (settle now false) rs) (rw same f.3) h
