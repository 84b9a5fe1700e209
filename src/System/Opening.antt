-- ===== src/System/Opening.antt =====
-- What the first part of `create_task` leaves: a task that runs, and open results with new ids.
use mathlib.Core.List.{append_assoc}
use batch_shutdown_assistant.Prelude.{
  ℕ, ◌+◌, ◌≤◌, String, ◌≡◌, ◌≢◌, ◌∙◌, ◌⊎◌, refl, sym, ap, Bool, true, false, not, ◌&&◌, ◌||◌, List,
  [], ◌∷◌, ◌++◌, any_row, all_rows, select, length, arith, eq_iff, eq_refl, Bool-cases, inl, inr,
  ◌==◌, Dict, length-append,
}
use batch_shutdown_assistant.Models.{Task, TaskResult}
use batch_shutdown_assistant.Devices.Rows.{select-append}
use batch_shutdown_assistant.Tasks.{Outcome, of_task, pending_results}
use batch_shutdown_assistant.Tasks.Dispatch.{outcomes_of}
use batch_shutdown_assistant.Sockets.{is_terminal}
use batch_shutdown_assistant.System.Rows.{keys, key_of, ids, is_over, all_over}
use batch_shutdown_assistant.System.Commit.{IsFlightOf}

pub any-append {ℓ} :
    {A : Type ℓ} (p : A → Bool) (xs ys : List A)
    → any_row p (xs ++ ys) ≡ (any_row p xs || any_row p ys)
any-append p [] ys = refl
any-append p (x ∷ xs) ys = ground (arith, any-append p xs ys)

pub all-append {ℓ} :
    {A : Type ℓ} (p : A → Bool) (xs ys : List A)
    → all_rows p (xs ++ ys) ≡ (all_rows p xs && all_rows p ys)
all-append p [] ys = refl
all-append p (x ∷ xs) ys = ground (arith, all-append p xs ys)

pub keys-append : (rs ss : List TaskResult) → keys (rs ++ ss) ≡ keys rs ++ keys ss
keys-append [] ss = refl
keys-append (r ∷ rs) ss = ap (λ ks. key_of r ∷ ks) (keys-append rs ss)

pub ids-append : (ts us : List Task) → ids (ts ++ us) ≡ ids ts ++ ids us
ids-append [] us = refl
ids-append (t ∷ ts) us = ap (λ is. t.id ∷ is) (ids-append ts us)

-- No key of the list has the id.
abbrev pub IsUnused : String → List (String × String) → Type 0
IsUnused i ks = any_row (λ e. e.0 == i) ks ≡ false

count-unused :
    (i : String) (ks : List (String × String))
    → IsUnused i ks
    → length (select (λ e. e.0 == i) ks) ≡ 0
count-unused i [] h = refl
count-unused i (e ∷ ks) h = ground (arith, count-unused i ks)

module _ (uuid : ℕ → String) (injective : (i j : ℕ) → uuid i ≡ uuid j → i ≡ j) (k : String) where
  abbrev rows : ℕ → List String → List TaskResult
  rows j dids = pending_results uuid j k dids

  -- An id of a new row is one of the results of `uuid4()`.
  count-pending :
      (i : String) (j : ℕ) (dids : List String)
      → (length (select (λ e. e.0 == i) (keys (rows j dids))) ≡ 0)
        ⊎ ((n : ℕ) × (j ≤ n)
            × (uuid n ≡ i)
            × (length (select (λ e. e.0 == i) (keys (rows j dids))) ≡ 1))
  unfolding pending_results
  count-pending i j [] = inl refl
  count-pending i j (d ∷ dids) = elim (Bool-cases (uuid j == i)) [
    | inl hit ↦
        let e : uuid j ≡ i = (eq_iff (uuid j) i).0 hit in
        elim (count-pending i (j + 1) dids) [
          | inl none_left ↦ inr (j, omega arith, e, rw hit (omega (arith, none_left)))
          | inr (n, le, same, _) ↦ let twice = injective j n (e ∙ sym same) in absurd (omega arith)
        ]
    | inr miss ↦ elim (count-pending i (j + 1) dids) [
      | inl none_left ↦ inl (rw miss none_left)
      | inr (n, le, same, one) ↦ inr (n, omega arith, same, rw miss one)
    ]
  ]

  -- Ids stay unique.
  pub unique-pending :
      (i : String) (ks : List (String × String)) (dids : List String)
      → ((n : ℕ) → IsUnused (uuid n) ks)
      → length (select (λ e. e.0 == i) ks) ≤ 1
      → length (select (λ e. e.0 == i) (ks ++ keys (rows 1 dids))) ≤ 1
  unique-pending i ks dids unused h =
      rw
        (
          select-append (λ (e : String × String). e.0 == i) ks (keys (rows 1 dids)),
          length-append (select (λ (e : String × String). e.0 == i) ks)
              (select (λ (e : String × String). e.0 == i) (keys (rows 1 dids))),
        )
        (elim (count-pending i 1 dids) [
          | inl none_new ↦ omega (arith, none_new, h)
          | inr (n, le, same, one) ↦
              let old =
                count-unused i ks (ap (λ x. any_row (λ e. e.0 == x) ks) (sym same) ∙ unused n) in
              omega (arith, one, old)
        ])

  -- Every new row is of the new task.
  all-mine :
      (j : ℕ) (dids : List String) (q : String × String → Bool)
      → ((e : String × String) → e.1 ≡ k → q e ≡ true)
      → all_rows q (keys (rows j dids)) ≡ true
  unfolding pending_results
  all-mine j [] q h = refl
  all-mine j (d ∷ dids) q h = rw (h (uuid j, k) refl, all-mine (j + 1) dids q h) refl

  IsUnused-pending :
      (i : String) (j : ℕ) (dids : List String)
      → ((n : ℕ) → j ≤ n → uuid n ≢ i)
      → IsUnused i (keys (rows j dids))
  unfolding pending_results
  IsUnused-pending i j [] ne = refl
  IsUnused-pending i j (d ∷ dids) ne = ground (
    arith,
    eq_iff (uuid j) i,
    ne j (omega arith),
    IsUnused-pending i (j + 1) dids (λ n le. ne n (omega arith)),
  )

  all-unused :
      (i t : String) (ks : List (String × String))
      → IsUnused i ks
      → all_rows (λ e. not (e.0 == i) || e.1 == t) ks ≡ true
  all-unused i t [] h = refl
  all-unused i t (e ∷ ks) h = ground (arith, all-unused i t ks)

  -- A flight stays one of its task when rows with other ids are added.
  pub IsFlightOf-pending :
      (t : String) (os : List Outcome) (ks : List (String × String)) (dids : List String)
      → ((n : ℕ) → IsUnused (uuid n) ks)
      → IsFlightOf t os ks
      → IsFlightOf t os (ks ++ keys (rows 1 dids))
  IsFlightOf-pending t [] ks dids unused f = tt
  IsFlightOf-pending t ((i, b) ∷ os) ks dids unused f =
      let other : (n : ℕ) → 1 ≤ n → uuid n ≢ i =
        λ n le e. ground (arith, f.0, ap (λ x. any_row (λ y. y.0 == x) ks) (sym e) ∙ unused n) in
      let new = all-unused i t (keys (rows 1 dids)) (IsUnused-pending i 1 dids other) in
      (
        any-append (λ e. e.0 == i) ks (keys (rows 1 dids)) ∙ ground (arith, f.0),
        all-append (λ e. not (e.0 == i) || e.1 == t) ks (keys (rows 1 dids))
            ∙ ground (arith, f.1, new),
        f.2,
        IsFlightOf-pending t os ks dids unused f.3,
      )

  module _ (delivers : ℕ → Bool) (sockets : Dict ℕ) where
    outcomes_unused :
        (i : String) (j : ℕ) (dids : List String)
        → ((n : ℕ) → j ≤ n → uuid n ≢ i)
        → any_row (λ o. o.0 == i) (outcomes_of delivers sockets (rows j dids)) ≡ false
    unfolding pending_results outcomes_of
    outcomes_unused i j [] ne = refl
    outcomes_unused i j (d ∷ dids) ne = ground (
      arith,
      eq_iff (uuid j) i,
      ne j (omega arith),
      outcomes_unused i (j + 1) dids (λ n le. ne n (omega arith)),
    )

    -- The outcomes of a dispatch are those of the new rows.
    pub IsFlightOf-outcomes :
        (j : ℕ) (ks : List (String × String)) (dids : List String)
        → ((n : ℕ) → j ≤ n → IsUnused (uuid n) ks)
        → IsFlightOf k (outcomes_of delivers sockets (rows j dids)) (ks ++ keys (rows j dids))
    unfolding pending_results outcomes_of
    IsFlightOf-outcomes j ks [] unused = tt
    IsFlightOf-outcomes j ks (d ∷ dids) unused =
        let later : (n : ℕ) → j + 1 ≤ n → uuid n ≢ uuid j =
          λ n le e. let same = injective n j e in omega arith in
        let all_new : List (String × String) = (uuid j, k) ∷ keys (rows (j + 1) dids) in
        let rest = IsFlightOf-outcomes (j + 1) (ks ++ (uuid j, k) ∷ []) dids (λ n le.
          any-append (λ e. e.0 == uuid n) ks ((uuid j, k) ∷ [])
          ∙ ground (arith, unused n (omega arith), later n le, eq_iff (uuid j) (uuid n))) in
        (
          any-append (λ e. e.0 == uuid j) ks all_new ∙ ground (arith, eq_refl (uuid j)),
          all-append (λ e. not (e.0 == uuid j) || e.1 == k) ks all_new
              ∙ ground (
                arith,
                all-unused (uuid j) k ks (unused j (omega arith)),
                eq_refl k,
                all-mine (j + 1) dids (λ e. not (e.0 == uuid j) || e.1 == k)
                    (λ e own. ground (arith, eq_iff e.1 k)),
              ),
          outcomes_unused (uuid j) (j + 1) dids later,
          rw (← (append_assoc ks ((uuid j, k) ∷ []) (keys (rows (j + 1) dids)))) rest,
        )

  others-pending :
      (id : String) (j : ℕ) (dids : List String)
      → k == id ≡ false
      → (any_row (of_task id) (rows j dids) ≡ false) × (all_over id (rows j dids) ≡ true)
  unfolding pending_results
  others-pending id j [] ne = (refl, refl)
  others-pending id j (d ∷ dids) ne =
      let (none_here, over) = others-pending id (j + 1) dids ne in
      (rw (ne, none_here) refl, rw (ne, over) refl)

  none-pending :
      (j : ℕ) (dids : List String)
      → all_over k (rows j dids) ≡ true
      → any_row (of_task k) (rows j dids) ≡ false
  unfolding pending_results
  none-pending j [] h = refl
  none-pending j (d ∷ dids) h = absurd (cc (rw (eq_refl k) at h))

  -- The new task is not over, and no other task is over by its rows.
  pub is_over-pending :
      (id : String) (rs : List TaskResult) (dids : List String)
      → any_row (of_task k) rs ≡ false
      → is_over id (rs ++ rows 1 dids) ≡ true
      → (k ≢ id) × (is_over id rs ≡ true)
  is_over-pending id rs dids new h =
      let any_eq = any-append (of_task id) rs (rows 1 dids) in
      let all_eq = all-append (λ r. not (of_task id r) || is_terminal r.status) rs (rows 1 dids) in
      elim (Bool-cases (k == id)) [
        | inl mine ↦
            let e : k ≡ id = (eq_iff k id).0 mine in
            let over : all_over k (rows 1 dids) ≡ true =
              ap (λ i. all_over i (rows 1 dids)) e ∙ ground (arith, h, all_eq) in
            let no_new = none-pending 1 dids over in
            absurd (
              ground (
                arith,
                h,
                any_eq,
                ap (λ i. any_row (of_task i) rs) e,
                new,
                no_new,
                ap (λ i. any_row (of_task i) (rows 1 dids)) e,
              ))
        | inr other ↦
            let (no_new, over) = others-pending id 1 dids other in
            (λ e. ground (arith, other, eq_iff k id), ground (arith, h, any_eq, all_eq, no_new))
      ]
