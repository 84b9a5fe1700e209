-- ===== src/Devices/Unique.antt =====
-- In a table whose primary keys are unique, a row is found by its id, and by nothing else's.
use batch_shutdown_assistant.Prelude.{
  String, ◌≡◌, refl, ap, Bool, true, false, some, List, [], ◌∷◌, select, any_row, All, arith,
  eq_iff, eq_refl, ◌==◌, Bool-cases, inl, inr,
}
use batch_shutdown_assistant.Models.{Device}
use batch_shutdown_assistant.Devices.{has_id, by_id, latest, IsKeyed}
use batch_shutdown_assistant.Devices.Rows.{latest-All, All-select}

pub All-both {ℓ κ μ} :
    {A : Type 0} (P : A → Type ℓ) (Q : A → Type κ) (R : A → Type μ) (xs : List A)
    → ((x : A) → P x → Q x → R x)
    → All P xs
    → All Q xs
    → All R xs
All-both P Q R [] f h k = tt
All-both P Q R (x ∷ xs) f h k = (f x h.0 k.0, All-both P Q R xs f h.1 k.1)

pub All-selected {κ} :
    {A : Type 0} (P : A → Type κ) (p : A → Bool) (xs : List A) → All P xs → All P (select p xs)
All-selected P p [] h = tt
All-selected P p (x ∷ xs) h = elim (Bool-cases (p x)) [
  | inl taken ↦ rw taken (h.0, All-selected P p xs h.1)
  | inr left ↦ rw left (All-selected P p xs h.1)
]

-- No row of the table has the id.
other_ids :
    (id : String) (ds : List Device)
    → any_row (has_id id) ds ≡ false
    → All (λ d. id == d.id ≡ false) ds
other_ids id [] h = tt
other_ids id (d ∷ ds) h =
    (ground (arith, h, eq_iff d.id id, eq_iff id d.id), other_ids id ds (ground (arith, h)))

pub by_id_nil : (id : String) (ds : List Device) → any_row (has_id id) ds ≡ false → by_id id ds ≡ []
by_id_nil id [] h = refl
by_id_nil id (d ∷ ds) h = ground (arith, by_id_nil id ds)

-- Each row is the one that its id finds.
pub All-by_id : (ds : List Device) → IsKeyed ds → All (λ d. by_id d.id ds ≡ d ∷ []) ds
All-by_id [] h = tt
All-by_id (d ∷ ds) h = (
  rw (eq_refl d.id) (ap (λ es. d ∷ es) (by_id_nil d.id ds h.0)),
  All-both (λ e. d.id == e.id ≡ false) (λ e. by_id e.id ds ≡ e ∷ [])
      (λ e. by_id e.id (d ∷ ds) ≡ e ∷ []) ds (λ e other found. rw (other, found) refl)
      (other_ids d.id ds h.0) (All-by_id ds h.1),
)

any_id-select :
    (id : String) (r : Device → Bool) (ds : List Device)
    → any_row (has_id id) ds ≡ false
    → any_row (λ e. e.id == id) (select r ds) ≡ false
any_id-select id r [] h = refl
any_id-select id r (d ∷ ds) h = ground (arith, h, any_id-select id r ds)

-- A row's id is among those of the rows that a test takes exactly when the test takes the row.
pub All-among_ids :
    (r : Device → Bool) (ds : List Device)
    → IsKeyed ds
    → All (λ d. any_row (λ e. e.id == d.id) (select r ds) ≡ r d) ds
All-among_ids r [] h = tt
All-among_ids r (d ∷ ds) h = (
  ground (arith, any_id-select d.id r ds h.0, eq_iff d.id d.id),
  All-both (λ e. d.id == e.id ≡ false) (λ e. any_row (λ f. f.id == e.id) (select r ds) ≡ r e)
      (λ e. any_row (λ f. f.id == e.id) (select r (d ∷ ds)) ≡ r e) ds
      (λ e other among. elim (Bool-cases (r d)) [
        | inl taken ↦ rw (taken, other, among) refl
        | inr left ↦ rw (left, among) refl
      ])
      (other_ids d.id ds h.0) (All-among_ids r ds h.1),
)

-- The latest of the rows that a test takes is the row that its id finds, and the test takes it.
pub latest-found :
    (p : Device → Bool) (ds : List Device) {d : Device}
    → IsKeyed ds
    → latest (select p ds) ≡ some d
    → (by_id d.id ds ≡ d ∷ []) × (p d ≡ true)
latest-found p ds {d} h found = (
  latest-All (λ e. by_id e.id ds ≡ e ∷ []) (select p ds)
      (All-selected (λ e. by_id e.id ds ≡ e ∷ []) p ds (All-by_id ds h)) found,
  latest-All (λ e. p e ≡ true) (select p ds) (All-select p ds) found,
)

pub select-IsKeyed : (p : Device → Bool) (ds : List Device) → IsKeyed ds → IsKeyed (select p ds)
select-IsKeyed p [] h = tt
select-IsKeyed p (d ∷ ds) h = elim (Bool-cases (p d)) [
  | inl taken ↦ rw taken (any_id-select d.id p ds h.0, select-IsKeyed p ds h.1)
  | inr left ↦ rw left (select-IsKeyed p ds h.1)
]
