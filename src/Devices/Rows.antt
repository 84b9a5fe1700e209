-- ===== src/Devices/Rows.antt =====
-- Laws of the queries on the device table.
use batch_shutdown_assistant.Prelude.{
  String, ◌≡◌, ◌≢◌, inl, inr, refl, Bool, true, false, Option, none, some, List, [], ◌∷◌, ◌++◌,
  length, select, any_row, ◌||◌, ◌==◌, arith, eq_iff, Bool-cases, Option-cases, ok,
  scalar_one_or_none, length-update_where, eq_refl, map, All, leb,
}
use batch_shutdown_assistant.Models.{Device}
use batch_shutdown_assistant.Devices.{has_id, by_id, latest, put, IsKeyed}

pub length-put : (d : Device) (ds : List Device) → length (put d ds) ≡ length ds
unfolding put
length-put d ds = length-update_where (has_id d.id) (λ _. d) ds

-- A write of a row changes no primary key of the table.
pub any_id-put :
    (k : String) (d : Device) (ds : List Device)
    → any_row (has_id k) (put d ds) ≡ any_row (has_id k) ds
unfolding put
any_id-put k d [] = refl
any_id-put k d (e ∷ ds) = ground (arith, any_id-put k d ds, eq_iff e.id d.id)

pub put-IsKeyed : (d : Device) (ds : List Device) → IsKeyed ds → IsKeyed (put d ds)
unfolding put
put-IsKeyed d [] h = tt
put-IsKeyed d (e ∷ ds) h =
    ground (arith, put-IsKeyed d ds h.1, any_id-put e.id d ds, eq_iff e.id d.id)

any_id-append :
    (k : String) (d : Device) (ds : List Device)
    → any_row (has_id k) (ds ++ d ∷ []) ≡ (any_row (has_id k) ds || (d.id == k))
any_id-append k d [] = ground arith
any_id-append k d (e ∷ ds) = ground (arith, any_id-append k d ds)

pub append-IsKeyed :
    (d : Device) (ds : List Device)
    → any_row (has_id d.id) ds ≡ false
    → IsKeyed ds
    → IsKeyed (ds ++ d ∷ [])
append-IsKeyed d [] new h = (refl, tt)
append-IsKeyed d (e ∷ ds) new h =
    ground (arith, append-IsKeyed d ds, any_id-append e.id d ds, eq_iff e.id d.id, eq_iff d.id e.id)

-- A write of one row leaves the rows of every other primary key.
pub by_id-put_ne :
    (k : String) (d : Device) (ds : List Device) → k ≢ d.id → by_id k (put d ds) ≡ by_id k ds
unfolding put
by_id-put_ne k d [] ne = refl
by_id-put_ne k d (e ∷ ds) ne =
    ground (arith, by_id-put_ne k d ds ne, eq_iff e.id d.id, eq_iff d.id k, eq_iff e.id k)

pub by_id-append_ne :
    (k : String) (d : Device) (ds : List Device) → k ≢ d.id → by_id k (ds ++ d ∷ []) ≡ by_id k ds
by_id-append_ne k d [] ne = ground (arith, eq_iff d.id k)
by_id-append_ne k d (e ∷ ds) ne = ground (arith, by_id-append_ne k d ds ne)

by_id-eq-nil : (k : String) (ds : List Device) → any_row (has_id k) ds ≡ false → by_id k ds ≡ []
by_id-eq-nil k [] h = refl
by_id-eq-nil k (e ∷ ds) h = ground (arith, by_id-eq-nil k ds)

-- With unique primary keys a search by primary key never meets a second row.
pub by_id-scalar :
    (k : String) (ds : List Device)
    → IsKeyed ds
    → (o : Option Device) × (scalar_one_or_none (by_id k ds) ≡ ok o)
by_id-scalar k [] h = (none, refl)
by_id-scalar k (e ∷ ds) h = elim (Bool-cases (e.id == k)) [
  | inl same ↦ (some e, rw same (rw (by_id-eq-nil k ds (rw (← ((eq_iff e.id k).0 same)) h.0)) refl))
  | inr other ↦ let (o, p) = by_id-scalar k ds h.1 in (o, rw other p)
]

by_id-put : (d : Device) (ds : List Device) → by_id d.id (put d ds) ≡ map (λ _. d) (by_id d.id ds)
unfolding put
by_id-put d [] = refl
by_id-put d (e ∷ ds) = ground (arith, by_id-put d ds, eq_iff e.id d.id, eq_refl d.id)

pub scalar-eq-some {ℓ} :
    {A : Type ℓ} (xs : List A) {a : A} → scalar_one_or_none xs ≡ ok (some a) → xs ≡ a ∷ []
scalar-eq-some [] h = cc
scalar-eq-some (x ∷ []) h = cc
scalar-eq-some (x ∷ y ∷ xs) h = cc

pub select-append {ℓ} :
    {A : Type ℓ} (p : A → Bool) (xs ys : List A) → select p (xs ++ ys) ≡ select p xs ++ select p ys
select-append p [] ys = refl
select-append p (x ∷ xs) ys = ground (arith, select-append p xs ys)

-- After a write, the row that is found by the written primary key is the one that was written.
pub by_id-put_self :
    (d : Device) {old : Device} (ds : List Device)
    → scalar_one_or_none (by_id d.id ds) ≡ ok (some old)
    → scalar_one_or_none (by_id d.id (put d ds)) ≡ ok (some d)
by_id-put_self d ds h = rw (by_id-put d ds, scalar-eq-some (by_id d.id ds) h)

pub by_id-put_at :
    (k : String) (d : Device) {old : Device} (ds : List Device)
    → d.id ≡ k
    → scalar_one_or_none (by_id k ds) ≡ ok (some old)
    → scalar_one_or_none (by_id k (put d ds)) ≡ ok (some d)
by_id-put_at k d {old} ds e h = rw (← e) (by_id-put_self d {old = old} ds (rw e h))

pub All-select {ℓ} : {A : Type ℓ} (p : A → Bool) (xs : List A) → All (λ x. p x ≡ true) (select p xs)
All-select p [] = tt
All-select p (x ∷ xs) = elim (Bool-cases (p x)) [
  | inl yes_p ↦ rw yes_p (yes_p, All-select p xs)
  | inr no_p ↦ rw no_p (All-select p xs)
]

-- A row that a search by primary key returns has that key.
pub by_id-id :
    (k : String) (ds : List Device) {d : Device}
    → scalar_one_or_none (by_id k ds) ≡ ok (some d)
    → d.id ≡ k
by_id-id k ds {d} h =
    (eq_iff d.id k).0 (rw (scalar-eq-some (by_id k ds) h) at (All-select (has_id k) ds)).0

-- The latest row of a list satisfies what all rows satisfy.
pub latest-All {κ} :
    (P : Device → Type κ) (ds : List Device) {d : Device} → All P ds → latest ds ≡ some d → P d
unfolding latest
latest-All P [] all h = cc
latest-All P (e ∷ ds) {d} all h = elim (Option-cases (latest ds)) [
  | inl empty ↦ let same : e ≡ d = ground arith in rw same at all.0
  | inr (l, found) ↦ elim (Bool-cases (leb l.last_heartbeat e.last_heartbeat)) [
    | inl newer ↦ let same : e ≡ d = ground arith in rw same at all.0
    | inr older ↦ let same : l ≡ d = ground arith in rw same at (latest-All P ds all.1 found)
  ]
]

pub latest-none : (ds : List Device) → latest ds ≡ none → ds ≡ []
unfolding latest
latest-none [] h = refl
latest-none (e ∷ ds) h = elim (Option-cases (latest ds)) [
  | inl empty ↦ ground arith
  | inr (l, found) ↦ ground arith
]
