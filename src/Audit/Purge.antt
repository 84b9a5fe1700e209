-- ===== src/Audit/Purge.antt =====
-- What `purge_old_audits` leaves.
use batch_shutdown_assistant.Prelude.{
  ℕ, ◌+◌, ◌-◌, ◌*◌, ◌≤◌, ◌≡◌, refl, Bool, false, not, List, [], ◌∷◌, length, select, any_row, ltb,
  take, leb, length-without-take, Bool-cases, inl, inr, arith, ◌==◌, eq_refl,
}
use batch_shutdown_assistant.Models.{AuditLog}
use batch_shutdown_assistant.Audit.{
  audit_retention_days, audit_max_rows, day, by_time, is_among, drop_excess, purge_old_audits,
}

ltb-false : (a b : ℕ) → ltb a b ≡ false → b ≤ a
ltb-false a b h = ground (arith, h)

drop_excess-length : (max : ℕ) (rows : List AuditLog) → length (drop_excess max rows).0 ≤ max
unfolding drop_excess by_time
drop_excess-length max rows = elim (Bool-cases (ltb max (length rows))) [
  | inl over ↦ rw over (
      omega (
        arith,
        length-without-take (λ a b. b.id == a.id) (λ a. eq_refl a.id)
            (λ (a b : AuditLog). leb a.created_at b.created_at) (length rows - max) rows,
      ))
  | inr within ↦ rw within (omega (arith, ltb-false max (length rows) within))
]

any_row-select :
    (p q : AuditLog → Bool) (rows : List AuditLog)
    → any_row p rows ≡ false
    → any_row p (select q rows) ≡ false
any_row-select p q [] h = refl
any_row-select p q (a ∷ rows) h = ground (arith, h, any_row-select p q rows)

any_row-select-not :
    (p : AuditLog → Bool) (rows : List AuditLog) → any_row p (select (λ a. not (p a)) rows) ≡ false
any_row-select-not p [] = refl
any_row-select-not p (a ∷ rows) = ground (arith, any_row-select-not p rows)

drop_excess-any_row :
    (p : AuditLog → Bool) (max : ℕ) (rows : List AuditLog)
    → any_row p rows ≡ false
    → any_row p (drop_excess max rows).0 ≡ false
unfolding drop_excess
drop_excess-any_row p max rows h = elim (Bool-cases (ltb max (length rows))) [
  | inl over ↦
      rw over
        (any_row-select p (λ a. not (is_among (take (length rows - max) (by_time rows)) a)) rows h)
  | inr within ↦ rw within h
]

-- A purge leaves at most 200000 rows, and none that is older than 180 days.
pub purge_old_audits_lem :
    (now : ℕ) (audits : List AuditLog)
    → (length (purge_old_audits now audits).0 ≤ audit_max_rows)
      × (any_row
            (λ a. ltb (a.created_at + audit_retention_days * day) now)
            (purge_old_audits now audits).0
          ≡ false)
unfolding purge_old_audits
purge_old_audits_lem now audits =
    let expired = λ (a : AuditLog). ltb (a.created_at + audit_retention_days * day) now in
    let kept = select (λ a. not (expired a)) audits in
    (
      drop_excess-length audit_max_rows kept,
      drop_excess-any_row expired audit_max_rows kept (any_row-select-not expired audits),
    )
