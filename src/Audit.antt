-- ===== src/Audit.antt =====
-- server/api/audit.py: the audit log. `now` is the time of the call, `fresh` its `uuid4()`.
pub mod Purge
pub mod Listing
mod Tests
use batch_shutdown_assistant.Prelude.{
  ℕ, ◌+◌, ◌-◌, ◌*◌, String, Bool, not, Option, List, [], ◌∷◌, ◌++◌, take, length, select, any_row,
  ltb, leb, sort_by, ◌==◌, if◌then◌else◌,
}
use batch_shutdown_assistant.Models.{AuditLog}

abbrev pub audit_retention_days : ℕ
audit_retention_days = 180

abbrev pub audit_max_rows : ℕ
audit_max_rows = 200000

-- A day in microseconds.
abbrev pub day : ℕ
day = 86400000000

-- The optional arguments of `log_audit`.
pub record Entry : Type 0 where
  pub username : Option String
  pub target : Option String
  pub detail : Option String
  pub ip_address : Option String

unfoldable pub log_audit : String → ℕ → String → Entry → List AuditLog → List AuditLog
log_audit fresh now action entry audits =
    audits
    ++ record {
      id = fresh;
      username = entry.username;
      action = action;
      target = entry.target;
      detail = entry.detail;
      ip_address = entry.ip_address;
      created_at = now;
    }
      ∷ []

-- `order_by(created_at)`, where rows of one time stay in the order of the table
unfoldable pub by_time : List AuditLog → List AuditLog
by_time rows = sort_by (λ (a b : AuditLog). leb a.created_at b.created_at) rows

-- `AuditLog.id.in_(oldest)`
abbrev pub is_among : List AuditLog → AuditLog → Bool
is_among oldest a = any_row (λ b. b.id == a.id) oldest

-- The second deletion, of the rows beyond the maximum.
unfoldable pub drop_excess : ℕ → List AuditLog → List AuditLog × ℕ
unfolding by_time
drop_excess max rows =
    let oldest = take (length rows - max) (by_time rows) in
    if ltb max (length rows)
    then (select (λ a. not (is_among oldest a)) rows, length oldest)
    else (rows, 0)

-- `purge_old_audits`: the rows that are left, and the number that it returns. A time before the
-- retention period is one that `created_at + period` does not bring up to now.
unfoldable pub purge_old_audits : ℕ → List AuditLog → List AuditLog × ℕ
unfolding drop_excess
purge_old_audits now audits =
    let expired = λ (a : AuditLog). ltb (a.created_at + audit_retention_days * day) now in
    let kept = select (λ a. not (expired a)) audits in
    let (rows, deleted) = drop_excess audit_max_rows kept in
    (rows, length (select expired audits) + deleted)
