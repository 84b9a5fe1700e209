-- ===== src/Audit/Tests.antt =====
-- Tests of the audit log.
use batch_shutdown_assistant.Prelude.{
  ◌+◌, ◌*◌, ◌≤◌, ◌≡◌, refl, false, some, none, List, [], ◌∷◌, length, any_row, ltb, sort_by,
}
use batch_shutdown_assistant.Models.{AuditLog}
use batch_shutdown_assistant.Audit.{
  audit_retention_days, audit_max_rows, day, by_time, drop_excess, purge_old_audits,
}
use batch_shutdown_assistant.Audit.Purge.{purge_old_audits_lem}
use batch_shutdown_assistant.Audit.Listing.{LogQuery}

abbrev login : AuditLog
login = record {
  id = "l1";
  username = some "admin";
  action = "login";
  target = none;
  detail = none;
  ip_address = none;
  created_at = 1;
}

abbrev later : AuditLog
later = record login { id = "l2"; created_at = 2 }

abbrev other : AuditLog
other = record login { id = "l3"; action = "logout"; created_at = 3 }

abbrev logs : List AuditLog
logs = login ∷ later ∷ other ∷ []

abbrev query : LogQuery
query = record { action = some "login"; username = some ""; page = 1; size = 1 }

drops_oldest : drop_excess 2 logs ≡ (later ∷ other ∷ [], 1)
unfolding drop_excess by_time sort_by
drops_oldest = refl

purge_old_audits_lem_example :
    (length (purge_old_audits (180 * day + 2) logs).0 ≤ audit_max_rows)
    × (any_row
          (λ a. ltb (a.created_at + audit_retention_days * day) (180 * day + 2))
          (purge_old_audits (180 * day + 2) logs).0
        ≡ false)
purge_old_audits_lem_example = purge_old_audits_lem (180 * day + 2) logs
