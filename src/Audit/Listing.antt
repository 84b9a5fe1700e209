-- ===== src/Audit/Listing.antt =====
-- server/api/audit_routes.py: the view of the audit log, newest first, in pages. Rows of one time are
-- shown in the order of the table, which the code leaves to the database.
use batch_shutdown_assistant.Prelude.{
  ℕ, zero, suc, ◌+◌, ◌-◌, ◌*◌, ◌≤◌, String, ◌≡◌, refl, ap, ◌∙◌, Bool, true, false, ◌&&◌, Option,
  none, some, List, [], ◌++◌, length, select, sort_by, length-sort_by, page_of, pages, pages-take,
  take-all, leb, arith, ◌==◌, if◌then◌else◌,
}
use batch_shutdown_assistant.Models.{AuditLog}

pub record LogQuery : Type 0 where
  pub action : Option String
  pub username : Option String
  pub page : ℕ
  pub size : ℕ

pub record LogPage : Type 0 where
  pub total : ℕ
  pub page : ℕ
  pub size : ℕ
  pub items : List AuditLog

-- `if action:` and the comparison of the column; an empty text is no filter.
abbrev pub has_action : Option String → AuditLog → Bool
has_action none l = true
has_action (some s) l = if s == "" then true else l.action == s

abbrev column_equal : Option String → String → Bool
column_equal none s = false
column_equal (some t) s = t == s

abbrev pub has_username : Option String → AuditLog → Bool
has_username none l = true
has_username (some s) l = if s == "" then true else column_equal l.username s

abbrev pub is_match : LogQuery → AuditLog → Bool
is_match q l = has_action q.action l && has_username q.username l

-- `order_by(AuditLog.created_at.desc())`
abbrev pub newest_first : List AuditLog → List AuditLog
newest_first rows = sort_by (λ (a b : AuditLog). leb b.created_at a.created_at) rows

-- `GET /api/audit`
unfoldable pub list_audit_logs : LogQuery → List AuditLog → LogPage
list_audit_logs q audits = record {
  total = length (select (is_match q) audits);
  page = q.page;
  size = q.size;
  items = page_of ((q.page - 1) * q.size) q.size (newest_first (select (is_match q) audits));
}

-- The items of so many pages from a page on.
unfoldable pub shown_logs : LogQuery → ℕ → ℕ → List AuditLog → List AuditLog
unfolding list_audit_logs
shown_logs q zero page audits = []
shown_logs q (suc n) page audits =
    (list_audit_logs (record q { page = page }) audits).items ++ shown_logs q n (page + 1) audits

shown_logs-pages :
    (q : LogQuery) (n k : ℕ) (audits : List AuditLog)
    → shown_logs q n (k + 1) audits
      ≡ pages n (k * q.size) q.size (newest_first (select (is_match q) audits))
unfolding shown_logs pages list_audit_logs
shown_logs-pages q zero k audits = refl
shown_logs-pages q (suc n) k audits =
    let rest = shown_logs-pages q n (k + 1) audits in
    let xs = newest_first (select (is_match q) audits) in
    let e : k + 1 - 1 ≡ k = omega arith in
    let e' : (k + 1) * q.size ≡ k * q.size + q.size = omega arith in
    ap (λ start. page_of (start * q.size) q.size xs ++ shown_logs q n (k + 1 + 1) audits) e
    ∙ ap (λ ys. page_of (k * q.size) q.size xs ++ ys)
        (rest ∙ ap (λ start. pages n start q.size xs) e')

-- As many pages as hold the total of the first page show, put together, each matching row once,
-- newest first.
pub list_audit_logs_pages :
    (q : LogQuery) (n : ℕ) (audits : List AuditLog)
    → (list_audit_logs q audits).total ≤ n * q.size
    → shown_logs q n 1 audits ≡ newest_first (select (is_match q) audits)
unfolding list_audit_logs
list_audit_logs_pages q n audits h =
    let rows = select (is_match q) audits in
    let le = λ (a b : AuditLog). leb b.created_at a.created_at in
    let e : 0 * q.size ≡ 0 = omega arith in
    shown_logs-pages q n 0 audits
    ∙ ap (λ start. pages n start q.size (newest_first rows)) e
    ∙ pages-take n 0 q.size (newest_first rows)
    ∙ take-all (n * q.size) (newest_first rows) (omega (arith, h, length-sort_by le rows))
