-- ===== src/Imports/Csv.antt =====
-- server/api/import_routes.py: the import of a CSV file. `rows` is what `csv.DictReader` gives of the
-- decoded text: for each record the values of the columns that it has. A value that is `None`, for a
-- record shorter than the header, raises in the code and is not modelled.
use batch_shutdown_assistant.Prelude.{
  ℕ, ◌+◌, String, concat, decimal, not, Option, none, some, List, [], ◌∷◌, ◌++◌, length, select,
  Result, ok, err, http, scalar_one_or_none, ◌==◌, if◌then◌else◌,
}
use batch_shutdown_assistant.Models.{Device, new_device, Db}
use batch_shutdown_assistant.Devices.{has_ip}
use batch_shutdown_assistant.Inventory.{audit_device}
use batch_shutdown_assistant.Uploads.{ends_with}

pub record Row : Type 0 where
  pub hostname : Option String
  pub ip : Option String
  pub group : Option String

-- `row.get(column, default)`
abbrev pub column_or : Option String → String → String
column_or none d = d
column_or (some s) d = s

-- `s or None`
abbrev pub text_or_none : String → Option String
text_or_none s = if s == "" then none else some s

pub record Progress : Type 0 where
  pub added : ℕ
  pub skipped : ℕ
  pub errors : List String
  pub devices : List Device

module _ (strip : String → String) (ids tokens : ℕ → String) (now : ℕ) (group_name : String) where
  -- A row with an address, on what the search for the address gave; `i` is the row's number.
  unfoldable pub import_row : ℕ → Row → Progress → Result (Option Device) → Result Progress
  import_row i row p (err e) = err e
  import_row i row p (ok (some d)) = ok (record p { skipped = p.skipped + 1 })
  import_row i row p (ok none) = ok (record p {
    added = p.added + 1;
    devices =
        p.devices
        ++ record (new_device (ids i) (tokens i) now) {
          hostname = text_or_none (strip (column_or row.hostname ""));
          ip = some (strip (column_or row.ip ""));
          group_name = text_or_none (strip (column_or row.group group_name));
        }
          ∷ [];
  })

  unfoldable pub import_line : ℕ → Row → Progress → Result Progress
  unfolding import_row
  import_line i row p =
      let ip = strip (column_or row.ip "") in
      if ip == ""
      then ok
          (record p { errors = p.errors ++ concat "Row " (concat (decimal i) ": missing ip") ∷ [] })
      else import_row i row p (scalar_one_or_none (select (has_ip ip) p.devices))

  -- The loop; a search that raises ends it.
  unfoldable pub import_rows : ℕ → List Row → Progress → Result Progress
  unfolding import_line
  import_rows i [] p = ok p
  import_rows i (row ∷ rows) p = elim (import_line i row p) [
    | err e ↦ err e
    | ok q ↦ import_rows (i + 1) rows q
  ]

  -- The end of the request: nothing is committed where the loop raised.
  unfoldable pub import_csv_finish :
      String → String → String → Db → Result Progress → Result (ℕ × ℕ × List String) × Db
  unfolding audit_device
  import_csv_finish fresh username filename db (err e) = (err e, db)
  import_csv_finish fresh username filename db (ok p) = (
    ok (p.added, p.skipped, p.errors),
    audit_device fresh now "import_csv" username (some filename)
        (some (
          concat "added=" (
            concat (decimal p.added) (
              concat ", skipped="
                (concat (decimal p.skipped) (concat ", errors=" (decimal (length p.errors))))))))
        (record db { devices = p.devices }),
  )

-- `POST /api/devices/import/csv`; The first record is row 2.
unfoldable pub import_csv :
    (String → String)
    → (ℕ → String)
    → (ℕ → String)
    → String
    → ℕ
    → String
    → String
    → String
    → List Row
    → Db
    → Result (ℕ × ℕ × List String) × Db
unfolding import_rows import_csv_finish
import_csv strip ids tokens fresh now username filename group_name rows db =
    if not (ends_with filename ".csv")
    then (err (http 400 "仅支持 CSV 文件"), db)
    else import_csv_finish strip ids tokens now group_name fresh username filename db (
        import_rows strip ids tokens now group_name 2 rows
          (record { added = 0; skipped = 0; errors = []; devices = db.devices }))
