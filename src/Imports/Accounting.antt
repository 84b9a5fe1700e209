-- ===== src/Imports/Accounting.antt =====
-- The answer of a CSV import accounts for every row of the file.
use mathlib.Core.Path.{subst}
use batch_shutdown_assistant.Prelude.{
  ◌||◌, ◌++◌, if◌then◌else◌, refl, sym, ap, ◌∙◌, any_row, all_rows, ℕ, ◌+◌, inl, inr, String, Bool,
  Bool-cases, ◌≡◌, Option, none, some, List, [], ◌∷◌, length, true, length-append, select, Result,
  ok, err, scalar_one_or_none, Result-cases, arith, ◌==◌, concat, decimal,
}
use batch_shutdown_assistant.Models.{Device, Db, new_device}
use batch_shutdown_assistant.Devices.{has_ip}
use batch_shutdown_assistant.Inventory.{audit_device}
use batch_shutdown_assistant.Uploads.{ends_with}
use batch_shutdown_assistant.Imports.Present.{
  KeepsAddresses, KeepsAddresses-same, KeepsAddresses-trans, KeepsAddresses-append, found-there,
}
use batch_shutdown_assistant.Imports.Csv.{
  text_or_none, Row, column_or, Progress, import_row, import_line, import_rows, import_csv_finish,
  import_csv,
}

-- The row has no address.
abbrev pub is_blank : (String → String) → Row → Bool
is_blank strip row = strip (column_or row.ip "") == ""

abbrev pub has_device : (String → String) → List Device → Row → Bool
has_device strip ds row = any_row (has_ip (strip (column_or row.ip ""))) ds

module _ (strip : String → String) (ids tokens : ℕ → String) (now : ℕ) (group_name : String) where
  import_row-errors :
      (i : ℕ) (row : Row) (p q : Progress) (found : Result (Option Device))
      → import_row strip ids tokens now group_name i row p found ≡ ok q
      → length q.errors ≡ length p.errors
  unfolding import_row
  import_row-errors i row p q (err e) h = cc
  import_row-errors i row p q (ok (some d)) h = ground arith
  import_row-errors i row p q (ok none) h = ground arith

  import_row-counts :
      (i : ℕ) (row : Row) (p q : Progress) (found : Result (Option Device))
      → import_row strip ids tokens now group_name i row p found ≡ ok q
      → (q.added + q.skipped + length q.errors ≡ p.added + p.skipped + length p.errors + 1)
        × (length q.devices + p.added ≡ length p.devices + q.added)
  unfolding import_row
  import_row-counts i row p q (err e) h = cc
  import_row-counts i row p q (ok (some d)) h = ground arith
  import_row-counts i row p q (ok none) h = grind (arith, length-append)

  import_line-counts :
      (i : ℕ) (row : Row) (p q : Progress)
      → import_line strip ids tokens now group_name i row p ≡ ok q
      → (q.added + q.skipped + length q.errors ≡ p.added + p.skipped + length p.errors + 1)
        × (length q.devices + p.added ≡ length p.devices + q.added)
  unfolding import_line
  import_line-counts i row p q h =
      let ip = strip (column_or row.ip "") in
      elim (Bool-cases (ip == "")) [
        | inl blank ↦
            let line = concat "Row " (concat (decimal i) ": missing ip") in
            let one = length-append p.errors (line ∷ []) in ground (arith, rw blank at h, one)
        | inr given ↦
            import_row-counts i row p q (scalar_one_or_none (select (has_ip ip) p.devices))
              (rw given at h)
      ]

  import_row-present :
      (i : ℕ) (row : Row) (p q : Progress) (found : Result (Option Device))
      → let ip = strip (column_or row.ip "") in
        scalar_one_or_none (select (has_ip ip) p.devices) ≡ found
        → import_row strip ids tokens now group_name i row p found ≡ ok q
        → (any_row (has_ip ip) q.devices ≡ true) × KeepsAddresses p.devices q.devices
  unfolding import_row
  import_row-present i row p q (err e) there h = cc
  import_row-present i row p q (ok (some d)) there h =
      let ip = strip (column_or row.ip "") in
      let same : p.devices ≡ q.devices = cc in
      subst (λ ds. (any_row (has_ip ip) ds ≡ true) × KeepsAddresses p.devices ds) same
        (found-there ip p.devices there, KeepsAddresses-same p.devices)
  import_row-present i row p q (ok none) there h =
      let ip = strip (column_or row.ip "") in
      let d : Device = record (new_device (ids i) (tokens i) now) {
        hostname = text_or_none (strip (column_or row.hostname ""));
        ip = some ip;
        group_name = text_or_none (strip (column_or row.group group_name));
      } in
      let same : p.devices ++ d ∷ [] ≡ q.devices = cc in
      subst (λ ds. (any_row (has_ip ip) ds ≡ true) × KeepsAddresses p.devices ds) same
        (KeepsAddresses-append ip p.devices d there refl)

  import_line-present :
      (i : ℕ) (row : Row) (p q : Progress)
      → import_line strip ids tokens now group_name i row p ≡ ok q
      → ((is_blank strip row || has_device strip q.devices row) ≡ true)
        × (length q.errors ≡ (if is_blank strip row then length p.errors + 1 else length p.errors))
        × KeepsAddresses p.devices q.devices
  unfolding import_line import_row
  import_line-present i row p q h =
      let ip = strip (column_or row.ip "") in
      elim (Bool-cases (ip == "")) [
        | inl blank ↦
            let line = concat "Row " (concat (decimal i) ": missing ip") in
            let e = rw blank at h in
            let same : p.devices ≡ q.devices = cc in
            let errors : p.errors ++ line ∷ [] ≡ q.errors = cc in
            (
              rw blank refl,
              rw blank (ap (λ es. length es) (sym errors) ∙ length-append p.errors (line ∷ [])),
              subst (KeepsAddresses p.devices) same (KeepsAddresses-same p.devices),
            )
        | inr given ↦
            let e = rw given at h in
            let found = scalar_one_or_none (select (has_ip ip) p.devices) in
            let (there, keeps) = import_row-present i row p q found refl e in
            (rw given there, rw given (import_row-errors i row p q found e), keeps)
      ]

  import_rows-present :
      (i : ℕ) (rows : List Row) (p q : Progress)
      → import_rows strip ids tokens now group_name i rows p ≡ ok q
      → (all_rows (λ row. is_blank strip row || has_device strip q.devices row) rows ≡ true)
        × (length q.errors ≡ length p.errors + length (select (is_blank strip) rows))
        × KeepsAddresses p.devices q.devices
  unfolding import_rows
  import_rows-present i [] p q h =
      let same : p ≡ q = cc in
      (
        refl,
        ground (arith, ap (λ (r : Progress). length r.errors) same),
        subst (λ (r : Progress). KeepsAddresses p.devices r.devices) same
            (KeepsAddresses-same p.devices),
      )
  import_rows-present i (row ∷ rows) p q h =
      elim (Result-cases (import_line strip ids tokens now group_name i row p)) [
        | inl (e, raised) ↦ absurd (cc (rw (import_rows, raised) at h))
        | inr (r, turn) ↦
            let (here, errors, keeps) = import_line-present i row p r turn in
            let (later, errors', keeps') =
              import_rows-present (i + 1) rows r q (rw (import_rows, turn) at h) in
            let still : (is_blank strip row || has_device strip q.devices row) ≡ true =
              elim (Bool-cases (is_blank strip row)) [
                | inl blank ↦ rw blank refl
                | inr given ↦ ground (
                  arith,
                  given,
                  (keeps' (strip (column_or row.ip "")) (ground (arith, here, given))).0,
                )
              ] in
            (
              ground (arith, still, later),
              ground (arith, errors, errors'),
              KeepsAddresses-trans p.devices r.devices q.devices keeps keeps',
            )
      ]

  import_rows-counts :
      (i : ℕ) (rows : List Row) (p q : Progress)
      → import_rows strip ids tokens now group_name i rows p ≡ ok q
      → (q.added + q.skipped + length q.errors
          ≡ p.added + p.skipped + length p.errors + length rows)
        × (length q.devices + p.added ≡ length p.devices + q.added)
  unfolding import_rows
  import_rows-counts i [] p q h = ground arith
  import_rows-counts i (row ∷ rows) p q h =
      elim (Result-cases (import_line strip ids tokens now group_name i row p)) [
        | inl (e, raised) ↦ absurd (cc (rw (import_rows, raised) at h))
        | inr (r, turn) ↦
            let one = import_line-counts i row p r turn in
            let rest = import_rows-counts (i + 1) rows r q (rw (import_rows, turn) at h) in
            ground (arith, one, rest)
      ]

-- A CSV import that is answered was given a name that ends in ".csv". There is one error for each row
-- without an address; the three counts sum to that of the rows, and the table has grown by the first.
-- Afterwards the address of each row that has one has a device, and each address that had devices has
-- these and no other.
pub import_csv_lem :
    {added skipped : ℕ} {errors : List String} (strip : String → String) (ids tokens : ℕ → String)
    (fresh : String) (now : ℕ) (username filename group_name : String) (rows : List Row) (db : Db)
    → (import_csv strip ids tokens fresh now username filename group_name rows db).0
      ≡ ok (added, skipped, errors)
    → let db' = (import_csv strip ids tokens fresh now username filename group_name rows db).1 in
      (ends_with filename ".csv" ≡ true)
      × (length errors ≡ length (select (is_blank strip) rows))
      × (all_rows (λ row. is_blank strip row || has_device strip db'.devices row) rows ≡ true)
      × KeepsAddresses db.devices db'.devices
      × (added + skipped + length errors ≡ length rows)
      × (length db'.devices ≡ length db.devices + added)
unfolding import_csv import_csv_finish audit_device
import_csv_lem {added} {skipped} {errors} strip ids tokens fresh now username filename group_name
      rows db h =
    let from : Progress = record { added = 0; skipped = 0; errors = []; devices = db.devices } in
    let loop = import_rows strip ids tokens now group_name 2 rows from in
    elim (Result-cases loop) [
      | inl (e, raised) ↦ absurd (ground (arith, raised))
      | inr (q, done) ↦
          let counts = import_rows-counts strip ids tokens now group_name 2 rows from q done in
          let (all, blank, keeps) =
            import_rows-present strip ids tokens now group_name 2 rows from q done in
          (
            ground (arith, done),
            ground (arith, done, blank),
            ground (arith, done, all),
            λ a there. ground (arith, done, keeps a there),
            ground (arith, done, counts),
            ground (arith, done, counts),
          )
    ]
