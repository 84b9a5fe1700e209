-- ===== src/Imports/Tests.antt =====
-- Tests of server/api/import_routes.py.
use batch_shutdown_assistant.Prelude.{
  true, any_row, all_rows, select, ◌||◌, true, List, ℕ, ◌+◌, ◌-◌, ◌≤◌, String, concat, decimal, ◌≡◌,
  refl, none, some, [], ◌∷◌, ok, length,
}
use batch_shutdown_assistant.Models.{Device, Db, empty_db, new_device}
use batch_shutdown_assistant.Addresses.{
  address_text, read_address, read_parts, read_octet, split_dots, all_digits, number_from,
}
use batch_shutdown_assistant.Imports.{
  IpRangeRequest, import_ip_range, import_one, import_all, import_finish, import_between,
}
use batch_shutdown_assistant.Imports.Csv.{
  Row, import_row, import_line, import_rows, import_csv_finish, import_csv,
}
use batch_shutdown_assistant.Imports.Accounting.{is_blank, has_device, import_csv_lem}
use batch_shutdown_assistant.Imports.Present.{KeepsAddresses}
use batch_shutdown_assistant.Uploads.{ends_with}
use batch_shutdown_assistant.Devices.{has_ip}
use batch_shutdown_assistant.Imports.Counts.{import_ip_range_lem}

abbrev known : Device
known = record (new_device "d1" "tok" 0) { ip = some "10.0.0.1" }

abbrev db : Db
db = record empty_db { devices = known ∷ [] }

abbrev two : IpRangeRequest
two = record { start_ip = "10.0.0.1"; end_ip = "10.0.0.2"; group_name = none }

abbrev ids : ℕ → String
ids n = concat "d" (decimal n)

imported : (import_ip_range ids ids (λ s. s) "a1" 5 "admin" two db).0 ≡ ok (1, 1)
unfolding import_ip_range read_address read_parts read_octet split_dots all_digits number_from
    import_between import_all import_one import_finish address_text decimal new_device
imported = refl

import_ip_range_lem_example :
    let db' = (import_ip_range ids ids (λ s. s) "a1" 5 "admin" two db).1 in
    (start : ℕ) × (end : ℕ) × (read_address "10.0.0.1" ≡ some start)
    × (read_address "10.0.0.2" ≡ some end)
    × (start ≤ end)
    × (end ≤ start + 1024)
    × (1 + 1 ≡ end - start + 1)
    × (length db'.devices ≡ length db.devices + 1)
    × ((i : ℕ) → start ≤ i → i ≤ end → any_row (has_ip (address_text i)) db'.devices ≡ true)
    × KeepsAddresses db.devices db'.devices
import_ip_range_lem_example = import_ip_range_lem ids ids (λ s. s) "a1" 5 "admin" two db imported

abbrev file : List Row
file =
    record { hostname = some "pc"; ip = some "10.0.0.9"; group = none }
    ∷ record { hostname = none; ip = some "10.0.0.1"; group = some "lab" }
    ∷ record { hostname = some "nowhere"; ip = none; group = none }
    ∷ []

file_imported :
    (import_csv (λ s. s) ids ids "a1" 5 "admin" "f.csv" "hall" file db).0
    ≡ ok (1, 1, "Row 4: missing ip" ∷ [])
unfolding import_csv import_rows import_line import_row import_csv_finish decimal new_device
file_imported = refl

import_csv_lem_example :
    let db' = (import_csv (λ s. s) ids ids "a1" 5 "admin" "f.csv" "hall" file db).1 in
    (ends_with "f.csv" ".csv" ≡ true)
    × (length {A = String} ("Row 4: missing ip" ∷ []) ≡ length (select (is_blank (λ s. s)) file))
    × (all_rows (λ row. is_blank (λ s. s) row || has_device (λ s. s) db'.devices row) file ≡ true)
    × KeepsAddresses db.devices db'.devices
    × (◌≡◌ {A = ℕ} (1 + 1 + length {A = String} ("Row 4: missing ip" ∷ [])) (length file))
    × (length db'.devices ≡ length db.devices + 1)
import_csv_lem_example =
    import_csv_lem (λ s. s) ids ids "a1" 5 "admin" "f.csv" "hall" file db file_imported
