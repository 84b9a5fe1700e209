-- ===== src/Database/Tests.antt =====
-- Tests of server/database.py.
use batch_shutdown_assistant.Prelude.{
  ◌≡◌, refl, true, not, ◌||◌, some, List, [], ◌∷◌, any_row, all_rows, length, ◌==◌,
}
use batch_shutdown_assistant.Models.{Device, new_device}
use batch_shutdown_assistant.Devices.{IsKeyed}
use batch_shutdown_assistant.Database.{Column, Schema, has_column, additions, add_columns, migrate}
use batch_shutdown_assistant.Database.Restart.{migrate_twice}

abbrev old : Device
old = record (new_device "d1" "tok" 3) { ip = some "10.0.0.1" }

abbrev new : Device
new = record (new_device "d2" "tik" 8) { ip = some "10.0.0.1" }

abbrev gone : Device
gone = record (new_device "d3" "tak" 5) { ip = some "10.0.0.1"; deleted_at = some 6 }

abbrev table : List Device
table = old ∷ new ∷ gone ∷ []

table-IsKeyed : IsKeyed table
unfolding new_device
table-IsKeyed = (refl, (refl, (refl, tt)))

abbrev schema : Schema
schema = record {
  tables = "devices" ∷ [];
  columns = ("id", "VARCHAR(36)") ∷ ("model", "VARCHAR(255)") ∷ [];
}

adds_eleven : length (migrate schema table).0.columns ≡ 13
unfolding migrate add_columns
adds_eleven = refl

migrate_twice_example :
    let (s', ds') = migrate schema table in
    (migrate s' ds' ≡ (s', ds'))
    × ((not (any_row (λ t. t == "devices") schema.tables)
          || all_rows (λ (c : Column). has_column c.0 s'.columns) additions)
        ≡ true)
migrate_twice_example = migrate_twice schema table table-IsKeyed
