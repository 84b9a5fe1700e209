-- ===== src/Database/Restart.antt =====
-- A second start of the server finds nothing to do.
use batch_shutdown_assistant.Prelude.{
  ◌≤◌, String, ◌≡◌, ◌∙◌, refl, ap, Bool, true, false, not, ◌||◌, List, [], ◌∷◌, ◌++◌, select,
  any_row, all_rows, All, length, arith, eq_iff, ◌==◌, Bool-cases, Option-cases, inl, inr,
  if◌then◌else◌,
}
use batch_shutdown_assistant.Models.{Device}
use batch_shutdown_assistant.Devices.{IsKeyed, latest}
use batch_shutdown_assistant.Devices.Dedupe.{is_live_at, duplicate_ips, keep_each, dedupe_devices}
use batch_shutdown_assistant.Devices.Dedupe.Live.{length-to_list, dedupe_devices_lem}
use batch_shutdown_assistant.Database.{Column, Schema, has_column, additions, add_columns, migrate}

-- The first query finds no address where none has two live devices.
duplicate_ips-none :
    (all ds : List Device)
    → ((ip : String) → length (select (is_live_at ip) all) ≤ 1)
    → duplicate_ips all ds ≡ []
unfolding duplicate_ips
duplicate_ips-none all [] few = refl
duplicate_ips-none all (d ∷ ds) few =
    let rest = duplicate_ips-none all ds few in
    elim (Option-cases d.ip) [
      | inl unknown ↦ rw unknown rest
      | inr (a, known) ↦ rw known (ground (arith, rest, few a))
    ]

dedupe_twice :
    (ds : List Device) → IsKeyed ds → dedupe_devices (dedupe_devices ds) ≡ dedupe_devices ds
dedupe_twice ds h =
    let clean = dedupe_devices ds in
    let none_twice : duplicate_ips clean clean ≡ [] = duplicate_ips-none clean clean (λ ip.
      rw (dedupe_devices_lem ip ds h).0 (length-to_list (latest (select (is_live_at ip) ds)))) in
    unfold dedupe_devices keep_each in ap (λ ips. keep_each ips clean) none_twice

has_column-append :
    (name : String) (cs ds : List Column)
    → has_column name cs ≡ true
    → has_column name (cs ++ ds) ≡ true
has_column-append name [] ds h = cc
has_column-append name (c ∷ cs) ds h = ground (arith, has_column-append name cs ds)

has_column-last :
    (name type : String) (cs : List Column) → has_column name (cs ++ (name, type) ∷ []) ≡ true
has_column-last name type [] = ground (arith, eq_iff name name)
has_column-last name type (c ∷ cs) = ground (arith, has_column-last name type cs)

-- The loop drops no column.
has_column-add_columns :
    (name : String) (old rest cs : List Column)
    → has_column name cs ≡ true
    → has_column name (add_columns old rest cs) ≡ true
unfolding add_columns
has_column-add_columns name old [] cs h = h
has_column-add_columns name old ((n, t) ∷ rest) cs h = elim (Bool-cases (has_column n old)) [
  | inl there ↦ rw there (has_column-add_columns name old rest cs h)
  | inr new ↦ rw new (
      has_column-add_columns name old rest (cs ++ (n, t) ∷ [])
        (has_column-append name cs ((n, t) ∷ []) h))
]

-- A turn of the loop has its column after it, and drops none.
has_column-next :
    (n t : String) (old cs : List Column)
    → ((name : String) → has_column name old ≡ true → has_column name cs ≡ true)
    → let next = if has_column n old then cs else cs ++ (n, t) ∷ [] in
      (has_column n next ≡ true)
      × ((name : String) → has_column name old ≡ true → has_column name next ≡ true)
has_column-next n t old cs within = elim (Bool-cases (has_column n old)) [
  | inl there ↦ rw there (within n there, within)
  | inr new ↦
      rw new
        (has_column-last n t cs, λ name h. has_column-append name cs ((n, t) ∷ []) (within name h))
]

all_rows-All :
    (p : Column → Bool) (cs : List Column) → All (λ c. p c ≡ true) cs → all_rows p cs ≡ true
all_rows-All p [] h = refl
all_rows-All p (c ∷ cs) h = rw h.0 (all_rows-All p cs h.1)

-- After the loop every column that it is given is there.
All-add_columns :
    (old rest cs : List Column)
    → ((name : String) → has_column name old ≡ true → has_column name cs ≡ true)
    → All (λ (c : Column). has_column c.0 (add_columns old rest cs) ≡ true) rest
unfolding add_columns
All-add_columns old [] cs within = tt
All-add_columns old ((n, t) ∷ rest) cs within =
    let next = if has_column n old then cs else cs ++ (n, t) ∷ [] in
    let grown = has_column-next n t old cs within in
    (has_column-add_columns n old rest next grown.0, All-add_columns old rest next grown.1)

add_columns-same :
    (old rest cs : List Column)
    → All (λ (c : Column). has_column c.0 old ≡ true) rest
    → add_columns old rest cs ≡ cs
unfolding add_columns
add_columns-same old [] cs h = refl
add_columns-same old ((n, t) ∷ rest) cs h = rw h.0 (add_columns-same old rest cs h.1)

migrate-there :
    (s : Schema) (ds : List Device)
    → any_row (λ t. t == "devices") s.tables ≡ true
    → migrate s ds
      ≡ (record s { columns = add_columns s.columns additions s.columns }, dedupe_devices ds)
unfolding migrate
migrate-there s ds there = rw there refl

migrate-gone :
    (s : Schema) (ds : List Device)
    → any_row (λ t. t == "devices") s.tables ≡ false
    → migrate s ds ≡ (s, ds)
unfolding migrate
migrate-gone s ds gone = rw gone refl

-- With unique primary keys a second start, right after a first, changes neither the columns nor the
-- devices; after the first, where the table is there, it has each of the added columns.
pub migrate_twice :
    (s : Schema) (ds : List Device)
    → IsKeyed ds
    → let (s', ds') = migrate s ds in
      (migrate s' ds' ≡ (s', ds'))
      × ((not (any_row (λ t. t == "devices") s.tables)
            || all_rows (λ (c : Column). has_column c.0 s'.columns) additions)
          ≡ true)
migrate_twice s ds h = elim (Bool-cases (any_row (λ t. t == "devices") s.tables)) [
  | inl there ↦
      let cs = add_columns s.columns additions s.columns in
      let clean = dedupe_devices ds in
      let s' : Schema = record s { columns = cs } in
      let full = All-add_columns s.columns additions s.columns (λ name k. k) in
      rw (migrate-there s ds there) (
        migrate-there s' clean there
            ∙ ap (λ k. (record s { columns = k }, dedupe_devices clean))
                (add_columns-same cs additions cs full)
            ∙ ap (λ es. (s', es)) (dedupe_twice ds h),
        rw there (all_rows-All (λ (c : Column). has_column c.0 cs) additions full),
      )
  | inr gone ↦ rw (migrate-gone s ds gone) (migrate-gone s ds gone, rw gone refl)
]
