-- ===== src/System/Imports.antt =====
-- The imports add devices with new ids, and nothing else.
use batch_shutdown_assistant.Prelude.{
  ℕ, zero, suc, ◌+◌, ◌-◌, ◌≤◌, String, ◌≡◌, ◌≢◌, ◌∙◌, refl, sym, ap, false, Option, none, some,
  List, [], ◌∷◌, ◌++◌, select, any_row, ltb, arith, eq_iff, Bool-cases, Option-cases, inl, inr,
  Result, ok, err, scalar_one_or_none, ◌==◌,
}
use batch_shutdown_assistant.Models.{Device, new_device, Db}
use batch_shutdown_assistant.Devices.{has_ip, has_id}
use batch_shutdown_assistant.Addresses.{address_text, read_address}
use batch_shutdown_assistant.Uploads.{ends_with}
use batch_shutdown_assistant.Imports
use batch_shutdown_assistant.Imports.{
  IpRangeRequest, import_one, import_all, import_finish, import_between, import_ip_range,
}
use batch_shutdown_assistant.Imports.Csv
use batch_shutdown_assistant.Imports.Csv.{
  Row, column_or, import_row, import_line, import_rows, import_csv_finish, import_csv,
}
use batch_shutdown_assistant.Inventory.{audit_device}
use batch_shutdown_assistant.System.Tables.{Grown, Grown-same, Grown-append, Grown-trans}

module _ (ids : ℕ → String) (injective : (i j : ℕ) → ids i ≡ ids j → i ≡ j) where
  -- No device has an id that the requests from a number on will get.
  abbrev pub Unused : ℕ → List Device → Type 0
  Unused i ds = (n : ℕ) → i ≤ n → any_row (has_id (ids n)) ds ≡ false

  any_id-last :
      (k : String) (d : Device) (ds : List Device)
      → any_row (has_id k) ds ≡ false
      → d.id ≢ k
      → any_row (has_id k) (ds ++ d ∷ []) ≡ false
  any_id-last k d [] h ne = ground (arith, ne, eq_iff d.id k)
  any_id-last k d (e ∷ ds) h ne = ground (arith, h, any_id-last k d ds (ground (arith, h)) ne)

  -- What a turn leaves, where it does not raise.
  abbrev pub IsGrowth {ℓ} : {P : Type ℓ} → (P → List Device) → ℕ → List Device → Result P → Type 0
  IsGrowth devices i ds (err e) = Unit
  IsGrowth devices i ds (ok q) = Grown ds (devices q) × Unused i (devices q)

  Growth-append :
      (i : ℕ) (d : Device) (ds : List Device)
      → d.id ≡ ids i
      → Unused i ds
      → Grown ds (ds ++ d ∷ []) × Unused (i + 1) (ds ++ d ∷ [])
  Growth-append i d ds own unused = (
    Grown-append d ds (ap (λ k. any_row (has_id k) ds) own ∙ unused i (omega arith)),
    λ n le.
        any_id-last (ids n) d ds (unused n (omega arith))
          (λ e. omega (arith, injective i n (sym own ∙ e))),
  )

  Unused-next : (i : ℕ) (ds : List Device) → Unused i ds → Unused (i + 1) ds
  Unused-next i ds unused n le = unused n (omega arith)

  -- What a loop leaves, where it does not raise.
  abbrev pub IsGrown {ℓ} : {P : Type ℓ} → (P → List Device) → List Device → Result P → Type 0
  IsGrown devices ds (err e) = Unit
  IsGrown devices ds (ok q) = Grown ds (devices q)

  widen {ℓ} :
      {P : Type ℓ} (devices : P → List Device) {ds es : List Device} (r : Result P)
      → Grown ds es
      → IsGrown devices es r
      → IsGrown devices ds r
  widen devices (err e) g h = tt
  widen devices (ok q) g h = Grown-trans g h

  -- A turn, and the rest of the loop after it.
  next_turn {ℓ} :
      {P : Type ℓ} (devices : P → List Device) (i : ℕ) (ds : List Device) (r : Result P)
      (rest : P → Result P)
      → IsGrowth devices i ds r
      → ((q : P) → Unused i (devices q) → IsGrown devices (devices q) (rest q))
      → IsGrown devices ds (elim r [ err e ↦ err e | ok q ↦ rest q ])
  next_turn devices i ds (err e) rest h k = tt
  next_turn devices i ds (ok q) rest h k = widen devices (rest q) h.0 (k q h.1)

  module _ (tokens : ℕ → String) (now : ℕ) where
    import_one-IsGrowth :
        (group : Option String) (ip : ℕ) (p : Imports.Progress) (found : Result (Option Device))
        → Unused ip p.devices
        → IsGrowth
            (λ (q : Imports.Progress). q.devices)
            (ip + 1)
            p.devices
            (import_one ids tokens now group ip p found)
    unfolding import_one new_device
    import_one-IsGrowth group ip p (err e) unused = tt
    import_one-IsGrowth group ip p (ok (some d)) unused =
        (Grown-same p.devices, Unused-next ip p.devices unused)
    import_one-IsGrowth group ip p (ok none) unused = Growth-append ip _ p.devices refl unused

    import_all-IsGrown :
        (group : Option String) (n ip : ℕ) (p : Imports.Progress)
        → Unused ip p.devices
        → IsGrown
            (λ (q : Imports.Progress). q.devices)
            p.devices
            (import_all ids tokens now group n ip p)
    unfolding import_all
    import_all-IsGrown group zero ip p unused = Grown-same p.devices
    import_all-IsGrown group (suc n) ip p unused =
        let found = scalar_one_or_none (select (has_ip (address_text ip)) p.devices) in
        next_turn (λ q. q.devices) (ip + 1) p.devices (import_one ids tokens now group ip p found)
          (import_all ids tokens now group n (ip + 1)) (import_one-IsGrowth group ip p found unused)
          (import_all-IsGrown group n (ip + 1))

    module _ (fresh username : String) (db : Db) where
      import_finish-Grown :
          (payload : IpRangeRequest) (r : Result Imports.Progress)
          → IsGrown (λ (q : Imports.Progress). q.devices) db.devices r
          → Grown db.devices
              (import_finish ids tokens now payload.group_name fresh username payload db
                r).1.devices
      unfolding import_finish audit_device
      import_finish-Grown payload (err e) h = Grown-same db.devices
      import_finish-Grown payload (ok q) h = h

      import_between-Grown :
          (payload : IpRangeRequest) (start end : ℕ)
          → Unused 0 db.devices
          → Grown db.devices
              (import_between ids tokens now payload.group_name fresh username payload db start
                end).1.devices
      unfolding import_between
      import_between-Grown payload start end unused = elim (Bool-cases (ltb end start)) [
        | inl less ↦ rw less (Grown-same db.devices)
        | inr up ↦ elim (Bool-cases (ltb 1024 (end - start))) [
          | inl large ↦ rw (up, large) (Grown-same db.devices)
          | inr small ↦
              rw (up, small)
                (import_finish-Grown payload _ (
                  import_all-IsGrown payload.group_name (end - start + 1) start _
                    (λ n le. unused n (omega arith))))
        ]
      ]

      pub import_ip_range-Grown :
          (message : String → String) (payload : IpRangeRequest)
          → Unused 0 db.devices
          → Grown db.devices
              (import_ip_range ids tokens message fresh now username payload db).1.devices
      unfolding import_ip_range
      import_ip_range-Grown message payload unused =
          elim (Option-cases (read_address payload.start_ip)) [
            | inl bad ↦ rw (bad, import_ip_range) (Grown-same db.devices)
            | inr (start, good) ↦ elim (Option-cases (read_address payload.end_ip)) [
              | inl bad ↦ rw (good, bad, import_ip_range) (Grown-same db.devices)
              | inr (end, good') ↦
                  rw (good, good', import_ip_range) (import_between-Grown payload start end unused)
            ]
          ]

    module _ (strip : String → String) (group : String) where
      import_row-IsGrowth :
          (i : ℕ) (row : Row) (p : Csv.Progress) (found : Result (Option Device))
          → Unused i p.devices
          → IsGrowth
              (λ (q : Csv.Progress). q.devices)
              (i + 1)
              p.devices
              (import_row strip ids tokens now group i row p found)
      unfolding import_row new_device
      import_row-IsGrowth i row p (err e) unused = tt
      import_row-IsGrowth i row p (ok (some d)) unused =
          (Grown-same p.devices, Unused-next i p.devices unused)
      import_row-IsGrowth i row p (ok none) unused = Growth-append i _ p.devices refl unused

      import_line-IsGrowth :
          (i : ℕ) (row : Row) (p : Csv.Progress)
          → Unused i p.devices
          → IsGrowth
              (λ (q : Csv.Progress). q.devices)
              (i + 1)
              p.devices
              (import_line strip ids tokens now group i row p)
      unfolding import_line
      import_line-IsGrowth i row p unused = elim (Bool-cases (strip (column_or row.ip "") == "")) [
        | inl empty ↦ rw empty (Grown-same p.devices, Unused-next i p.devices unused)
        | inr filled ↦ rw filled (import_row-IsGrowth i row p _ unused)
      ]

      import_rows-IsGrown :
          (i : ℕ) (rows : List Row) (p : Csv.Progress)
          → Unused i p.devices
          → IsGrown
              (λ (q : Csv.Progress). q.devices)
              p.devices
              (import_rows strip ids tokens now group i rows p)
      unfolding import_rows
      import_rows-IsGrown i [] p unused = Grown-same p.devices
      import_rows-IsGrown i (row ∷ rows) p unused =
          next_turn (λ q. q.devices) (i + 1) p.devices
            (import_line strip ids tokens now group i row p)
            (import_rows strip ids tokens now group (i + 1) rows)
            (import_line-IsGrowth i row p unused) (import_rows-IsGrown (i + 1) rows)

      import_csv_finish-Grown :
          (fresh username filename : String) (db : Db) (r : Result Csv.Progress)
          → IsGrown (λ (q : Csv.Progress). q.devices) db.devices r
          → Grown db.devices
              (import_csv_finish strip ids tokens now group fresh username filename db r).1.devices
      unfolding import_csv_finish audit_device
      import_csv_finish-Grown fresh username filename db (err e) h = Grown-same db.devices
      import_csv_finish-Grown fresh username filename db (ok q) h = h

      pub import_csv-Grown :
          (fresh username filename : String) (rows : List Row) (db : Db)
          → Unused 0 db.devices
          → Grown db.devices
              (import_csv strip ids tokens fresh now username filename group rows db).1.devices
      unfolding import_csv
      import_csv-Grown fresh username filename rows db unused =
          elim (Bool-cases (ends_with filename ".csv")) [
            | inl named ↦ rw named (
                import_csv_finish-Grown fresh username filename db _
                  (import_rows-IsGrown 2 rows _ (λ n le. unused n (omega arith))))
            | inr other ↦ rw other (Grown-same db.devices)
          ]
