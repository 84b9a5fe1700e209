-- ===== src/Imports/Counts.antt =====
-- The answer of an import accounts for every address of the range.
use mathlib.Core.Path.{subst}
use batch_shutdown_assistant.Prelude.{
  Bool-cases, num_eq, ◌⊎◌, ◌<◌, refl, sym, ap, ◌∙◌, true, any_row, [], ◌∷◌, ◌++◌, Option-cases, ℕ,
  zero, suc, ◌+◌, ◌-◌, ◌≤◌, inl, inr, String, ◌≡◌, Option, none, some, length, length-append,
  select, Result, ok, err, scalar_one_or_none, Result-cases, arith,
}
use batch_shutdown_assistant.Models.{Device, Db, new_device}
use batch_shutdown_assistant.Devices.{has_ip}
use batch_shutdown_assistant.Addresses.{address_text, read_address}
use batch_shutdown_assistant.Inventory.{audit_device}
use batch_shutdown_assistant.Imports.Present.{
  KeepsAddresses, KeepsAddresses-same, KeepsAddresses-trans, KeepsAddresses-append, found-there,
}
use batch_shutdown_assistant.Imports.{
  group_or_none, IpRangeRequest, Progress, import_ip_range, import_one, import_all, import_finish,
  import_between,
}

first_or_later : (m n : ℕ) → m ≤ n → (m ≡ n) ⊎ (m + 1 ≤ n)
first_or_later m n le = elim (Bool-cases (num_eq m n)) [
  | inl same ↦ inl (ground (arith, same))
  | inr other ↦ inr (ground (arith, other))
]

module _ (ids tokens : ℕ → String) (now : ℕ) (group_name : Option String) where
  import_one-counts :
      (ip : ℕ) (p q : Progress) (found : Result (Option Device))
      → import_one ids tokens now group_name ip p found ≡ ok q
      → (q.added + q.skipped ≡ p.added + p.skipped + 1)
        × (length q.devices + p.added ≡ length p.devices + q.added)
  unfolding import_one
  import_one-counts ip p q (err e) h = cc
  import_one-counts ip p q (ok (some d)) h = ground arith
  import_one-counts ip p q (ok none) h = grind (arith, length-append)

  import_one-present :
      (ip : ℕ) (p q : Progress) (found : Result (Option Device))
      → scalar_one_or_none (select (has_ip (address_text ip)) p.devices) ≡ found
      → import_one ids tokens now group_name ip p found ≡ ok q
      → (any_row (has_ip (address_text ip)) q.devices ≡ true) × KeepsAddresses p.devices q.devices
  unfolding import_one
  import_one-present ip p q (err e) there h = cc
  import_one-present ip p q (ok (some d)) there h =
      let same : p.devices ≡ q.devices = cc in
      subst (λ ds. (any_row (has_ip (address_text ip)) ds ≡ true) × KeepsAddresses p.devices ds)
        same (found-there (address_text ip) p.devices there, KeepsAddresses-same p.devices)
  import_one-present ip p q (ok none) there h =
      let d : Device = record (new_device (ids ip) (tokens ip) now) {
        ip = some (address_text ip);
        group_name = group_or_none group_name;
      } in
      let same : p.devices ++ d ∷ [] ≡ q.devices = cc in
      subst (λ ds. (any_row (has_ip (address_text ip)) ds ≡ true) × KeepsAddresses p.devices ds)
        same (KeepsAddresses-append (address_text ip) p.devices d there refl)

  import_all-present :
      (n ip : ℕ) (p q : Progress)
      → import_all ids tokens now group_name n ip p ≡ ok q
      → ((i : ℕ) → ip ≤ i → i < ip + n → any_row (has_ip (address_text i)) q.devices ≡ true)
        × KeepsAddresses p.devices q.devices
  unfolding import_all
  import_all-present zero ip p q h =
      let same : p.devices ≡ q.devices = cc in
      (
        (λ i le lt. absurd (omega arith)),
        subst (KeepsAddresses p.devices) same (KeepsAddresses-same p.devices),
      )
  import_all-present (suc n) ip p q h =
      let found = scalar_one_or_none (select (has_ip (address_text ip)) p.devices) in
      elim (Result-cases (import_one ids tokens now group_name ip p found)) [
        | inl (e, raised) ↦ absurd (cc (rw (import_all, raised) at h))
        | inr (r, turn) ↦
            let (here, keeps) = import_one-present ip p r found refl turn in
            let (later, keeps') = import_all-present n (ip + 1) r q (rw (import_all, turn) at h) in
            (
              λ i le lt. elim (first_or_later ip i le) [
                | inl e ↦
                    ap (λ j. any_row (has_ip (address_text j)) q.devices) (sym e)
                    ∙ (keeps' (address_text ip) here).0
                | inr more ↦ later i more (omega (arith, lt))
              ],
              KeepsAddresses-trans p.devices r.devices q.devices keeps keeps',
            )
      ]

  import_all-counts :
      (n ip : ℕ) (p q : Progress)
      → import_all ids tokens now group_name n ip p ≡ ok q
      → (q.added + q.skipped ≡ p.added + p.skipped + n)
        × (length q.devices + p.added ≡ length p.devices + q.added)
  unfolding import_all
  import_all-counts zero ip p q h = ground arith
  import_all-counts (suc n) ip p q h =
      let found = scalar_one_or_none (select (has_ip (address_text ip)) p.devices) in
      elim (Result-cases (import_one ids tokens now group_name ip p found)) [
        | inl (e, raised) ↦ absurd (cc (rw (import_all, raised) at h))
        | inr (r, turn) ↦
            let one = import_one-counts ip p r found turn in
            let rest = import_all-counts n (ip + 1) r q (rw (import_all, turn) at h) in
            ground (arith, one, rest)
      ]

  -- An import between two numbers that is answered has a range of 1025 addresses at most, accounts for each of
  -- them as added or skipped, and adds a row for each that it counts as added.
  pub import_between_lem :
      {added skipped : ℕ} (fresh username : String) (payload : IpRangeRequest) (db : Db)
      (start end : ℕ)
      → (import_between ids tokens now group_name fresh username payload db start end).0
        ≡ ok (added, skipped)
      → let db' =
          (import_between ids tokens now group_name fresh username payload db start end).1 in
        (start ≤ end)
        × (end ≤ start + 1024)
        × (added + skipped ≡ end - start + 1)
        × (length db'.devices ≡ length db.devices + added)
        × ((i : ℕ) → start ≤ i → i ≤ end → any_row (has_ip (address_text i)) db'.devices ≡ true)
        × KeepsAddresses db.devices db'.devices
  unfolding import_between import_finish audit_device
  import_between_lem {added} {skipped} fresh username payload db start end h =
      let from : Progress = record { added = 0; skipped = 0; devices = db.devices } in
      let loop = import_all ids tokens now group_name (end - start + 1) start from in
      elim (Result-cases loop) [
        | inl (e, raised) ↦ absurd (ground (arith, raised))
        | inr (q, done) ↦
            let counts = import_all-counts (end - start + 1) start from q done in
            let (present, keeps) = import_all-present (end - start + 1) start from q done in
            (
              ground (arith, done),
              ground (arith, done),
              ground (arith, done, counts),
              ground (arith, done, counts),
              λ i le le'. ground (arith, done, present i le (omega arith)),
              λ a there. ground (arith, done, keeps a there),
            )
      ]

-- An import of a range that is answered was given two addresses, the second not before the first and
-- at most 1024 after it. Its two numbers sum to that of the addresses of the range, and the table has
-- grown by the first; afterwards each address of the range has a device, and each address that had
-- devices has these and no other.
pub import_ip_range_lem :
    {added skipped : ℕ} (ids tokens : ℕ → String) (message : String → String) (fresh : String)
    (now : ℕ) (username : String) (payload : IpRangeRequest) (db : Db)
    → (import_ip_range ids tokens message fresh now username payload db).0 ≡ ok (added, skipped)
    → let db' = (import_ip_range ids tokens message fresh now username payload db).1 in
      (start : ℕ) × (end : ℕ) × (read_address payload.start_ip ≡ some start)
      × (read_address payload.end_ip ≡ some end)
      × (start ≤ end)
      × (end ≤ start + 1024)
      × (added + skipped ≡ end - start + 1)
      × (length db'.devices ≡ length db.devices + added)
      × ((i : ℕ) → start ≤ i → i ≤ end → any_row (has_ip (address_text i)) db'.devices ≡ true)
      × KeepsAddresses db.devices db'.devices
unfolding import_ip_range
import_ip_range_lem ids tokens message fresh now username payload db h =
    elim (Option-cases (read_address payload.start_ip)) [
      | inl bad ↦ absurd (cc (rw (import_ip_range, bad) at h))
      | inr (start, from) ↦ elim (Option-cases (read_address payload.end_ip)) [
        | inl bad ↦ absurd (cc (rw (import_ip_range, from, bad) at h))
        | inr (end, to) ↦
            let (le, small, all, rows, present, keeps) =
              import_between_lem ids tokens now payload.group_name fresh username payload db start
                end (rw (import_ip_range, from, to) at h) in
            (
              start,
              end,
              from,
              to,
              le,
              small,
              all,
              rw (import_ip_range, from, to) rows,
              rw (import_ip_range, from, to) present,
              rw (import_ip_range, from, to) keeps,
            )
      ]
    ]
