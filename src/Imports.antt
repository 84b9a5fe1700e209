-- ===== src/Imports.antt =====
-- server/api/import_routes.py: the import of a range of addresses; that of a CSV file is in Csv.
-- `ids` and `tokens` are the results of `uuid4()` for the device of each address, `message` is the
-- text of the library's `AddressValueError`.
pub mod Csv
pub mod Accounting
pub mod Present
pub mod Counts
mod Tests
use batch_shutdown_assistant.Prelude.{
  ℕ, zero, suc, ◌+◌, ◌-◌, ◌/◌, ◌%◌, ◌^◌, String, concat, decimal, Option, none, some, List, [], ◌∷◌,
  ◌++◌, select, ltb, ◌⊎◌, inl, inr, Result, ok, err, http, scalar_one_or_none, ◌==◌, if◌then◌else◌,
}
use batch_shutdown_assistant.Models.{Device, new_device, Db}
use batch_shutdown_assistant.Devices.{has_ip}
use batch_shutdown_assistant.Addresses.{address_text, read_address}
use batch_shutdown_assistant.Inventory.{audit_device}

pub record IpRangeRequest : Type 0 where
  pub start_ip : String
  pub end_ip : String
  pub group_name : Option String

-- `(payload.group_name or "") or None`
abbrev pub group_or_none : Option String → Option String
group_or_none none = none
group_or_none (some g) = if g == "" then none else some g

-- What the loop has so far.
pub record Progress : Type 0 where
  pub added : ℕ
  pub skipped : ℕ
  pub devices : List Device

module _ (ids tokens : ℕ → String) (now : ℕ) (group_name : Option String) where
  -- One turn of the loop, on what the search gave.
  unfoldable pub import_one : ℕ → Progress → Result (Option Device) → Result Progress
  import_one ip p (err e) = err e
  import_one ip p (ok (some d)) = ok (record p { skipped = p.skipped + 1 })
  import_one ip p (ok none) = ok (record p {
    added = p.added + 1;
    devices =
        p.devices
        ++ record (new_device (ids ip) (tokens ip) now) {
          ip = some (address_text ip);
          group_name = group_or_none group_name;
        }
          ∷ [];
  })

  -- The loop over so many addresses from the first on; a search that raises ends it.
  unfoldable pub import_all : ℕ → ℕ → Progress → Result Progress
  unfolding import_one
  import_all zero ip p = ok p
  import_all (suc n) ip p =
      elim (import_one ip p (scalar_one_or_none (select (has_ip (address_text ip)) p.devices))) [
        | err e ↦ err e
        | ok q ↦ import_all n (ip + 1) q
      ]

  -- The end of the request: nothing is committed where the loop raised.
  unfoldable pub import_finish :
      String → String → IpRangeRequest → Db → Result Progress → Result (ℕ × ℕ) × Db
  unfolding audit_device
  import_finish fresh username payload db (err e) = (err e, db)
  import_finish fresh username payload db (ok p) = (
    ok (p.added, p.skipped),
    audit_device fresh now "import_ip_range" username
        (some (concat payload.start_ip (concat "-" payload.end_ip)))
        (some
          (concat "added=" (concat (decimal p.added) (concat ", skipped=" (decimal p.skipped)))))
        (record db { devices = p.devices }),
  )

  unfoldable pub import_between :
      String → String → IpRangeRequest → Db → ℕ → ℕ → Result (ℕ × ℕ) × Db
  unfolding import_all import_finish
  import_between fresh username payload db start end =
      if ltb end start
      then (err (http 400 "结束 IP 不能小于起始 IP"), db)
      else if ltb 1024 (end - start)
      then (err (http 400 "IP range too large (max 1024)"), db)
      else import_finish fresh username payload db (
          import_all (end - start + 1) start
            (record { added = 0; skipped = 0; devices = db.devices }))

-- `POST /api/devices/import/ip-range`: the numbers of added and of skipped addresses.
unfoldable pub import_ip_range :
    (ℕ → String)
    → (ℕ → String)
    → (String → String)
    → String
    → ℕ
    → String
    → IpRangeRequest
    → Db
    → Result (ℕ × ℕ) × Db
unfolding import_between
import_ip_range ids tokens message fresh now username payload db =
    elim (read_address payload.start_ip) [
      | none ↦ (err (http 400 (concat "Invalid IP: " (message payload.start_ip))), db)
      | some start ↦ elim (read_address payload.end_ip) [
        | none ↦ (err (http 400 (concat "Invalid IP: " (message payload.end_ip))), db)
        | some end ↦
            import_between ids tokens now payload.group_name fresh username payload db start end
      ]
    ]
