-- ===== src/Devices/Dedupe/Live.antt =====
-- What the cleaning at the start leaves: one live device to each address, that of the latest
-- heartbeat, and every other row.
use batch_shutdown_assistant.Prelude.{
  ◌≤◌, ◌<◌, String, ◌≡◌, ◌∙◌, ◌⊎◌, refl, sym, ap, Bool, true, false, not, ◌&&◌, Option, none, some,
  List, [], ◌∷◌, select, any_row, length, is_some, ltb, arith, eq_iff, ◌==◌, Bool-cases,
  Option-cases, inl, inr, select-select, select-cong,
}
use batch_shutdown_assistant.Models.{Device}
use batch_shutdown_assistant.Devices.{has_id, latest, IsKeyed}
use batch_shutdown_assistant.Devices.Rows.{latest-none}
use batch_shutdown_assistant.Devices.Unique.{All-both, All-among_ids, latest-found, select-IsKeyed}
use batch_shutdown_assistant.Devices.Dedupe.{
  is_live_at, keep_latest, duplicate_ips, keep_each, dedupe_devices,
}

abbrev pub to_list : Option Device → List Device
to_list none = []
to_list (some d) = d ∷ []

to_list-latest : (ds : List Device) → length ds ≤ 1 → to_list (latest ds) ≡ ds
unfolding latest
to_list-latest [] h = refl
to_list-latest (d ∷ []) h = refl
to_list-latest (d ∷ e ∷ ds) h = ground arith

keep_latest-none :
    (ip : String) (ds : List Device)
    → latest (select (is_live_at ip) ds) ≡ none
    → keep_latest ip ds ≡ ds
unfolding keep_latest
keep_latest-none ip ds empty = rw empty refl

-- With unique keys, a turn of the loop removes the live devices of its address but the first.
keep_latest-select :
    (ip : String) (ds : List Device) {first : Device}
    → IsKeyed ds
    → latest (select (is_live_at ip) ds) ≡ some first
    → keep_latest ip ds ≡ select (λ d. not (is_live_at ip d && not (d.id == first.id))) ds
unfolding keep_latest
keep_latest-select ip ds {first} h found =
    let gone : Device → Bool = λ d. is_live_at ip d && not (d.id == first.id) in
    let e =
      select-select (λ d. not (d.id == first.id)) (is_live_at ip) gone ds (λ d. ground arith) in
    rw (found, e)
      (select-cong _ _ ds (
        All-both (λ d. any_row (λ f. f.id == d.id) (select gone ds) ≡ gone d)
          (λ d. any_row (λ f. f.id == d.id) (select gone ds) ≡ gone d)
          (λ d. not (any_row (λ f. f.id == d.id) (select gone ds)) ≡ not (gone d)) ds
          (λ d among k. ap not among) (All-among_ids gone ds h) (All-among_ids gone ds h)))

live_once :
    (ip ip' : String) (d : Device) → ip == ip' ≡ false → is_live_at ip d && is_live_at ip' d ≡ false
live_once ip ip' d other = elim (Option-cases d.ip) [
  | inl unknown ↦ rw unknown refl
  | inr (a, known) ↦ rw known (ground (arith, other, eq_iff a ip, eq_iff a ip', eq_iff ip ip'))
]

-- Of its own address a turn keeps the latest.
keep_latest-own :
    (ip : String) (ds : List Device)
    → IsKeyed ds
    → select (is_live_at ip) (keep_latest ip ds) ≡ to_list (latest (select (is_live_at ip) ds))
keep_latest-own ip ds h = elim (Option-cases (latest (select (is_live_at ip) ds))) [
  | inl empty ↦ rw empty (
      ap (select (is_live_at ip)) (keep_latest-none ip ds empty)
      ∙ latest-none (select (is_live_at ip) ds) empty)
  | inr (first, found) ↦
      let (one, live) = latest-found (is_live_at ip) ds h found in
      let mine : Device → Bool = λ d. is_live_at ip d && has_id first.id d in
      rw (found, keep_latest-select ip ds h found)
        (select-select (is_live_at ip) (λ d. not (is_live_at ip d && not (d.id == first.id))) mine
            ds (λ d. ground arith)
          ∙ sym (select-select (is_live_at ip) (has_id first.id) mine ds (λ d. refl))
          ∙ ap (select (is_live_at ip)) one
          ∙ rw live refl)
]

-- A turn removes nothing else.
keep_latest-others :
    (q : Device → Bool) (ip : String) (ds : List Device)
    → ((d : Device) → is_live_at ip d && q d ≡ false)
    → IsKeyed ds
    → select q (keep_latest ip ds) ≡ select q ds
keep_latest-others q ip ds apart h = elim (Option-cases (latest (select (is_live_at ip) ds))) [
  | inl empty ↦ ap (select q) (keep_latest-none ip ds empty)
  | inr (first, found) ↦ rw (keep_latest-select ip ds h found) (
      select-select q (λ d. not (is_live_at ip d && not (d.id == first.id))) q ds
        (λ d. ground (arith, apart d)))
]

keep_latest-IsKeyed : (ip : String) (ds : List Device) → IsKeyed ds → IsKeyed (keep_latest ip ds)
keep_latest-IsKeyed ip ds h = elim (Option-cases (latest (select (is_live_at ip) ds))) [
  | inl empty ↦ rw (keep_latest-none ip ds empty) h
  | inr (first, found) ↦ rw (keep_latest-select ip ds h found) (select-IsKeyed _ ds h)
]

pub keep_each-IsKeyed :
    (ips : List String) (ds : List Device) → IsKeyed ds → IsKeyed (keep_each ips ds)
unfolding keep_each
keep_each-IsKeyed [] ds h = h
keep_each-IsKeyed (ip ∷ ips) ds h =
    keep_each-IsKeyed ips (keep_latest ip ds) (keep_latest-IsKeyed ip ds h)

keep_each-others :
    (q : Device → Bool) (ips : List String) (ds : List Device)
    → ((ip : String) (d : Device) → is_live_at ip d && q d ≡ false)
    → IsKeyed ds
    → select q (keep_each ips ds) ≡ select q ds
unfolding keep_each
keep_each-others q [] ds apart h = refl
keep_each-others q (ip ∷ ips) ds apart h =
    keep_each-others q ips (keep_latest ip ds) apart (keep_latest-IsKeyed ip ds h)
    ∙ keep_latest-others q ip ds (apart ip) h

pub length-to_list : (o : Option Device) → length (to_list o) ≤ 1
length-to_list none = omega arith
length-to_list (some d) = omega arith

-- The loop leaves the latest of each address that it is given, or that has one device at most.
keep_each-live :
    (ip : String) (ips : List String) (ds : List Device)
    → (any_row (λ other. other == ip) ips ≡ true) ⊎ (length (select (is_live_at ip) ds) ≤ 1)
    → IsKeyed ds
    → select (is_live_at ip) (keep_each ips ds) ≡ to_list (latest (select (is_live_at ip) ds))
unfolding keep_each
keep_each-live ip [] ds (inl there) h = cc
keep_each-live ip [] ds (inr few) h = sym (to_list-latest (select (is_live_at ip) ds) few)
keep_each-live ip (j ∷ ips) ds given h = elim (Bool-cases (j == ip)) [
  | inl mine ↦
      let e : j ≡ ip = ground (arith, mine, eq_iff j ip) in
      let own = keep_latest-own ip ds h in
      let few = length-to_list (latest (select (is_live_at ip) ds)) in
      rw e (
        keep_each-live ip ips (keep_latest ip ds) (inr (rw own few)) (keep_latest-IsKeyed ip ds h)
        ∙ ap (λ es. to_list (latest es)) own
        ∙ to_list-latest (to_list (latest (select (is_live_at ip) ds))) few)
  | inr other ↦
      let same = keep_latest-others (is_live_at ip) j ds (λ d. live_once j ip d other) h in
      keep_each-live ip ips (keep_latest j ds) (rw same (still_given given other))
        (keep_latest-IsKeyed j ds h)
      ∙ ap (λ es. to_list (latest es)) same
]
  where
    still_given :
        (any_row (λ k. k == ip) (j ∷ ips) ≡ true) ⊎ (length (select (is_live_at ip) ds) ≤ 1)
        → j == ip ≡ false
        → (any_row (λ k. k == ip) ips ≡ true) ⊎ (length (select (is_live_at ip) ds) ≤ 1)
    still_given (inl there) other = inl (ground (arith, there, other))
    still_given (inr few) other = inr few

-- The first query finds each address with more than one live device.
duplicate_ips-there :
    (ip : String) (all ds : List Device)
    → ltb 1 (length (select (is_live_at ip) all)) ≡ true
    → any_row (is_live_at ip) ds ≡ true
    → any_row (λ other. other == ip) (duplicate_ips all ds) ≡ true
unfolding duplicate_ips
duplicate_ips-there ip all [] many h = cc
duplicate_ips-there ip all (d ∷ ds) many h =
    let rest = duplicate_ips-there ip all ds many in
    elim (Option-cases d.ip) [
      | inl unknown ↦ rw unknown (rest (ground (arith, h, unknown)))
      | inr (a, known) ↦ rw known (ground (arith, eq_iff a ip, h, many, rest, known))
    ]

-- A device that is in use at some address.
abbrev pub is_addressed : Device → Bool
is_addressed d = is_some d.ip && not (is_some d.deleted_at)

any_row-some :
    (p : Device → Bool) (ds : List Device) → 0 < length (select p ds) → any_row p ds ≡ true
any_row-some p [] h = absurd (omega arith)
any_row-some p (d ∷ ds) h = ground (arith, h, any_row-some p ds)

not_addressed : (ip : String) (d : Device) → is_live_at ip d && not (is_addressed d) ≡ false
not_addressed ip d = elim (Option-cases d.ip) [
  | inl unknown ↦ rw unknown refl
  | inr (a, known) ↦ rw known (ground arith)
]

few_or_many :
    (ip : String) (ds : List Device)
    → (any_row (λ other. other == ip) (duplicate_ips ds ds) ≡ true)
      ⊎ (length (select (is_live_at ip) ds) ≤ 1)
few_or_many ip ds = elim (Bool-cases (ltb 1 (length (select (is_live_at ip) ds)))) [
  | inl many ↦
      inl
        (duplicate_ips-there ip ds ds many (any_row-some (is_live_at ip) ds (ground (arith, many))))
  | inr few ↦ inr (ground (arith, few))
]

-- After the start, with unique keys, each address has the device of the latest heartbeat among those
-- that it had, and no other; the devices that are deleted or have no address are as they were.
pub dedupe_devices_lem :
    (ip : String) (ds : List Device)
    → IsKeyed ds
    → (select (is_live_at ip) (dedupe_devices ds) ≡ to_list (latest (select (is_live_at ip) ds)))
      × (select (λ d. not (is_addressed d)) (dedupe_devices ds)
          ≡ select (λ d. not (is_addressed d)) ds)
unfolding dedupe_devices
dedupe_devices_lem ip ds h = (
  keep_each-live ip (duplicate_ips ds ds) ds (few_or_many ip ds) h,
  keep_each-others (λ d. not (is_addressed d)) (duplicate_ips ds ds) ds (λ j d. not_addressed j d)
      h,
)
