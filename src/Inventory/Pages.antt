-- ===== src/Inventory/Pages.antt =====
-- The order of the device list, and its pages.
use mathlib.Core.List.{Perm}
use batch_shutdown_assistant.Prelude.{
  ℕ, zero, suc, ◌+◌, ◌-◌, ◌*◌, ◌≤◌, String, ◌≡◌, ◌∙◌, refl, ap, Bool, true, false, Option, none,
  some, List, [], ◌++◌, select, length, sort_by-perm, sort_by-IsSortedBy, IsSortedBy, page_of,
  pages, pages-take, take-all, leb, arith,
}
use batch_shutdown_assistant.Models.{Device}
use batch_shutdown_assistant.Inventory.{text_or_empty}
use batch_shutdown_assistant.Inventory.Listing.{
  DeviceQuery, is_listed, address_of, key_le, sort_key_le, sorted_devices, list_devices,
}

-- An address before one that is not less, and before no address.
abbrev pub address_le : Option ℕ → Option ℕ → Bool
address_le (some m) (some n) = leb m n
address_le (some m) none = true
address_le none (some n) = false
address_le none none = true

key_le-address : (a b : Option ℕ) (s t : String) → key_le a b s t ≡ true → address_le a b ≡ true
unfolding key_le
key_le-address (some m) (some n) s t h = ground (arith, h)
key_le-address (some m) none s t h = refl
key_le-address none (some n) s t h = h
key_le-address none none s t h = refl

key_le-not : (a b : Option ℕ) (s t : String) → key_le a b s t ≡ false → address_le b a ≡ true
unfolding key_le
key_le-not (some m) (some n) s t h = ground (arith, h)
key_le-not (some m) none s t h = cc
key_le-not none (some n) s t h = refl
key_le-not none none s t h = refl

address_le_trans :
    (a b c : Option ℕ) → address_le a b ≡ true → address_le b c ≡ true → address_le a c ≡ true
address_le_trans (some l) (some m) (some n) h k = ground (arith, h, k)
address_le_trans (some l) (some m) none h k = refl
address_le_trans (some l) none (some n) h k = cc
address_le_trans (some l) none none h k = refl
address_le_trans none (some m) c h k = cc
address_le_trans none none (some n) h k = k
address_le_trans none none none h k = refl

-- The list is the devices that pass the filters, each as often as in the table, by the number of
-- their address, those without a valid one last.
pub sorted_devices_lem :
    (ilike : String → String → Bool) (q : DeviceQuery) (ds : List Device)
    → Perm (sorted_devices ilike q ds) (select (is_listed ilike q) ds)
      × IsSortedBy (λ d e. address_le (address_of d) (address_of e)) (sorted_devices ilike q ds)
unfolding sorted_devices
sorted_devices_lem ilike q ds = (
  sort_by-perm sort_key_le (select (is_listed ilike q) ds),
  sort_by-IsSortedBy sort_key_le (λ d e. address_le (address_of d) (address_of e))
      (unfold sort_key_le in
        λ d e h.
          key_le-address (address_of d) (address_of e) (text_or_empty d.hostname)
            (text_or_empty e.hostname) h)
      (unfold sort_key_le in
        λ d e h.
          key_le-not (address_of d) (address_of e) (text_or_empty d.hostname)
            (text_or_empty e.hostname) h)
      (λ d e f h k. address_le_trans (address_of d) (address_of e) (address_of f) h k)
      (select (is_listed ilike q) ds),
)

-- The answers to the requests for so many pages from a page on.
unfoldable pub answered_pages :
    (String → String → Bool) → DeviceQuery → ℕ → ℕ → List Device → List Device
unfolding list_devices
answered_pages ilike q zero page ds = []
answered_pages ilike q (suc n) page ds =
    list_devices ilike (record q { page = page }) ds ++ answered_pages ilike q n (page + 1) ds

answered_pages-pages :
    (ilike : String → String → Bool) (q : DeviceQuery) (n k : ℕ) (ds : List Device)
    → answered_pages ilike q n (k + 1) ds ≡ pages n (k * q.size) q.size (sorted_devices ilike q ds)
unfolding answered_pages pages list_devices sorted_devices is_listed
answered_pages-pages ilike q zero k ds = refl
answered_pages-pages ilike q (suc n) k ds =
    let rest = answered_pages-pages ilike q n (k + 1) ds in
    let xs = sorted_devices ilike q ds in
    let e : k + 1 - 1 ≡ k = omega arith in
    let e' : (k + 1) * q.size ≡ k * q.size + q.size = omega arith in
    ap (λ start. page_of (start * q.size) q.size xs ++ answered_pages ilike q n (k + 1 + 1) ds) e
    ∙ ap (λ ys. page_of (k * q.size) q.size xs ++ ys)
        (rest ∙ ap (λ start. pages n start q.size xs) e')

-- The pages of the list from the first on, put together, are the beginning of the list; as many as
-- hold all devices give each of them once, in order.
list_devices_pages :
    (ilike : String → String → Bool) (q : DeviceQuery) (n : ℕ) (ds : List Device)
    → length (sorted_devices ilike q ds) ≤ n * q.size
    → answered_pages ilike q n 1 ds ≡ sorted_devices ilike q ds
list_devices_pages ilike q n ds h =
    let xs = sorted_devices ilike q ds in
    let e : 0 * q.size ≡ 0 = omega arith in
    answered_pages-pages ilike q n 0 ds
    ∙ ap (λ start. pages n start q.size xs) e
    ∙ pages-take n 0 q.size xs
    ∙ take-all (n * q.size) xs h
