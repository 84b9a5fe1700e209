-- ===== src/Inventory/Secrets.antt =====
-- The list of devices does not give away their tokens.
use batch_shutdown_assistant.Prelude.{
  ◌-◌, ◌*◌, String, ◌≡◌, ◌∙◌, refl, ap, Bool, Bool-cases, inl, inr, List, [], ◌∷◌, map, select,
  sort_by, sort_by-map, page_of, page_of-map,
}
use batch_shutdown_assistant.Models.{Device}
use batch_shutdown_assistant.Inventory.Listing.{
  DeviceQuery, is_listed, sort_key_le, sorted_devices, list_devices, device_response,
  device_responses,
}

abbrev pub with_token : (String → String) → Device → Device
with_token tokens d = record d { token = tokens d.id }

module _ (tokens : String → String) where
  listed-with_token :
      (ilike : String → String → Bool) (q : DeviceQuery) (ds : List Device)
      → select (is_listed ilike q) (map (with_token tokens) ds)
        ≡ map (with_token tokens) (select (is_listed ilike q) ds)
  unfolding is_listed
  listed-with_token ilike q [] = refl
  listed-with_token ilike q (d ∷ ds) = elim (Bool-cases (is_listed ilike q d)) [
    | inl listed ↦ rw (listed, listed-with_token ilike q ds) refl
    | inr other ↦ rw (other, listed-with_token ilike q ds) refl
  ]

  sorted-with_token :
      (ilike : String → String → Bool) (q : DeviceQuery) (ds : List Device)
      → sorted_devices ilike q (map (with_token tokens) ds)
        ≡ map (with_token tokens) (sorted_devices ilike q ds)
  unfolding sorted_devices
  sorted-with_token ilike q ds =
      ap (sort_by sort_key_le) (listed-with_token ilike q ds)
      ∙ sort_by-map sort_key_le (with_token tokens) (λ d e. unfold sort_key_le in refl)
          (select (is_listed ilike q) ds)

  responses-with_token :
      (ds : List Device) → map device_response (map (with_token tokens) ds) ≡ map device_response ds
  responses-with_token [] = refl
  responses-with_token (d ∷ ds) = ap (λ rs. device_response d ∷ rs) (responses-with_token ds)

-- Whatever tokens the devices have, the list of devices is answered the same.
pub tokens_stay_hidden :
    (ilike : String → String → Bool) (q : DeviceQuery) (tokens : String → String) (ds : List Device)
    → device_responses ilike q (map (with_token tokens) ds) ≡ device_responses ilike q ds
unfolding device_responses list_devices
tokens_stay_hidden ilike q tokens ds =
    let start = (q.page - 1) * q.size in
    let xs = sorted_devices ilike q ds in
    ap (λ ys. map device_response (page_of start q.size ys)) (sorted-with_token tokens ilike q ds)
    ∙ ap (map device_response) (page_of-map (with_token tokens) start q.size xs)
    ∙ responses-with_token tokens (page_of start q.size xs)
