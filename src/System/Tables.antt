-- ===== src/System/Tables.antt =====
-- Each handler keeps the primary keys of the devices unique, drops no device that is connected, and connects only
-- devices that are in the table.
use batch_shutdown_assistant.Prelude.{
  ℕ, String, ◌≡◌, ◌∙◌, ◌⊎◌, refl, sym, ap, Bool, true, false, List, [], ◌∷◌, ◌++◌, update_where,
  any_row, arith, eq_iff, Bool-cases, inl, inr, some, ok, scalar_one_or_none, contains,
  lookup-insert, lookup-erase,
}
use batch_shutdown_assistant.Models.{Device}
use batch_shutdown_assistant.Devices.{has_id, by_id, put, IsKeyed}
use batch_shutdown_assistant.Devices.Rows.{any_id-put, put-IsKeyed, append-IsKeyed}
use batch_shutdown_assistant.Manager.{Manager, connect_agent, disconnect_agent}
use batch_shutdown_assistant.World.{World}

pub record Moved (w w' : World) : Type 0 where
  pub keyed : IsKeyed w.db.devices → IsKeyed w'.db.devices
  pub stays :
      (k : String)
      → contains k w'.manager.active_connections ≡ true
      → any_row (has_id k) w.db.devices ≡ true
      → any_row (has_id k) w'.db.devices ≡ true
  pub known :
      (k : String)
      → contains k w'.manager.active_connections ≡ true
      → (contains k w.manager.active_connections ≡ true) ⊎ (any_row (has_id k) w.db.devices ≡ true)

-- A step that leaves the devices and the sockets.
pub Moved-same :
    (w w' : World)
    → w'.db.devices ≡ w.db.devices
    → w'.manager.active_connections ≡ w.manager.active_connections
    → Moved w w'
Moved-same w w' devices sockets = record {
  keyed = λ h. rw devices h;
  stays = λ k _ h. rw devices h;
  known = λ k h. inl (ap (contains k) (sym sockets) ∙ h);
}

-- An UPDATE of columns other than the id.
any_id-update :
    (k : String) (p : Device → Bool) (f : Device → Device) (ds : List Device)
    → ((d : Device) → (f d).id ≡ d.id)
    → any_row (has_id k) (update_where p f ds) ≡ any_row (has_id k) ds
any_id-update k p f [] same = refl
any_id-update k p f (d ∷ ds) same = elim (Bool-cases (p d)) [
  | inl hit ↦ rw hit (rw (same d, any_id-update k p f ds same) refl)
  | inr miss ↦ rw miss (rw (any_id-update k p f ds same) refl)
]

update-IsKeyed :
    (p : Device → Bool) (f : Device → Device) (ds : List Device)
    → ((d : Device) → (f d).id ≡ d.id)
    → IsKeyed ds
    → IsKeyed (update_where p f ds)
update-IsKeyed p f [] same h = tt
update-IsKeyed p f (d ∷ ds) same h = elim (Bool-cases (p d)) [
  | inl hit ↦ rw hit (
    ap (λ i. any_row (has_id i) (update_where p f ds)) (same d)
        ∙ any_id-update d.id p f ds same
        ∙ h.0,
    update-IsKeyed p f ds same h.1,
  )
  | inr miss ↦ rw miss (any_id-update d.id p f ds same ∙ h.0, update-IsKeyed p f ds same h.1)
]

pub Moved-update :
    (p : Device → Bool) (f : Device → Device) (w w' : World)
    → ((d : Device) → (f d).id ≡ d.id)
    → w'.db.devices ≡ update_where p f w.db.devices
    → ((k : String)
        → contains k w'.manager.active_connections ≡ true
        → (contains k w.manager.active_connections ≡ true)
          ⊎ (any_row (has_id k) w.db.devices ≡ true))
    → Moved w w'
Moved-update p f w w' same devices known = record {
  keyed = λ h. rw devices (update-IsKeyed p f w.db.devices same h);
  stays = λ k _ h. rw devices (any_id-update k p f w.db.devices same ∙ h);
  known = known;
}

pub Moved-put :
    (d : Device) (w w' : World)
    → w'.db.devices ≡ put d w.db.devices
    → w'.manager.active_connections ≡ w.manager.active_connections
    → Moved w w'
Moved-put d w w' devices sockets = record {
  keyed = λ h. rw devices (put-IsKeyed d w.db.devices h);
  stays = λ k _ h. rw devices (any_id-put k d w.db.devices ∙ h);
  known = λ k h. inl (ap (contains k) (sym sockets) ∙ h);
}

any_id-grow :
    (k : String) (ds es : List Device)
    → any_row (has_id k) ds ≡ true
    → any_row (has_id k) (ds ++ es) ≡ true
any_id-grow k [] es h = cc
any_id-grow k (d ∷ ds) es h = ground (arith, any_id-grow k ds es)

pub Moved-append :
    (d : Device) (w w' : World)
    → any_row (has_id d.id) w.db.devices ≡ false
    → w'.db.devices ≡ w.db.devices ++ d ∷ []
    → w'.manager.active_connections ≡ w.manager.active_connections
    → Moved w w'
Moved-append d w w' new devices sockets = record {
  keyed = λ h. rw devices (append-IsKeyed d w.db.devices new h);
  stays = λ k _ h. rw devices (any_id-grow k w.db.devices (d ∷ []) h);
  known = λ k h. inl (ap (contains k) (sym sockets) ∙ h);
}

-- The table after a step that adds devices, against that before it.
pub record Grown (ds ds' : List Device) : Type 0 where
  pub keyed : IsKeyed ds → IsKeyed ds'
  pub grows : (k : String) → any_row (has_id k) ds ≡ true → any_row (has_id k) ds' ≡ true

pub Grown-same : (ds : List Device) → Grown ds ds
Grown-same ds = record { keyed = λ h. h; grows = λ k h. h }

pub Grown-append :
    (d : Device) (ds : List Device) → any_row (has_id d.id) ds ≡ false → Grown ds (ds ++ d ∷ [])
Grown-append d ds new = record {
  keyed = append-IsKeyed d ds new;
  grows = λ k h. any_id-grow k ds (d ∷ []) h;
}

pub Grown-trans : {ds es fs : List Device} → Grown ds es → Grown es fs → Grown ds fs
Grown-trans g h = record {
  keyed = λ k. h.keyed (g.keyed k);
  grows = λ k there. h.grows k (g.grows k there);
}

pub Moved-Grown :
    (w w' : World)
    → Grown w.db.devices w'.db.devices
    → w'.manager.active_connections ≡ w.manager.active_connections
    → Moved w w'
Moved-Grown w w' grown sockets = record {
  keyed = grown.keyed;
  stays = λ k _ h. grown.grows k h;
  known = λ k h. inl (ap (contains k) (sym sockets) ∙ h);
}

-- A socket that is closed was a socket before.
pub contains-disconnect_agent :
    (k device_id : String) (m : Manager)
    → contains k (disconnect_agent device_id m).active_connections ≡ true
    → contains k m.active_connections ≡ true
unfolding disconnect_agent
contains-disconnect_agent k device_id m h =
    ground (arith, h, lookup-erase device_id k m.active_connections)

-- A socket after `connect_agent` is that of the device or was one before.
pub contains-connect_agent :
    (k device_id : String) (ws : ℕ) (m : Manager)
    → contains k (connect_agent device_id ws m).active_connections ≡ true
    → (device_id ≡ k) ⊎ (contains k m.active_connections ≡ true)
unfolding connect_agent
contains-connect_agent k device_id ws m h =
    ground (arith, h, lookup-insert device_id k ws m.active_connections, eq_iff device_id k)

-- A row that a search found is in the table.
pub found_is_there :
    (k : String) (ds : List Device) {d : Device}
    → scalar_one_or_none (by_id k ds) ≡ ok (some d)
    → any_row (has_id k) ds ≡ true
found_is_there k ds {d} h = elim (Bool-cases (any_row (has_id k) ds)) [
  | inl there ↦ there
  | inr gone ↦ absurd (cc (rw (empty k ds gone) at h))
]
  where
    empty : (j : String) (es : List Device) → any_row (has_id j) es ≡ false → by_id j es ≡ []
    empty j [] g = refl
    empty j (e ∷ es) g = ground (arith, empty j es)
