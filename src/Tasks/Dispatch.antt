-- ===== src/Tasks/Dispatch.antt =====
-- What `create_task` leaves in the tables: one result for each known device, settled by whether the
-- device's socket delivered.
use mathlib.Core.List.{append_assoc}
use batch_shutdown_assistant.Prelude.{
  ℕ, String, ◌≡◌, refl, sym, ap, ◌∙◌, Bool, true, false, ◌||◌, Option, none, some, List, [], ◌∷◌,
  ◌++◌, map, update_where, any_row, lookup, Dict, arith, eq_iff, eq_refl, ◌==◌, if◌then◌else◌, inl,
  inr, Bool-cases,
}
use batch_shutdown_assistant.Models.{TaskResult, TaskType, task_type_value}
use batch_shutdown_assistant.Manager.{Command, Manager, send_command, send_on}
use batch_shutdown_assistant.Tasks.{
  has_result_id, Outcome, command_params, dispatch_all, settle, settle_all,
}

-- Whether the device has a socket that delivers.
abbrev pub delivered_by : (ℕ → Bool) → Option ℕ → Bool
delivered_by delivers none = false
delivered_by delivers (some ws) = delivers ws

abbrev pub is_reached : (ℕ → Bool) → Dict ℕ → String → Bool
is_reached delivers sockets did = delivered_by delivers (lookup did sockets)

send_on_sound :
    (delivers : ℕ → Bool) (o : Option ℕ) (c : Command) (m : Manager)
    → ((send_on delivers o c m).0 ≡ delivered_by delivers o)
      × ((send_on delivers o c m).1.active_connections ≡ m.active_connections)
unfolding send_on
send_on_sound delivers none c m = (refl, refl)
send_on_sound delivers (some ws) c m = ground arith

pub send_command_sound :
    (delivers : ℕ → Bool) (did : String) (c : Command) (m : Manager)
    → ((send_command delivers did c m).0 ≡ is_reached delivers m.active_connections did)
      × ((send_command delivers did c m).1.active_connections ≡ m.active_connections)
unfolding send_command
send_command_sound delivers did c m = send_on_sound delivers (lookup did m.active_connections) c m

abbrev outcome_of : (ℕ → Bool) → Dict ℕ → TaskResult → Outcome
outcome_of delivers sockets tr = (tr.id, is_reached delivers sockets tr.device_id)

unfoldable pub outcomes_of : (ℕ → Bool) → Dict ℕ → List TaskResult → List Outcome
outcomes_of delivers sockets [] = []
outcomes_of delivers sockets (tr ∷ trs) =
    outcome_of delivers sockets tr ∷ outcomes_of delivers sockets trs

-- Each dispatch is judged by the sockets that were there at the start.
pub dispatch_all-outcomes :
    (delivers : ℕ → Bool) (t : TaskType) (params : Option String) (trs : List TaskResult)
    (m : Manager)
    → ((dispatch_all delivers t params trs m).0 ≡ outcomes_of delivers m.active_connections trs)
      × ((dispatch_all delivers t params trs m).1.active_connections ≡ m.active_connections)
unfolding dispatch_all outcomes_of
dispatch_all-outcomes delivers t params [] m = (refl, refl)
dispatch_all-outcomes delivers t params (tr ∷ trs) m =
    let c : Command = record {
      id = tr.id;
      action = task_type_value t;
      params = command_params params;
    } in
    let (success, same) = send_command_sound delivers tr.device_id c m in
    let m' = (send_command delivers tr.device_id c m).1 in
    let (later, same') = dispatch_all-outcomes delivers t params trs m' in
    (rw (success, later, same) refl, same' ∙ same)

-- What a new result becomes: "sent" from now on where the device was reached, else "failed".
abbrev pub settled : (ℕ → Bool) → Dict ℕ → ℕ → TaskResult → TaskResult
settled delivers sockets now tr =
    let reached = is_reached delivers sockets tr.device_id in
    record tr {
      status = if reached then "sent" else "failed";
      output = if reached then tr.output else some "Agent offline";
      started_at = if reached then some now else tr.started_at;
      finished_at = if reached then tr.finished_at else some now;
    }

settle-settled :
    (delivers : ℕ → Bool) (sockets : Dict ℕ) (now : ℕ) (tr : TaskResult)
    → settle now (is_reached delivers sockets tr.device_id) tr ≡ settled delivers sockets now tr
unfolding settle
settle-settled delivers sockets now tr =
    elim (Bool-cases (is_reached delivers sockets tr.device_id)) [
      | inl reached ↦ rw reached refl
      | inr missed ↦ rw missed refl
    ]

id-settle : (now : ℕ) (b : Bool) (tr : TaskResult) → (settle now b tr).id ≡ tr.id
unfolding settle
id-settle now true tr = refl
id-settle now false tr = refl

-- Rows whose ids are in neither the rows before nor one another.
abbrev pub Apart : List TaskResult → List TaskResult → Type 0
Apart before [] = Unit
Apart before (r ∷ rs) =
    (any_row (has_result_id r.id) before ≡ false)
    × (any_row (has_result_id r.id) rs ≡ false)
    × Apart before rs

update_where-skip :
    (id : String) (f : TaskResult → TaskResult) (rs : List TaskResult)
    → any_row (has_result_id id) rs ≡ false
    → update_where (has_result_id id) f rs ≡ rs
update_where-skip id f [] h = refl
update_where-skip id f (r ∷ rs) h = ground (arith, update_where-skip id f rs)

update_where-middle :
    (f : TaskResult → TaskResult) (before : List TaskResult) (r : TaskResult) (rs : List TaskResult)
    → any_row (has_result_id r.id) before ≡ false
    → any_row (has_result_id r.id) rs ≡ false
    → update_where (has_result_id r.id) f (before ++ r ∷ rs) ≡ before ++ f r ∷ rs
update_where-middle f [] r rs old new = rw (eq_refl r.id, update_where-skip r.id f rs new) refl
update_where-middle f (b ∷ before) r rs old new = ground (arith, update_where-middle f before r rs)

any_id-append :
    (id : String) (before : List TaskResult) (r : TaskResult)
    → any_row (has_result_id id) (before ++ r ∷ [])
      ≡ (any_row (has_result_id id) before || (r.id == id))
any_id-append id [] r = ground arith
any_id-append id (b ∷ before) r = ground (arith, any_id-append id before r)

Apart-append :
    (before : List TaskResult) (r : TaskResult) (rs : List TaskResult)
    → any_row (has_result_id r.id) rs ≡ false
    → Apart before rs
    → Apart (before ++ r ∷ []) rs
Apart-append before r [] new a = tt
Apart-append before r (s ∷ rs) new a = ground (
  arith,
  any_id-append s.id before r,
  Apart-append before r rs,
  eq_iff r.id s.id,
  eq_iff s.id r.id,
)

-- The outcomes settle the new rows, each its own, and no row before them.
pub settle_all-rows :
    (delivers : ℕ → Bool) (sockets : Dict ℕ) (now : ℕ) (before rows : List TaskResult)
    → Apart before rows
    → settle_all now (outcomes_of delivers sockets rows) (before ++ rows)
      ≡ before ++ map (settled delivers sockets now) rows
unfolding settle_all outcomes_of
settle_all-rows delivers sockets now before [] a = refl
settle_all-rows delivers sockets now before (r ∷ rs) a =
    let b = is_reached delivers sockets r.device_id in
    let r' = settle now b r in
    let rest = outcomes_of delivers sockets rs in
    ap (settle_all now rest) (update_where-middle (settle now b) before r rs a.0 a.1)
    ∙ ap (settle_all now rest) (sym (append_assoc before (r' ∷ []) rs))
    ∙ settle_all-rows delivers sockets now (before ++ r' ∷ []) rs
        (Apart-append before r' rs (rw (id-settle now b r) a.1) a.2)
    ∙ append_assoc before (r' ∷ []) (map (settled delivers sockets now) rs)
    ∙ ap (λ x. before ++ x ∷ map (settled delivers sockets now) rs)
        (settle-settled delivers sockets now r)
