-- ===== src/System/Steps.antt =====
-- Every step keeps the tables of tasks and results sound, and the tasks that have ended.
use mathlib.Core.Path.{subst}
use batch_shutdown_assistant.Prelude.{
  ℕ, String, ◌≡◌, ◌∙◌, ◌⊎◌, refl, sym, ap, Bool, true, ◌&&◌, List, [], ◌∷◌, ◌++◌, map, any_row,
  num_eq, arith, Bool-cases, inl, inr, ◌==◌,
}
use batch_shutdown_assistant.Auth.{Crypto}
use batch_shutdown_assistant.Database.{Schema}
use batch_shutdown_assistant.Tasks.{sent_count}
use batch_shutdown_assistant.Inventory.{create_device, audit_device, batch_delete_devices}
use batch_shutdown_assistant.System.{
  Added, Flight, Told, Server, Outside, Step, heartbeat, recover, connect, disconnect, report,
  store, sync, begin, run, settle, finish, cancel, read_task, create, update, delete, delete_many,
  expire, generate, import_range, import_file, reboot, restart,
}
use batch_shutdown_assistant.Deploy.{generate_device_token}
use batch_shutdown_assistant.System.Rows.{keys, ids, any-ids, has_ended}
use batch_shutdown_assistant.System.Moves.{Kept-same, Kept-cancel_task, Kept-refresh_task}
use batch_shutdown_assistant.System.Reported.{Kept-end_socket}
use batch_shutdown_assistant.System.Unmoved.{
  Kept-open_socket, Kept-update_device, Kept-delete_device, Kept-import_ip_range, Kept-import_csv,
}
use batch_shutdown_assistant.System.Opening.{any-append}
use batch_shutdown_assistant.System.Commit.{IsFlightOf}
use batch_shutdown_assistant.System.Busy.{is_busy, AreFlights, All-remove, Move, Move-Kept}
use batch_shutdown_assistant.System.Commits.{
  Move-hear, Move-inform, Move-tell, Move-run_added, Move-settle_flight, Move-finish_task,
}
use batch_shutdown_assistant.System.Invariant.{
  IsTaskSound, KeepsEnded, Move-IsTaskSound, begin_task-IsTaskSound, begin_task-keeps,
}

any-map {ℓ} :
    {A : Type ℓ} (q : String → Bool) (f : A → String) (xs : List A)
    → any_row q (map f xs) ≡ any_row (λ x. q (f x)) xs
any-map q f [] = refl
any-map q f (x ∷ xs) = ground (arith, any-map q f xs)

any-weaken {ℓ} :
    {A : Type ℓ} (p q : A → Bool) (xs : List A)
    → ((x : A) → p x ≡ true → q x ≡ true)
    → any_row p xs ≡ true
    → any_row q xs ≡ true
any-weaken p q [] f h = cc
any-weaken p q (x ∷ xs) f h = elim (Bool-cases (p x)) [
  | inl hit ↦ let good = f x hit in ground (arith, good)
  | inr miss ↦ let rest = any-weaken p q xs f (ground (arith, h, miss)) in ground (arith, rest)
]

is_interrupted :
    (id : String) (s : Server)
    → let stopped =
        map (λ (a : Added). a.task_id) s.added
        ++ (map (λ (f : Flight). f.task_id) s.flights
            ++ (map (λ (f : Flight). f.task_id) s.closing
                ++ (map (λ (p : Told). p.task_id) s.reports ++ s.interrupted))) in
      is_busy id s ≡ true → any_row (λ i. i == id) stopped ≡ true
is_interrupted id s h =
    let q : String → Bool = λ i. i == id in
    let l₁ = map (λ (a : Added). a.task_id) s.added in
    let l₂ = map (λ (f : Flight). f.task_id) s.flights in
    let l₃ = map (λ (f : Flight). f.task_id) s.closing in
    let l₄ = map (λ (p : Told). p.task_id) s.reports in
    let e₁ = any-append q l₁ (l₂ ++ (l₃ ++ (l₄ ++ s.interrupted))) in
    let e₂ = any-append q l₂ (l₃ ++ (l₄ ++ s.interrupted)) in
    let e₃ = any-append q l₃ (l₄ ++ s.interrupted) in
    let e₄ = any-append q l₄ s.interrupted in
    let m₁ = any-map q (λ (a : Added). a.task_id) s.added in
    let m₂ = any-map q (λ (f : Flight). f.task_id) s.flights in
    let m₃ = any-map q (λ (f : Flight). f.task_id) s.closing in
    let m₄ = any-map q (λ (p : Told). p.task_id) s.reports in
    let closing =
      any-weaken (λ (f : Flight). num_eq (sent_count f.outcomes) 0 && f.task_id == id)
        (λ (f : Flight). f.task_id == id) s.closing (λ f k. ground (arith, k)) in
    ground (arith, h, e₁, e₂, e₃, e₄, m₁, m₂, m₃, m₄, closing)

-- A stop of the server interrupts what is busy.
Move-restart :
    (crypto : Crypto) (schema : Schema) (fresh : String) (now : ℕ) (s : Server)
    → Move s (restart crypto schema fresh now s)
unfolding restart
Move-restart crypto schema fresh now s = record {
  same_ids = refl;
  same_keys = refl;
  settles = λ id over old.
      let settled = old over in
      elim (Bool-cases (has_ended id s.world.db.tasks)) [
        | inl done ↦ rw done refl
        | inr open_task ↦
            let busy : is_busy id s ≡ true = ground (arith, settled, open_task) in
            rw (is_interrupted id s busy) (ground arith)
      ];
  flights = λ f a. (tt, tt);
  ended = λ id o h. h;
  opening = λ id h. refl;
}

-- What a step does to the tables of tasks and results: what `Move` says, or it begins a task.
Step-cases :
    {o : Outside} {s t : Server}
    → Step o s t
    → IsTaskSound s
    → Move s t ⊎ (IsTaskSound t × KeepsEnded s t)
Step-cases {o} {s} (heartbeat now payload request fresh fresh_token new) sound =
    inl (Move-Kept s _ (Kept-same s.world.db _ refl refl))
Step-cases {o} {s} (recover now payload request) sound =
    inl (Move-Kept s _ (Kept-same s.world.db _ refl refl))
Step-cases {o} {s} (connect now device_id token websocket) sound =
    inl (Move-Kept s _ (Kept-open_socket now device_id token websocket s.world))
Step-cases {o} {s} (disconnect now device_id) sound =
    inl (Move-Kept s _ (Kept-end_socket now device_id s.world))
Step-cases {o} {s} (report now device_id msg) sound = inl (Move-hear now device_id msg s)
Step-cases {o} {s} (store now before later p there first) sound =
    inl (Move-inform o.loads now p before later s there)
Step-cases {o} {s} (sync before later p there second) sound =
    inl (Move-tell o.delivers p before later s there)
Step-cases {o} {s} (begin uuid now task_type payload injective unused new) sound = inr (
  begin_task-IsTaskSound uuid now task_type payload s new injective unused sound,
  begin_task-keeps uuid now task_type payload s new,
)
Step-cases {o} {s} (run before later a there) sound =
    inl (Move-run_added o.delivers a before later s there)
Step-cases {o} {s} (settle now before later f there) sound =
    let mine =
      (All-remove (λ (g : Flight). IsFlightOf g.task_id g.outcomes (keys s.world.db.results)) before
        later f (subst (λ fs. AreFlights fs (keys s.world.db.results)) there sound.flying)).1 in
    inl (Move-settle_flight now f before later s there mine)
Step-cases {o} {s} (finish before later f there) sound =
    inl (Move-finish_task f before later s there)
Step-cases {o} {s} (cancel fresh now username task_id) sound =
    inl (Move-Kept s _ (Kept-cancel_task fresh now username task_id s.world.db))
Step-cases {o} {s} (read_task now task) sound =
    inl (Move-Kept s _ (Kept-refresh_task now task s.world.db))
Step-cases {o} {s} (create id token fresh now username payload new) sound =
    unfold create_device audit_device in inl (Move-Kept s _ (Kept-same s.world.db _ refl refl))
Step-cases {o} {s} (update fresh now username device_id payload) sound =
    inl (Move-Kept s _ (Kept-update_device fresh now username device_id payload s.world.db))
Step-cases {o} {s} (delete command_id fresh now username device_id) sound =
    inl (
      Move-Kept s _ (Kept-delete_device o.delivers command_id fresh now username device_id s.world))
Step-cases {o} {s} (delete_many uuid fresh now username device_ids) sound =
    unfold batch_delete_devices audit_device in
    inl (Move-Kept s _ (Kept-same s.world.db _ refl refl))
Step-cases {o} {s} (expire now) sound = inl (Move-Kept s _ (Kept-same s.world.db _ refl refl))
Step-cases {o} {s} (generate id token fresh now username payload new) sound =
    unfold generate_device_token audit_device in
    inl (Move-Kept s _ (Kept-same s.world.db _ refl refl))
Step-cases {o} {s} (import_range ids tokens message fresh now username payload injective new)
      sound =
    inl (
      Move-Kept s _ (Kept-import_ip_range ids tokens message fresh now username payload s.world.db))
Step-cases {o} {s}
      (import_file strip ids tokens fresh now username filename group rows injective new) sound =
    inl (
      Move-Kept s _
        (Kept-import_csv strip ids tokens fresh now username filename group rows s.world.db))
Step-cases {o} {s} (reboot crypto schema fresh now) sound =
    inl (Move-restart crypto schema fresh now s)

-- Every step keeps the tables of tasks and results sound.
pub Step-IsTaskSound : {o : Outside} {s t : Server} → Step o s t → IsTaskSound s → IsTaskSound t
Step-IsTaskSound {o} {s} {t} step sound = elim (Step-cases step sound) [
  | inl move ↦ Move-IsTaskSound s t move sound
  | inr begun ↦ begun.0
]

-- Every step keeps the tasks that have ended and are past their start.
pub Step-KeepsEnded : {o : Outside} {s t : Server} → Step o s t → IsTaskSound s → KeepsEnded s t
Step-KeepsEnded {o} {s} {t} step sound = elim (Step-cases step sound) [
  | inl move ↦ λ id there over past. (
    any-ids id t.world.db.tasks
        ∙ ap (any_row (λ i. i == id)) move.same_ids
        ∙ sym (any-ids id s.world.db.tasks)
        ∙ there,
    move.ended id past over,
    move.opening id past,
  )
  | inr begun ↦ begun.1
]
