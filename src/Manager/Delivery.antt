-- ===== src/Manager/Delivery.antt =====
-- What a broadcast delivers, and which subscribers stay.
use mathlib.Core.List.{append-nil}
use batch_shutdown_assistant.Prelude.{
  ℕ, String, ◌≡◌, ◌≢◌, sym, refl, Option-cases, Bool, true, false, not, ◌&&◌, List, [], ◌∷◌, ◌++◌,
  map, select, num_eq, lookup, lookup-insert, arith, eq_iff, eq_refl, ap, Bool-cases, inl, inr,
}
use batch_shutdown_assistant.Manager.{
  Frame, update, TaskUpdate, Manager, add_socket, has_socket, discard_socket, subscribers_of,
  subscribe_task, unsubscribe_task, send_all, discard_all, broadcast_task_update,
}

-- The frames of a broadcast: one to each socket that delivers, in the order of the set.
send_all-sent :
    (delivers : ℕ → Bool) (f : Frame) (subs : List ℕ)
    → (send_all delivers f subs).0 ≡ map (λ ws. (ws, f)) (select delivers subs)
unfolding send_all
send_all-sent delivers f [] = refl
send_all-sent delivers f (ws ∷ subs) = ground (arith, send_all-sent delivers f subs)

send_all-dead :
    (delivers : ℕ → Bool) (f : Frame) (subs : List ℕ)
    → (send_all delivers f subs).1 ≡ select (λ ws. not (delivers ws)) subs
unfolding send_all
send_all-dead delivers f [] = refl
send_all-dead delivers f (ws ∷ subs) = ground (arith, send_all-dead delivers f subs)

select-select :
    (p q : ℕ → Bool) (xs : List ℕ) → select p (select q xs) ≡ select (λ x. q x && p x) xs
select-select p q [] = refl
select-select p q (x ∷ xs) = ground (arith, select-select p q xs)

select_all : (xs : List ℕ) → select (λ _. true) xs ≡ xs
select_all [] = refl
select_all (x ∷ xs) = ap (λ (l : List ℕ). x ∷ l) (select_all xs)

-- Tests that agree on the members of a list select the same members.
select-cong :
    (p q : ℕ → Bool) (xs : List ℕ)
    → ((x : ℕ) → has_socket x xs ≡ true → p x ≡ q x)
    → select p xs ≡ select q xs
select-cong p q [] h = refl
select-cong p q (x ∷ xs) h =
    rw (h x (ground arith), select-cong p q xs (λ y m. h y (ground arith))) refl

pointwise : (p q : ℕ → Bool) (xs : List ℕ) → ((x : ℕ) → p x ≡ q x) → select p xs ≡ select q xs
pointwise p q xs h = select-cong p q xs (λ x _. h x)

-- Discarding sockets one by one keeps those that are not among them.
discard_all-select :
    (dead subs : List ℕ) → discard_all dead subs ≡ select (λ s. not (has_socket s dead)) subs
unfolding discard_all discard_socket
discard_all-select [] subs = sym (select_all subs)
discard_all-select (ws ∷ dead) subs =
    rw (discard_all-select dead (select (λ s. not (num_eq s ws)) subs)) (
      rw (select-select (λ s. not (has_socket s dead)) (λ s. not (num_eq s ws)) subs) (
        pointwise (λ s. not (num_eq s ws) && not (has_socket s dead))
          (λ s. not (has_socket s (ws ∷ dead))) subs (λ s. ground arith)))

-- A socket is among the dead exactly if it is in the list and does not deliver.
has_socket-select :
    (delivers : ℕ → Bool) (s : ℕ) (subs : List ℕ)
    → has_socket s (select (λ ws. not (delivers ws)) subs) ≡ (has_socket s subs && not (delivers s))
has_socket-select delivers s [] = refl
has_socket-select delivers s (ws ∷ subs) = elim (Bool-cases (num_eq ws s)) [
  | inl same ↦
      let e : ws ≡ s = ground arith in rw e (ground (arith, has_socket-select delivers s subs))
  | inr other ↦ ground (arith, has_socket-select delivers s subs)
]

discard_dead :
    (delivers : ℕ → Bool) (subs : List ℕ)
    → discard_all (select (λ ws. not (delivers ws)) subs) subs ≡ select delivers subs
discard_dead delivers subs = rw (discard_all-select (select (λ ws. not (delivers ws)) subs) subs) (
    select-cong (λ s. not (has_socket s (select (λ ws. not (delivers ws)) subs))) delivers subs
      (λ s m. ground (arith, has_socket-select delivers s subs)))

-- A broadcast sends the message once to each subscriber of the task whose socket delivers, in the
-- order of the set, and to nobody else; those subscribers stay, the others are dropped, and the
-- agents' sockets are left alone.
pub broadcast_lem :
    (delivers : ℕ → Bool) (task_id : String) (message : TaskUpdate) (m : Manager)
    → let m' = broadcast_task_update delivers task_id message m in
      (m'.sent
        ≡ m.sent ++ map (λ ws. (ws, update message)) (select delivers (subscribers_of task_id m)))
      × (subscribers_of task_id m' ≡ select delivers (subscribers_of task_id m))
      × (m'.active_connections ≡ m.active_connections)
unfolding broadcast_task_update
broadcast_lem delivers task_id message m = elim (Option-cases (lookup task_id m.task_subscribers)) [
  | inl e ↦ rw e (sym (append-nil m.sent), rw e refl, refl)
  | inr (subs, e) ↦ rw e (
    rw (send_all-sent delivers (update message) subs) refl,
    rw (lookup-insert, eq_refl, send_all-dead delivers (update message) subs)
        (discard_dead delivers subs),
    refl,
  )
]

-- A broadcast for one task leaves the subscribers of every other task.
pub broadcast_others :
    (delivers : ℕ → Bool) (task_id k : String) (message : TaskUpdate) (m : Manager)
    → task_id ≢ k
    → subscribers_of k (broadcast_task_update delivers task_id message m) ≡ subscribers_of k m
unfolding broadcast_task_update
broadcast_others delivers task_id k message m ne =
    elim (Option-cases (lookup task_id m.task_subscribers)) [
      | inl e ↦ rw e refl
      | inr (subs, e) ↦ rw e (rw lookup-insert (ground (arith, eq_iff task_id k)))
    ]

discard_socket_gone : (ws : ℕ) (subs : List ℕ) → has_socket ws (discard_socket ws subs) ≡ false
unfolding discard_socket
discard_socket_gone ws [] = refl
discard_socket_gone ws (s ∷ subs) = ground (arith, discard_socket_gone ws subs)

add_socket_there : (ws : ℕ) (subs : List ℕ) → has_socket ws (add_socket ws subs) ≡ true
unfolding add_socket
add_socket_there ws subs = elim (Bool-cases (has_socket ws subs)) [
  | inl old ↦ rw old old
  | inr new ↦ rw new (last subs)
]
  where
    last : (xs : List ℕ) → has_socket ws (xs ++ ws ∷ []) ≡ true
    last [] = ground arith
    last (x ∷ xs) = ground (arith, last xs)

-- A socket is a subscriber after `subscribe_task`, and none after `unsubscribe_task`.
pub subscribe-unsubscribe :
    (task_id : String) (ws : ℕ) (m : Manager)
    → (has_socket ws (subscribers_of task_id (subscribe_task task_id ws m)) ≡ true)
      × (has_socket ws (subscribers_of task_id (unsubscribe_task task_id ws m)) ≡ false)
unfolding subscribe_task unsubscribe_task
subscribe-unsubscribe task_id ws m = (
  rw (lookup-insert, eq_refl) (add_socket_there ws (subscribers_of task_id m)),
  elim (Option-cases (lookup task_id m.task_subscribers)) [
    | inl e ↦ rw e (rw e refl)
    | inr (subs, e) ↦ rw e (rw (lookup-insert, eq_refl) (discard_socket_gone ws subs))
  ],
)
