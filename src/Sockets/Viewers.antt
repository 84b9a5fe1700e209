-- ===== src/Sockets/Viewers.antt =====
-- server/api/ws_routes.py: `task_websocket`, the socket of a browser that watches a task. What the
-- browser sends is read and dropped, so that the opening and the end are its two steps.
use batch_shutdown_assistant.Prelude.{
  ℕ, String, ◌≡◌, Bool, true, false, is_some, arith, if◌then◌else◌,
}
use batch_shutdown_assistant.Manager.{
  Manager, has_socket, subscribers_of, subscribe_task, unsubscribe_task,
}
use batch_shutdown_assistant.Manager.Delivery.{subscribe-unsubscribe}
use batch_shutdown_assistant.Auth.{Crypto}

-- The opening: `true` if the token is decoded, `false` if the socket is closed with 4001.
unfoldable pub open_viewer : Crypto → ℕ → String → String → ℕ → Manager → Bool × Manager
open_viewer c now task_id token websocket m =
    if is_some (c.decode now token) then (true, subscribe_task task_id websocket m) else (false, m)

-- The `finally` of the socket's loop.
unfoldable pub end_viewer : String → ℕ → Manager → Manager
end_viewer task_id websocket m = unsubscribe_task task_id websocket m

-- A browser watches the task from the opening, if it is accepted, until the end of the socket.
viewer_watches :
    (c : Crypto) (now : ℕ) (task_id token : String) (websocket : ℕ) (m m' : Manager)
    → (open_viewer c now task_id token websocket m).0 ≡ true
    → (has_socket websocket (subscribers_of task_id (open_viewer c now task_id token websocket m).1)
        ≡ true)
      × (has_socket websocket (subscribers_of task_id (end_viewer task_id websocket m')) ≡ false)
unfolding open_viewer end_viewer
viewer_watches c now task_id token websocket m m' h = (
  ground (arith, (subscribe-unsubscribe task_id websocket m).0),
  (subscribe-unsubscribe task_id websocket m').1,
)
