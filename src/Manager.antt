-- ===== src/Manager.antt =====
-- server/api/websocket_manager.py: the sockets of the agents and the subscribers of the tasks.
-- A socket is a number. `delivers` says of each socket whether `send_text` returns or raises; what
-- was sent and which sockets were closed is recorded in the order of the calls. The lock of the
-- manager makes `connect_agent` and `disconnect_agent` one step each.
pub mod Delivery
pub mod Presence
mod Tests
use batch_shutdown_assistant.Prelude.{
  ℕ, String, Bool, true, false, not, Option, none, some, List, [], ◌∷◌, ◌++◌, map, select, any_row,
  num_eq, Dict, lookup, insert, erase, contains, if◌then◌else◌,
}

-- The dict that `send_command` sends; `params` is its JSON text.
pub record Command : Type 0 where
  pub id : String
  pub action : String
  pub params : String

-- The dict that `broadcast_task_update` sends; a missing status or output is `None`.
pub record TaskUpdate : Type 0 where
  pub command_id : String
  pub device_id : String
  pub status : Option String
  pub output : Option String

pub data Frame : Type 0 where
  command : Command → Frame
  update : TaskUpdate → Frame

pub record Manager : Type 0 where
  pub active_connections : Dict ℕ
  pub task_subscribers : Dict (List ℕ)
  pub sent : List (ℕ × Frame)
  pub closed : List ℕ

abbrev pub new_manager : Manager
new_manager = record { active_connections = []; task_subscribers = []; sent = []; closed = [] }

abbrev pub close_old : Option ℕ → List ℕ → List ℕ
close_old none closed = closed
close_old (some old) closed = closed ++ old ∷ []

-- The old socket of the device is closed; that `close` raises is ignored.
unfoldable pub connect_agent : String → ℕ → Manager → Manager
connect_agent device_id websocket m = record m {
  active_connections = insert device_id websocket m.active_connections;
  closed = close_old (lookup device_id m.active_connections) m.closed;
}

unfoldable pub disconnect_agent : String → Manager → Manager
disconnect_agent device_id m = record m {
  active_connections = erase device_id m.active_connections;
}

-- `send_command` on the socket that was found
unfoldable pub send_on : (ℕ → Bool) → Option ℕ → Command → Manager → Bool × Manager
send_on delivers none c m = (false, m)
send_on delivers (some ws) c m =
    if delivers ws then (true, record m { sent = m.sent ++ (ws, command c) ∷ [] }) else (false, m)

unfoldable pub send_command : (ℕ → Bool) → String → Command → Manager → Bool × Manager
unfolding send_on
send_command delivers device_id c m = send_on delivers (lookup device_id m.active_connections) c m

abbrev pub has_socket : ℕ → List ℕ → Bool
has_socket ws subs = any_row (λ s. num_eq s ws) subs

-- `set.add`, `set.discard`
unfoldable pub add_socket : ℕ → List ℕ → List ℕ
add_socket ws subs = if has_socket ws subs then subs else subs ++ ws ∷ []

unfoldable pub discard_socket : ℕ → List ℕ → List ℕ
discard_socket ws subs = select (λ s. not (num_eq s ws)) subs

abbrev pub or_empty : Option (List ℕ) → List ℕ
or_empty none = []
or_empty (some subs) = subs

-- `task_subscribers.get(task_id, set())`
abbrev pub subscribers_of : String → Manager → List ℕ
subscribers_of task_id m = or_empty (lookup task_id m.task_subscribers)

unfoldable pub subscribe_task : String → ℕ → Manager → Manager
unfolding add_socket
subscribe_task task_id ws m = record m {
  task_subscribers = insert task_id (add_socket ws (subscribers_of task_id m)) m.task_subscribers;
}

-- `unsubscribe_task` on the set that was found
unfoldable pub unsubscribe_from : String → ℕ → Manager → Option (List ℕ) → Manager
unfolding discard_socket
unsubscribe_from task_id ws m none = m
unsubscribe_from task_id ws m (some subs) = record m {
  task_subscribers = insert task_id (discard_socket ws subs) m.task_subscribers;
}

unfoldable pub unsubscribe_task : String → ℕ → Manager → Manager
unfolding unsubscribe_from
unsubscribe_task task_id ws m = unsubscribe_from task_id ws m (lookup task_id m.task_subscribers)

-- The first loop of `broadcast_task_update`: what is sent, and the sockets whose send raised.
unfoldable pub send_all : (ℕ → Bool) → Frame → List ℕ → List (ℕ × Frame) × List ℕ
send_all delivers f [] = ([], [])
send_all delivers f (ws ∷ subs) =
    let (sent, dead) = send_all delivers f subs in
    if delivers ws then ((ws, f) ∷ sent, dead) else (sent, ws ∷ dead)

-- The second loop: each dead socket is discarded.
unfoldable pub discard_all : List ℕ → List ℕ → List ℕ
unfolding discard_socket
discard_all [] subs = subs
discard_all (ws ∷ dead) subs = discard_all dead (discard_socket ws subs)

-- `broadcast_task_update` on the set that was found
unfoldable pub broadcast_to : (ℕ → Bool) → String → TaskUpdate → Manager → Option (List ℕ) → Manager
unfolding send_all discard_all
broadcast_to delivers task_id message m none = m
broadcast_to delivers task_id message m (some subs) =
    let (sent, dead) = send_all delivers (update message) subs in
    record m {
      sent = m.sent ++ sent;
      task_subscribers = insert task_id (discard_all dead subs) m.task_subscribers;
    }

-- One step: the set of subscribers does not change while the message is sent. In the code another
-- handler may change it between two sends, which ends the loop with an exception.
unfoldable pub broadcast_task_update : (ℕ → Bool) → String → TaskUpdate → Manager → Manager
unfolding broadcast_to
broadcast_task_update delivers task_id message m =
    broadcast_to delivers task_id message m (lookup task_id m.task_subscribers)

unfoldable pub is_agent_online : String → Manager → Bool
is_agent_online device_id m = contains device_id m.active_connections

unfoldable pub get_online_agents : Manager → List String
get_online_agents m = map (λ e. e.0) m.active_connections
