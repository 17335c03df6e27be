-- ===== src/ChatServer/Archive.antt =====
-- The history as src/ChatServer.cpp passes it on, and `system_broadcast`.
use cherry_recorder_server.Prelude.{ℕ, String, Bool, false, Option, none, some, List, []}
use cherry_recorder_server.History.{
  Env, MessageHistory, load_global_history, load_private_history, load_room_history, set_enabled,
}
use cherry_recorder_server.ChatServer.{ChatServer, logged, broadcast}

unfoldable set_history_enabled : Bool → ChatServer → ChatServer
unfolding set_enabled
set_history_enabled enable w = record w { history = logged (set_enabled enable) w.history }

unfoldable is_history_enabled : ChatServer → Bool
is_history_enabled w = elim w.history [ none ↦ false | some h ↦ h.enabled ]

-- No history, no lines
abbrev loaded : (MessageHistory → List String) → Option MessageHistory → List String
loaded load none = []
loaded load (some h) = load h

unfoldable global_history : Env → ℕ → ChatServer → List String
unfolding load_global_history
global_history env limit w = loaded (load_global_history env limit) w.history

unfoldable private_history : Env → String → String → ℕ → ChatServer → List String
unfolding load_private_history
private_history env user1 user2 limit w =
    loaded (load_private_history env user1 user2 limit) w.history

unfoldable room_history : Env → String → ℕ → ChatServer → List String
unfolding load_room_history
room_history env room limit w = loaded (load_room_history env room limit) w.history

unfoldable system_broadcast : Env → String → ChatServer → ChatServer
unfolding broadcast
system_broadcast env message w = broadcast env message none w
