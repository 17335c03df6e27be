-- ===== src/Runs/Results.antt =====
-- What the invariant gives for the names and the requests of the sessions of src/ChatServer.cpp and
-- src/WebSocketSession.cpp.
use cherry_recorder_server.Prelude.{ℕ, true, ◌≡◌, ◌≢◌}
use cherry_recorder_server.StringMap
use cherry_recorder_server.IdSet.{contains}
use cherry_recorder_server.ChatServer.{ChatServer}
use cherry_recorder_server.WebSocketSession

-- The session is connected and has set a nickname.
pub record IsNamed (w : ChatServer) (s : ℕ) : Type 0 where
  pub connected : contains s w.sessions ≡ true
  pub not_empty : (w.objects s).nickname ≢ ""
  pub not_temporary : (w.objects s).nickname ≢ (w.objects s).remote_id
