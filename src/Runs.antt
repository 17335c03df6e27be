-- ===== src/Runs.antt =====
-- Runs of the server: the events of src/ChatServer.cpp, src/WebSocketSession.cpp and
-- src/ChatSession.cpp in any order, each run to completion on the server's strand. A session sends
-- commands while it is connected, and connects with the nickname that its constructor gave it. After
-- a failed write it has left the server while its read still waits: it may then send messages, and
-- leaves once more when the read fails (`late_message`, `disconnect_again`).
pub mod Invariant
pub mod Results
use cherry_recorder_server.Prelude.{ℕ, String, Bool, true, false, ◌≡◌, ◌==◌, if◌then◌else◌}
use cherry_recorder_server.IdSet.{contains}
use cherry_recorder_server.Session.{Session, Objects}
use cherry_recorder_server.History.{Env, MessageHistory}
use cherry_recorder_server.ChatServer.{ChatServer, chat_server}
use cherry_recorder_server.ChatServer.Nicknames.{Outcome, done}
use cherry_recorder_server.ChatServer.Sessions
use cherry_recorder_server.WebSocketSession
use cherry_recorder_server.ChatSession
use cherry_recorder_server.ChatSession.{Chat}

-- The object is destroyed, and a weak pointer to it expires.
abbrev pub destroy : ℕ → Objects → Objects
destroy s o i = if s == i then record (o i) { alive = false } else o i

pub record IsFresh (s : Session) : Type 0 where
  pub lives : s.alive ≡ true
  pub unnamed : s.nickname ≡ s.remote_id

-- One event
pub data Step : ChatServer → ChatServer → Type 0 where
  accept :
      (env : Env) (s : ℕ) (w : ChatServer)
      → IsFresh (w.objects s)
      → Step w (WebSocketSession.on_accept env s false w)
  start :
      (frames : ℕ) (env : Env) (s : ℕ) (w v : ChatServer) (stopped : Bool)
      → IsFresh (w.objects s)
      → ChatSession.start frames env s (w, false) ≡ done (v, stopped)
      → Step w v
  message :
      (env : Env) (s : ℕ) (text : String) (w v : ChatServer)
      → contains s w.sessions ≡ true
      → WebSocketSession.process_message env s text w ≡ done v
      → Step w v
  command :
      (frames : ℕ) (env : Env) (s : ℕ) (line : String) (w v : ChatServer) (stopped : Bool)
      → ChatSession.process_command frames env s line (w, false) ≡ done (v, stopped)
      → Step w v
  disconnect :
      (env : Env) (s : ℕ) (w : ChatServer)
      → contains s w.sessions ≡ true
      → Step w (Sessions.leave env s w)
  late_message :
      (env : Env) (s : ℕ) (text : String) (w v : ChatServer)
      → contains s w.sessions ≡ false
      → WebSocketSession.process_message env s text w ≡ done v
      → Step w v
  disconnect_again :
      (env : Env) (s : ℕ) (w : ChatServer)
      → contains s w.sessions ≡ false
      → Step w (Sessions.leave env s w)
  expire :
      (s : ℕ) (w : ChatServer)
      → contains s w.sessions ≡ false
      → Step w (record w { objects = destroy s w.objects })
  halt : (w : ChatServer) → Step w (Sessions.stop w).0

-- The states of the server after any number of events
pub data Reach : ChatServer → Type 0 where
  begin : (o : Objects) (h : MessageHistory) → Reach (chat_server o h)
  next : (w v : ChatServer) → Reach w → Step w v → Reach v

-- The session of the event has not left before.
abbrev pub OnTime : {w v : ChatServer} → Step w v → Type 0
OnTime (late_message env s text w v out e) = ⊥
OnTime (disconnect_again env s w out) = ⊥
OnTime _ = Unit

-- No session sends a message or leaves once more after it has left.
abbrev pub IsOrderly : {w : ChatServer} → Reach w → Type 0
IsOrderly (begin o h) = Unit
IsOrderly (next w v r step) = IsOrderly r × OnTime step
