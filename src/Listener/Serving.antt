-- ===== src/Listener/Serving.antt =====
-- The accepts of the listeners of src/HttpServer.cpp, src/ChatListener.cpp and src/WebSocketListener.cpp, one after the other.
use cherry_recorder_server.Prelude.{
  ℕ, String, Bool, true, false, Option, List, [], ◌∷◌, ◌++◌, append-nil, append_assoc, map, ◌≡◌,
  refl, ap, ◌∙◌, if◌then◌else◌,
}
use cherry_recorder_server.ChatServer.Nicknames.{Outcome, done, undefined}
use cherry_recorder_server.ChatSession.{and_then}
use cherry_recorder_server.ChatSession.Recursion.{shared_from_this-undefined}
use cherry_recorder_server.Listener.{
  Listener, do_accept, Accepted, connection, gone, error, http_on_accept, on_accept, chat_do_accept,
  chat_on_accept,
}

-- The accepts end one after the other.
abbrev pub http_serve : List Accepted → Listener → Listener
http_serve [] l = l
http_serve (accepted ∷ later) l = http_serve later (http_on_accept accepted l)

abbrev pub serve : List Accepted → Listener → Listener
serve [] l = l
serve (accepted ∷ later) l = serve later (on_accept accepted l)

abbrev pub chat_serve : ℕ → List Accepted → Listener → Outcome Listener
chat_serve frames [] l = done l
chat_serve frames (accepted ∷ later) l =
    and_then (chat_on_accept frames accepted l) (chat_serve frames later)

-- The connections with a peer, and those with one or without
abbrev pub connections : List Accepted → List ℕ
connections [] = []
connections (connection socket ∷ later) = socket ∷ connections later
connections (gone socket ∷ later) = connections later
connections (error ∷ later) = connections later

abbrev pub sockets : List Accepted → List ℕ
sockets [] = []
sockets (connection socket ∷ later) = socket ∷ sockets later
sockets (gone socket ∷ later) = socket ∷ sockets later
sockets (error ∷ later) = sockets later

-- No connection has lost its peer.
abbrev pub NoneGone : List Accepted → Type 0
NoneGone [] = Unit
NoneGone (connection socket ∷ later) = NoneGone later
NoneGone (gone socket ∷ later) = ⊥
NoneGone (error ∷ later) = NoneGone later

abbrev pub sessions_of : Option String → List ℕ → List (ℕ × Option String)
sessions_of places_handler sockets = map (λ socket. (socket, places_handler)) sockets

-- A listener that waits, and has started these sessions
abbrev pub waiting_with : Listener → List (ℕ × Option String) → Listener
waiting_with l sessions = record l { waiting = true; sessions = sessions }

pub http_serve-waiting :
    (l : Listener) (events : List Accepted) (sessions : List (ℕ × Option String))
    → NoneGone events
    → http_serve events (waiting_with l sessions)
      ≡ waiting_with l (sessions ++ sessions_of l.places_handler (connections events))
unfolding http_on_accept
http_serve-waiting l [] sessions h = rw append-nil refl
http_serve-waiting l (connection socket ∷ later) sessions h =
    http_serve-waiting l later (sessions ++ (socket, l.places_handler) ∷ []) h
    ∙ ap (waiting_with l) (append_assoc sessions _ _)
http_serve-waiting l (gone socket ∷ later) sessions h = absurd h
http_serve-waiting l (error ∷ later) sessions h = http_serve-waiting l later sessions h

pub serve-waiting :
    (l : Listener) (events : List Accepted) (sessions : List (ℕ × Option String))
    → serve events (waiting_with l sessions)
      ≡ waiting_with l (sessions ++ sessions_of l.places_handler (sockets events))
unfolding on_accept
serve-waiting l [] sessions = rw append-nil refl
serve-waiting l (connection socket ∷ later) sessions =
    serve-waiting l later (sessions ++ (socket, l.places_handler) ∷ [])
    ∙ ap (waiting_with l) (append_assoc sessions _ _)
serve-waiting l (gone socket ∷ later) sessions =
    serve-waiting l later (sessions ++ (socket, l.places_handler) ∷ [])
    ∙ ap (waiting_with l) (append_assoc sessions _ _)
serve-waiting l (error ∷ later) sessions = serve-waiting l later sessions

-- No connection with a peer is among them.
abbrev pub without_connection : List Accepted → Bool
without_connection [] = true
without_connection (connection socket ∷ later) = false
without_connection (gone socket ∷ later) = without_connection later
without_connection (error ∷ later) = without_connection later

module _ (frames : ℕ) (l : Listener) (open_here : l.is_open ≡ true) where
  chat_on_accept-connection :
      (socket : ℕ) → chat_on_accept frames (connection socket) (waiting_with l []) ≡ undefined
  unfolding chat_on_accept
  chat_on_accept-connection socket = simp (open_here, shared_from_this-undefined frames socket)

  chat_on_accept-other :
      (socket : ℕ)
      → (chat_on_accept frames (gone socket) (waiting_with l []) ≡ done (waiting_with l []))
        × (chat_on_accept frames error (waiting_with l []) ≡ done (waiting_with l []))
  unfolding chat_on_accept chat_do_accept do_accept
  chat_on_accept-other socket = (simp open_here, simp open_here)

  -- The first connection with a peer is the last.
  pub chat_serve-waiting :
      (events : List Accepted)
      → chat_serve frames events (waiting_with l [])
        ≡ (if without_connection events then done (waiting_with l []) else undefined)
  chat_serve-waiting [] = refl
  chat_serve-waiting (connection socket ∷ later) =
      ap (λ o. and_then o (chat_serve frames later)) (chat_on_accept-connection socket)
  chat_serve-waiting (gone socket ∷ later) =
      ap (λ o. and_then o (chat_serve frames later)) (chat_on_accept-other socket).0
      ∙ chat_serve-waiting later
  chat_serve-waiting (error ∷ later) =
      ap (λ o. and_then o (chat_serve frames later)) (chat_on_accept-other 0).1
      ∙ chat_serve-waiting later
