-- ===== src/Listener.antt =====
-- The three listeners: `HttpListener` of src/HttpServer.cpp, `ChatListener` of src/ChatListener.cpp
-- and `WebSocketListener` of src/WebSocketListener.cpp. A connection is a number, and what the
-- operating system answers is an argument.
pub mod Serving
pub mod Accepting
use cherry_recorder_server.Prelude.{
  ℕ, String, Bool, true, false, not, ◌&&◌, str_eq, if◌then◌else◌, Option, none, some, List, [], ◌∷◌,
  ◌++◌,
}
use cherry_recorder_server.ChatServer.Nicknames.{Outcome, done}
use cherry_recorder_server.ChatSession.{shared_from_this, and_then}
use cherry_recorder_server.Json.{Result, ok, throws, ◌>>=◌, ◌>>◌}

-- The errors of the four steps that set an acceptor up
pub record Setup : Type 0 where
  pub opening : Option String
  pub set_option : Option String
  pub bind : Option String
  pub listen : Option String

-- `is_open` of the acceptor, whether it listens, whether a call of `async_accept` waits, and the
-- sessions that were started. A session of the HTTP server has the key of its handler of places,
-- none where the pointer to it is null.
pub record Listener : Type 0 where
  pub is_open : Bool
  pub listening : Bool
  pub waiting : Bool
  pub places_handler : Option String
  pub sessions : List (ℕ × Option String)

abbrev pub acceptor : Bool → Bool → Option String → Listener
acceptor is_open listening places_handler = record {
  is_open = is_open;
  listening = listening;
  waiting = false;
  places_handler = places_handler;
  sessions = [];
}

abbrev pub step : Option String → Result (Unit {0})
step none = ok tt
step (some error) = throws error

-- The constructors that throw: of `ChatListener`, and `init_acceptor` of `WebSocketListener`
unfoldable pub chat_listener : Setup → Result Listener
chat_listener setup = do
  step setup.opening
  step setup.set_option
  step setup.bind
  step setup.listen
  ok (acceptor true true none)

-- The key in the environment; without one the constructor throws.
abbrev pub with_handler : Option String → Result Listener
with_handler none = throws "no key"
with_handler (some api_key) =
    if str_eq api_key "" then throws "no key" else ok (acceptor true true (some api_key))

abbrev pub is_ok : Option String → Bool
is_ok none = true
is_ok (some error) = false

-- The constructor of `HttpListener` returns where a step fails.
unfoldable pub http_listener : Setup → Option String → Result Listener
http_listener setup api_key =
    if is_ok setup.opening
    then if is_ok setup.set_option && is_ok setup.bind && is_ok setup.listen
      then with_handler api_key
      else ok (acceptor true false none)
    else ok (acceptor false false none)

-- `do_accept` and `run` of `HttpListener` and `WebSocketListener`
unfoldable pub do_accept : Listener → Listener
do_accept l = record l { waiting = true }

-- What an accept ends with: a connection, one whose peer is gone, so that `remote_endpoint` throws, or
-- an error
pub data Accepted : Type 0 where
  connection gone : ℕ → Accepted
  error : Accepted

abbrev pub start : ℕ → Listener → Listener
start socket l = record l { sessions = l.sessions ++ (socket, l.places_handler) ∷ [] }

-- `on_accept` of `HttpListener`: the exception leaves it before the next accept.
unfoldable pub http_on_accept : Accepted → Listener → Listener
unfolding do_accept
http_on_accept (connection socket) l = do_accept (start socket (record l { waiting = false }))
http_on_accept (gone socket) l = record l { waiting = false }
http_on_accept error l = do_accept (record l { waiting = false })

-- `on_accept` of `WebSocketListener`: the session does without the address of its peer.
unfoldable pub on_accept : Accepted → Listener → Listener
unfolding do_accept
on_accept (connection socket) l = do_accept (start socket (record l { waiting = false }))
on_accept (gone socket) l = do_accept (start socket (record l { waiting = false }))
on_accept error l = do_accept (record l { waiting = false })

-- `do_accept` and `run` of `ChatListener` ask whether the acceptor is open.
unfoldable pub chat_do_accept : Listener → Listener
unfolding do_accept
chat_do_accept l = if l.is_open then do_accept l else l

-- A session that is built and started, with the room that its thread has on the stack
abbrev pub chat_start : ℕ → ℕ → Listener → Outcome Listener
chat_start frames socket l = and_then (shared_from_this frames socket) (λ self. done (start self l))

-- The exception of a connection whose peer is gone is caught.
abbrev pub chat_started : ℕ → Accepted → Listener → Outcome Listener
chat_started frames (connection socket) l = chat_start frames socket l
chat_started frames (gone socket) l = done l
chat_started frames error l = done l

-- `on_accept` of `ChatListener`
unfoldable pub chat_on_accept : ℕ → Accepted → Listener → Outcome Listener
unfolding chat_do_accept shared_from_this
chat_on_accept frames accepted l =
    let idle = record l { waiting = false } in
    if l.is_open
    then and_then (chat_started frames accepted idle) (λ started. done (chat_do_accept started))
    else done idle
