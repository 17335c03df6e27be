-- ===== src/Listener/Accepting.antt =====
-- What the listeners of src/HttpServer.cpp, src/ChatListener.cpp and src/WebSocketListener.cpp accept.
use cherry_recorder_server.Prelude.{
  ℕ, zero, suc, String, Bool, true, false, ◌&&◌, str_eq, Option, none, some, List, [], ◌∷◌, ◌++◌,
  ◌≡◌, ◌⊎◌, refl, ap, ◌∙◌, Bool-cases, inl, inr, subst, if◌then◌else◌,
}
use cherry_recorder_server.ChatServer.Nicknames.{done, undefined}
use cherry_recorder_server.Json.{ok, throws, ◌>>◌}
use cherry_recorder_server.Listener.{
  Setup, Listener, acceptor, step, is_ok, with_handler, chat_listener, http_listener, do_accept,
  Accepted, gone, error, http_on_accept, chat_do_accept,
}
use cherry_recorder_server.Listener.Serving.{
  http_serve, serve, chat_serve, connections, sockets, NoneGone, without_connection, sessions_of,
  waiting_with, http_serve-waiting, serve-waiting, chat_serve-waiting,
}

with_handler-acceptor :
    (api_key : Option String) (l : Listener)
    → with_handler api_key ≡ ok l
    → acceptor true true api_key ≡ l
with_handler-acceptor none l e = cc
with_handler-acceptor (some key) l e = elim (Bool-cases (str_eq key "")) [
  | inl missing ↦ cc (rw missing at e)
  | inr there ↦ let same : ok (acceptor true true (some key)) ≡ ok l = rw there at e in cc same
]

http_listener-acceptor :
    (setup : Setup) (api_key : Option String) (l : Listener)
    → is_ok setup.opening ≡ true
    → (is_ok setup.set_option && is_ok setup.bind && is_ok setup.listen) ≡ true
    → http_listener setup api_key ≡ ok l
    → acceptor true true api_key ≡ l
unfolding http_listener
http_listener-acceptor setup api_key l opened listens e =
    with_handler-acceptor api_key l (rw (opened, listens) at e)

-- What a fresh listener that is set up has started, and that it stops at a connection without a peer
abbrev pub IsAccepting : Option String → List Accepted → Listener → Type 0
IsAccepting places_handler events l =
    ((http_serve events (do_accept l)).waiting ≡ true)
    × ((http_serve events (do_accept l)).sessions ≡ sessions_of places_handler (connections events))
    × ((socket : ℕ) → (http_serve (events ++ gone socket ∷ []) (do_accept l)).waiting ≡ false)

http_serve-gone :
    (events : List Accepted) (socket : ℕ) (l : Listener)
    → (http_serve (events ++ gone socket ∷ []) l).waiting ≡ false
unfolding http_on_accept
http_serve-gone [] socket l = refl
http_serve-gone (accepted ∷ later) socket l =
    http_serve-gone later socket (http_on_accept accepted l)

serves :
    (places_handler : Option String) (events : List Accepted)
    → NoneGone events
    → IsAccepting places_handler events (acceptor true true places_handler)
unfolding do_accept
serves places_handler events none_gone =
    let done = http_serve-waiting (acceptor true true places_handler) events [] none_gone in
    (
      ap (λ l. l.waiting) done,
      ap (λ l. l.sessions) done,
      λ socket. http_serve-gone events socket (do_accept (acceptor true true places_handler)),
    )

-- Waiting without a session, until a connection with a peer overflows the stack
abbrev pub IsChatAccepting : ℕ → List Accepted → Listener → Type 0
IsChatAccepting frames events l =
    chat_serve frames events (chat_do_accept l)
    ≡ (if without_connection events then done (waiting_with l []) else undefined)

chat_serves :
    (frames : ℕ) (events : List Accepted) → IsChatAccepting frames events (acceptor true true none)
unfolding chat_do_accept do_accept
chat_serves frames events = chat_serve-waiting frames (acceptor true true none) refl events

abbrev pub IsWebSocketAccepting : List Accepted → Listener → Type 0
IsWebSocketAccepting events l =
    ((serve events (do_accept l)).waiting ≡ true)
    × ((serve events (do_accept l)).sessions ≡ sessions_of none (sockets events))

web_socket_serves : (events : List Accepted) → IsWebSocketAccepting events (acceptor true true none)
unfolding do_accept
web_socket_serves events =
    let done = serve-waiting (acceptor true true none) events [] in
    (ap (λ l. l.waiting) done, ap (λ l. l.sessions) done)

all_ok :
    (a b c d : Option String) (l m : Listener)
    → (step a >> (step b >> (step c >> (step d >> ok l)))) ≡ ok m
    → ((is_ok a ≡ true) × ((is_ok b && is_ok c && is_ok d) ≡ true) × (l ≡ m))
all_ok none none none none l m e = (refl, refl, cc e)
all_ok none none none (some what) l m e = cc
all_ok none none (some what) d l m e = cc
all_ok none (some what) c d l m e = cc
all_ok (some what) b c d l m e = cc

not_all_ok :
    (a b c d : Option String) (l : Listener) (what : String)
    → (step a >> (step b >> (step c >> (step d >> ok l)))) ≡ throws what
    → (is_ok a ≡ false) ⊎ ((is_ok a ≡ true) × ((is_ok b && is_ok c && is_ok d) ≡ false))
not_all_ok none none none none l what e = cc
not_all_ok none none none (some why) l what e = inr (refl, refl)
not_all_ok none none (some why) d l what e = inr (refl, refl)
not_all_ok none (some why) c d l what e = inr (refl, refl)
not_all_ok (some why) b c d l what e = inl refl

-- Where the four steps of the set-up succeed and the key is there, the HTTP and the WebSocket
-- listener wait for the next connection after any sequence of accepts, errors among them, and each
-- connection has a session, in the order of the connections: in the HTTP server with the handler for
-- the key, as long as no connection has lost its peer, and it waits no more after one that has; in the
-- WebSocket listener whether or not it has. The chat listener waits, without a session, as long as
-- only errors and connections without a peer come; the first one with a peer overflows the stack,
-- however many frames it has.
pub listeners-serve :
    (setup : Setup) (api_key : Option String) (http other : Listener) (frames : ℕ)
    (events others : List Accepted)
    → http_listener setup api_key ≡ ok http
    → chat_listener setup ≡ ok other
    → NoneGone events
    → IsAccepting api_key events http
      × IsChatAccepting frames others other
      × IsWebSocketAccepting others other
unfolding chat_listener
listeners-serve setup api_key http other frames events others e f none_gone =
    let (opened, listens, same) =
      all_ok setup.opening setup.set_option setup.bind setup.listen (acceptor true true none) other
        f in
    (
      subst (IsAccepting api_key events)
          (http_listener-acceptor setup api_key http opened listens e)
          (serves api_key events none_gone),
      subst (IsChatAccepting frames others) same (chat_serves frames others),
      subst (IsWebSocketAccepting others) same (web_socket_serves others),
    )

abbrev pub errors : ℕ → List Accepted
errors zero = []
errors (suc n) = error ∷ errors n

connections-errors : (n : ℕ) → connections (errors n) ≡ []
connections-errors zero = refl
connections-errors (suc n) = connections-errors n

NoneGone-errors : (n : ℕ) → NoneGone (errors n)
NoneGone-errors zero = tt
NoneGone-errors (suc n) = NoneGone-errors n

-- Without a session, and waiting again after any number of errors
abbrev pub Spins : Listener → Type 0
Spins l =
    (l.listening ≡ false)
    × ((n : ℕ)
        → ((http_serve (errors n) (do_accept l)).waiting ≡ true)
          × ((http_serve (errors n) (do_accept l)).sessions ≡ []))

spins : (is_open : Bool) → Spins (acceptor is_open false none)
unfolding do_accept
spins is_open = (
  refl,
  λ n.
      let done =
        http_serve-waiting (acceptor is_open false none) (errors n) [] (NoneGone-errors n) in
      (
        ap (λ l. l.waiting) done,
        ap (λ l. l.sessions) done ∙ ap (sessions_of none) (connections-errors n),
      ),
)

-- Where a step fails that makes the other listeners throw, the listener of the HTTP server is built
-- all the same: it does not listen, and after any number of failed accepts it waits for the next one.
pub http_listener-Spins :
    (setup : Setup) (api_key : Option String) (what : String)
    → chat_listener setup ≡ throws what
    → (l : Listener) × (http_listener setup api_key ≡ ok l) × Spins l
unfolding http_listener chat_listener
http_listener-Spins setup api_key what f =
    let last : Listener = acceptor true true none in
    elim (not_all_ok setup.opening setup.set_option setup.bind setup.listen last what f) [
      | inl closed ↦ rw closed (acceptor false false none, refl, spins false)
      | inr (opened, fails) ↦ rw (opened, fails) (acceptor true false none, refl, spins true)
    ]
