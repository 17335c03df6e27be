-- ===== src/ChatServer/Sessions/Broadcasts.antt =====
-- Who receives what from the broadcasts and private messages of src/ChatServer.cpp.
use cherry_recorder_server.Prelude.{
  ℕ, List, [], ◌∷◌, ◌++◌, String, Bool, true, false, Option, none, some, ◌≡◌, ◌≢◌, refl, ◌∙◌, arith,
  str_eq-ne, ◌==◌, not, ◌&&◌, ◌⧺◌,
}
use cherry_recorder_server.StringMap
use cherry_recorder_server.IdSet.{contains}
use cherry_recorder_server.Session.{deliver, Distinct, is_sender, delivered-deliver_except}
use cherry_recorder_server.ChatRoom.{ChatRoom, format_message}
use cherry_recorder_server.ChatRoom
use cherry_recorder_server.History.{Env}
use cherry_recorder_server.ChatServer.{ChatServer, broadcast, broadcast_impl, broadcast_to_room}
use cherry_recorder_server.ChatServer.Rooms.{join_room, leave_room}
use cherry_recorder_server.ChatServer.Nicknames.{
  try_register_nickname_async, find_session_by_nickname, get_user_list, done,
}
use cherry_recorder_server.ChatServer.Sessions.{join, leave, send_private_message}

-- What a session has received, with the message if it is one of the receivers.
abbrev heard : String → Bool → List String → List String
heard message true before = before ++ message ∷ []
heard message false before = before

-- On a running server, every connected session but the sender receives a broadcast, once and after
-- what it received before, and nobody else receives anything.
pub broadcast-delivered :
    (env : Env) (message : String) (sender : Option ℕ) (w : ChatServer) (j : ℕ)
    → w.stopped ≡ false
    → Distinct w.sessions
    → ((broadcast env message sender w).objects j).delivered
      ≡ heard message (contains j w.sessions && not (is_sender sender j)) (w.objects j).delivered
unfolding broadcast broadcast_impl
broadcast-delivered env message sender w j running distinct =
    simp running
      (delivered-deliver_except sender message w.sessions w.objects j distinct ∙ ground arith)

-- On a running server, a broadcast to a room that exists succeeds: every participant but the sender
-- receives the formatted message, once, and nobody else receives anything.
pub broadcast_to_room-delivered :
    (env : Env) (name message : String) (sender : Option ℕ) (room : ChatRoom) (w : ChatServer)
    (j : ℕ)
    → w.stopped ≡ false
    → StringMap.find name w.rooms ≡ some room
    → Distinct room.participants
    → ((broadcast_to_room env name message sender w).1 ≡ true)
      × (((broadcast_to_room env name message sender w).0.objects j).delivered
          ≡ heard
              (format_message room message sender w.objects)
              (contains j room.participants && not (is_sender sender j))
              (w.objects j).delivered)
unfolding broadcast_to_room ChatRoom.broadcast
broadcast_to_room-delivered env name message sender room w j running found distinct =
    simp (running, found)
      (
        refl,
        delivered-deliver_except sender _ room.participants w.objects j distinct ∙ ground arith,
      )

-- A private message that is accepted
module _ (env : Env) (message : String) (sender : ℕ) (nick : String) (w : ChatServer)
    (running : w.stopped ≡ false) (named : nick ≢ "") (said : message ≢ "") where
  -- On a running server, a private message that is not empty, to another session that is found under
  -- the nickname, is delivered to that session, its confirmation to the sender, and nothing to
  -- anybody else.
  private_message_found :
      (receiver : ℕ)
      → find_session_by_nickname nick w ≡ some receiver
      → receiver ≢ sender
      → (j : ℕ)
      → ((send_private_message env message sender nick w).0.objects j).delivered
        ≡ heard
            ("[PM from " ⧺ (w.objects sender).nickname ⧺ "]: " ⧺ message ⧺ "\r\n")
            (receiver == j)
            (heard ("* To " ⧺ nick ⧺ ": " ⧺ message ⧺ "\r\n") (sender == j) (w.objects j).delivered)
  unfolding send_private_message deliver
  private_message_found receiver found other j =
      simp (running, str_eq-ne nick "" named, str_eq-ne message "" said, found) (ground arith)

  -- On a running server, a private message that is not empty, to a nickname under which no session is
  -- found, delivers an error to the sender, and nothing to anybody else.
  pub private_message_missing :
      find_session_by_nickname nick w ≡ none
      → (j : ℕ)
      → ((send_private_message env message sender nick w).0.objects j).delivered
        ≡ heard
            ("Error: 사용자 '" ⧺ nick ⧺ "'을(를) 찾을 수 없거나 오프라인 상태입니다.\r\n")
            (sender == j)
            (w.objects j).delivered
  unfolding send_private_message deliver
  private_message_missing missing j =
      simp (running, str_eq-ne nick "" named, str_eq-ne message "" said, missing) (ground arith)

-- A stopped server does not change, and refuses all that it is asked.
pub stopped_is_final :
    (env : Env) (w : ChatServer) (s : ℕ) (text : String) (sender : Option ℕ)
    → w.stopped ≡ true
    → (join env s w ≡ w)
      × (leave env s w ≡ w)
      × (broadcast env text sender w ≡ w)
      × (join_room text s w ≡ (w, false))
      × (leave_room text s w ≡ (w, false))
      × (send_private_message env text s text w ≡ (w, false))
      × (try_register_nickname_async text s w ≡ done (w, false))
      × (get_user_list w ≡ (w, []))
unfolding join leave broadcast join_room leave_room send_private_message try_register_nickname_async
    get_user_list
stopped_is_final env w s text sender h = simp h (refl, refl, refl, refl, refl, refl, refl, refl)
