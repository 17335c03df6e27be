-- ===== src/ChatServer/Sessions.antt =====
-- `join`, `leave`, `send_private_message` and `stop` of src/ChatServer.cpp.
pub mod Broadcasts
pub mod Leaving
pub mod Twice
use cherry_recorder_server.Prelude.{
  ℕ, String, Bool, true, false, Option, none, some, List, [], ◌∷◌, str_eq, not, ◌||◌, ◌&&◌, ◌⧺◌,
  if◌then◌else◌,
}
use cherry_recorder_server.IdSet
use cherry_recorder_server.Session.{Session, Objects, deliver}
use cherry_recorder_server.History.{Env, log_private_message}
use cherry_recorder_server.ChatServer.{ChatServer, broadcast_impl, logged}
use cherry_recorder_server.ChatServer.Rooms.{leave_all_rooms_impl}
use cherry_recorder_server.ChatServer.Nicknames.{unregister_nickname, find_session_by_nickname}

abbrev pub is_named : Session → Bool
is_named s = not (str_eq s.nickname s.remote_id)

unfoldable pub join : Env → ℕ → ChatServer → ChatServer
join env session w =
    if w.stopped
    then w
    else let v = record w { sessions = IdSet.insert session w.sessions } in
      if is_named (w.objects session)
      then broadcast_impl env ("* 사용자 '" ⧺ (w.objects session).nickname ⧺ "'님이 입장했습니다.\r\n")
          (some session) v
      else v

-- The nickname is taken before the rooms are left; the others hear of it if the session was known.
unfoldable pub leave : Env → ℕ → ChatServer → ChatServer
leave env session w =
    let nickname = (w.objects session).nickname in
    let named = not (str_eq nickname "") && not (str_eq nickname (w.objects session).remote_id) in
    if w.stopped
    then w
    else let u = leave_all_rooms_impl session w in
      let v = if named then unregister_nickname nickname u else u in
      let rest = record v { sessions = IdSet.erase session v.sessions } in
      if IdSet.contains session v.sessions && named
      then broadcast_impl env ("* 사용자 '" ⧺ nickname ⧺ "'님이 퇴장했습니다.\r\n") none rest
      else rest

abbrev pub to_receiver : Env → String → ℕ → String → Option ℕ → ChatServer → ChatServer
to_receiver env message sender receiver_nick none w = record w {
  objects =
      deliver sender ("Error: 사용자 '" ⧺ receiver_nick ⧺ "'을(를) 찾을 수 없거나 오프라인 상태입니다.\r\n") w.objects;
}
to_receiver env message sender receiver_nick (some receiver) w =
    let sender_nick = (w.objects sender).nickname in
    record w {
      objects =
          deliver sender ("* To " ⧺ receiver_nick ⧺ ": " ⧺ message ⧺ "\r\n")
            (deliver receiver ("[PM from " ⧺ sender_nick ⧺ "]: " ⧺ message ⧺ "\r\n") w.objects);
      history = logged (log_private_message env message sender_nick receiver_nick) w.history;
    }

unfoldable pub send_private_message : Env → String → ℕ → String → ChatServer → ChatServer × Bool
send_private_message env message sender receiver_nick w =
    if w.stopped || str_eq receiver_nick "" || str_eq message "" then (w, false) else (
      to_receiver env message sender receiver_nick (find_session_by_nickname receiver_nick w) w,
      true,
    )

-- `stop`: each session is told to stop. A call of `leave` that this leads to does nothing any more,
-- since the server is stopped. The sessions are returned.
unfoldable pub stop : ChatServer → ChatServer × List ℕ
stop w = if w.stopped then (w, []) else (
  record w { sessions = []; nicknames = []; rooms = []; history = none; stopped = true },
  w.sessions,
)
