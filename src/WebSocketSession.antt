-- ===== src/WebSocketSession.antt =====
-- src/WebSocketSession.cpp: `process_message`, and the handlers of the server's answers. The
-- write queue is in WebSocketSession/WriteQueue.antt.
pub mod WriteQueue
pub mod WriteOrder
pub mod Handlers
pub mod Nicknames
pub mod Soundness
pub mod Capacity
use Prim.Native.String.{[], ◌∷◌}
use cherry_recorder_server.Prelude.{
  ℕ, String, Char, code, Bool, true, false, Option, none, some, List, [], ◌∷◌, str_eq, ◌==◌, not,
  ◌||◌, ◌&&◌, ◌⧺◌, if◌then◌else◌,
}
use cherry_recorder_server.Text.{read_word, read_line}
use cherry_recorder_server.Session.{Session, Objects, deliver, set_nickname}
use cherry_recorder_server.History.{Env}
use cherry_recorder_server.ChatServer.{ChatServer, broadcast, broadcast_to_room}
use cherry_recorder_server.ChatServer.Rooms.{join_room_async, leave_room}
use cherry_recorder_server.ChatServer.Nicknames.{
  Outcome, done, undefined, try_register_nickname_async, get_user_list,
}
use cherry_recorder_server.ChatServer.Sessions
use cherry_recorder_server.ChatServer.Sessions.{send_private_message}

-- What a message asks for; `usage` is an incomplete command.
pub data Command : Type 0 where
  ignore : Command
  nick : String → Command
  pm : String → String → Command
  list : Command
  join : String → Command
  leave : String → Command
  usage : String → Command
  unknown : Command
  say : String → Command

-- `pm_message.erase(0, pm_message.find_first_not_of(" \t"))`
unfoldable pub skip_blanks : String → String
skip_blanks [] = ""
skip_blanks (c ∷ s) =
    let rest = skip_blanks s in if code c == 32 || code c == 9 then rest else c ∷ s

abbrev with_argument : (String → Command) → String → String → Command
with_argument command help argument = if str_eq argument "" then usage help else command argument

abbrev private_command : String → String → Command
private_command target message =
    if not (str_eq target "") && not (str_eq message "")
    then pm target message
    else usage "Error: 사용법: /pm <닉네임> <메시지>\r\n"

abbrev parse_command : String → String → Command
parse_command command rest =
    let (word, after) = read_word rest in
    if str_eq command "/nick"
    then with_argument nick "Error: 사용법: /nick <닉네임>\r\n" word
    else if str_eq command "/pm"
    then private_command word (skip_blanks (read_line after))
    else if str_eq command "/list"
    then list
    else if str_eq command "/join"
    then with_argument join "Error: 사용법: /join <방이름>\r\n" word
    else if str_eq command "/leave"
    then with_argument leave "Error: 사용법: /leave <방이름>\r\n" word
    else unknown

unfoldable pub parse_message : String → Command
parse_message [] = ignore
parse_message (c ∷ s) =
    let (command, rest) = read_word (c ∷ s) in
    if code c == b'/' then parse_command command rest else say (c ∷ s)

abbrev pub tell : ℕ → String → ChatServer → ChatServer
tell s msg w = record w { objects = deliver s msg w.objects }

-- The handler of `/nick`
unfoldable pub nick_handler : Env → ℕ → String → ChatServer × Bool → ChatServer
nick_handler env s new_nick (w, false) =
    tell s ("Error: 닉네임 '" ⧺ new_nick ⧺ "'은(는) 이미 사용 중입니다.\r\n") w
nick_handler env s new_nick (w, true) =
    let old_nick = (w.objects s).nickname in
    let v =
      tell s ("* 닉네임이 '" ⧺ new_nick ⧺ "'(으)로 변경되었습니다.\r\n")
        (record w { objects = set_nickname s new_nick w.objects }) in
    if str_eq old_nick (w.objects s).remote_id
    then broadcast env ("* 사용자 '" ⧺ new_nick ⧺ "'님이 입장했습니다.\r\n") (some s) v
    else broadcast env ("* '" ⧺ old_nick ⧺ "'님이 '" ⧺ new_nick ⧺ "'(으)로 닉네임을 변경했습니다.\r\n") (some s) v

abbrev pub then_done :
    (ChatServer × Bool → ChatServer) → Outcome (ChatServer × Bool) → Outcome ChatServer
then_done handler undefined = undefined
then_done handler (done r) = done (handler r)

-- `/nick` up to the end of its handler, with nothing in between.
unfoldable pub change_nickname : Env → ℕ → String → ChatServer → Outcome ChatServer
change_nickname env s new_nick w =
    then_done (nick_handler env s new_nick) (try_register_nickname_async new_nick s w)

unfoldable list_text : List String → String
list_text [] = ""
list_text (user ∷ users) = "  - " ⧺ user ⧺ "\r\n" ⧺ list_text users

abbrev pub answer : ℕ → String → String → ChatServer × Bool → ChatServer
answer s yes_text no_text (w, true) = tell s yes_text w
answer s yes_text no_text (w, false) = tell s no_text w

unfoldable pub execute : Env → ℕ → Command → ChatServer → Outcome ChatServer
unfolding change_nickname list_text
execute env s ignore w = done w
execute env s (nick new_nick) w = change_nickname env s new_nick w
execute env s (pm target message) w = done (send_private_message env message s target w).0
execute env s list w =
    let (v, users) = get_user_list w in done (tell s ("* 접속자 목록:\r\n" ⧺ list_text users) v)
execute env s (join room) w = done (
    answer s ("* '" ⧺ room ⧺ "' 방에 입장했습니다.\r\n") "Error: 방 입장에 실패했습니다.\r\n"
      (join_room_async room s w))
execute env s (leave room) w =
    done (
      answer s ("* '" ⧺ room ⧺ "' 방에서 퇴장했습니다.\r\n") "Error: 방 퇴장에 실패했습니다.\r\n"
        (leave_room room s w))
execute env s (usage help) w = done (tell s help w)
execute env s unknown w = done (tell s "Error: 알 수 없는 명령어입니다.\r\n" w)
execute env s (say message) w =
    let me = w.objects s in
    if str_eq me.current_room ""
    then done (broadcast env ("[" ⧺ me.nickname ⧺ "]: " ⧺ message) (some s) w)
    else done (broadcast_to_room env me.current_room message (some s) w).0

unfoldable pub process_message : Env → ℕ → String → ChatServer → Outcome ChatServer
unfolding execute parse_message
process_message env s message w = execute env s (parse_message message) w

-- `on_accept`, `failed` if there is an error
unfoldable pub on_accept : Env → ℕ → Bool → ChatServer → ChatServer
on_accept env s failed w =
    let joined = Sessions.join env s w in
    if failed
    then w
    else tell s "* /list - 접속자 목록\r\n" (
        tell s "* /pm <닉네임> <메시지> - 개인 메시지\r\n" (
          tell s "* /nick <닉네임> - 닉네임 변경\r\n"
            (tell s "* CherryRecorder 채팅 서버에 연결되었습니다.\r\n" joined)))

-- `on_read` with a message, or with an error or the end of the connection
unfoldable on_read : Env → ℕ → Option String → ChatServer → Outcome ChatServer
unfolding process_message
on_read env s none w = done (Sessions.leave env s w)
on_read env s (some message) w = process_message env s message w
