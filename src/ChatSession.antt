-- ===== src/ChatSession.antt =====
-- src/ChatSession.cpp and include/ChatSession.hpp: `start`, `process_command` with the handlers of the
-- server's answers, and `on_read`. The write queue is in ChatSession/WriteQueue.antt. The stack has
-- room for some number of frames; a call for which there is none is undefined.
pub mod WriteQueue
pub mod Recursion
pub mod Lines
use Prim.Native.String.{[], ◌∷◌}
use cherry_recorder_server.Prelude.{
  ℕ, zero, suc, String, Char, code, Bool, true, false, Option, none, some, List, [], ◌∷◌, str_eq,
  ◌==◌, ltb, not, ◌||◌, ◌&&◌, ◌⧺◌, if◌then◌else◌, length,
}
use cherry_recorder_server.Text.{read_word, read_line, has_whitespace, byte_length, to_string}
use cherry_recorder_server.Session.{Session, Objects, set_nickname}
use cherry_recorder_server.History.{Env, get_lines}
use cherry_recorder_server.ChatServer.{ChatServer, broadcast, broadcast_to_room}
use cherry_recorder_server.ChatServer.Rooms.{join_room_async, leave_room_async}
use cherry_recorder_server.ChatServer.Nicknames.{
  Outcome, done, undefined, try_register_nickname_async, get_user_list,
}
use cherry_recorder_server.ChatServer.Sessions
use cherry_recorder_server.WebSocketSession.{tell}

-- The server, and `stopped_` of the session
abbrev pub Chat : Type 0
Chat = ChatServer × Bool

-- `shared_from_this` calls itself: ChatSession overrides the name, and the override hides the one of
-- `enable_shared_from_this`.
unfoldable pub shared_from_this : ℕ → ℕ → Outcome ℕ
shared_from_this zero s = undefined
shared_from_this (suc frames) s = shared_from_this frames s

abbrev pub and_then {ℓ ℓ'} : {A : Type ℓ} {B : Type ℓ'} → Outcome A → (A → Outcome B) → Outcome B
and_then undefined f = undefined
and_then (done a) f = f a

-- `deliver`, of which the others see what is queued
unfoldable pub deliver : ℕ → ℕ → String → ChatServer → Outcome ChatServer
unfolding shared_from_this
deliver frames s msg w = and_then (shared_from_this frames s) (λ self. done (tell self msg w))

-- A leading space of the rest of the line is dropped.
abbrev without_space : String → String
without_space [] = ""
without_space (c ∷ s) = if code c == 32 then s else c ∷ s

-- `cmd` and `full_arg`. Nothing is read after a missing word.
unfoldable pub parse : String → String × String
unfolding read_word read_line
parse line =
    let (cmd, rest) = read_word line in
    let (arg1, after) = read_word rest in
    let remaining_args = without_space (read_line after) in
    if str_eq remaining_args "" then (cmd, arg1) else (cmd, arg1 ⧺ " " ⧺ remaining_args)

-- The handler of `/nick`
unfoldable pub nick_handler : ℕ → Env → ℕ → String → ChatServer × Bool → Outcome ChatServer
unfolding deliver
nick_handler frames env s nick (w, false) =
    deliver frames s ("Error: 닉네임 '" ⧺ nick ⧺ "'은(는) 이미 사용 중이거나 유효하지 않습니다.\r\n") w
nick_handler frames env s nick (w, true) =
    let previous_nick = (w.objects s).nickname in
    let v = record w { objects = set_nickname s nick w.objects } in
    deliver frames s ("* 닉네임이 '" ⧺ nick ⧺ "'(으)로 변경되었습니다.\r\n") (
      if str_eq previous_nick (w.objects s).remote_id
      then broadcast env ("* 사용자 '" ⧺ nick ⧺ "'님이 입장했습니다.\r\n") (some s) v
      else broadcast env ("* 사용자 '" ⧺ previous_nick ⧺ "'의 닉네임이 '" ⧺ nick ⧺ "'(으)로 변경되었습니다.\r\n")
          (some s) v)

unfoldable pub change_nickname : ℕ → Env → ℕ → String → ChatServer → Outcome ChatServer
unfolding nick_handler
change_nickname frames env s nick w =
    if str_eq nick ""
    then deliver frames s "Error: 닉네임은 비어있을 수 없습니다.\r\n" w
    else if has_whitespace nick
    then deliver frames s "Error: 닉네임에 공백 문자를 포함할 수 없습니다.\r\n" w
    else if ltb 20 (byte_length nick)
    then deliver frames s "Error: 닉네임은 20자를 초과할 수 없습니다.\r\n" w
    else and_then (shared_from_this frames s) (λ self.
      and_then (try_register_nickname_async nick self w) (nick_handler frames env self nick))

abbrev or_deliver : ℕ → ℕ → String → ChatServer × Bool → Outcome ChatServer
or_deliver frames s error (w, true) = done w
or_deliver frames s error (w, false) = deliver frames s error w

unfoldable pub join : ℕ → ℕ → String → ChatServer → Outcome ChatServer
unfolding deliver
join frames s room w =
    if str_eq room ""
    then deliver frames s "Error: 방 이름은 비어있을 수 없습니다.\r\n" w
    else if has_whitespace room
    then deliver frames s "Error: 방 이름에 공백 문자를 포함할 수 없습니다.\r\n" w
    else if ltb 30 (byte_length room)
    then deliver frames s "Error: 방 이름은 30자를 초과할 수 없습니다.\r\n" w
    else if str_eq room (w.objects s).current_room
    then deliver frames s ("* 이미 '" ⧺ room ⧺ "' 방에 있습니다.\r\n") w
    else and_then (shared_from_this frames s) (λ self.
      or_deliver frames s ("Error: '" ⧺ room ⧺ "' 방 입장에 실패했습니다.\r\n") (join_room_async room self w))

unfoldable pub leave : ℕ → ℕ → ChatServer → Outcome ChatServer
unfolding deliver
leave frames s w =
    let room = (w.objects s).current_room in
    if str_eq room ""
    then deliver frames s "Error: 현재 어떤 방에도 없습니다.\r\n" w
    else and_then (shared_from_this frames s) (λ self.
      or_deliver frames s ("Error: '" ⧺ room ⧺ "' 방 퇴장에 실패했습니다.\r\n")
        (leave_room_async room self w))

abbrev pub deliver_all : ℕ → ℕ → List String → ChatServer → Outcome ChatServer
deliver_all frames s [] w = done w
deliver_all frames s (msg ∷ msgs) w = and_then (deliver frames s msg w) (deliver_all frames s msgs)

-- A line for each user
abbrev pub user_lines : String → List String → List String
user_lines nickname [] = []
user_lines nickname (user ∷ users) =
    ("  - " ⧺ user ⧺ (if str_eq user nickname then " (You)" else "") ⧺ "\r\n")
    ∷ user_lines nickname users

unfoldable pub list_users : ℕ → ℕ → ChatServer → Outcome ChatServer
unfolding deliver
list_users frames s w = and_then (shared_from_this frames s) (λ self.
    let (v, users) = get_user_list w in
    deliver_all frames s
      (("* 현재 접속 중인 사용자 (" ⧺ to_string (length users) ⧺ "):\r\n")
        ∷ user_lines (w.objects s).nickname users)
      v)

abbrev help : List String
help =
    "--- 도움말 ---\r\n" ∷ "/nick <닉네임> - 닉네임 변경\r\n" ∷ "/join <방이름> - 방 입장/생성\r\n"
    ∷ "/leave - 현재 방 퇴장\r\n" ∷ "/users - 현재 접속자 목록 보기\r\n" ∷ "/quit - 채팅 종료\r\n"
    ∷ "/help - 도움말 표시\r\n" ∷ "-------------\r\n" ∷ []

unfoldable pub say : ℕ → Env → ℕ → String → ChatServer → Outcome ChatServer
unfolding shared_from_this
say frames env s text w = and_then (shared_from_this frames s) (λ self.
    let me = w.objects self in
    if str_eq me.current_room ""
    then done (broadcast env ("[" ⧺ me.nickname ⧺ "]: " ⧺ text ⧺ "\r\n") (some self) w)
    else done
        (broadcast_to_room env me.current_room
          ("[" ⧺ me.nickname ⧺ " @ " ⧺ me.current_room ⧺ "]: " ⧺ text ⧺ "\r\n") (some self) w).0)

-- The start of a word that is not a command
abbrev is_slash : String → Bool
is_slash [] = false
is_slash (c ∷ s) = code c == 47

abbrev still : Outcome ChatServer → Outcome Chat
still o = and_then o (λ w. done (w, false))

-- What a line does, `/quit` aside
unfoldable pub execute : ℕ → Env → ℕ → String → String → String → ChatServer → Outcome ChatServer
unfolding change_nickname join leave list_users say
execute frames env s cmd arg line w =
    if str_eq cmd "/nick"
    then change_nickname frames env s arg w
    else if str_eq cmd "/join"
    then join frames s arg w
    else if str_eq cmd "/leave"
    then leave frames s w
    else if str_eq cmd "/users"
    then list_users frames s w
    else if str_eq cmd "/help"
    then deliver_all frames s help w
    else if str_eq cmd ""
    then done w
    else if is_slash cmd
    then deliver frames s ("Error: 알 수 없는 명령어 '" ⧺ cmd ⧺ "'. '/help'를 입력하여 도움말을 확인하세요.\r\n") w
    else say frames env s line w

-- `stop_session`: the session is stopped once, and leaves the server.
unfoldable pub stop_session : ℕ → Env → ℕ → Chat → Outcome Chat
unfolding shared_from_this
stop_session frames env s (w, true) = done (w, true)
stop_session frames env s (w, false) =
    and_then (shared_from_this frames s) (λ self. done (Sessions.leave env self w, true))

unfoldable pub process_command : ℕ → Env → ℕ → String → Chat → Outcome Chat
unfolding parse execute stop_session
process_command frames env s line (w, true) = done (w, true)
process_command frames env s line (w, false) =
    let (cmd, arg) = parse line in
    if str_eq cmd "/quit"
    then and_then (deliver frames s "* 연결을 종료합니다...\r\n" w)
        (λ v. stop_session frames env s (v, false))
    else still (execute frames env s cmd arg line w)

-- A trailing CR is dropped.
unfoldable pub chomp : String → String
chomp [] = ""
chomp (c ∷ s) = let rest = chomp s in if code c == 13 && str_eq s "" then "" else c ∷ rest

-- The lines that `on_read` takes for commands: the buffer is read to its end, line or not.
unfoldable pub commands : List String → List String
unfolding chomp
commands [] = []
commands (line ∷ lines) =
    let rest = commands lines in if str_eq (chomp line) "" then rest else chomp line ∷ rest

-- `do_read`: the next read is started, or nothing is done.
unfoldable pub do_read : ℕ → ℕ → Chat → Outcome Chat
unfolding shared_from_this
do_read frames s (w, true) = done (w, true)
do_read frames s (w, false) = and_then (shared_from_this frames s) (λ self. done (w, false))

unfoldable pub process_all : ℕ → Env → ℕ → List String → Chat → Outcome Chat
unfolding process_command do_read
process_all frames env s [] c = do_read frames s c
process_all frames env s (line ∷ lines) c =
    and_then (process_command frames env s line c) (process_all frames env s lines)

-- `on_read` with the content of the buffer, or with an error
unfoldable pub on_read : ℕ → Env → ℕ → Option String → Chat → Outcome Chat
unfolding process_all commands
on_read frames env s received (w, true) = done (w, true)
on_read frames env s none (w, false) = stop_session frames env s (w, false)
on_read frames env s (some buffer) (w, false) =
    process_all frames env s (commands (get_lines "" buffer)) (w, false)

abbrev pub welcome : String → List String
welcome remote_id =
    "Welcome to the CherryRecorder Chat Server!\r\n"
    ∷ ("Your temporary ID is: " ⧺ remote_id ⧺ "\r\n")
    ∷ "Please set your nickname using /nick <nickname>\r\n"
    ∷ "Enter /help for a list of commands.\r\n"
    ∷ "Enter /join <roomname> to join or create a room.\r\n"
    ∷ []

-- `start`, with the first read
unfoldable pub start : ℕ → Env → ℕ → Chat → Outcome Chat
unfolding deliver do_read
start frames env s (w, true) = done (w, true)
start frames env s (w, false) = and_then (shared_from_this frames s) (λ self.
    and_then (deliver_all frames s (welcome (w.objects s).remote_id) (Sessions.join env self w))
      (λ v. do_read frames s (v, false)))
