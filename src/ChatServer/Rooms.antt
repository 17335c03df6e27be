-- ===== src/ChatServer/Rooms.antt =====
-- `join_room`, `leave_room` and their asynchronous forms of src/ChatServer.cpp.
pub mod Membership
pub mod Departure
pub mod Consistency
pub mod Capacity
pub mod Flaws
use cherry_recorder_server.Prelude.{
  ℕ, suc, zero, String, Bool, true, false, Option, none, some, List, [], ◌∷◌, str_eq, ◌==◌, ltb,
  ◌⧺◌, not, ◌||◌, ◌&&◌, if◌then◌else◌, length,
}
use cherry_recorder_server.Text.{to_string, has_whitespace, byte_length}
use cherry_recorder_server.StringMap
use cherry_recorder_server.StringMap.{StringMap}
use cherry_recorder_server.Session.{Session, Objects, deliver, set_current_room}
use cherry_recorder_server.ChatRoom
use cherry_recorder_server.ChatRoom.{ChatRoom, chat_room, is_empty}
use cherry_recorder_server.ChatServer.{ChatServer}

-- A room is kept while somebody is in it.
unfoldable pub put_back : String → ChatRoom → StringMap ChatRoom → StringMap ChatRoom
put_back name room rooms =
    if is_empty room then StringMap.erase name rooms else StringMap.assign name room rooms

abbrev leave_notice : String → String → String
leave_notice nickname room_name = "* 사용자 '" ⧺ nickname ⧺ "'님이 '" ⧺ room_name ⧺ "' 방에서 나갔습니다.\r\n"

-- A session is taken out of a room that was found: the notice to the others, then `leave`.
unfoldable pub depart : String → ℕ → ChatRoom → ChatServer → ChatServer
depart name session room w =
    let o = w.objects in
    let (room', o') =
      ChatRoom.leave session room
        (ChatRoom.broadcast room (leave_notice (o session).nickname name) (some session) o) in
    record w { objects = o'; rooms = put_back name room' w.rooms }

abbrev pub depart_found : String → ℕ → Option ChatRoom → ChatServer → ChatServer
depart_found name session none w = w
depart_found name session (some room) w = depart name session room w

-- The part of `join_room` that leaves another room first.
unfoldable pub leave_old_room : String → ℕ → ChatServer → ChatServer
leave_old_room room_name session w =
    let old = (w.objects session).current_room in
    if not (str_eq old "") && not (str_eq old room_name)
    then depart_found old session (StringMap.find old w.rooms) w
    else w

abbrev found_or_new : String → Option ChatRoom → ChatRoom
found_or_new name none = chat_room name
found_or_new name (some room) = room

-- The part of `join_room` under the lock that enters the room.
unfoldable pub enter : String → ℕ → ChatRoom → ChatServer → ChatServer
enter room_name session target w =
    let (room', o') = ChatRoom.join session target w.objects in
    record w {
      objects = set_current_room session room_name o';
      rooms = StringMap.assign room_name room' w.rooms;
    }

-- The nicknames of the members, with a mark at the session's own.
unfoldable member_list : ℕ → Objects → List ℕ → String
member_list session o [] = ""
member_list session o (m ∷ []) = (o m).nickname ⧺ (if m == session then " (You)" else "")
member_list session o (m ∷ ms) =
    (o m).nickname ⧺ (if m == session then " (You)" else "") ⧺ ", " ⧺ member_list session o ms

-- No member is null, so that the count of the valid members is the size of the set, and the
-- source's `replace` puts in what stood there.
unfoldable pub join_confirm : String → ℕ → Objects → List ℕ → String
unfolding member_list to_string
join_confirm room_name session o members =
    "* '"
    ⧺ room_name
    ⧺ "' 방에 입장했습니다.\r\n* 현재 멤버 ("
    ⧺ to_string (length members)
    ⧺ "): "
    ⧺ member_list session o members
    ⧺ "\r\n"

-- The part of `join_room` after the lock: the confirmation, and the notice to the others.
unfoldable pub welcome : String → ℕ → Option ChatRoom → ChatServer → ChatServer
welcome room_name session none w = w
welcome room_name session (some room) w =
    let o =
      deliver session (join_confirm room_name session w.objects room.participants) w.objects in
    record w {
      objects =
          ChatRoom.broadcast room ("* 사용자 '" ⧺ (w.objects session).nickname ⧺ "'님이 방에 들어왔습니다.\r\n")
            (some session) o;
    }

abbrev pub admitted : String → ℕ → ChatServer → ChatServer
admitted room_name session w =
    enter room_name session (found_or_new room_name (StringMap.find room_name w.rooms)) w

unfoldable pub join_room : String → ℕ → ChatServer → ChatServer × Bool
join_room room_name session w =
    if w.stopped
    then (w, false)
    else let v = admitted room_name session (leave_old_room room_name session w) in
      (welcome room_name session (StringMap.find room_name v.rooms) v, true)

abbrev pub left : String → ℕ → Option ChatRoom → ChatServer → ChatServer × Bool
left room_name session none w = (w, false)
left room_name session (some room) w =
    let v = depart room_name session room w in
    (
      record v {
        objects =
            deliver session ("* '" ⧺ room_name ⧺ "' 방에서 퇴장했습니다.\r\n")
              (set_current_room session "" v.objects);
      },
      true,
    )

unfoldable pub leave_room : String → ℕ → ChatServer → ChatServer × Bool
leave_room room_name session w =
    if w.stopped then (w, false) else left room_name session (StringMap.find room_name w.rooms) w

-- The state after `join_room_async`, and what its handler is given.
unfoldable pub join_room_async : String → ℕ → ChatServer → ChatServer × Bool
join_room_async room_name session w =
    if w.stopped
      || str_eq room_name ""
      || has_whitespace room_name
      || ltb 30 (byte_length room_name)
    then (w, false)
    else join_room room_name session w

unfoldable pub leave_room_async : String → ℕ → ChatServer → ChatServer × Bool
leave_room_async room_name session w =
    if w.stopped || str_eq room_name "" || not (str_eq (w.objects session).current_room room_name)
    then (w, false)
    else leave_room room_name session w

unfoldable pub leave_all_rooms_impl : ℕ → ChatServer → ChatServer
leave_all_rooms_impl session w =
    let current_room = (w.objects session).current_room in
    if str_eq current_room "" then w else (leave_room current_room session w).0
