-- ===== src/ChatRoom.antt =====
-- src/ChatRoom.cpp and include/ChatRoom.hpp.
pub mod Membership
use Prim.Native.String.{[], ◌∷◌}
use cherry_recorder_server.Prelude.{
  ℕ, String, code, Bool, true, false, Option, none, some, List, [], ◌∷◌, map, ◌⧺◌, ◌==◌, leb,
  if◌then◌else◌, length,
}
use cherry_recorder_server.IdSet.{contains, insert, erase}
use cherry_recorder_server.Session.{Session, Objects, deliver, set_current_room, deliver_except}

pub record ChatRoom : Type 0 where
  pub name : String
  pub participants : List ℕ
  pub max_participants : ℕ

unfoldable pub chat_room : String → ChatRoom
chat_room name = record { name = name; participants = []; max_participants = 100 }

unfoldable pub is_full : ChatRoom → Bool
is_full room = leb room.max_participants (length room.participants)

unfoldable pub is_empty : ChatRoom → Bool
is_empty room = elim room.participants [ [] ↦ true | x ∷ xs ↦ false ]

-- `message.find("*") == 0`
unfoldable pub is_system_message : String → Bool
is_system_message [] = false
is_system_message (c ∷ rest) = code c == 42

abbrev pub nickname_or_system : Option ℕ → Objects → String
nickname_or_system none o = "system"
nickname_or_system (some s) o = (o s).nickname

unfoldable pub format_message : ChatRoom → String → Option ℕ → Objects → String
unfolding is_system_message
format_message room message sender o =
    if is_system_message message
    then message
    else "[" ⧺ nickname_or_system sender o ⧺ " @ " ⧺ room.name ⧺ "]: " ⧺ message ⧺ "\r\n"

unfoldable pub broadcast : ChatRoom → String → Option ℕ → Objects → Objects
broadcast room message sender o =
    deliver_except sender (format_message room message sender o) room.participants o

abbrev pub admit : ℕ → ChatRoom → ChatRoom
admit participant room = record room { participants = insert participant room.participants }

abbrev pub dismiss : ℕ → ChatRoom → ChatRoom
dismiss participant room = record room { participants = erase participant room.participants }

unfoldable pub join : ℕ → ChatRoom → Objects → ChatRoom × Objects
join participant room o =
    if is_full room
    then (room, deliver participant ("Error: 방 '" ⧺ room.name ⧺ "'이(가) 꽉 찼습니다.\r\n") o)
    else (
      admit participant room,
      broadcast (admit participant room)
          ("* " ⧺ (o participant).nickname ⧺ "님이 '" ⧺ room.name ⧺ "' 방에 입장했습니다.\r\n") none
          (set_current_room participant room.name o),
    )

unfoldable pub leave : ℕ → ChatRoom → Objects → ChatRoom × Objects
leave participant room o =
    if contains participant room.participants
    then (
      dismiss participant room,
      broadcast (dismiss participant room)
          ("* " ⧺ (o participant).nickname ⧺ "님이 '" ⧺ room.name ⧺ "' 방에서 나갔습니다.\r\n") none
          (set_current_room participant "" o),
    )
    else (room, o)

abbrev get_participant_nicknames : ChatRoom → Objects → List String
get_participant_nicknames room o = map (λ p. (o p).nickname) room.participants
