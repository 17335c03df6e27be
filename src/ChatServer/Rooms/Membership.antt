-- ===== src/ChatServer/Rooms/Membership.antt =====
-- Who is in which room after the parts of `join_room` and `leave_room` of src/ChatServer.cpp.
use cherry_recorder_server.Prelude.{
  ℕ, String, true, none, some, ◌≡◌, ◌∙◌, arith, str_eq, ◌&&◌, ◌==◌, if◌then◌else◌,
}
use cherry_recorder_server.StringMap
use cherry_recorder_server.StringMap.{StringMap, find-assign, find-erase}
use cherry_recorder_server.IdSet.{contains}
use cherry_recorder_server.ChatRoom.{ChatRoom, leave, join, is_empty}
use cherry_recorder_server.ChatRoom.Membership.{
  leave-room, join-current_room, leave-current_room, broadcast-current_room,
  set_current_room-current_room,
}
use cherry_recorder_server.ChatServer.{ChatServer}
use cherry_recorder_server.ChatServer.Rooms.{put_back, depart, enter}

-- A participant of a room has it as its current room, a room is filed under its name, and no room
-- is filed under the empty name.
pub record IsConsistent (w : ChatServer) : Type 0 where
  pub filed :
      (name : String) (room : ChatRoom) → StringMap.find name w.rooms ≡ some room → room.name ≡ name
  pub current :
      (name : String) (room : ChatRoom) (i : ℕ)
      → StringMap.find name w.rooms ≡ some room
      → contains i room.participants ≡ true
      → (w.objects i).current_room ≡ name
  pub no_unnamed : StringMap.find "" w.rooms ≡ none

-- The session is in no room but perhaps the named one.
abbrev pub OnlyIn : String → ℕ → ChatServer → Type 0
OnlyIn room_name session w =
    (name : String) (room : ChatRoom)
    → StringMap.find name w.rooms ≡ some room
    → contains session room.participants ≡ true
    → name ≡ room_name

find-put_back :
    (k j : String) (room : ChatRoom) (rooms : StringMap ChatRoom)
    → StringMap.find j (put_back k room rooms)
      ≡ (if str_eq k j then (if is_empty room then none else some room) else StringMap.find j rooms)
unfolding put_back
find-put_back k j room rooms = ground (arith, find-assign k j room rooms, find-erase k j rooms)

module _ (name : String) (s : ℕ) (room : ChatRoom) (w : ChatServer) where
  pub depart-rooms :
      (j : String)
      → StringMap.find j (depart name s room w).rooms ≡ (
          if str_eq name j
          then (if is_empty (leave s room w.objects).0
              then none
              else some (leave s room w.objects).0)
          else StringMap.find j w.rooms)
  unfolding depart
  depart-rooms j = simp (find-put_back, leave-room)

  pub depart-current_room :
      (j : ℕ)
      → ((depart name s room w).objects j).current_room
        ≡ (if contains s room.participants && s == j then "" else (w.objects j).current_room)
  unfolding depart
  depart-current_room j =
      leave-current_room s room _ j ∙ rw (broadcast-current_room room _ (some s) w.objects j)

  pub enter-rooms :
      (j : String)
      → StringMap.find j (enter name s room w).rooms
        ≡ (if str_eq name j then some (join s room w.objects).0 else StringMap.find j w.rooms)
  unfolding enter
  enter-rooms j = find-assign name j (join s room w.objects).0 w.rooms

  pub enter-current_room :
      (j : ℕ)
      → room.name ≡ name
      → ((enter name s room w).objects j).current_room
        ≡ (if s == j then name else (w.objects j).current_room)
  unfolding enter
  enter-current_room j e =
      set_current_room-current_room s j name _
      ∙ ground (arith, join-current_room s room w.objects j)
