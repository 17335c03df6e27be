-- ===== src/ChatServer/Rooms/Flaws.antt =====
-- `join_room` of src/ChatServer.cpp for a full room, and `leave_room` for a room that is not the
-- session's own.
use cherry_recorder_server.Prelude.{
  ℕ, String, true, false, Option, none, some, ◌≡◌, ◌≢◌, refl, ◌∙◌, arith, str_eq, str_eq-ne, eq_iff,
  eq_refl, ==_refl, not, ◌&&◌,
}
use cherry_recorder_server.StringMap
use cherry_recorder_server.StringMap.{find-assign}
use cherry_recorder_server.IdSet.{contains}
use cherry_recorder_server.Session.{deliver-current_room}
use cherry_recorder_server.ChatRoom.{ChatRoom, is_full}
use cherry_recorder_server.ChatRoom.Membership.{
  join-room, broadcast-current_room, set_current_room-current_room,
}
use cherry_recorder_server.ChatServer.{ChatServer}
use cherry_recorder_server.ChatServer.Rooms.{join_room, leave_room, leave_old_room, enter, welcome}
use cherry_recorder_server.ChatServer.Rooms.Membership.{
  depart-rooms, enter-rooms, enter-current_room,
}

welcome-current_room :
    (name : String) (s i : ℕ) (target : Option ChatRoom) (w : ChatServer)
    → ((welcome name s target w).objects i).current_room ≡ (w.objects i).current_room
unfolding welcome
welcome-current_room name s i none w = refl
welcome-current_room name s i (some room) w =
    broadcast-current_room room _ (some s) _ i ∙ deliver-current_room s i _ w.objects

welcome-rooms :
    (name : String) (s : ℕ) (target : Option ChatRoom) (w : ChatServer)
    → (welcome name s target w).rooms ≡ w.rooms
unfolding welcome
welcome-rooms name s none w = refl
welcome-rooms name s (some room) w = refl

leave_old_room_nowhere :
    (name : String) (s : ℕ) (w : ChatServer)
    → (w.objects s).current_room ≡ ""
    → leave_old_room name s w ≡ w
unfolding leave_old_room
leave_old_room_nowhere name s w e =
    let home = (w.objects s).current_room in
    let stays : (not (str_eq home "") && not (str_eq home name)) ≡ false =
      ground (arith, eq_iff home "") in
    rw stays

-- What `join_room` does for a session that is in no room, where the room is there.
join_room_at :
    (name : String) (s : ℕ) (room : ChatRoom) (w : ChatServer)
    → w.stopped ≡ false
    → (w.objects s).current_room ≡ ""
    → StringMap.find name w.rooms ≡ some room
    → join_room name s w ≡ (
      welcome name s (StringMap.find name (enter name s room w).rooms) (enter name s room w),
      true,
    )
unfolding join_room
join_room_at name s room w running nowhere found =
    simp (running, leave_old_room_nowhere name s w nowhere, found)

-- A session that is in no room and joins a full one, which is filed under its name, on a running
-- server is told that it succeeded, and has the room as
-- its current room, although the room's participants are the same as before.
join_room-full :
    (name : String) (s : ℕ) (room : ChatRoom) (w : ChatServer)
    → w.stopped ≡ false
    → (w.objects s).current_room ≡ ""
    → StringMap.find name w.rooms ≡ some room
    → room.name ≡ name
    → is_full room ≡ true
    → ((join_room name s w).1 ≡ true)
      × (((join_room name s w).0.objects s).current_room ≡ name)
      × (StringMap.find name (join_room name s w).0.rooms ≡ some room)
join_room-full name s room w running nowhere found named full =
    simp (join_room_at name s room w running nowhere found, welcome-rooms)
      (
        refl,
        welcome-current_room name s s _ _ ∙ enter-current_room name s room w s named ∙ rw ==_refl,
        enter-rooms name s room w name ∙ simp (eq_refl, join-room, full),
      )

-- A session that is in a room and for which the running server is told to leave another room that
-- exists is told that it succeeded, and has
-- no current room any more, although it is still a participant of its room.
leave_room-foreign :
    (name : String) (s : ℕ) (room home : ChatRoom) (w : ChatServer)
    → w.stopped ≡ false
    → StringMap.find name w.rooms ≡ some room
    → name ≢ (w.objects s).current_room
    → StringMap.find (w.objects s).current_room w.rooms ≡ some home
    → contains s home.participants ≡ true
    → ((leave_room name s w).1 ≡ true)
      × (((leave_room name s w).0.objects s).current_room ≡ "")
      × (StringMap.find (w.objects s).current_room (leave_room name s w).0.rooms ≡ some home)
unfolding leave_room
leave_room-foreign name s room home w running found other at_home inside =
    simp (running, found)
      (
        refl,
        deliver-current_room s s _ _ ∙ set_current_room-current_room s s "" _ ∙ rw ==_refl,
        depart-rooms name s room w (w.objects s).current_room
            ∙ rw (str_eq-ne name (w.objects s).current_room other) at_home,
      )
