-- ===== src/ChatServer/Rooms/Capacity.antt =====
-- How many are in a room, under the room operations of src/ChatServer.cpp.
use cherry_recorder_server.Prelude.{
  ℕ, ◌≤◌, List, [], ◌∷◌, String, false, Option, none, some, ◌≡◌, refl, arith, inl, inr,
  Option-cases, length,
}
use cherry_recorder_server.StringMap
use cherry_recorder_server.IdSet.{insert, length-insert, length-erase}
use cherry_recorder_server.ChatRoom.{ChatRoom, join, is_full, is_empty, chat_room}
use cherry_recorder_server.ChatRoom.Membership.{join-room, leave-room}
use cherry_recorder_server.ChatServer.{ChatServer}
use cherry_recorder_server.ChatServer.Rooms.{
  join_room, leave_room, leave_old_room, depart, depart_found, admitted, enter, welcome, left,
}
use cherry_recorder_server.ChatServer.Rooms.Departure.{if_lemma, if_lemma_fst}
use cherry_recorder_server.Session.{Objects}
use cherry_recorder_server.ChatServer.Rooms.Membership.{depart-rooms, enter-rooms}

-- A room holds between 1 and 100 sessions.
abbrev pub RoomFits : ChatRoom → Type 0
RoomFits room =
    (room.max_participants ≡ 100) × (length room.participants ≤ 100) × (is_empty room ≡ false)

pub record IsBounded (w : ChatServer) : Type 0 where
  pub fits :
      (name : String) (room : ChatRoom) → StringMap.find name w.rooms ≡ some room → RoomFits room

is_empty-insert :
    (i : ℕ) (xs : List ℕ) (room : ChatRoom)
    → is_empty (record room { participants = insert i xs }) ≡ false
unfolding is_empty insert
is_empty-insert i [] room = refl
is_empty-insert i (x ∷ xs) room = ground arith

is_empty_of_pos :
    (xs : List ℕ) (room : ChatRoom) → 1 ≤ length xs → room.participants ≡ xs → is_empty room ≡ false
unfolding is_empty
is_empty_of_pos [] room h e = absurd (omega arith)
is_empty_of_pos (x ∷ xs) room h e = rw e

join-RoomFits :
    (s : ℕ) (room : ChatRoom) (o : Objects)
    → room.max_participants ≡ 100
    → length room.participants ≤ 100
    → RoomFits (join s room o).0
unfolding is_full
join-RoomFits s room o limit within = ground (
  arith,
  join-room s room o,
  length-insert s room.participants,
  is_empty-insert s room.participants room,
  is_empty_of_pos room.participants room,
)

module _ (name : String) (s : ℕ) (room : ChatRoom) (w : ChatServer) where
  depart-IsBounded : RoomFits room → IsBounded w → IsBounded (depart name s room w)
  depart-IsBounded f b = record {
    fits = λ j r e. ground (
      arith,
      depart-rooms name s room w j,
      leave-room s room w.objects,
      length-erase s room.participants,
      b.fits j r,
    );
  }

  enter-IsBounded :
      (room.max_participants ≡ 100)
      → (length room.participants ≤ 100)
      → IsBounded w
      → IsBounded (enter name s room w)
  enter-IsBounded limit within b = record {
    fits = λ j r e.
        ground (arith, enter-rooms name s room w j, join-RoomFits s room w.objects, b.fits j r);
  }

pub same_rooms-IsBounded : (v w : ChatServer) → v.rooms ≡ w.rooms → IsBounded w → IsBounded v
same_rooms-IsBounded v w e b = record { fits = λ j r f. b.fits j r (rw e at f) }

depart_found-IsBounded :
    (name : String) (s : ℕ) (w : ChatServer)
    → IsBounded w
    → IsBounded (depart_found name s (StringMap.find name w.rooms) w)
depart_found-IsBounded name s w b = elim (Option-cases (StringMap.find name w.rooms)) [
  | inl gone ↦ rw gone b
  | inr (room, found) ↦ rw found (depart-IsBounded name s room w (b.fits name room found) b)
]

leave_old_room-IsBounded :
    (name : String) (s : ℕ) (w : ChatServer) → IsBounded w → IsBounded (leave_old_room name s w)
unfolding leave_old_room
leave_old_room-IsBounded name s w b =
    if_lemma IsBounded _ _ _ (λ _. depart_found-IsBounded (w.objects s).current_room s w b) (λ _. b)

admitted-IsBounded :
    (name : String) (s : ℕ) (w : ChatServer) → IsBounded w → IsBounded (admitted name s w)
unfolding chat_room
admitted-IsBounded name s w b = elim (Option-cases (StringMap.find name w.rooms)) [
  | inl new ↦ rw new (enter-IsBounded name s (chat_room name) w refl (omega arith) b)
  | inr (room, found) ↦
      let f = b.fits name room found in rw found (enter-IsBounded name s room w f.0 f.1 b)
]

welcome-IsBounded :
    (name : String) (s : ℕ) (target : Option ChatRoom) (w : ChatServer)
    → IsBounded w
    → IsBounded (welcome name s target w)
unfolding welcome
welcome-IsBounded name s none w b = b
welcome-IsBounded name s (some room) w b = same_rooms-IsBounded _ w refl b

-- Where every room has the limit 100 and between 1 and 100 participants, this still holds after a
-- session has joined any room.
pub join_room-IsBounded :
    (name : String) (s : ℕ) (w : ChatServer) → IsBounded w → IsBounded (join_room name s w).0
unfolding join_room
join_room-IsBounded name s w b = if_lemma_fst IsBounded w.stopped _ _ b (
    welcome-IsBounded name s _ _
      (admitted-IsBounded name s (leave_old_room name s w) (leave_old_room-IsBounded name s w b)))

left-IsBounded :
    (name : String) (s : ℕ) (w : ChatServer) (o : Option ChatRoom)
    → StringMap.find name w.rooms ≡ o
    → IsBounded w
    → IsBounded (left name s o w).0
left-IsBounded name s w none e b = b
left-IsBounded name s w (some room) e b =
    same_rooms-IsBounded _ (depart name s room w) refl
      (depart-IsBounded name s room w (b.fits name room e) b)

-- Where every room has the limit 100 and between 1 and 100 participants, this still holds after a
-- session has left any room.
pub leave_room-IsBounded :
    (name : String) (s : ℕ) (w : ChatServer) → IsBounded w → IsBounded (leave_room name s w).0
unfolding leave_room
leave_room-IsBounded name s w b =
    if_lemma_fst IsBounded w.stopped _ _ b (left-IsBounded name s w _ refl b)
