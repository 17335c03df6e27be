-- ===== src/ChatServer/Rooms/Consistency.antt =====
-- The rooms and the sessions' `current_room_` agree, under the room operations of
-- src/ChatServer.cpp.
use cherry_recorder_server.Prelude.{
  ℕ, String, true, Option, none, some, ◌≡◌, ◌≢◌, refl, ◌∙◌, arith, str_eq, str_eq-ne, eq_iff, inl,
  inr, Option-cases, not, ◌&&◌,
}
use cherry_recorder_server.StringMap
use cherry_recorder_server.IdSet.{contains, contains-insert}
use cherry_recorder_server.ChatRoom.{ChatRoom, chat_room}
use cherry_recorder_server.ChatRoom.Membership.{
  join-room, set_current_room-current_room, broadcast-current_room,
}
use cherry_recorder_server.Session.{deliver, set_current_room, deliver-current_room}
use cherry_recorder_server.ChatServer.{ChatServer}
use cherry_recorder_server.ChatServer.Rooms.{
  join_room, leave_room, leave_old_room, depart, depart_found, admitted, enter, welcome, left,
}
use cherry_recorder_server.ChatServer.Rooms.Membership.{
  IsConsistent, OnlyIn, enter-rooms, enter-current_room,
}
use cherry_recorder_server.ChatServer.Rooms.Departure.{
  if_lemma, if_lemma_fst, depart-IsConsistent, depart-Nowhere,
}

-- Entering a room that is there, or new
module _ (name : String) (s : ℕ) (room : ChatRoom) (w : ChatServer) (is_named : room.name ≡ name)
    (held : (i : ℕ) → contains i room.participants ≡ true → (w.objects i).current_room ≡ name) where
  enter-IsConsistent :
      name ≢ "" → OnlyIn name s w → IsConsistent w → IsConsistent (enter name s room w)
  enter-IsConsistent named only c = record {
    filed = λ j r e. ground (
      arith,
      enter-rooms name s room w j,
      join-room s room w.objects,
      eq_iff name j,
      c.filed j r,
    );
    current = λ j r i e h.
        enter-current_room name s room w i is_named
        ∙ ground (
          arith,
          enter-rooms name s room w j,
          join-room s room w.objects,
          eq_iff name j,
          c.current j r i,
          only j r,
          held i,
          contains-insert s i room.participants,
        );
    no_unnamed = enter-rooms name s room w "" ∙ rw (str_eq-ne name "" named) c.no_unnamed;
  }

-- A change of the messages alone
same_rooms-IsConsistent :
    (v w : ChatServer)
    → v.rooms ≡ w.rooms
    → ((i : ℕ) → (v.objects i).current_room ≡ (w.objects i).current_room)
    → IsConsistent w
    → IsConsistent v
same_rooms-IsConsistent v w rooms cur c = record {
  filed = λ j r e. c.filed j r (rw rooms at e);
  current = λ j r i e h. cur i ∙ c.current j r i (rw rooms at e) h;
  no_unnamed = rw rooms c.no_unnamed;
}

depart_found-IsConsistent :
    (name : String) (s : ℕ) (w : ChatServer)
    → IsConsistent w
    → IsConsistent (depart_found name s (StringMap.find name w.rooms) w)
depart_found-IsConsistent name s w c = elim (Option-cases (StringMap.find name w.rooms)) [
  | inl gone ↦ rw gone c
  | inr (room, found) ↦ rw found (depart-IsConsistent name s room w found c)
]

depart_found-OnlyIn :
    (s : ℕ) (w : ChatServer) (k : String)
    → IsConsistent w
    → OnlyIn k s (
        depart_found
          (w.objects s).current_room
          s
          (StringMap.find (w.objects s).current_room w.rooms)
          w)
depart_found-OnlyIn s w k c =
    elim (Option-cases (StringMap.find (w.objects s).current_room w.rooms)) [
      | inl gone ↦ rw gone (λ j r e h. cc (gone, e, c.current j r s e h))
      | inr (room, found) ↦ rw found (λ j r e h.
          absurd (depart-Nowhere (w.objects s).current_room s room w found c refl j r e h))
    ]

leave_old_room-IsConsistent :
    (name : String) (s : ℕ) (w : ChatServer)
    → IsConsistent w
    → IsConsistent (leave_old_room name s w)
unfolding leave_old_room
leave_old_room-IsConsistent name s w c =
    if_lemma IsConsistent
      (not (str_eq (w.objects s).current_room "") && not (str_eq (w.objects s).current_room name)) _
      _ (λ _. depart_found-IsConsistent (w.objects s).current_room s w c) (λ _. c)

leave_old_room-OnlyIn :
    (name : String) (s : ℕ) (w : ChatServer)
    → IsConsistent w
    → OnlyIn name s (leave_old_room name s w)
unfolding leave_old_room
leave_old_room-OnlyIn name s w c =
    if_lemma (OnlyIn name s)
      (not (str_eq (w.objects s).current_room "") && not (str_eq (w.objects s).current_room name)) _
      _ (λ _. depart_found-OnlyIn s w name c)
      (λ stay j r e h. ground (
        arith,
        eq_iff (w.objects s).current_room "",
        eq_iff (w.objects s).current_room name,
        c.current j r s e h,
        c.no_unnamed,
      ))

-- Entering the room that is filed under the name, or a new one
admitted-IsConsistent :
    (name : String) (s : ℕ) (w : ChatServer)
    → name ≢ ""
    → OnlyIn name s w
    → IsConsistent w
    → IsConsistent (admitted name s w)
unfolding chat_room contains
admitted-IsConsistent name s w named only c = elim (Option-cases (StringMap.find name w.rooms)) [
  | inl new ↦ rw new (enter-IsConsistent name s (chat_room name) w refl (λ i h. cc) named only c)
  | inr (room, found) ↦ rw found (
      enter-IsConsistent name s room w (c.filed name room found)
        (λ i h. c.current name room i found h) named only c)
]

welcome-IsConsistent :
    (name : String) (s : ℕ) (target : Option ChatRoom) (w : ChatServer)
    → IsConsistent w
    → IsConsistent (welcome name s target w)
unfolding welcome
welcome-IsConsistent name s none w c = c
welcome-IsConsistent name s (some room) w c =
    same_rooms-IsConsistent _ w refl
      (λ i. broadcast-current_room room _ (some s) _ i ∙ deliver-current_room s i _ w.objects) c

-- Where each participant of a room has it as its current room, each room is filed under its name
-- and none under the empty name, this still holds after a session has joined a room whose name is
-- not empty, the room it was in before being left on the way.
pub join_room-IsConsistent :
    (name : String) (s : ℕ) (w : ChatServer)
    → name ≢ ""
    → IsConsistent w
    → IsConsistent (join_room name s w).0
unfolding join_room
join_room-IsConsistent name s w named c = if_lemma_fst IsConsistent w.stopped _ _ c (
    welcome-IsConsistent name s _ _ (
      admitted-IsConsistent name s (leave_old_room name s w) named
        (leave_old_room-OnlyIn name s w c) (leave_old_room-IsConsistent name s w c)))

cleared-IsConsistent :
    (s : ℕ) (msg : String) (w : ChatServer)
    → ((j : String) (r : ChatRoom)
        → StringMap.find j w.rooms ≡ some r
        → contains s r.participants ≡ true
        → ⊥)
    → IsConsistent w
    → IsConsistent (record w { objects = deliver s msg (set_current_room s "" w.objects) })
cleared-IsConsistent s msg w nowhere c = record {
  filed = c.filed;
  current = λ j r i e h.
      deliver-current_room s i msg (set_current_room s "" w.objects)
      ∙ set_current_room-current_room s i "" w.objects
      ∙ ground (arith, c.current j r i e h, nowhere j r e);
  no_unnamed = c.no_unnamed;
}

left-IsConsistent :
    (s : ℕ) (w : ChatServer) (o : Option ChatRoom)
    → StringMap.find (w.objects s).current_room w.rooms ≡ o
    → IsConsistent w
    → IsConsistent (left (w.objects s).current_room s o w).0
left-IsConsistent s w none e c = c
left-IsConsistent s w (some room) e c =
    let here = (w.objects s).current_room in
    cleared-IsConsistent s _ (depart here s room w) (depart-Nowhere here s room w e c refl)
      (depart-IsConsistent here s room w e c)

-- Where each participant of a room has it as its current room, each room is filed under its name
-- and none under the empty name, this still holds after a session has left its current room.
pub leave_room-IsConsistent :
    (s : ℕ) (w : ChatServer)
    → IsConsistent w
    → IsConsistent (leave_room (w.objects s).current_room s w).0
unfolding leave_room
leave_room-IsConsistent s w c =
    if_lemma_fst IsConsistent w.stopped _ _ c (left-IsConsistent s w _ refl c)
