-- ===== src/ChatRoom/Membership.antt =====
-- What `join` and `leave` of src/ChatRoom.cpp do to the room and to the sessions' current rooms.
use cherry_recorder_server.Prelude.{
  ℕ, ◌≤◌, String, Option, none, ◌≡◌, arith, ◌&&◌, ◌==◌, if◌then◌else◌, length, ◌∙◌, Bool-cases, inl,
  inr,
}
use cherry_recorder_server.IdSet.{contains, length-insert, length-erase}
use cherry_recorder_server.Session.{
  Objects, set_current_room, deliver-current_room, deliver_except-current_room,
}
use cherry_recorder_server.ChatRoom.{ChatRoom, broadcast, join, leave, is_full, admit, dismiss}

pub broadcast-current_room :
    (room : ChatRoom) (message : String) (sender : Option ℕ) (o : Objects) (j : ℕ)
    → (broadcast room message sender o j).current_room ≡ (o j).current_room
unfolding broadcast
broadcast-current_room room message sender o j =
    deliver_except-current_room sender _ room.participants o j

pub set_current_room-current_room :
    (i j : ℕ) (name : String) (o : Objects)
    → (set_current_room i name o j).current_room ≡ (if i == j then name else (o j).current_room)
unfolding set_current_room
set_current_room-current_room i j name o = ground arith

module _ (p : ℕ) (room : ChatRoom) (o : Objects) where
  pub join-room : (join p room o).0 ≡ (if is_full room then room else admit p room)
  unfolding join
  join-room = ground arith

  pub leave-room :
      (leave p room o).0 ≡ (if contains p room.participants then dismiss p room else room)
  unfolding leave
  leave-room = ground arith

  pub join-current_room :
      (j : ℕ)
      → ((join p room o).1 j).current_room ≡ (
          if is_full room
          then (o j).current_room
          else if p == j
          then room.name
          else (o j).current_room)
  unfolding join
  join-current_room j = elim (Bool-cases (is_full room)) [
    | inl full ↦ rw full (deliver-current_room p j _ o)
    | inr space ↦ rw space (
        broadcast-current_room (admit p room) _ none (set_current_room p room.name o) j
        ∙ set_current_room-current_room p j room.name o)
  ]

  pub leave-current_room :
      (j : ℕ)
      → ((leave p room o).1 j).current_room
        ≡ (if contains p room.participants && p == j then "" else (o j).current_room)
  unfolding leave
  leave-current_room j = elim (Bool-cases (contains p room.participants)) [
    | inl inside ↦ rw inside (
        broadcast-current_room (dismiss p room) _ none (set_current_room p "" o) j
        ∙ set_current_room-current_room p j "" o)
    | inr outside ↦ rw outside
  ]

-- No room ever holds more than it may.
abbrev WithinLimit : ChatRoom → Type 0
WithinLimit room = length room.participants ≤ room.max_participants

join-WithinLimit :
    (p : ℕ) (room : ChatRoom) (o : Objects) → WithinLimit room → WithinLimit (join p room o).0
unfolding join is_full
join-WithinLimit p room o h = ground (arith, length-insert p room.participants)

leave-WithinLimit :
    (p : ℕ) (room : ChatRoom) (o : Objects) → WithinLimit room → WithinLimit (leave p room o).0
unfolding leave
leave-WithinLimit p room o h = ground (arith, length-erase p room.participants)
