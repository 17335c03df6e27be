-- ===== src/ChatServer/Frames.antt =====
-- What the operations of src/ChatServer.cpp leave alone: the names of the sessions, or the rooms.
pub mod Messages
use cherry_recorder_server.Prelude.{
  ℕ, String, Bool, true, false, Option, none, some, List, [], ◌∷◌, ◌≡◌, ◌≢◌, refl, sym, ap, ◌∙◌,
  arith, str_eq, ◌==◌, if◌then◌else◌, inl, inr, Bool-cases, Option-cases, not, ◌&&◌, ◌||◌, ltb, ◌⧺◌,
}
use cherry_recorder_server.Text.{has_whitespace, byte_length}
use cherry_recorder_server.StringMap
use cherry_recorder_server.IdSet.{contains}
use cherry_recorder_server.Session.{
  Session, Objects, deliver, deliver_except, set_current_room, set_nickname,
  deliver-SameButMessages, deliver_except-SameButMessages,
}
use cherry_recorder_server.ChatRoom
use cherry_recorder_server.ChatRoom.{ChatRoom}
use cherry_recorder_server.History.{Env}
use cherry_recorder_server.ChatServer.{ChatServer, broadcast, broadcast_impl, broadcast_to_room}
use cherry_recorder_server.ChatServer.Rooms.{
  join_room, join_room_async, leave_room, leave_room_async, depart, depart_found, leave_old_room,
  enter, admitted, welcome, left,
}
use cherry_recorder_server.ChatServer.Nicknames.{find_session_by_nickname, get_user_list}
use cherry_recorder_server.ChatServer.Sessions.{send_private_message}

-- The fields of a session that the registry of nicknames depends on
pub record SameIdentity (s t : Session) : Type 0 where
  pub same_nickname : s.nickname ≡ t.nickname
  pub same_remote_id : s.remote_id ≡ t.remote_id
  pub same_alive : s.alive ≡ t.alive

abbrev pub SameIdentities : Objects → Objects → Type 0
SameIdentities o p = (j : ℕ) → SameIdentity (o j) (p j)

pub record SameNames (v w : ChatServer) : Type 0 where
  pub same_sessions : v.sessions ≡ w.sessions
  pub same_nicknames : v.nicknames ≡ w.nicknames
  pub same_identities : SameIdentities v.objects w.objects

pub record SameRooms (v w : ChatServer) : Type 0 where
  pub same_rooms : v.rooms ≡ w.rooms
  pub same_current_room : (j : ℕ) → (v.objects j).current_room ≡ (w.objects j).current_room

SameIdentity-trans : (r s t : Session) → SameIdentity r s → SameIdentity s t → SameIdentity r t
SameIdentity-trans r s t h k = ground (arith, h, k)

pub SameNames-trans : (u v w : ChatServer) → SameNames u v → SameNames v w → SameNames u w
SameNames-trans u v w h k = record {
  same_sessions = h.same_sessions ∙ k.same_sessions;
  same_nicknames = h.same_nicknames ∙ k.same_nicknames;
  same_identities =
      λ j. SameIdentity-trans _ (v.objects j) _ (h.same_identities j) (k.same_identities j);
}

-- The objects after deliveries and changes of the current room
deliver-SameIdentities : (i : ℕ) (msg : String) (o : Objects) → SameIdentities (deliver i msg o) o
deliver-SameIdentities i msg o j = ground (arith, deliver-SameButMessages i j msg o)

broadcast-SameIdentities :
    (room : ChatRoom) (msg : String) (sender : Option ℕ) (o : Objects)
    → SameIdentities (ChatRoom.broadcast room msg sender o) o
unfolding ChatRoom.broadcast
broadcast-SameIdentities room msg sender o j = ground (
  arith,
  deliver_except-SameButMessages sender (ChatRoom.format_message room msg sender o)
      room.participants o j,
)

set_current_room-SameIdentities :
    (i : ℕ) (room : String) (o : Objects) → SameIdentities (set_current_room i room o) o
unfolding set_current_room
set_current_room-SameIdentities i room o j = ground arith

chain : (o p q : Objects) → SameIdentities o p → SameIdentities p q → SameIdentities o q
chain o p q h k j = SameIdentity-trans _ (p j) _ (h j) (k j)

join-SameIdentities :
    (s : ℕ) (room : ChatRoom) (o : Objects) → SameIdentities (ChatRoom.join s room o).1 o
unfolding ChatRoom.join
join-SameIdentities s room o j =
    let moved = set_current_room s room.name o in
    let text = "* " ⧺ (o s).nickname ⧺ "님이 '" ⧺ room.name ⧺ "' 방에 입장했습니다.\r\n" in
    let full = "Error: 방 '" ⧺ room.name ⧺ "'이(가) 꽉 찼습니다.\r\n" in
    ground (
      arith,
      deliver-SameIdentities s full o j,
      broadcast-SameIdentities (ChatRoom.admit s room) text none moved j,
      set_current_room-SameIdentities s room.name o j,
    )

leave-SameIdentities :
    (s : ℕ) (room : ChatRoom) (o : Objects) → SameIdentities (ChatRoom.leave s room o).1 o
unfolding ChatRoom.leave
leave-SameIdentities s room o j =
    let moved = set_current_room s "" o in
    let text = "* " ⧺ (o s).nickname ⧺ "님이 '" ⧺ room.name ⧺ "' 방에서 나갔습니다.\r\n" in
    ground (
      arith,
      broadcast-SameIdentities (ChatRoom.dismiss s room) text none moved j,
      set_current_room-SameIdentities s "" o j,
    )

-- A change of the objects and the rooms alone
pub same_names :
    (v w : ChatServer)
    → v.sessions ≡ w.sessions
    → v.nicknames ≡ w.nicknames
    → SameIdentities v.objects w.objects
    → SameNames v w
same_names v w a b c = record { same_sessions = a; same_nicknames = b; same_identities = c }

pub SameNames-refl : (w : ChatServer) → SameNames w w
SameNames-refl w = same_names w w refl refl (λ j. ground arith)

if-SameNames :
    (b : Bool) (u v w : ChatServer)
    → SameNames u w
    → SameNames v w
    → SameNames (if b then u else v) w
if-SameNames true u v w h k = h
if-SameNames false u v w h k = k

if_fst-SameNames :
    (b : Bool) (u v : ChatServer × Bool) (w : ChatServer)
    → SameNames u.0 w
    → SameNames v.0 w
    → SameNames (if b then u else v).0 w
if_fst-SameNames true u v w h k = h
if_fst-SameNames false u v w h k = k

depart-SameNames :
    (name : String) (s : ℕ) (room : ChatRoom) (w : ChatServer) → SameNames (depart name s room w) w
unfolding depart
depart-SameNames name s room w = same_names _ w refl refl (
    chain _ _ w.objects (leave-SameIdentities s room _)
      (broadcast-SameIdentities room _ (some s) w.objects))

depart_found-SameNames :
    (name : String) (s : ℕ) (o : Option ChatRoom) (w : ChatServer)
    → SameNames (depart_found name s o w) w
depart_found-SameNames name s none w = SameNames-refl w
depart_found-SameNames name s (some room) w = depart-SameNames name s room w

leave_old_room-SameNames :
    (name : String) (s : ℕ) (w : ChatServer) → SameNames (leave_old_room name s w) w
unfolding leave_old_room
leave_old_room-SameNames name s w =
    let old = (w.objects s).current_room in
    if-SameNames (not (str_eq old "") && not (str_eq old name))
      (depart_found old s (StringMap.find old w.rooms) w) w w
      (depart_found-SameNames old s (StringMap.find old w.rooms) w) (SameNames-refl w)

enter-SameNames :
    (name : String) (s : ℕ) (room : ChatRoom) (w : ChatServer) → SameNames (enter name s room w) w
unfolding enter
enter-SameNames name s room w = same_names _ w refl refl (
    chain _ _ w.objects (set_current_room-SameIdentities s name _)
      (join-SameIdentities s room w.objects))

welcome-SameNames :
    (name : String) (s : ℕ) (o : Option ChatRoom) (w : ChatServer)
    → SameNames (welcome name s o w) w
unfolding welcome
welcome-SameNames name s none w = SameNames-refl w
welcome-SameNames name s (some room) w = same_names _ w refl refl (
    chain _ _ w.objects (broadcast-SameIdentities room _ (some s) _)
      (deliver-SameIdentities s _ w.objects))

pub join_room-SameNames :
    (name : String) (s : ℕ) (w : ChatServer) → SameNames (join_room name s w).0 w
unfolding join_room
join_room-SameNames name s w =
    let u = leave_old_room name s w in
    let v = admitted name s u in
    let target = StringMap.find name v.rooms in
    if_fst-SameNames w.stopped (w, false) (welcome name s target v, true) w (SameNames-refl w)
      (SameNames-trans _ v w (welcome-SameNames name s target v)
        (SameNames-trans v u w (enter-SameNames name s _ u) (leave_old_room-SameNames name s w)))

left-SameNames :
    (name : String) (s : ℕ) (o : Option ChatRoom) (w : ChatServer) → SameNames (left name s o w).0 w
left-SameNames name s none w = SameNames-refl w
left-SameNames name s (some room) w =
    let v = depart name s room w in
    SameNames-trans _ v w
      (same_names _ v refl refl (
        chain _ _ v.objects (deliver-SameIdentities s _ _)
          (set_current_room-SameIdentities s "" v.objects)))
      (depart-SameNames name s room w)

pub leave_room-SameNames :
    (name : String) (s : ℕ) (w : ChatServer) → SameNames (leave_room name s w).0 w
unfolding leave_room
leave_room-SameNames name s w =
    if_fst-SameNames w.stopped (w, false) (left name s (StringMap.find name w.rooms) w) w
      (SameNames-refl w) (left-SameNames name s _ w)

pub join_room_async-SameNames :
    (name : String) (s : ℕ) (w : ChatServer) → SameNames (join_room_async name s w).0 w
unfolding join_room_async
join_room_async-SameNames name s w =
    if_fst-SameNames
      (w.stopped || str_eq name "" || has_whitespace name || ltb 30 (byte_length name)) (w, false)
      (join_room name s w) w (SameNames-refl w) (join_room-SameNames name s w)

pub leave_room_async-SameNames :
    (name : String) (s : ℕ) (w : ChatServer) → SameNames (leave_room_async name s w).0 w
unfolding leave_room_async
leave_room_async-SameNames name s w =
    if_fst-SameNames (w.stopped || str_eq name "" || not (str_eq (w.objects s).current_room name))
      (w, false) (leave_room name s w) w (SameNames-refl w) (leave_room-SameNames name s w)
