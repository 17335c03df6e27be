-- ===== src/ChatServer/Frames/Messages.antt =====
-- The operations of src/ChatServer.cpp that change nothing but the messages and the history.
use cherry_recorder_server.Prelude.{
  ℕ, String, Bool, true, false, Option, none, some, ◌≡◌, refl, ◌∙◌, arith, str_eq, if◌then◌else◌,
  ◌||◌, ◌⧺◌,
}
use cherry_recorder_server.StringMap
use cherry_recorder_server.Session.{
  deliver, SameButMessages, deliver-SameButMessages, deliver_except-SameButMessages,
}
use cherry_recorder_server.ChatRoom
use cherry_recorder_server.ChatRoom.{ChatRoom, format_message}
use cherry_recorder_server.History.{Env}
use cherry_recorder_server.ChatServer.{
  ChatServer, broadcast, broadcast_impl, broadcast_to_room, room_message,
}
use cherry_recorder_server.ChatServer.Nicknames.{find_session_by_nickname}
use cherry_recorder_server.ChatServer.Sessions.{send_private_message, to_receiver}
use cherry_recorder_server.ChatServer.Frames.{SameNames, SameRooms, same_names, SameNames-trans}

-- Only the messages of the sessions and the history may differ.
pub record SameState (v w : ChatServer) : Type 0 where
  pub names : SameNames v w
  pub rooms : SameRooms v w

same_state :
    (v w : ChatServer)
    → v.sessions ≡ w.sessions
    → v.nicknames ≡ w.nicknames
    → v.rooms ≡ w.rooms
    → ((j : ℕ) → SameButMessages (v.objects j) (w.objects j))
    → SameState v w
same_state v w a b c d = record {
  names = same_names v w a b (λ j. ground (arith, d j));
  rooms = record { same_rooms = c; same_current_room = λ j. (d j).same_current_room };
}

pub SameState-refl : (w : ChatServer) → SameState w w
SameState-refl w = same_state w w refl refl refl (λ j. ground arith)

pub SameState-trans : (u v w : ChatServer) → SameState u v → SameState v w → SameState u w
SameState-trans u v w h k = record {
  names = SameNames-trans u v w h.names k.names;
  rooms = record {
    same_rooms = h.rooms.same_rooms ∙ k.rooms.same_rooms;
    same_current_room = λ j. h.rooms.same_current_room j ∙ k.rooms.same_current_room j;
  };
}

pub deliver-SameState :
    (s : ℕ) (msg : String) (w : ChatServer)
    → SameState (record w { objects = deliver s msg w.objects }) w
deliver-SameState s msg w =
    same_state _ w refl refl refl (λ j. deliver-SameButMessages s j msg w.objects)

pub broadcast_impl-SameState :
    (env : Env) (msg : String) (sender : Option ℕ) (w : ChatServer)
    → SameState (broadcast_impl env msg sender w) w
unfolding broadcast_impl
broadcast_impl-SameState env msg sender w =
    same_state _ w refl refl refl (deliver_except-SameButMessages sender msg w.sessions w.objects)

pub if-SameState :
    (b : Bool) (u v w : ChatServer)
    → SameState u w
    → SameState v w
    → SameState (if b then u else v) w
if-SameState true u v w h k = h
if-SameState false u v w h k = k

if_fst-SameState :
    (b : Bool) (u v : ChatServer × Bool) (w : ChatServer)
    → SameState u.0 w
    → SameState v.0 w
    → SameState (if b then u else v).0 w
if_fst-SameState true u v w h k = h
if_fst-SameState false u v w h k = k

pub broadcast-SameState :
    (env : Env) (msg : String) (sender : Option ℕ) (w : ChatServer)
    → SameState (broadcast env msg sender w) w
unfolding broadcast
broadcast-SameState env msg sender w =
    if-SameState w.stopped w (broadcast_impl env msg sender w) w (SameState-refl w)
      (broadcast_impl-SameState env msg sender w)

room_message-SameState :
    (env : Env) (name msg : String) (sender : Option ℕ) (o : Option ChatRoom) (w : ChatServer)
    → SameState (room_message env name msg sender o w).0 w
unfolding ChatRoom.broadcast
room_message-SameState env name msg sender none w = SameState-refl w
room_message-SameState env name msg sender (some room) w = same_state _ w refl refl refl (
    deliver_except-SameButMessages sender (format_message room msg sender w.objects)
      room.participants w.objects)

pub broadcast_to_room-SameState :
    (env : Env) (name msg : String) (sender : Option ℕ) (w : ChatServer)
    → SameState (broadcast_to_room env name msg sender w).0 w
unfolding broadcast_to_room
broadcast_to_room-SameState env name msg sender w =
    if_fst-SameState w.stopped (w, false) _ w (SameState-refl w)
      (room_message-SameState env name msg sender (StringMap.find name w.rooms) w)

to_receiver-SameState :
    (env : Env) (msg : String) (s : ℕ) (nick : String) (o : Option ℕ) (w : ChatServer)
    → SameState (to_receiver env msg s nick o w) w
to_receiver-SameState env msg s nick none w =
    same_state _ w refl refl refl (λ j. deliver-SameButMessages s j _ w.objects)
to_receiver-SameState env msg s nick (some r) w = same_state _ w refl refl refl (λ j.
    let before = "[PM from " ⧺ (w.objects s).nickname ⧺ "]: " ⧺ msg ⧺ "\r\n" in
    ground (
      arith,
      deliver-SameButMessages r j before w.objects,
      deliver-SameButMessages s j ("* To " ⧺ nick ⧺ ": " ⧺ msg ⧺ "\r\n")
          (deliver r before w.objects),
    ))

pub send_private_message-SameState :
    (env : Env) (msg : String) (s : ℕ) (nick : String) (w : ChatServer)
    → SameState (send_private_message env msg s nick w).0 w
unfolding send_private_message
send_private_message-SameState env msg s nick w =
    if_fst-SameState (w.stopped || str_eq nick "" || str_eq msg "") (w, false) _ w
      (SameState-refl w) (to_receiver-SameState env msg s nick (find_session_by_nickname nick w) w)
