-- ===== src/WebSocketSession/Capacity.antt =====
-- What the commands of src/WebSocketSession.cpp do to the sizes of the rooms.
use cherry_recorder_server.Prelude.{
  ℕ, String, Bool, true, false, Option, some, ◌||◌, ◌≡◌, refl, arith, str_eq, Bool-cases, inl, inr,
  ltb,
}
use cherry_recorder_server.Text.{has_whitespace, byte_length}
use cherry_recorder_server.IdSet.{contains}
use cherry_recorder_server.History.{Env}
use cherry_recorder_server.ChatServer.{ChatServer, broadcast, broadcast_impl, broadcast_to_room}
use cherry_recorder_server.ChatServer.Rooms.{join_room, join_room_async, leave_room}
use cherry_recorder_server.ChatServer.Rooms.Capacity.{
  IsBounded, join_room-IsBounded, leave_room-IsBounded, same_rooms-IsBounded,
}
use cherry_recorder_server.ChatServer.Rooms.Departure.{if_lemma_fst}
use cherry_recorder_server.ChatServer.Nicknames.{Outcome, done, get_user_list}
use cherry_recorder_server.ChatServer.Sessions.{send_private_message}
use cherry_recorder_server.WebSocketSession.{
  Command, ignore, nick, pm, list, join, leave, usage, unknown, say, answer, execute, parse_message,
  process_message,
}
use cherry_recorder_server.ChatServer.Nicknames.Keeping.{IsRegistered}
use cherry_recorder_server.WebSocketSession.Nicknames.{change_nickname-Keeps}

broadcast-rooms :
    (env : Env) (msg : String) (sender : Option ℕ) (w : ChatServer)
    → (broadcast env msg sender w).rooms ≡ w.rooms
unfolding broadcast broadcast_impl
broadcast-rooms env msg sender w = ground arith

send_private_message-rooms :
    (env : Env) (message target : String) (s : ℕ) (w : ChatServer)
    → (send_private_message env message s target w).0.rooms ≡ w.rooms
unfolding send_private_message
send_private_message-rooms env message target s w = ground arith

get_user_list-rooms : (w : ChatServer) → (get_user_list w).0.rooms ≡ w.rooms
unfolding get_user_list
get_user_list-rooms w = ground arith

broadcast_to_room-rooms :
    (env : Env) (room message : String) (sender : Option ℕ) (w : ChatServer)
    → (broadcast_to_room env room message sender w).0.rooms ≡ w.rooms
unfolding broadcast_to_room
broadcast_to_room-rooms env room message sender w = ground arith

join_room_async-IsBounded :
    (room : String) (s : ℕ) (w : ChatServer) → IsBounded w → IsBounded (join_room_async room s w).0
unfolding join_room_async
join_room_async-IsBounded room s w b =
    if_lemma_fst IsBounded
      (w.stopped || str_eq room "" || has_whitespace room || ltb 30 (byte_length room)) (w, false)
      (join_room room s w) b (join_room-IsBounded room s w b)

answer-IsBounded :
    (s : ℕ) (yes_text no_text : String) (r : ChatServer × Bool)
    → IsBounded r.0
    → IsBounded (answer s yes_text no_text r)
answer-IsBounded s yes_text no_text (w, true) b = same_rooms-IsBounded _ w refl b
answer-IsBounded s yes_text no_text (w, false) b = same_rooms-IsBounded _ w refl b

-- The command has a result, and with it the rooms are bounded.
abbrev Bounds : Outcome ChatServer → Type 0
Bounds o = (v : ChatServer) × (o ≡ done v) × IsBounded v

say-Bounds :
    (env : Env) (s : ℕ) (text : String) (w : ChatServer)
    → IsBounded w
    → Bounds (execute env s (say text) w)
unfolding execute
say-Bounds env s text w b = elim (Bool-cases (str_eq (w.objects s).current_room "")) [
  | inl nowhere ↦
      simp nowhere (_, refl, same_rooms-IsBounded _ w (broadcast-rooms env _ (some s) w) b)
  | inr somewhere ↦
      simp somewhere
        (_, refl, same_rooms-IsBounded _ w (broadcast_to_room-rooms env _ text (some s) w) b)
]

execute-Bounds :
    (env : Env) (s : ℕ) (c : Command) (w : ChatServer)
    → IsRegistered w
    → contains s w.sessions ≡ true
    → IsBounded w
    → Bounds (execute env s c w)
unfolding execute
execute-Bounds env s ignore w reg here b = (w, refl, b)
execute-Bounds env s (nick name) w reg here b =
    let (v, e, kept) = change_nickname-Keeps env s name w reg here in
    (v, e, same_rooms-IsBounded v w kept.same_rooms b)
execute-Bounds env s (pm target message) w reg here b =
    (_, refl, same_rooms-IsBounded _ w (send_private_message-rooms env message target s w) b)
execute-Bounds env s list w reg here b =
    (_, refl, same_rooms-IsBounded _ w (get_user_list-rooms w) b)
execute-Bounds env s (join room) w reg here b = (
  _,
  refl,
  answer-IsBounded s _ _ (join_room_async room s w) (join_room_async-IsBounded room s w b),
)
execute-Bounds env s (leave room) w reg here b =
    (_, refl, answer-IsBounded s _ _ (leave_room room s w) (leave_room-IsBounded room s w b))
execute-Bounds env s (usage help) w reg here b = (_, refl, same_rooms-IsBounded _ w refl b)
execute-Bounds env s unknown w reg here b = (_, refl, same_rooms-IsBounded _ w refl b)
execute-Bounds env s (say text) w reg here b = say-Bounds env s text w b

-- Where each connected session lives and holds the nickname it has set, and every room has the
-- limit 100 and between 1 and 100 participants, any message of a connected session is processed to
-- a result, and the rooms are still so.
pub process_message-IsBounded :
    (env : Env) (s : ℕ) (message : String) (w : ChatServer)
    → IsRegistered w
    → contains s w.sessions ≡ true
    → IsBounded w
    → (v : ChatServer) × (process_message env s message w ≡ done v) × IsBounded v
unfolding process_message
process_message-IsBounded env s message w reg here b =
    execute-Bounds env s (parse_message message) w reg here b
