-- ===== src/WebSocketSession/Soundness.antt =====
-- What `process_message` of src/WebSocketSession.cpp keeps, command by command.
use cherry_recorder_server.Prelude.{
  ℕ, String, Bool, true, false, some, ◌≡◌, refl, str_eq, Bool-cases, inl, inr,
}
use cherry_recorder_server.IdSet.{contains}
use cherry_recorder_server.History.{Env}
use cherry_recorder_server.ChatServer.{ChatServer}
use cherry_recorder_server.ChatServer.Frames.Messages.{
  deliver-SameState, broadcast-SameState, broadcast_to_room-SameState,
  send_private_message-SameState,
}
use cherry_recorder_server.ChatServer.Rooms.{join_room_async, leave_room}
use cherry_recorder_server.ChatServer.Rooms.Capacity.{same_rooms-IsBounded}
use cherry_recorder_server.ChatServer.Nicknames.{Outcome, done, get_user_list}
use cherry_recorder_server.ChatServer.Soundness.{
  IsSound, SameState-IsSound, join_room_async-IsSound, leave_room-IsSound, get_user_list-IsSound,
}
use cherry_recorder_server.WebSocketSession.{
  Command, ignore, nick, pm, list, join, leave, usage, unknown, say, tell, answer, execute,
  parse_message, process_message,
}
use cherry_recorder_server.WebSocketSession.Handlers.{KeptBy}
use cherry_recorder_server.WebSocketSession.Nicknames.{change_nickname-Keeps}

-- It has a result, and the server is sound with it.
abbrev pub Lands : Outcome ChatServer → Type 0
Lands o = (v : ChatServer) × (o ≡ done v) × IsSound v

pub KeptBy-Lands : (w : ChatServer) (o : Outcome ChatServer) → KeptBy w o → IsSound w → Lands o
KeptBy-Lands w o (v, e, kept) h = (
  v,
  e,
  record {
    registered = kept.registered;
    ordered = kept.same_order h.ordered;
    bounded = same_rooms-IsBounded v w kept.same_rooms h.bounded;
  },
)

pub tell-IsSound : (s : ℕ) (text : String) (w : ChatServer) → IsSound w → IsSound (tell s text w)
tell-IsSound s text w = SameState-IsSound _ w (deliver-SameState s text w)

answer-IsSound :
    (s : ℕ) (yes_text no_text : String) (r : ChatServer × Bool)
    → IsSound r.0
    → IsSound (answer s yes_text no_text r)
answer-IsSound s yes_text no_text (w, true) = tell-IsSound s yes_text w
answer-IsSound s yes_text no_text (w, false) = tell-IsSound s no_text w

say-Lands :
    (env : Env) (s : ℕ) (text : String) (w : ChatServer)
    → IsSound w
    → Lands (execute env s (say text) w)
unfolding execute
say-Lands env s text w h = elim (Bool-cases (str_eq (w.objects s).current_room "")) [
  | inl nowhere ↦
      simp nowhere (_, refl, SameState-IsSound _ w (broadcast-SameState env _ (some s) w) h)
  | inr somewhere ↦
      simp somewhere
        (_, refl, SameState-IsSound _ w (broadcast_to_room-SameState env _ text (some s) w) h)
]

execute-Lands :
    (env : Env) (s : ℕ) (c : Command) (w : ChatServer)
    → contains s w.sessions ≡ true
    → IsSound w
    → Lands (execute env s c w)
unfolding execute
execute-Lands env s ignore w here h = (w, refl, h)
execute-Lands env s (nick name) w here h =
    KeptBy-Lands w _ (change_nickname-Keeps env s name w h.registered here) h
execute-Lands env s (pm target message) w here h =
    (_, refl, SameState-IsSound _ w (send_private_message-SameState env message s target w) h)
execute-Lands env s list w here h =
    (_, refl, tell-IsSound s _ (get_user_list w).0 (get_user_list-IsSound w h))
execute-Lands env s (join room) w here h =
    (_, refl, answer-IsSound s _ _ (join_room_async room s w) (join_room_async-IsSound room s w h))
execute-Lands env s (leave room) w here h =
    (_, refl, answer-IsSound s _ _ (leave_room room s w) (leave_room-IsSound room s w h))
execute-Lands env s (usage help) w here h = (_, refl, tell-IsSound s help w h)
execute-Lands env s unknown w here h = (_, refl, tell-IsSound s _ w h)
execute-Lands env s (say text) w here h = say-Lands env s text w h

pub process_message-Lands :
    (env : Env) (s : ℕ) (message : String) (w : ChatServer)
    → contains s w.sessions ≡ true
    → IsSound w
    → Lands (process_message env s message w)
unfolding process_message
process_message-Lands env s message w = execute-Lands env s (parse_message message) w
