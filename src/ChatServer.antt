-- ===== src/ChatServer.antt =====
-- src/ChatServer.cpp: the state of the server, and its broadcasts. The operations on rooms,
-- nicknames and sessions are in the modules below. An asynchronous operation is modelled with its
-- strand body and its handler run to completion, in the order in which they are posted.
pub mod Archive
pub mod Frames
pub mod Rooms
pub mod Nicknames
pub mod Sessions
pub mod Soundness
use cherry_recorder_server.Prelude.{
  ℕ, String, Bool, true, false, Option, none, some, List, [], ◌∷◌, str_eq, ◌⧺◌, ◌||◌, if◌then◌else◌,
}
use cherry_recorder_server.StringMap
use cherry_recorder_server.StringMap.{StringMap}
use cherry_recorder_server.Session.{Session, Objects, deliver_except}
use cherry_recorder_server.ChatRoom
use cherry_recorder_server.ChatRoom.{ChatRoom, nickname_or_system}
use cherry_recorder_server.History.{
  Env, MessageHistory, message_history, log_global_message, log_room_message,
}

pub record ChatServer : Type 0 where
  pub objects : Objects
  pub sessions : List ℕ
  pub nicknames : StringMap ℕ
  pub rooms : StringMap ChatRoom
  pub history : Option MessageHistory
  pub stopped : Bool

-- The constructor, over the session objects of the process.
unfoldable pub chat_server : Objects → MessageHistory → ChatServer
chat_server objects h = record {
  objects = objects;
  sessions = [];
  nicknames = [];
  rooms = [];
  history = some h;
  stopped = false;
}

abbrev pub logged :
    (MessageHistory → MessageHistory) → Option MessageHistory → Option MessageHistory
logged write none = none
logged write (some h) = some (write h)

-- `broadcast_impl`
unfoldable pub broadcast_impl : Env → String → Option ℕ → ChatServer → ChatServer
broadcast_impl env message sender w = record w {
  objects = deliver_except sender message w.sessions w.objects;
  history = logged (log_global_message env message (nickname_or_system sender w.objects)) w.history;
}

unfoldable pub broadcast : Env → String → Option ℕ → ChatServer → ChatServer
unfolding broadcast_impl
broadcast env message sender w = if w.stopped then w else broadcast_impl env message sender w

abbrev pub room_message :
    Env → String → String → Option ℕ → Option ChatRoom → ChatServer → ChatServer × Bool
room_message env name message sender none w = (w, false)
room_message env name message sender (some room) w = (
  record w {
    objects = ChatRoom.broadcast room message sender w.objects;
    history =
        logged (log_room_message env name message (nickname_or_system sender w.objects)) w.history;
  },
  true,
)

unfoldable pub broadcast_to_room : Env → String → String → Option ℕ → ChatServer → ChatServer × Bool
broadcast_to_room env name message sender w =
    if w.stopped
    then (w, false)
    else room_message env name message sender (StringMap.find name w.rooms) w
