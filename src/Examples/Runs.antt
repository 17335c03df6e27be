-- ===== src/Examples/Runs.antt =====
-- Runs of the server with its sessions.
use cherry_recorder_server.Prelude.{true, false, none, [], ◌∷◌, ◌≡◌, refl, ◌==◌, if◌then◌else◌}
use cherry_recorder_server.Text.{has_whitespace, byte_length}
use cherry_recorder_server.StringMap
use cherry_recorder_server.IdSet
use cherry_recorder_server.Session.{Objects}
use cherry_recorder_server.History.{Env, message_history}
use cherry_recorder_server.ChatServer.{ChatServer, chat_server}
use cherry_recorder_server.ChatServer.Nicknames.{
  undefined, try_register_nickname_async, is_invalid_nickname,
}
use cherry_recorder_server.ChatServer.Sessions
use cherry_recorder_server.ChatServer.Sessions.{leave}
use cherry_recorder_server.ChatServer.Sessions.Twice.{leave-twice}
use cherry_recorder_server.WebSocketSession
use cherry_recorder_server.Examples.{people, different}

abbrev env : Env
env = record { timestamp = "2025-01-01 00:00:00"; opens = λ name. true }

abbrev newcomers : Objects
newcomers i = record {
  remote_id = if i == 1 then "10.0.0.1:1" else "10.0.0.2:2";
  nickname = if i == 1 then "10.0.0.1:1" else "10.0.0.2:2";
  current_room = "";
  alive = true;
  delivered = [];
}

abbrev first : ChatServer
first = chat_server newcomers (message_history "history" true)

abbrev second : ChatServer
second = WebSocketSession.on_accept env 1 false first

abbrev third : ChatServer
third =
    WebSocketSession.nick_handler env 1 "cherry"
      (record second { nicknames = ("cherry", 1) ∷ [] }, true)

abbrev fourth : ChatServer
fourth = WebSocketSession.on_accept env 2 false third

abbrev fifth : ChatServer
fifth =
    WebSocketSession.nick_handler env 2 "grape"
      (record fourth { nicknames = ("cherry", 1) ∷ ("grape", 2) ∷ [] }, true)

-- 1 has left, 3 has taken the name since.
abbrev twins : Objects
twins i =
    if i == 3
    then record {
      remote_id = "10.0.0.3:3";
      nickname = "cherry";
      current_room = "";
      alive = true;
      delivered = [];
    }
    else people i

abbrev taken : ChatServer
taken = record {
  objects = twins;
  sessions = 2 ∷ 3 ∷ [];
  nicknames = ("cherry", 3) ∷ [];
  rooms = [];
  history = none;
  stopped = false;
}

leave-twice_example :
    (StringMap.find "cherry" (leave env 1 taken).nicknames ≡ none)
    × (try_register_nickname_async "melon" 3 (leave env 1 taken) ≡ undefined)
unfolding StringMap.find is_invalid_nickname has_whitespace byte_length
leave-twice_example =
    leave-twice env 1 3 "melon" taken refl (different "cherry" "" refl)
      (different "cherry" "10.0.0.1:1" refl) refl refl refl refl refl
