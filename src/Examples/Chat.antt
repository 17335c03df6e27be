-- ===== src/Examples/Chat.antt =====
-- Runs of the chat server.
use cherry_recorder_server.Prelude.{
  ℕ, ◌+◌, zero, suc, true, false, none, some, List, [], ◌∷◌, ◌≡◌, ◌⊎◌, ◌↔◌, ◌≢◌, String, refl,
}
use cherry_recorder_server.StringMap
use cherry_recorder_server.IdSet.{contains}
use cherry_recorder_server.ChatRoom.{ChatRoom, format_message, is_system_message}
use cherry_recorder_server.History.{Env}
use cherry_recorder_server.ChatServer.{ChatServer, broadcast, broadcast_to_room}
use cherry_recorder_server.ChatServer.Rooms.{join_room, leave_room}
use cherry_recorder_server.ChatServer.Rooms.Membership.{IsConsistent}
use cherry_recorder_server.ChatServer.Rooms.Consistency.{
  join_room-IsConsistent, leave_room-IsConsistent,
}
use cherry_recorder_server.ChatServer.Nicknames.{
  undefined, try_register_nickname_impl, get_user_list,
}
use cherry_recorder_server.ChatServer.Nicknames.Registry.{holder, register_iff}
use cherry_recorder_server.ChatServer.Nicknames.Faults.{register-undefined_iff}
use cherry_recorder_server.ChatServer.Nicknames.Listing.{has_name, is_held, get_user_list-holder}
use cherry_recorder_server.ChatServer.Sessions.{leave}
use cherry_recorder_server.ChatServer.Sessions.Leaving.{IsNowhere, leave-gone}
use cherry_recorder_server.ChatServer.Sessions.Broadcasts.{
  broadcast-delivered, broadcast_to_room-delivered,
}
use cherry_recorder_server.WebSocketSession.WriteQueue
use cherry_recorder_server.WebSocketSession.WriteQueue.{WriteQueue, new_queue, delivers, on_write}
use cherry_recorder_server.WebSocketSession.WriteOrder.{
  IsValid, Reach, start, next, Reach-IsValid, drain, queue, drain-Reach,
}
use cherry_recorder_server.Text.{read_word}
use cherry_recorder_server.ChatSession
use cherry_recorder_server.ChatSession.Recursion.{running-undefined}
use cherry_recorder_server.Examples.{people, lobby, server, server-IsConsistent, different}

abbrev env : Env
env = record { timestamp = "2025-01-01 00:00:00"; opens = λ name. true }

join_room-IsConsistent_example : IsConsistent (join_room "garden" 2 server).0
join_room-IsConsistent_example =
    join_room-IsConsistent "garden" 2 server (different "garden" "" refl) server-IsConsistent

leave_room-IsConsistent_example : IsConsistent (leave_room "lobby" 2 server).0
leave_room-IsConsistent_example = leave_room-IsConsistent 2 server server-IsConsistent

register_iff_example : (false ≡ true) ↔ (
    (holder "cherry" people server.nicknames ≡ none)
    ⊎ (holder "cherry" people server.nicknames ≡ some 3))
unfolding try_register_nickname_impl StringMap.find
register_iff_example = register_iff "cherry" 3 server server false refl refl

abbrev after_melon : ChatServer
after_melon = record server { nicknames = ("grape", 2) ∷ ("melon", 1) ∷ [] }

leave-gone_example :
    (contains 2 (leave env 2 server).sessions ≡ false)
    × IsNowhere 2 (leave env 2 server)
    × (StringMap.find "grape" (leave env 2 server).nicknames ≡ none)
leave-gone_example =
    leave-gone env 2 server refl server-IsConsistent (different "grape" "" refl)
      (different "grape" "10.0.0.2:2" refl)

broadcast-delivered_example : ((broadcast env "hi" (some 1) server).objects 2).delivered ≡ "hi" ∷ []
unfolding contains
broadcast-delivered_example =
    broadcast-delivered env "hi" (some 1) server 2 refl (refl, (refl, (refl, tt)))

broadcast_to_room-delivered_example :
    ((broadcast_to_room env "lobby" "hi" (some 1) server).1 ≡ true)
    × (((broadcast_to_room env "lobby" "hi" (some 1) server).0.objects 2).delivered
        ≡ "[cherry @ lobby]: hi\r\n" ∷ [])
unfolding contains StringMap.find format_message is_system_message
broadcast_to_room-delivered_example =
    broadcast_to_room-delivered env "lobby" "hi" (some 1) lobby server 2 refl refl (refl, tt)

abbrev stopped : ChatServer
stopped = record server { stopped = true }

-- The sessions from 11 on, so many
abbrev crowd : ℕ → List ℕ
crowd zero = []
crowd (suc n) = (11 + n) ∷ crowd n

abbrev full_lobby : ChatRoom
full_lobby = record { name = "lobby"; participants = crowd 100; max_participants = 100 }

abbrev busy_server : ChatServer
busy_server = record server { rooms = ("lobby", full_lobby) ∷ [] }

abbrev garden : ChatRoom
garden = record { name = "garden"; participants = 1 ∷ []; max_participants = 100 }

abbrev two_rooms : ChatServer
two_rooms = record server { rooms = ("garden", garden) ∷ ("lobby", lobby) ∷ [] }

abbrev without_cherry : ChatServer
without_cherry = record server { nicknames = ("grape", 2) ∷ [] }

register-undefined_iff_example :
    (try_register_nickname_impl "melon" 1 without_cherry ≡ undefined) ↔ (
      ((people 1).alive ≡ true)
      × ((holder "melon" people without_cherry.nicknames ≡ none)
          ⊎ (holder "melon" people without_cherry.nicknames ≡ some 1))
      × (◌≢◌ {A = String} "cherry" "")
      × (◌≢◌ {A = String} "cherry" "melon")
      × (◌≢◌ {A = String} "cherry" (people 1).remote_id)
      × (StringMap.find "cherry" without_cherry.nicknames ≡ none))
register-undefined_iff_example = register-undefined_iff "melon" 1 without_cherry

get_user_list-holder_example :
    (has_name "grape" (get_user_list server).1 ≡ is_held (holder "grape" people server.nicknames))
    × (StringMap.find "grape" (get_user_list server).0.nicknames
        ≡ holder "grape" people server.nicknames)
get_user_list-holder_example = get_user_list-holder server "grape" refl ((refl, tt), (tt, tt))

abbrev two_messages : WriteQueue
two_messages = WriteQueue.deliver "b" (WriteQueue.deliver "a" new_queue)

abbrev two_messages-Reach : Reach two_messages
two_messages-Reach = next (next start (delivers "a")) (delivers "b")

Reach-IsValid_example : IsValid two_messages
Reach-IsValid_example = Reach-IsValid two_messages-Reach

drain-Reach_example : drain 2 two_messages ≡ some (queue [] false ("a" ∷ "b" ∷ []))
unfolding WriteQueue.deliver WriteQueue.do_write
drain-Reach_example = drain-Reach two_messages-Reach refl

running-undefined_example :
    (ChatSession.start 100 env 1 (server, false) ≡ undefined)
    × (ChatSession.on_read 100 env 1 (some "hi\n") (server, false) ≡ undefined)
    × (ChatSession.process_command 100 env 1 "/help" (server, false) ≡ undefined)
    × (ChatSession.WriteQueue.deliver 100 1 "hi" ChatSession.WriteQueue.new_queue ≡ undefined)
    × (ChatSession.stop_session 100 env 1 (server, false) ≡ undefined)
unfolding ChatSession.parse read_word
running-undefined_example =
    running-undefined 100 1 env server (some "hi\n") "/help" "hi" ChatSession.WriteQueue.new_queue
      refl
