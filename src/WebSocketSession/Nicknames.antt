-- ===== src/WebSocketSession/Nicknames.antt =====
-- The `/nick` command of src/WebSocketSession.cpp from the request to the end of its handler.
use cherry_recorder_server.Prelude.{ℕ, String, true, false, ◌≡◌, some, ◌⧺◌, str_eq}
use cherry_recorder_server.IdSet.{contains}
use cherry_recorder_server.History.{Env}
use cherry_recorder_server.ChatServer.{ChatServer, broadcast}
use cherry_recorder_server.ChatServer.Frames.Messages.{
  SameState, SameState-trans, deliver-SameState, broadcast-SameState, if-SameState,
}
use cherry_recorder_server.ChatServer.Nicknames.{done}
use cherry_recorder_server.ChatServer.Nicknames.Keeping.{IsRegistered, renamed}
use cherry_recorder_server.WebSocketSession.{nick_handler, change_nickname, tell}
use cherry_recorder_server.WebSocketSession.Handlers.{KeptBy, handled_registration}

-- After a success, the handler names the session and otherwise only talks.
nick_handler_yes :
    (env : Env) (s : ℕ) (nick : String) (w : ChatServer)
    → SameState (nick_handler env s nick (w, true)) (renamed s nick w)
unfolding nick_handler
nick_handler_yes env s nick w =
    let v = renamed s nick w in
    let told = tell s ("* 닉네임이 '" ⧺ nick ⧺ "'(으)로 변경되었습니다.\r\n") v in
    let old = (w.objects s).nickname in
    let came = broadcast env ("* 사용자 '" ⧺ nick ⧺ "'님이 입장했습니다.\r\n") (some s) told in
    let changed =
      broadcast env ("* '" ⧺ old ⧺ "'님이 '" ⧺ nick ⧺ "'(으)로 닉네임을 변경했습니다.\r\n") (some s) told in
    SameState-trans _ told v
      (if-SameState (str_eq old (w.objects s).remote_id) came changed told
        (broadcast-SameState env _ (some s) told) (broadcast-SameState env _ (some s) told))
      (deliver-SameState s _ v)

nick_handler_no :
    (env : Env) (s : ℕ) (nick : String) (w : ChatServer)
    → SameState (nick_handler env s nick (w, false)) w
unfolding nick_handler
nick_handler_no env s nick w = deliver-SameState s _ w

pub change_nickname-Keeps :
    (env : Env) (s : ℕ) (nick : String) (w : ChatServer)
    → IsRegistered w
    → contains s w.sessions ≡ true
    → KeptBy w (change_nickname env s nick w)
unfolding change_nickname
change_nickname-Keeps env s nick w =
    handled_registration s nick (nick_handler env s nick) (nick_handler_yes env s nick)
      (nick_handler_no env s nick) w

-- Where each connected session lives and holds the nickname it has set, the `/nick` command of a
-- connected session, with its handler, has a result, and that still holds after it.
pub change_nickname-IsRegistered :
    (env : Env) (s : ℕ) (nick : String) (w : ChatServer)
    → IsRegistered w
    → contains s w.sessions ≡ true
    → (v : ChatServer) × (change_nickname env s nick w ≡ done v) × IsRegistered v
change_nickname-IsRegistered env s nick w reg here =
    let (v, e, kept) = change_nickname-Keeps env s nick w reg here in (v, e, kept.registered)
