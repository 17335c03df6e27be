-- ===== src/ChatServer/Sessions/Twice.antt =====
-- `leave` of src/ChatServer.cpp for a session that has left before, as `on_write` and `on_read` of
-- src/WebSocketSession.cpp call it when a write and then the pending read fail.
use cherry_recorder_server.Prelude.{
  ℕ, String, Bool, true, false, none, ◌≡◌, ◌≢◌, refl, ◌∙◌, arith, str_eq, str_eq-ne, eq_refl,
  if◌then◌else◌, not, ◌&&◌, ◌⧺◌,
}
use cherry_recorder_server.StringMap
use cherry_recorder_server.StringMap.{StringMap, find-erase}
use cherry_recorder_server.IdSet.{contains}
use cherry_recorder_server.History.{Env}
use cherry_recorder_server.ChatServer.{ChatServer, broadcast_impl}
use cherry_recorder_server.ChatServer.Frames.{SameIdentities}
use cherry_recorder_server.ChatServer.Frames.Messages.{broadcast_impl-SameState}
use cherry_recorder_server.ChatServer.Rooms.{leave_all_rooms_impl, leave_room, depart}
use cherry_recorder_server.ChatServer.Rooms.Departure.{if_lemma}
use cherry_recorder_server.ChatServer.Soundness.{gone, leave_all_rooms-SameNames}
use cherry_recorder_server.ChatServer.Nicknames.{
  undefined, is_invalid_nickname, has_old_nick, try_register_nickname_async, unregister_nickname,
}
use cherry_recorder_server.ChatServer.Nicknames.Faults.{register-guarded_iff}
use cherry_recorder_server.ChatServer.Sessions.{leave}
use cherry_recorder_server.ChatServer.Sessions.Leaving.{leave-nicknames}

gone-objects :
    (named : Bool) (nick : String) (s : ℕ) (u : ChatServer)
    → (gone named nick s u).objects ≡ u.objects
unfolding unregister_nickname
gone-objects named nick s u = ground arith

told-SameIdentities :
    (env : Env) (text : String) (v w : ChatServer)
    → SameIdentities v.objects w.objects
    → SameIdentities (broadcast_impl env text none v).objects w.objects
told-SameIdentities env text v w same j =
    ground (arith, (broadcast_impl-SameState env text none v).names.same_identities j, same j)

-- Whoever leaves, the sessions stay who they are.
leave-SameIdentities :
    (env : Env) (s : ℕ) (w : ChatServer) → SameIdentities (leave env s w).objects w.objects
unfolding leave
leave-SameIdentities env s w =
    let nickname = (w.objects s).nickname in
    let named = not (str_eq nickname "") && not (str_eq nickname (w.objects s).remote_id) in
    let u = leave_all_rooms_impl s w in
    let rest = gone named nickname s u in
    let v = if named then unregister_nickname nickname u else u in
    let told = broadcast_impl env ("* 사용자 '" ⧺ nickname ⧺ "'님이 퇴장했습니다.\r\n") none rest in
    let kept : SameIdentities rest.objects w.objects =
      rw (gone-objects named nickname s u) (leave_all_rooms-SameNames s w).same_identities in
    if_lemma (λ x. SameIdentities x.objects w.objects) w.stopped w _ (λ _ j. ground arith)
      (λ _.
        if_lemma (λ x. SameIdentities x.objects w.objects) (contains s v.sessions && named) told
          rest (λ _. told-SameIdentities env _ rest w kept) (λ _. kept))

leave-stopped :
    (env : Env) (s : ℕ) (w : ChatServer) → w.stopped ≡ false → (leave env s w).stopped ≡ false
unfolding leave leave_all_rooms_impl leave_room depart unregister_nickname broadcast_impl
leave-stopped env s w running = simp running (ground arith)

-- On a running server, if a session leaves whose nickname, neither empty nor its temporary one, a
-- living session has too, as the one that took it after a first leave, then nobody is registered under
-- it any more; and if it is not the temporary nickname of the living session either, a request of that
-- session for another valid name, which is in no entry of the registry, dereferences the end of the
-- map.
pub leave-twice :
    (env : Env) (s i : ℕ) (next : String) (w : ChatServer)
    → w.stopped ≡ false
    → (w.objects s).nickname ≢ ""
    → (w.objects s).nickname ≢ (w.objects s).remote_id
    → (w.objects i).alive ≡ true
    → (w.objects i).nickname ≡ (w.objects s).nickname
    → has_old_nick next (w.objects i) ≡ true
    → is_invalid_nickname next ≡ false
    → StringMap.find next w.nicknames ≡ none
    → (StringMap.find (w.objects s).nickname (leave env s w).nicknames ≡ none)
      × (try_register_nickname_async next i (leave env s w) ≡ undefined)
unfolding try_register_nickname_async
leave-twice env s i next w running named set alive same old valid free =
    let v = leave env s w in
    let nick = (w.objects s).nickname in
    let id = leave-SameIdentities env s w i in
    let after : v.nicknames ≡ StringMap.erase nick w.nicknames =
      leave-nicknames env s w running
      ∙ simp (str_eq-ne nick "" named, str_eq-ne nick (w.objects s).remote_id set) in
    let gone_now : StringMap.find nick v.nicknames ≡ none =
      rw after (find-erase nick nick w.nicknames ∙ rw eq_refl) in
    let still_free : StringMap.find next v.nicknames ≡ none =
      rw after (find-erase nick next w.nicknames ∙ ground (arith, free)) in
    (
      gone_now,
      simp (leave-stopped env s w running, valid)
          ((register-guarded_iff next i v).1 (
            id.same_alive ∙ alive,
            rw still_free refl,
            rw (id.same_nickname, id.same_remote_id) old,
            rw (id.same_nickname, same) gone_now,
          )),
    )
