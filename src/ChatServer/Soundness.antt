-- ===== src/ChatServer/Soundness.antt =====
-- The invariant of the server of src/ChatServer.cpp, and the calls of the sessions that keep it.
use cherry_recorder_server.Prelude.{
  ℕ, String, Bool, true, false, not, ◌||◌, ◌&&◌, none, some, ◌≡◌, refl, arith, if◌then◌else◌, ◌⧺◌,
  str_eq, eq_iff, ltb,
}
use cherry_recorder_server.Text.{has_whitespace, byte_length}
use cherry_recorder_server.StringMap.Sorted.{IsSorted, erase-IsSorted}
use cherry_recorder_server.IdSet
use cherry_recorder_server.IdSet.{contains}
use cherry_recorder_server.History.{Env}
use cherry_recorder_server.ChatServer.{ChatServer, broadcast_impl}
use cherry_recorder_server.ChatServer.Frames.{
  SameNames, join_room-SameNames, leave_room-SameNames, SameNames-refl,
}
use cherry_recorder_server.ChatServer.Frames.Messages.{SameState, broadcast_impl-SameState}
use cherry_recorder_server.ChatServer.Rooms.{
  join_room, join_room_async, leave_room, leave_room_async, leave_all_rooms_impl,
}
use cherry_recorder_server.ChatServer.Rooms.Departure.{if_lemma, if_lemma_fst}
use cherry_recorder_server.ChatServer.Rooms.Capacity.{
  IsBounded, join_room-IsBounded, leave_room-IsBounded, same_rooms-IsBounded,
}
use cherry_recorder_server.ChatServer.Nicknames.{get_user_list, unregister_nickname}
use cherry_recorder_server.ChatServer.Nicknames.Keeping.{IsRegistered, SameNames-IsRegistered}
use cherry_recorder_server.ChatServer.Nicknames.Leavers.{
  insert-IsRegistered, erase-IsRegistered, forget-IsRegistered, get_user_list-IsSorted,
  get_user_list-IsRegistered,
}
use cherry_recorder_server.ChatServer.Sessions.{join, leave, is_named}

-- The registry is in order and holds the nicknames of the connected sessions, who live, and the
-- rooms are within their limits.
pub record IsSound (w : ChatServer) : Type 0 where
  pub registered : IsRegistered w
  pub ordered : IsSorted w.nicknames
  pub bounded : IsBounded w

frame-IsSound : (v w : ChatServer) → SameNames v w → IsBounded v → IsSound w → IsSound v
frame-IsSound v w same b sound = record {
  registered = SameNames-IsRegistered v w same sound.registered;
  ordered = rw same.same_nicknames sound.ordered;
  bounded = b;
}

pub SameState-IsSound : (v w : ChatServer) → SameState v w → IsSound w → IsSound v
SameState-IsSound v w same sound =
    frame-IsSound v w same.names (same_rooms-IsBounded v w same.rooms.same_rooms sound.bounded)
      sound

join_room-IsSound :
    (name : String) (s : ℕ) (w : ChatServer) → IsSound w → IsSound (join_room name s w).0
join_room-IsSound name s w h =
    frame-IsSound _ w (join_room-SameNames name s w) (join_room-IsBounded name s w h.bounded) h

pub join_room_async-IsSound :
    (name : String) (s : ℕ) (w : ChatServer) → IsSound w → IsSound (join_room_async name s w).0
unfolding join_room_async
join_room_async-IsSound name s w h =
    if_lemma_fst IsSound
      (w.stopped || str_eq name "" || has_whitespace name || ltb 30 (byte_length name)) (w, false)
      (join_room name s w) h (join_room-IsSound name s w h)

pub leave_room-IsSound :
    (name : String) (s : ℕ) (w : ChatServer) → IsSound w → IsSound (leave_room name s w).0
leave_room-IsSound name s w h =
    frame-IsSound _ w (leave_room-SameNames name s w) (leave_room-IsBounded name s w h.bounded) h

pub leave_room_async-IsSound :
    (name : String) (s : ℕ) (w : ChatServer) → IsSound w → IsSound (leave_room_async name s w).0
unfolding leave_room_async
leave_room_async-IsSound name s w h =
    if_lemma_fst IsSound
      (w.stopped || str_eq name "" || not (str_eq (w.objects s).current_room name)) (w, false)
      (leave_room name s w) h (leave_room-IsSound name s w h)

get_user_list-rooms : (w : ChatServer) → (get_user_list w).0.rooms ≡ w.rooms
unfolding get_user_list
get_user_list-rooms w = ground arith

pub get_user_list-IsSound : (w : ChatServer) → IsSound w → IsSound (get_user_list w).0
get_user_list-IsSound w h = record {
  registered = get_user_list-IsRegistered w h.ordered h.registered;
  ordered = get_user_list-IsSorted w h.ordered;
  bounded = same_rooms-IsBounded _ w (get_user_list-rooms w) h.bounded;
}

-- A session that has no nickname of its own yet comes.
pub join-IsSound :
    (env : Env) (s : ℕ) (w : ChatServer)
    → (w.objects s).alive ≡ true
    → (w.objects s).nickname ≡ (w.objects s).remote_id
    → IsSound w
    → IsSound (join env s w)
unfolding join
join-IsSound env s w alive fresh h =
    let v = record w { sessions = IdSet.insert s w.sessions } in
    let inserted : IsSound v = record {
      registered = insert-IsRegistered s w alive fresh h.registered;
      ordered = h.ordered;
      bounded = same_rooms-IsBounded v w refl h.bounded;
    } in
    if_lemma IsSound w.stopped w _ (λ _. h)
      (λ _.
        if_lemma IsSound (is_named (w.objects s)) _ v
          (λ _. SameState-IsSound _ v (broadcast_impl-SameState env _ (some s) v) inserted)
          (λ _. inserted))

leave_all_rooms-IsSound : (s : ℕ) (w : ChatServer) → IsSound w → IsSound (leave_all_rooms_impl s w)
unfolding leave_all_rooms_impl
leave_all_rooms-IsSound s w h =
    let here = (w.objects s).current_room in
    if_lemma IsSound (str_eq here "") w _ (λ _. h) (λ _. leave_room-IsSound here s w h)

pub leave_all_rooms-SameNames : (s : ℕ) (w : ChatServer) → SameNames (leave_all_rooms_impl s w) w
unfolding leave_all_rooms_impl
leave_all_rooms-SameNames s w =
    let here = (w.objects s).current_room in
    if_lemma (λ v. SameNames v w) (str_eq here "") w _ (λ _. SameNames-refl w)
      (λ _. leave_room-SameNames here s w)

-- The session goes, and its nickname with it if it has one.
abbrev pub gone : Bool → String → ℕ → ChatServer → ChatServer
gone named nickname s u =
    let v = if named then unregister_nickname nickname u else u in
    record v { sessions = IdSet.erase s v.sessions }

gone-IsSound :
    (named : Bool) (nickname remote_id : String) (s : ℕ) (u : ChatServer)
    → (u.objects s).nickname ≡ nickname
    → (u.objects s).remote_id ≡ remote_id
    → (not (str_eq nickname "") && not (str_eq nickname remote_id)) ≡ named
    → contains s u.sessions ≡ true
    → IsSound u
    → IsSound (gone named nickname s u)
unfolding unregister_nickname
gone-IsSound false nickname remote_id s u same_name same_id e here h = record {
  registered = erase-IsRegistered s u h.registered;
  ordered = h.ordered;
  bounded = same_rooms-IsBounded _ u refl h.bounded;
}
gone-IsSound true nickname remote_id s u same_name same_id e here h =
    let named : str_eq nickname "" ≡ false = ground arith in
    let forgotten =
      forget-IsRegistered s u h.registered here (λ p. ground (arith, eq_iff nickname ""))
        (λ p. ground (arith, eq_iff nickname remote_id)) in
    rw named (record {
      registered = rw same_name at forgotten;
      ordered = erase-IsSorted nickname u.nicknames h.ordered;
      bounded = same_rooms-IsBounded _ u refl h.bounded;
    })

-- A connected session leaves.
pub leave-IsSound :
    (env : Env) (s : ℕ) (w : ChatServer)
    → contains s w.sessions ≡ true
    → IsSound w
    → IsSound (leave env s w)
unfolding leave
leave-IsSound env s w here h =
    let nickname = (w.objects s).nickname in
    let named = not (str_eq nickname "") && not (str_eq nickname (w.objects s).remote_id) in
    let u = leave_all_rooms_impl s w in
    let same = leave_all_rooms-SameNames s w in
    let rest = gone named nickname s u in
    let id = same.same_identities s in
    let sound : IsSound rest =
      gone-IsSound named nickname (w.objects s).remote_id s u id.same_nickname id.same_remote_id
        refl (rw same.same_sessions here) (leave_all_rooms-IsSound s w h) in
    let v = if named then unregister_nickname nickname u else u in
    let told = broadcast_impl env ("* 사용자 '" ⧺ nickname ⧺ "'님이 퇴장했습니다.\r\n") none rest in
    if_lemma IsSound w.stopped w _ (λ _. h)
      (λ _.
        if_lemma IsSound (contains s v.sessions && named) told rest
          (λ _. SameState-IsSound told rest (broadcast_impl-SameState env _ none rest) sound)
          (λ _. sound))
