-- ===== src/ChatServer/Sessions/Leaving.antt =====
-- What `leave` of src/ChatServer.cpp takes the session out of.
use cherry_recorder_server.Prelude.{
  ℕ, List, String, Bool, true, false, Option, none, some, ◌≡◌, ◌≢◌, refl, ◌∙◌, arith, str_eq,
  str_eq-ne, eq_iff, eq_refl, ==_refl, if◌then◌else◌, inl, inr, Bool-cases, not, ◌&&◌,
}
use cherry_recorder_server.StringMap
use cherry_recorder_server.StringMap.{StringMap, find-erase}
use cherry_recorder_server.IdSet
use cherry_recorder_server.IdSet.{contains, contains-erase}
use cherry_recorder_server.ChatRoom.{ChatRoom}
use cherry_recorder_server.History.{Env}
use cherry_recorder_server.ChatServer.{ChatServer, broadcast_impl}
use cherry_recorder_server.ChatServer.Rooms.{left, depart, leave_room, leave_all_rooms_impl}
use cherry_recorder_server.ChatServer.Rooms.Membership.{IsConsistent}
use cherry_recorder_server.ChatServer.Rooms.Departure.{depart-Nowhere}
use cherry_recorder_server.ChatServer.Nicknames.{unregister_nickname}
use cherry_recorder_server.ChatServer.Sessions.{leave}

-- The session is in no room.
pub record IsNowhere (s : ℕ) (w : ChatServer) : Type 0 where
  pub nowhere :
      (name : String) (room : ChatRoom)
      → StringMap.find name w.rooms ≡ some room
      → contains s room.participants ≡ false

same_rooms-IsNowhere :
    (s : ℕ) (v w : ChatServer) → v.rooms ≡ w.rooms → IsNowhere s w → IsNowhere s v
same_rooms-IsNowhere s v w e n = record { nowhere = λ j r f. n.nowhere j r (rw e at f) }

not_inside : (b : Bool) → (b ≡ true → ⊥) → b ≡ false
not_inside true h = absurd (h refl)
not_inside false h = refl

left-IsNowhere :
    (s : ℕ) (w : ChatServer) (o : Option ChatRoom)
    → StringMap.find (w.objects s).current_room w.rooms ≡ o
    → IsConsistent w
    → IsNowhere s (left (w.objects s).current_room s o w).0
left-IsNowhere s w none e c = record {
  nowhere = λ j r f. not_inside _ (λ h. cc (c.current j r s f h, e, f));
}
left-IsNowhere s w (some room) e c =
    let here = (w.objects s).current_room in
    same_rooms-IsNowhere s _ (depart here s room w) refl
      (record { nowhere = λ j r f. not_inside _ (depart-Nowhere here s room w e c refl j r f) })

leave_all_rooms-IsNowhere :
    (s : ℕ) (w : ChatServer)
    → w.stopped ≡ false
    → IsConsistent w
    → IsNowhere s (leave_all_rooms_impl s w)
unfolding leave_all_rooms_impl leave_room
leave_all_rooms-IsNowhere s w running c = elim (Bool-cases (str_eq (w.objects s).current_room "")) [
  | inl none_now ↦ simp none_now (record {
    nowhere = λ j r f. not_inside _ λ h.
        cc
          (c.current j r s f h, (eq_iff (w.objects s).current_room "").0 none_now, c.no_unnamed, f);
  })
  | inr some_room ↦ simp (some_room, running) (left-IsNowhere s w _ refl c)
]

module _ (s : ℕ) (w : ChatServer) where
  leave_all_rooms-nicknames : (leave_all_rooms_impl s w).nicknames ≡ w.nicknames
  unfolding leave_all_rooms_impl leave_room depart
  leave_all_rooms-nicknames = ground arith

-- The nicknames after `leave`
abbrev pub without_nickname : String → String → ChatServer → StringMap ℕ
without_nickname nickname remote_id w =
    if not (str_eq nickname "") && not (str_eq nickname remote_id)
    then StringMap.erase nickname w.nicknames
    else w.nicknames

module _ (env : Env) (s : ℕ) (w : ChatServer) (running : w.stopped ≡ false) where
  leave-sessions : (sessions : List ℕ) × ((leave env s w).sessions ≡ IdSet.erase s sessions)
  unfolding leave broadcast_impl unregister_nickname
  leave-sessions = ((leave_all_rooms_impl s w).sessions, simp running (ground arith))

  leave-rooms : (leave env s w).rooms ≡ (leave_all_rooms_impl s w).rooms
  unfolding leave broadcast_impl unregister_nickname
  leave-rooms = simp running (ground arith)

  pub leave-nicknames :
      (leave env s w).nicknames ≡ without_nickname (w.objects s).nickname (w.objects s).remote_id w
  unfolding leave broadcast_impl unregister_nickname
  leave-nicknames = simp running (ground (arith, leave_all_rooms-nicknames s w))

-- A session that leaves a running server, where the rooms and the current rooms of their participants
-- agree, and whose nickname is neither empty nor its temporary one, is then not among the sessions
-- and in no room, and nobody is registered under its nickname.
pub leave-gone :
    (env : Env) (s : ℕ) (w : ChatServer)
    → w.stopped ≡ false
    → IsConsistent w
    → (w.objects s).nickname ≢ ""
    → (w.objects s).nickname ≢ (w.objects s).remote_id
    → (contains s (leave env s w).sessions ≡ false)
      × IsNowhere s (leave env s w)
      × (StringMap.find (w.objects s).nickname (leave env s w).nicknames ≡ none)
leave-gone env s w running c named set = (
  (let (sessions, e) = leave-sessions env s w running in
      rw e (contains-erase s s sessions ∙ rw ==_refl)),
  same_rooms-IsNowhere s _ _ (leave-rooms env s w running)
      (leave_all_rooms-IsNowhere s w running c),
  (let n = (w.objects s).nickname in
      rw (leave-nicknames env s w running) (
        simp (str_eq-ne n "" named, str_eq-ne n (w.objects s).remote_id set)
          (find-erase n n w.nicknames ∙ rw eq_refl))),
)
