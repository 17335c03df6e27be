-- ===== src/ChatServer/Nicknames/Keeping.antt =====
-- Who is registered under which nickname, kept by the calls of src/ChatServer.cpp that the sessions
-- make of the registry.
use cherry_recorder_server.Prelude.{
  ℕ, String, Bool, true, false, ◌≡◌, ◌≢◌, inl, inr, refl, ap, arith, ◌∙◌, if◌then◌else◌, Option,
  some, none, eq_iff, ◌==◌, ==_iff, Bool-cases,
}
use cherry_recorder_server.StringMap
use cherry_recorder_server.StringMap.{StringMap, find-assign, find-erase}
use cherry_recorder_server.StringMap.Sorted.{IsSorted, assign-IsSorted, erase-IsSorted}
use cherry_recorder_server.IdSet.{contains}
use cherry_recorder_server.Session.{Objects, set_nickname}
use cherry_recorder_server.ChatServer.{ChatServer}
use cherry_recorder_server.ChatServer.Frames.{SameNames}
use cherry_recorder_server.ChatServer.Nicknames.{
  Outcome, done, undefined, lock, try_register_nickname_impl, rename, drop_expired, release_old,
  has_old_nick, register_as, registered,
}
use cherry_recorder_server.ChatServer.Nicknames.Registry.{
  holder, registered-holder, register_iff, register_failure, register-frame,
}
use cherry_recorder_server.ChatServer.Nicknames.Faults.{register-guarded_iff}

-- Each connected session lives, and holds the nickname it has set in the registry.
pub record IsRegistered (w : ChatServer) : Type 0 where
  pub holds :
      (j : ℕ)
      → contains j w.sessions ≡ true
      → ((w.objects j).nickname ≢ "")
      → ((w.objects j).nickname ≢ (w.objects j).remote_id)
      → StringMap.find (w.objects j).nickname w.nicknames ≡ some j
  pub live : (j : ℕ) → contains j w.sessions ≡ true → (w.objects j).alive ≡ true

pub SameNames-IsRegistered : (v w : ChatServer) → SameNames v w → IsRegistered w → IsRegistered v
SameNames-IsRegistered v w same reg = record {
  live = λ j h. (same.same_identities j).same_alive ∙ reg.live j (rw same.same_sessions at h);
  holds = λ j h named set.
      let id = same.same_identities j in
      ap (λ n. StringMap.find n v.nicknames) id.same_nickname
      ∙ ap (StringMap.find (w.objects j).nickname) same.same_nicknames
      ∙ reg.holds j (rw same.same_sessions at h) (rw id.same_nickname at named)
          (rw (id.same_nickname, id.same_remote_id) at set);
}

-- The session takes the nickname itself.
abbrev pub renamed : ℕ → String → ChatServer → ChatServer
renamed s nick w = record w { objects = set_nickname s nick w.objects }

locked : (o : Objects) (found : Option ℕ) (j : ℕ) → lock o found ≡ some j → found ≡ some j
locked o found j e = ground arith

-- Nobody else loses a name by a registration.
others_hold :
    (s : ℕ) (nick : String) (w u : ChatServer)
    → IsRegistered w
    → contains s w.sessions ≡ true
    → try_register_nickname_impl nick s w ≡ done (u, true)
    → (j : ℕ) → contains j w.sessions ≡ true
    → (w.objects j).nickname ≢ ""
    → (w.objects j).nickname ≢ (w.objects j).remote_id
    → s ≢ j
    → StringMap.find (w.objects j).nickname u.nicknames ≡ some j
others_hold s nick w u reg here e j inside named set other =
    let name = (w.objects j).nickname in
    let held : holder name w.objects w.nicknames ≡ some j =
      ground (arith, reg.holds j inside named set, reg.live j inside) in
    let not_taken : nick ≢ name = λ same. ground (
      arith,
      (register_iff nick s w u true (reg.live s here) e).0 refl,
      held,
      ap (λ n. holder n w.objects w.nicknames) same,
    ) in
    locked u.objects _ j (ground (arith, (registered-holder nick s w u e).1 name not_taken))

-- After a registration that succeeds, the session takes the name.
pub renamed-IsRegistered :
    (s : ℕ) (nick : String) (w u : ChatServer)
    → IsRegistered w
    → contains s w.sessions ≡ true
    → try_register_nickname_impl nick s w ≡ done (u, true)
    → IsRegistered (renamed s nick u)
unfolding set_nickname
renamed-IsRegistered s nick w u reg here e =
    let frame = register-frame nick s w u true e in
    let v = renamed s nick u in
    let was : (j : ℕ) → contains j v.sessions ≡ true → contains j w.sessions ≡ true =
      λ j h. rw frame.1 at h in
    record {
      live = λ j h. ground (arith, ap (λ o. (o j).alive) frame.0, reg.live j (was j h));
      holds = λ j h named set. elim (Bool-cases (s == j)) [
        | inl same ↦
            let named_so : (v.objects j).nickname ≡ nick = ground (arith, same) in
            ap (λ n. StringMap.find n v.nicknames) named_so
            ∙ locked u.objects _ s (registered-holder nick s w u e).0
            ∙ ap some ((==_iff s j).0 same)
        | inr other ↦
            let named_so : (v.objects j).nickname ≡ (w.objects j).nickname =
              ground (arith, other, ap (λ o. (o j).nickname) frame.0) in
            let id : (v.objects j).remote_id ≡ (w.objects j).remote_id =
              ground (arith, other, ap (λ o. (o j).remote_id) frame.0) in
            ap (λ n. StringMap.find n v.nicknames) named_so
            ∙ others_hold s nick w u reg here e j (was j h) (rw named_so at named)
                (rw (named_so, id) at set) (λ p. cc ((==_iff s j).1 p))
      ];
    }

pub never_undefined :
    (s : ℕ) (nick : String) (w : ChatServer)
    → IsRegistered w
    → contains s w.sessions ≡ true
    → try_register_nickname_impl nick s w ≢ undefined
never_undefined s nick w reg here e =
    let (alive, can, old, gone) = (register-guarded_iff nick s w).0 e in
    ground (
      arith,
      reg.holds s here,
      eq_iff (w.objects s).nickname "",
      eq_iff (w.objects s).nickname (w.objects s).remote_id,
    )

if-IsSorted :
    (b : Bool) (m n : StringMap ℕ) → IsSorted m → IsSorted n → IsSorted (if b then m else n)
if-IsSorted true m n h k = h
if-IsSorted false m n h k = k

drop_expired-IsSorted :
    (nick : String) (o : Objects) (found : Option ℕ) (names : StringMap ℕ)
    → IsSorted names
    → IsSorted (drop_expired nick o found names)
drop_expired-IsSorted nick o none names h = h
drop_expired-IsSorted nick o (some i) names h =
    if-IsSorted (o i).alive names (StringMap.erase nick names) h (erase-IsSorted nick names h)

abbrev SortedAfter : Outcome (StringMap ℕ) → Type 0
SortedAfter undefined = Unit
SortedAfter (done names) = IsSorted names

release_old-IsSorted :
    (old : String) (s : ℕ) (o : Objects) (found : Option ℕ) (names : StringMap ℕ)
    → IsSorted names
    → SortedAfter (release_old old s o found names)
release_old-IsSorted old s o none names h = tt
release_old-IsSorted old s o (some i) names h =
    if-IsSorted _ (StringMap.erase old names) names (erase-IsSorted old names h) h

register_as-IsSorted :
    (nick : String) (s : ℕ) (r : Outcome (StringMap ℕ))
    → SortedAfter r
    → SortedAfter (register_as nick s r)
register_as-IsSorted nick s undefined h = tt
register_as-IsSorted nick s (done names) h = assign-IsSorted nick s names h

if-SortedAfter :
    (b : Bool) (m n : Outcome (StringMap ℕ))
    → SortedAfter m
    → SortedAfter n
    → SortedAfter (if b then m else n)
if-SortedAfter true m n h k = h
if-SortedAfter false m n h k = k

rename-IsSorted :
    (nick : String) (s : ℕ) (o : Objects) (names : StringMap ℕ)
    → IsSorted names
    → SortedAfter (rename nick s o names)
unfolding rename
rename-IsSorted nick s o names h =
    let old = (o s).nickname in
    register_as-IsSorted nick s _ (
      if-SortedAfter (has_old_nick nick (o s))
        (release_old old s o (StringMap.find old names) names) (done names)
        (release_old-IsSorted old s o _ names h) h)

registered-IsSorted :
    (w v : ChatServer) (success : Bool) (r : Outcome (StringMap ℕ))
    → SortedAfter r
    → registered w r ≡ done (v, success)
    → IsSorted v.nicknames
registered-IsSorted w v success undefined h e = cc
registered-IsSorted w v success (done names) h e =
    let same : v.nicknames ≡ names = ground (arith, e) in rw same h

granted-rename :
    (nick : String) (s : ℕ) (w v : ChatServer)
    → try_register_nickname_impl nick s w ≡ done (v, true)
    → registered w (
        rename nick s w.objects
          (drop_expired nick w.objects (StringMap.find nick w.nicknames) w.nicknames))
      ≡ done (v, true)
unfolding try_register_nickname_impl
granted-rename nick s w v e = ground (arith, e)

-- A registration keeps the registry in order.
pub register-IsSorted :
    (nick : String) (s : ℕ) (w v : ChatServer) (success : Bool)
    → IsSorted w.nicknames
    → try_register_nickname_impl nick s w ≡ done (v, success)
    → IsSorted v.nicknames
register-IsSorted nick s w v true h e =
    let names = drop_expired nick w.objects (StringMap.find nick w.nicknames) w.nicknames in
    registered-IsSorted w v true (rename nick s w.objects names)
      (rename-IsSorted nick s w.objects names
        (drop_expired-IsSorted nick w.objects _ w.nicknames h))
      (granted-rename nick s w v e)
register-IsSorted nick s w v false h e = rw (register_failure nick s w v e) h
