-- ===== src/ChatServer/Nicknames.antt =====
-- The nickname registry of src/ChatServer.cpp: `try_register_nickname_async` and its `_impl`,
-- `unregister_nickname`, `find_session_by_nickname_async` and `get_user_list_async`.
pub mod Registry
pub mod Faults
pub mod Listing
pub mod Keeping
pub mod Leavers
use cherry_recorder_server.Prelude.{
  ℕ, String, Bool, true, false, Option, none, some, List, [], ◌∷◌, str_eq, ◌==◌, ltb, not, ◌||◌,
  ◌&&◌, if◌then◌else◌, Char, code,
}
use cherry_recorder_server.Text.{has_whitespace, byte_length}
use cherry_recorder_server.StringMap
use cherry_recorder_server.StringMap.{StringMap}
use cherry_recorder_server.Session.{Session, Objects}
use cherry_recorder_server.ChatServer.{ChatServer}

-- A call whose behaviour C++ leaves undefined, as the use of an iterator at the end, has no result.
pub data Outcome {ℓ} (A : Type ℓ) : Type ℓ where
  done : A → Outcome A
  undefined : Outcome A

unfoldable pub is_invalid_nickname : String → Bool
is_invalid_nickname nickname =
    str_eq nickname ""
    || has_whitespace nickname
    || ltb 20 (byte_length nickname)
    || str_eq nickname "Server"
    || str_eq nickname "system"

-- Who may take a name that the registry answers for: free, expired, or the session's own.
abbrev pub can_register : ℕ → Objects → Option ℕ → Bool
can_register session o none = true
can_register session o (some holder) = not (o holder).alive || holder == session

-- An expired entry is erased.
abbrev pub drop_expired : String → Objects → Option ℕ → StringMap ℕ → StringMap ℕ
drop_expired nickname o none names = names
drop_expired nickname o (some holder) names =
    if (o holder).alive then names else StringMap.erase nickname names

-- `old_it->second.lock()`: the entry of the old nickname goes if it is the session's or expired.
abbrev pub release_old : String → ℕ → Objects → Option ℕ → StringMap ℕ → Outcome (StringMap ℕ)
release_old old_nick session o none names = undefined
release_old old_nick session o (some holder) names =
    done
      (if not (o holder).alive || holder == session then StringMap.erase old_nick names else names)

abbrev pub has_old_nick : String → Session → Bool
has_old_nick nickname s =
    not (str_eq s.nickname "")
    && not (str_eq s.nickname nickname)
    && not (str_eq s.nickname s.remote_id)

abbrev pub register_as : String → ℕ → Outcome (StringMap ℕ) → Outcome (StringMap ℕ)
register_as nickname session undefined = undefined
register_as nickname session (done released) = done (StringMap.assign nickname session released)

-- The registry after the old entry is dealt with and the new one is written.
unfoldable pub rename : String → ℕ → Objects → StringMap ℕ → Outcome (StringMap ℕ)
rename nickname session o names =
    let old_nick = (o session).nickname in
    register_as nickname session (
      if has_old_nick nickname (o session)
      then release_old old_nick session o (StringMap.find old_nick names) names
      else done names)

abbrev pub registered : ChatServer → Outcome (StringMap ℕ) → Outcome (ChatServer × Bool)
registered w undefined = undefined
registered w (done names) = done (record w { nicknames = names }, true)

-- The result for the handler is the flag.
unfoldable pub try_register_nickname_impl : String → ℕ → ChatServer → Outcome (ChatServer × Bool)
unfolding rename
try_register_nickname_impl nickname session w =
    let found = StringMap.find nickname w.nicknames in
    if not (w.objects session).alive
    then done (w, false)
    else if can_register session w.objects found
    then registered w
        (rename nickname session w.objects (drop_expired nickname w.objects found w.nicknames))
    else done (w, false)

unfoldable pub try_register_nickname_async : String → ℕ → ChatServer → Outcome (ChatServer × Bool)
try_register_nickname_async nickname session w =
    if w.stopped || is_invalid_nickname nickname
    then done (w, false)
    else try_register_nickname_impl nickname session w

unfoldable pub unregister_nickname : String → ChatServer → ChatServer
unregister_nickname nickname w =
    if str_eq nickname "" then w else record w { nicknames = StringMap.erase nickname w.nicknames }

-- A `weak_ptr` that is locked
abbrev pub lock : Objects → Option ℕ → Option ℕ
lock o none = none
lock o (some i) = if (o i).alive then some i else none

unfoldable pub find_session_by_nickname : String → ChatServer → Option ℕ
find_session_by_nickname nickname w =
    if w.stopped then none else lock w.objects (StringMap.find nickname w.nicknames)

-- The loop of `get_user_list_async`: the names of the sessions that live, and the map without the
-- others.
unfoldable pub scan_users : Objects → StringMap ℕ → List String × StringMap ℕ
scan_users o [] = ([], [])
scan_users o ((name, i) ∷ names) =
    let (users, kept) = scan_users o names in
    if (o i).alive then (name ∷ users, (name, i) ∷ kept) else (users, kept)

unfoldable pub get_user_list : ChatServer → ChatServer × List String
unfolding scan_users
get_user_list w =
    if w.stopped
    then (w, [])
    else let (users, kept) = scan_users w.objects w.nicknames in
      (record w { nicknames = kept }, users)
