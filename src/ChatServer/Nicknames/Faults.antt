-- ===== src/ChatServer/Nicknames/Faults.antt =====
-- When `try_register_nickname_impl` of src/ChatServer.cpp uses the end of the map as an entry.
use cherry_recorder_server.Prelude.{
  ℕ, String, true, none, some, Option, ◌≡◌, ◌≢◌, ◌⊎◌, arith, eq_iff, ==_iff, eq_refl, ◌↔◌,
}
use cherry_recorder_server.StringMap
use cherry_recorder_server.StringMap.{StringMap, find-assign, find-erase}
use cherry_recorder_server.Session.{Session, Objects}
use cherry_recorder_server.ChatServer.{ChatServer}
use cherry_recorder_server.ChatServer.Nicknames.{
  undefined, can_register, has_old_nick, rename, try_register_nickname_impl, unregister_nickname,
  lock,
}
use cherry_recorder_server.ChatServer.Nicknames.Registry.{holder}

-- `try_register_nickname_impl` dereferences the end of the map exactly for a living session that may have the name,
-- whose nickname was set before and is another, and has no entry in the registry.
pub register-guarded_iff :
    (nick : String) (s : ℕ) (w : ChatServer)
    → (try_register_nickname_impl nick s w ≡ undefined) ↔ (
        ((w.objects s).alive ≡ true)
        × (can_register s w.objects (StringMap.find nick w.nicknames) ≡ true)
        × (has_old_nick nick (w.objects s) ≡ true)
        × (StringMap.find (w.objects s).nickname w.nicknames ≡ none))
unfolding try_register_nickname_impl rename
register-guarded_iff nick s w = ground (
  arith,
  eq_iff nick (w.objects s).nickname,
  eq_iff (w.objects s).nickname nick,
  find-erase nick (w.objects s).nickname w.nicknames,
)

has_old_nick_iff :
    (nick : String) (m : Session)
    → (has_old_nick nick m ≡ true)
      ↔ ((m.nickname ≢ "") × (m.nickname ≢ nick) × (m.nickname ≢ m.remote_id))
has_old_nick_iff nick m =
    ground (arith, eq_iff m.nickname "", eq_iff m.nickname nick, eq_iff m.nickname m.remote_id)

can_register_iff :
    (s : ℕ) (o : Objects) (found : Option ℕ)
    → (can_register s o found ≡ true) ↔ ((lock o found ≡ none) ⊎ (lock o found ≡ some s))
can_register_iff s o none = ground arith
can_register_iff s o (some i) = ground (arith, ==_iff i s)

-- `try_register_nickname_impl` dereferences the end of the map exactly for a living session whose
-- nickname is not empty, not the name it asks for and not its temporary one, and is in no entry of the
-- registry, where no living session but itself holds the name it asks for.
pub register-undefined_iff :
    (nick : String) (s : ℕ) (w : ChatServer)
    → (try_register_nickname_impl nick s w ≡ undefined) ↔ (
        ((w.objects s).alive ≡ true)
        × ((holder nick w.objects w.nicknames ≡ none)
            ⊎ (holder nick w.objects w.nicknames ≡ some s))
        × ((w.objects s).nickname ≢ "")
        × ((w.objects s).nickname ≢ nick)
        × ((w.objects s).nickname ≢ (w.objects s).remote_id)
        × (StringMap.find (w.objects s).nickname w.nicknames ≡ none))
register-undefined_iff nick s w =
    let guarded = register-guarded_iff nick s w in
    let old = has_old_nick_iff nick (w.objects s) in
    let can = can_register_iff s w.objects (StringMap.find nick w.nicknames) in
    (
      λ e.
          let (alive, may, named, missing) = guarded.0 e in
          let (not_empty, other, set) = old.0 named in
          (alive, can.0 may, not_empty, other, set, missing),
      λ (alive, free, not_empty, other, set, missing).
          guarded.1 (alive, can.1 free, old.1 (not_empty, other, set), missing),
    )

-- If the nickname of a living session, set before, is unregistered, and the session then asks for
-- another name that nobody has, `try_register_nickname_impl` dereferences the end of the map.
pub register-unregister :
    (nick : String) (s : ℕ) (w : ChatServer)
    → (w.objects s).alive ≡ true
    → StringMap.find nick w.nicknames ≡ none
    → has_old_nick nick (w.objects s) ≡ true
    → try_register_nickname_impl nick s (unregister_nickname (w.objects s).nickname w) ≡ undefined
unfolding unregister_nickname
register-unregister nick s w alive free old =
    let v = unregister_nickname (w.objects s).nickname w in
    ground (
      arith,
      (register-guarded_iff nick s v).1,
      find-erase (w.objects s).nickname nick w.nicknames,
      find-erase (w.objects s).nickname (w.objects s).nickname w.nicknames,
      eq_refl (w.objects s).nickname,
      eq_iff (w.objects s).nickname nick,
    )
