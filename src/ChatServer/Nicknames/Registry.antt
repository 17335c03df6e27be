-- ===== src/ChatServer/Nicknames/Registry.antt =====
-- Who holds which nickname after the calls of src/ChatServer.cpp.
use cherry_recorder_server.Prelude.{
  ℕ, String, Bool, true, false, Option, none, some, ◌≡◌, ◌≢◌, arith, eq_iff, eq_refl, ◌⊎◌, ◌↔◌,
}
use cherry_recorder_server.StringMap
use cherry_recorder_server.StringMap.{StringMap, find-assign, find-erase}
use cherry_recorder_server.Session.{Objects}
use cherry_recorder_server.ChatServer.{ChatServer}
use cherry_recorder_server.ChatServer.Nicknames.{
  done, drop_expired, rename, try_register_nickname_impl, lock,
}

-- The session that a name leads to, if it lives.
abbrev pub holder : String → Objects → StringMap ℕ → Option ℕ
holder name o names = lock o (StringMap.find name names)

rename_self :
    (nick : String) (s : ℕ) (o : Objects) (names after : StringMap ℕ)
    → rename nick s o names ≡ done after
    → StringMap.find nick after ≡ some s
unfolding rename
rename_self nick s o names after e = ground (
  arith,
  eq_refl nick,
  find-assign nick nick s (StringMap.erase (o s).nickname names),
  find-assign nick nick s names,
)

-- Another name keeps its holder, but the old name of the session is given up.
rename-ne :
    (nick other : String) (s : ℕ) (o : Objects) (names after : StringMap ℕ)
    → rename nick s o names ≡ done after
    → nick ≢ other
    → (holder other o after ≡ holder other o names)
      ⊎ ((holder other o after ≡ none) × (holder other o names ≡ some s) × (other ≡ (o s).nickname))
unfolding rename
rename-ne nick other s o names after e ne = ground (
  arith,
  eq_iff nick other,
  eq_iff (o s).nickname other,
  find-assign nick other s (StringMap.erase (o s).nickname names),
  find-assign nick other s names,
  find-erase (o s).nickname other names,
)

-- Expired entries are invisible.
drop_expired-holder :
    (nick other : String) (o : Objects) (names : StringMap ℕ)
    → holder other o (drop_expired nick o (StringMap.find nick names) names) ≡ holder other o names
drop_expired-holder nick other o names =
    ground (arith, eq_iff nick other, find-erase nick other names)

-- If the session lives and the call has a result, it succeeds exactly if no living session holds
-- the name, or the session itself does.
pub register_iff :
    (nick : String) (s : ℕ) (w v : ChatServer) (success : Bool)
    → (w.objects s).alive ≡ true
    → try_register_nickname_impl nick s w ≡ done (v, success)
    → (success ≡ true)
      ↔ ((holder nick w.objects w.nicknames ≡ none) ⊎ (holder nick w.objects w.nicknames ≡ some s))
unfolding try_register_nickname_impl
register_iff nick s w v success alive e = ground arith

-- The sessions that the names lead to after a registration.
pub registered-holder :
    (nick : String) (s : ℕ) (w v : ChatServer)
    → try_register_nickname_impl nick s w ≡ done (v, true)
    → (holder nick v.objects v.nicknames ≡ some s)
      × ((other : String)
          → nick ≢ other
          → (holder other v.objects v.nicknames ≡ holder other w.objects w.nicknames)
            ⊎ ((holder other v.objects v.nicknames ≡ none)
                × (holder other w.objects w.nicknames ≡ some s)
                × (other ≡ (w.objects s).nickname)))
unfolding try_register_nickname_impl
registered-holder nick s w v e =
    let names = drop_expired nick w.objects (StringMap.find nick w.nicknames) w.nicknames in
    (
      ground (arith, rename_self nick s w.objects names v.nicknames),
      λ other ne. ground (
        arith,
        rename-ne nick other s w.objects names v.nicknames,
        drop_expired-holder nick other w.objects w.nicknames,
      ),
    )

-- After a registration that succeeds, the session holds the name; any other name keeps the living
-- holder it had, unless it was the session's own nickname, which nobody holds any more.
register_success :
    (nick other : String) (s : ℕ) (w v : ChatServer)
    → try_register_nickname_impl nick s w ≡ done (v, true)
    → nick ≢ other
    → (holder nick v.objects v.nicknames ≡ some s)
      × ((holder other v.objects v.nicknames ≡ holder other w.objects w.nicknames)
          ⊎ ((holder other v.objects v.nicknames ≡ none)
              × (holder other w.objects w.nicknames ≡ some s)
              × (other ≡ (w.objects s).nickname)))
register_success nick other s w v e ne =
    let (mine, others) = registered-holder nick s w v e in (mine, others other ne)

-- A registration that is refused changes nothing.
pub register_failure :
    (nick : String) (s : ℕ) (w v : ChatServer)
    → try_register_nickname_impl nick s w ≡ done (v, false)
    → v ≡ w
unfolding try_register_nickname_impl
register_failure nick s w v e = ground arith

-- A registration touches the registry alone.
pub register-frame :
    (nick : String) (s : ℕ) (w v : ChatServer) (success : Bool)
    → try_register_nickname_impl nick s w ≡ done (v, success)
    → (v.objects ≡ w.objects) × (v.sessions ≡ w.sessions) × (v.rooms ≡ w.rooms)
unfolding try_register_nickname_impl
register-frame nick s w v success e = ground arith
