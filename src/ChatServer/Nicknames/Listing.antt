-- ===== src/ChatServer/Nicknames/Listing.antt =====
-- `get_user_list_async` of src/ChatServer.cpp.
use cherry_recorder_server.Prelude.{
  ℕ, List, [], ◌∷◌, String, Bool, true, false, Option, none, some, ◌≡◌, refl, arith, str_eq, eq_iff,
  ◌||◌,
}
use cherry_recorder_server.StringMap
use cherry_recorder_server.StringMap.{StringMap}
use cherry_recorder_server.StringMap.Sorted.{IsSorted, find-Above}
use cherry_recorder_server.Session.{Objects}
use cherry_recorder_server.ChatServer.{ChatServer}
use cherry_recorder_server.ChatServer.Nicknames.{scan_users, get_user_list}
use cherry_recorder_server.ChatServer.Nicknames.Registry.{holder}

abbrev pub has_name : String → List String → Bool
has_name name [] = false
has_name name (x ∷ xs) = str_eq x name || has_name name xs

abbrev pub is_held : Option ℕ → Bool
is_held none = false
is_held (some i) = true

scan_users-find :
    (o : Objects) (names : StringMap ℕ) (name : String)
    → IsSorted names
    → (StringMap.find name (scan_users o names).1 ≡ holder name o names)
      × (has_name name (scan_users o names).0 ≡ is_held (holder name o names))
unfolding scan_users StringMap.find
scan_users-find o [] name h = (refl, refl)
scan_users-find o ((k, i) ∷ names) name (above, h) =
    ground (arith, scan_users-find o names name h, eq_iff k name, find-Above k names above)

-- On a running server whose registry is in order, the list of the users has a name exactly if a
-- living session holds it, and the registry afterwards leads to these sessions alone.
pub get_user_list-holder :
    (w : ChatServer) (name : String)
    → w.stopped ≡ false
    → IsSorted w.nicknames
    → (has_name name (get_user_list w).1 ≡ is_held (holder name w.objects w.nicknames))
      × (StringMap.find name (get_user_list w).0.nicknames ≡ holder name w.objects w.nicknames)
unfolding get_user_list
get_user_list-holder w name running h =
    let (a, b) = scan_users-find w.objects w.nicknames name h in rw running (b, a)
