-- ===== src/ChatServer/Nicknames/Leavers.antt =====
-- The registry when sessions come and go, and when the users are listed, in src/ChatServer.cpp.
use cherry_recorder_server.Prelude.{
  ℕ, [], ◌∷◌, String, true, ◌≡◌, ◌≢◌, inl, inr, refl, ap, arith, ◌∙◌, ==_iff, Bool-cases, str_eq-ne,
}
use cherry_recorder_server.StringMap
use cherry_recorder_server.StringMap.{StringMap, find-assign, find-erase}
use cherry_recorder_server.StringMap.Sorted.{IsSorted, Above}
use cherry_recorder_server.IdSet
use cherry_recorder_server.IdSet.{contains, contains-insert, contains-erase}
use cherry_recorder_server.Session.{Objects}
use cherry_recorder_server.ChatServer.{ChatServer}
use cherry_recorder_server.ChatServer.Nicknames.{scan_users, get_user_list}
use cherry_recorder_server.ChatServer.Nicknames.Listing.{get_user_list-holder}
use cherry_recorder_server.ChatServer.Nicknames.Keeping.{IsRegistered}

-- A session that has no nickname of its own yet comes.
pub insert-IsRegistered :
    (s : ℕ) (w : ChatServer)
    → (w.objects s).alive ≡ true
    → (w.objects s).nickname ≡ (w.objects s).remote_id
    → IsRegistered w
    → IsRegistered (record w { sessions = IdSet.insert s w.sessions })
insert-IsRegistered s w alive fresh reg = record {
  live = λ j h. ground (arith, contains-insert s j w.sessions, reg.live j, ==_iff s j);
  holds = λ j h named set.
      reg.holds j
        (ground
          (arith, h, contains-insert s j w.sessions, ap (λ i. (w.objects i).nickname), ==_iff s j))
        named set;
}

-- A session goes, and its nickname with it.
pub erase-IsRegistered :
    (s : ℕ) (w : ChatServer)
    → IsRegistered w
    → IsRegistered (record w { sessions = IdSet.erase s w.sessions })
erase-IsRegistered s w reg = record {
  live = λ j h. reg.live j (ground (arith, h, contains-erase s j w.sessions));
  holds = λ j h. reg.holds j (ground (arith, h, contains-erase s j w.sessions));
}

Above-scan_users :
    (o : Objects) (k : String) (names : StringMap ℕ)
    → Above k names
    → Above k (scan_users o names).1
unfolding scan_users
Above-scan_users o k [] h = tt
Above-scan_users o k ((j, i) ∷ names) (p, h) = ground (arith, Above-scan_users o k names h)

scan_users-IsSorted :
    (o : Objects) (names : StringMap ℕ) → IsSorted names → IsSorted (scan_users o names).1
unfolding scan_users
scan_users-IsSorted o [] h = tt
scan_users-IsSorted o ((k, i) ∷ names) (above, h) =
    ground (arith, Above-scan_users o k names above, scan_users-IsSorted o names h)

pub get_user_list-IsSorted :
    (w : ChatServer) → IsSorted w.nicknames → IsSorted (get_user_list w).0.nicknames
unfolding get_user_list
get_user_list-IsSorted w h = ground (arith, h, scan_users-IsSorted w.objects w.nicknames h)

get_user_list-frame :
    (w : ChatServer)
    → ((get_user_list w).0.objects ≡ w.objects) × ((get_user_list w).0.sessions ≡ w.sessions)
unfolding get_user_list
get_user_list-frame w = ground arith

get_user_list_stopped : (w : ChatServer) → w.stopped ≡ true → (get_user_list w).0 ≡ w
unfolding get_user_list
get_user_list_stopped w h = rw h refl

-- The listing drops nobody who lives.
pub get_user_list-IsRegistered :
    (w : ChatServer) → IsSorted w.nicknames → IsRegistered w → IsRegistered (get_user_list w).0
get_user_list-IsRegistered w sorted reg = elim (Bool-cases w.stopped) [
  | inl halted ↦ rw (get_user_list_stopped w halted) reg
  | inr running ↦ record {
    live = λ j h. ground (
      arith,
      ap (λ o. (o j).alive) (get_user_list-frame w).0,
      reg.live j (rw (get_user_list-frame w).1 at h),
    );
    holds = λ j h named set.
        let (o, ss) = get_user_list-frame w in
        let inside = rw ss at h in
        let name = (w.objects j).nickname in
        ap (λ p. StringMap.find (p j).nickname (get_user_list w).0.nicknames) o
        ∙ (get_user_list-holder w name running sorted).1
        ∙ ground (
          arith,
          reg.holds j inside (rw (ap (λ p. (p j).nickname) o) at named)
              (rw (ap (λ p. (p j).nickname) o, ap (λ p. (p j).remote_id) o) at set),
          reg.live j inside,
        );
  }
]

-- A session goes, and its nickname is unregistered.
pub forget-IsRegistered :
    (s : ℕ) (w : ChatServer)
    → IsRegistered w
    → contains s w.sessions ≡ true
    → (w.objects s).nickname ≢ ""
    → (w.objects s).nickname ≢ (w.objects s).remote_id
    → IsRegistered (record w {
      sessions = IdSet.erase s w.sessions;
      nicknames = StringMap.erase (w.objects s).nickname w.nicknames;
    })
forget-IsRegistered s w reg here s_named s_set = record {
  live = λ j h. reg.live j (ground (arith, h, contains-erase s j w.sessions));
  holds = λ j h named set.
      let mine = (w.objects s).nickname in
      let theirs = (w.objects j).nickname in
      let inside : contains j w.sessions ≡ true =
        ground (arith, h, contains-erase s j w.sessions) in
      let held = reg.holds j inside named set in
      let other : mine ≢ theirs = λ same. ground (
        arith,
        h,
        contains-erase s j w.sessions,
        ==_iff s j,
        held,
        reg.holds s here s_named s_set,
        ap (λ n. StringMap.find n w.nicknames) same,
      ) in
      ground (arith, find-erase mine theirs w.nicknames, str_eq-ne mine theirs other, held);
}
