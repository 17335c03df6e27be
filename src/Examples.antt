-- ===== src/Examples.antt =====
-- A small chat server, and runs of the operations on it.
pub mod Chat
pub mod Histories
pub mod Runs
pub mod Navigation
pub mod Http
pub mod Panels
pub mod Places
pub mod Startup
pub mod Pages
pub mod Documentation
use cherry_recorder_server.Prelude.{
  ℕ, String, Bool, true, false, Option, none, some, List, [], ◌∷◌, ◌≡◌, ◌≢◌, arith, ◌==◌,
  if◌then◌else◌, eq_iff, refl, str_eq, Bool-cases, ==_iff, inl, inr,
}
use cherry_recorder_server.StringMap
use cherry_recorder_server.IdSet.{contains}
use cherry_recorder_server.Session.{Session, Objects}
use cherry_recorder_server.ChatRoom.{ChatRoom, is_empty}
use cherry_recorder_server.ChatServer.{ChatServer}
use cherry_recorder_server.ChatServer.Rooms.Membership.{IsConsistent}
use cherry_recorder_server.ChatServer.Rooms.Capacity.{IsBounded, RoomFits}
use cherry_recorder_server.ChatServer.Nicknames.Keeping.{IsRegistered}

-- 1 is cherry, who is in no room; 2 is grape, who is in the lobby; the others have no nickname.
abbrev pub people : Objects
people i =
    if i == 1
    then record {
      remote_id = "10.0.0.1:1";
      nickname = "cherry";
      current_room = "";
      alive = true;
      delivered = [];
    }
    else if i == 2
    then record {
      remote_id = "10.0.0.2:2";
      nickname = "grape";
      current_room = "lobby";
      alive = true;
      delivered = [];
    }
    else record {
      remote_id = "10.0.0.3:3";
      nickname = "10.0.0.3:3";
      current_room = "";
      alive = true;
      delivered = [];
    }

abbrev pub lobby : ChatRoom
lobby = record { name = "lobby"; participants = 2 ∷ []; max_participants = 100 }

abbrev pub server : ChatServer
server = record {
  objects = people;
  sessions = 1 ∷ 2 ∷ 3 ∷ [];
  nicknames = ("cherry", 1) ∷ ("grape", 2) ∷ [];
  rooms = ("lobby", lobby) ∷ [];
  history = none;
  stopped = false;
}

pub server-IsConsistent : IsConsistent server
unfolding StringMap.find contains
server-IsConsistent = record {
  filed = λ j r e. ground (arith, eq_iff "lobby" j);
  current = λ j r i e h. ground (arith, eq_iff "lobby" j);
  no_unnamed = refl;
}

pub server-IsBounded : IsBounded server
unfolding StringMap.find is_empty
server-IsBounded = record { fits = λ j r e. ground arith }

pub server-IsRegistered : IsRegistered server
unfolding StringMap.find contains
server-IsRegistered = record {
  holds = λ j h named set. elim (Bool-cases (j == 1)) [
    | inl first ↦ rw ((==_iff j 1).0 first) refl
    | inr not_first ↦ elim (Bool-cases (j == 2)) [
      | inl second ↦ rw ((==_iff j 2).0 second) refl
      | inr not_second ↦ absurd (set (simp (not_first, not_second)))
    ]
  ];
  live = λ j h. ground arith;
}

-- Different literals
pub different : (s t : String) → str_eq s t ≡ false → s ≢ t
different s t e p = ground (arith, eq_iff s t)
