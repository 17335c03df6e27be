-- ===== src/Session.antt =====
-- include/SessionInterface.hpp: what the server sees of a session, and the session objects as a
-- heap that is indexed by the pointer. `deliver` is modelled by the list of the messages handed
-- over; src/WebSocketSession.cpp queues and sends them (WebSocketSession.antt).
use cherry_recorder_server.Prelude.{
  ℕ, String, Bool, false, Option, none, some, List, [], ◌∷◌, ◌++◌, ◌≡◌, refl, arith, not, ◌&&◌,
  ◌==◌, if◌then◌else◌,
}
use cherry_recorder_server.IdSet.{contains}

pub record Session : Type 0 where
  pub remote_id : String
  pub nickname : String
  pub current_room : String
  -- a `weak_ptr` to the session can be locked
  pub alive : Bool
  pub delivered : List String

abbrev pub Objects : Type 0
Objects = ℕ → Session

unfoldable pub deliver : ℕ → String → Objects → Objects
deliver i msg o j = if i == j then record (o j) { delivered = (o j).delivered ++ msg ∷ [] } else o j

unfoldable pub set_current_room : ℕ → String → Objects → Objects
set_current_room i room o j = if i == j then record (o j) { current_room = room } else o j

unfoldable pub set_nickname : ℕ → String → Objects → Objects
set_nickname i nick o j = if i == j then record (o j) { nickname = nick } else o j

-- `participant == sender`, where a null sender is nobody
abbrev pub is_sender : Option ℕ → ℕ → Bool
is_sender none i = false
is_sender (some s) i = s == i

-- The loop of a broadcast over a set of sessions.
unfoldable pub deliver_except : Option ℕ → String → List ℕ → Objects → Objects
deliver_except sender msg [] o = o
deliver_except sender msg (p ∷ ps) o =
    deliver_except sender msg ps (if is_sender sender p then o else deliver p msg o)

-- A set holds no pointer twice.
abbrev pub Distinct : List ℕ → Type 0
Distinct [] = Unit
Distinct (x ∷ xs) = (contains x xs ≡ false) × Distinct xs

-- A delivery changes nothing but the messages.
pub record SameButMessages (s t : Session) : Type 0 where
  pub same_remote_id : s.remote_id ≡ t.remote_id
  pub same_nickname : s.nickname ≡ t.nickname
  pub same_current_room : s.current_room ≡ t.current_room
  pub same_alive : s.alive ≡ t.alive

pub deliver-SameButMessages :
    (i j : ℕ) (msg : String) (o : Objects) → SameButMessages (deliver i msg o j) (o j)
unfolding deliver
deliver-SameButMessages i j msg o = ground arith

pub deliver_except-SameButMessages :
    (sender : Option ℕ) (msg : String) (ps : List ℕ) (o : Objects) (j : ℕ)
    → SameButMessages (deliver_except sender msg ps o j) (o j)
unfolding deliver_except
deliver_except-SameButMessages sender msg [] o j = ground arith
deliver_except-SameButMessages sender msg (p ∷ ps) o j = ground (
  arith,
  deliver_except-SameButMessages sender msg ps (if is_sender sender p then o else deliver p msg o)
      j,
  deliver-SameButMessages p j msg o,
)

pub deliver-current_room :
    (i j : ℕ) (msg : String) (o : Objects) → (deliver i msg o j).current_room ≡ (o j).current_room
deliver-current_room i j msg o = (deliver-SameButMessages i j msg o).same_current_room

pub deliver_except-current_room :
    (sender : Option ℕ) (msg : String) (ps : List ℕ) (o : Objects) (j : ℕ)
    → (deliver_except sender msg ps o j).current_room ≡ (o j).current_room
deliver_except-current_room sender msg ps o j =
    (deliver_except-SameButMessages sender msg ps o j).same_current_room

-- Everybody in the set but the sender receives the message once, and nobody else does.
pub delivered-deliver_except :
    (sender : Option ℕ) (msg : String) (ps : List ℕ) (o : Objects) (j : ℕ)
    → Distinct ps
    → (deliver_except sender msg ps o j).delivered ≡ (
        if contains j ps && not (is_sender sender j)
        then (o j).delivered ++ msg ∷ []
        else (o j).delivered)
unfolding deliver_except contains deliver
delivered-deliver_except sender msg [] o j h = refl
delivered-deliver_except none msg (p ∷ ps) o j (new, h) =
    ground (arith, delivered-deliver_except none msg ps (deliver p msg o) j h)
delivered-deliver_except (some s) msg (p ∷ ps) o j (new, h) = ground (
  arith,
  delivered-deliver_except (some s) msg ps o j h,
  delivered-deliver_except (some s) msg ps (deliver p msg o) j h,
)
