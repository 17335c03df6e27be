-- ===== src/History/Files.antt =====
-- Which file of src/MessageHistory.cpp a conversation is logged to.
use text.Mathlib.TextLemmas.{append_cancel_left, append_cancel_right, append_assoc}
use text.Mathlib.TextEquality.{path_by_compare}
use cherry_recorder_server.Prelude.{String, true, false, ◌≡◌, ◌⊎◌, arith, ◌⧺◌}
use cherry_recorder_server.StringMap.Order.{compare-flip}
use cherry_recorder_server.History.{gtb, private_file, room_file}

gtb_cases :
    (s t : String)
    → (gtb s t ≡ true) × (gtb t s ≡ false) ⊎ (gtb s t ≡ false) × (gtb t s ≡ true) ⊎ (s ≡ t)
gtb_cases s t = ground (arith, compare-flip s t, path_by_compare s t)

-- The file of a private conversation is the same whoever sends.
pub private_file_comm :
    (dir user1 user2 : String) → private_file dir user1 user2 ≡ private_file dir user2 user1
unfolding private_file
private_file_comm dir user1 user2 = ground (arith, gtb_cases user1 user2)

-- Two conversations share a file: that of "a_b" with c and that of a with "b_c", where the names
-- stand in this order.
pub private_file_collision :
    (dir a b c : String)
    → gtb (a ⧺ "_" ⧺ b) c ≡ false
    → gtb a (b ⧺ "_" ⧺ c) ≡ false
    → private_file dir (a ⧺ "_" ⧺ b) c ≡ private_file dir a (b ⧺ "_" ⧺ c)
unfolding private_file
private_file_collision dir a b c p q = rw (p, q) (simp append_assoc)

pub room_file-injective :
    (dir room other : String) → room_file dir room ≡ room_file dir other → room ≡ other
unfolding room_file
room_file-injective dir room other e =
    append_cancel_right room other ".txt"
      (append_cancel_left "/rooms/" _ _ (append_cancel_left dir _ _ e))
