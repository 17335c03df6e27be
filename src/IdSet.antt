-- ===== src/IdSet.antt =====
-- `std::set<SessionPtr>`: the pointers as numbers, in increasing order.
use cherry_recorder_server.Prelude.{
  ℕ, ◌+◌, ◌≤◌, Bool, false, ◌||◌, ◌&&◌, not, List, [], ◌∷◌, ◌≡◌, arith, ltb, ◌==◌, if◌then◌else◌,
  length,
}

unfoldable pub contains : ℕ → List ℕ → Bool
contains i [] = false
contains i (x ∷ xs) = x == i || contains i xs

unfoldable pub insert : ℕ → List ℕ → List ℕ
insert i [] = i ∷ []
insert i (x ∷ xs) = if x == i then x ∷ xs else if ltb i x then i ∷ x ∷ xs else x ∷ insert i xs

unfoldable pub erase : ℕ → List ℕ → List ℕ
erase i [] = []
erase i (x ∷ xs) = let rest = erase i xs in if x == i then rest else x ∷ rest

pub contains-insert : (i j : ℕ) (xs : List ℕ) → contains j (insert i xs) ≡ (i == j || contains j xs)
unfolding contains insert
contains-insert i j [] = ground arith
contains-insert i j (x ∷ xs) = ground (arith, contains-insert i j xs)

pub contains-erase :
    (i j : ℕ) (xs : List ℕ) → contains j (erase i xs) ≡ (not (i == j) && contains j xs)
unfolding contains erase
contains-erase i j [] = ground arith
contains-erase i j (x ∷ xs) = ground (arith, contains-erase i j xs)

pub length-insert : (i : ℕ) (xs : List ℕ) → length (insert i xs) ≤ length xs + 1
unfolding insert
length-insert i [] = omega arith
length-insert i (x ∷ xs) = ground (arith, length-insert i xs)

pub length-erase : (i : ℕ) (xs : List ℕ) → length (erase i xs) ≤ length xs
unfolding erase
length-erase i [] = omega arith
length-erase i (x ∷ xs) = ground (arith, length-erase i xs)

ruleset set_laws = (contains-insert, contains-erase)
