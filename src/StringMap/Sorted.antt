-- ===== src/StringMap/Sorted.antt =====
-- The order of the keys of a `std::map`.
use cherry_recorder_server.Prelude.{String, true, none, [], ◌∷◌, ◌≡◌, refl, arith, eq_iff}
use cherry_recorder_server.StringMap.{StringMap, find, assign, erase}
use cherry_recorder_server.StringMap.Order.{lt, lt_trans, lt_irrefl, lt_total}

module _ {ℓ} {V : Type ℓ} where
  abbrev pub Above : String → StringMap V → Type 0
  Above k [] = Unit
  Above k ((j, v) ∷ m) = (lt k j ≡ true) × Above k m

  abbrev pub IsSorted : StringMap V → Type 0
  IsSorted [] = Unit
  IsSorted ((k, v) ∷ m) = Above k m × IsSorted m

  Above-mono : (i k : String) (m : StringMap V) → lt i k ≡ true → Above k m → Above i m
  Above-mono i k [] h a = tt
  Above-mono i k ((j, v) ∷ m) h (p, a) = (lt_trans i k j h p, Above-mono i k m h a)

  assign-Above :
      (i k : String) (v : V) (m : StringMap V) → lt i k ≡ true → Above i m → Above i (assign k v m)
  unfolding assign
  assign-Above i k v [] h a = (h, tt)
  assign-Above i k v ((j, w) ∷ m) h (p, a) = ground (arith, assign-Above i k v m h a)

  pub assign-IsSorted :
      (k : String) (v : V) (m : StringMap V) → IsSorted m → IsSorted (assign k v m)
  unfolding assign
  assign-IsSorted k v [] h = (tt, tt)
  assign-IsSorted k v ((j, w) ∷ m) (a, h) = ground (
    arith,
    eq_iff j k,
    assign-IsSorted k v m h,
    assign-Above j k v m,
    lt_total k j,
    Above-mono k j m,
  )

  erase-Above : (i k : String) (m : StringMap V) → Above i m → Above i (erase k m)
  unfolding erase
  erase-Above i k [] a = tt
  erase-Above i k ((j, w) ∷ m) (p, a) = ground (arith, erase-Above i k m a)

  pub erase-IsSorted : (k : String) (m : StringMap V) → IsSorted m → IsSorted (erase k m)
  unfolding erase
  erase-IsSorted k [] h = tt
  erase-IsSorted k ((j, w) ∷ m) (a, h) = ground (arith, erase-IsSorted k m h, erase-Above j k m a)

  pub find-Above : (k : String) (m : StringMap V) → Above k m → find k m ≡ none
  unfolding find
  find-Above k [] a = refl
  find-Above k ((j, v) ∷ m) (p, a) = ground (arith, eq_iff j k, find-Above k m a, lt_irrefl k)
