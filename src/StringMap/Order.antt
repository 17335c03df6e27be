-- ===== src/StringMap/Order.antt =====
-- The order of `std::string`, by which a `std::map` is sorted.
use Prim.Native.Nat.{Ordering, compare as compare_ℕ}
use Prim.Native.String.{compare, [], ◌∷◌}
use Prim.Native.String.compare
use text.Mathlib.Text.{is_lt}
use text.Mathlib.TextPositions.{compare_refl}
use cherry_recorder_server.Prelude.{
  ℕ, String, Char, code, Bool, true, false, ◌≡◌, refl, arith, ltb, ◌==◌, ◌&&◌, ◌||◌, ◌⊎◌,
}
use text.Mathlib.TextEquality.{path_by_compare}

abbrev flip : Ordering → Ordering
flip Ordering.lt = Ordering.gt
flip Ordering.eq = Ordering.eq
flip Ordering.gt = Ordering.lt

compare-flip_ℕ : (a b : ℕ) → compare_ℕ b a ≡ flip (compare_ℕ a b)
compare-flip_ℕ a b = ground arith

pub compare-flip : (s t : String) → compare t s ≡ flip (compare s t)
compare-flip [] [] = refl
compare-flip [] (d ∷ t) = rw (compare.nil-cons, compare.cons-nil)
compare-flip (c ∷ s) [] = rw (compare.nil-cons, compare.cons-nil)
compare-flip (c ∷ s) (d ∷ t) =
    rw (compare.cons-cons c d s t, compare.cons-cons d c t s)
      (ground (arith, compare-flip s t, compare-flip_ℕ (code c) (code d)))

abbrev pub lt : String → String → Bool
lt s t = is_lt (compare s t)

lt-cons :
    (c d : Char) (s t : String)
    → lt (c ∷ s) (d ∷ t) ≡ (ltb (code c) (code d) || (code c == code d && lt s t))
lt-cons c d s t = rw (compare.cons-cons c d s t) (ground arith)

lt-nil : (s : String) → lt s "" ≡ false
lt-nil [] = refl
lt-nil (c ∷ s) = rw compare.cons-nil

nil-lt-cons : (c : Char) (s : String) → lt "" (c ∷ s) ≡ true
nil-lt-cons c s = rw compare.nil-cons

pub lt_irrefl : (s : String) → lt s s ≡ false
lt_irrefl s = rw (compare_refl s)

pub lt_trans : (s t u : String) → lt s t ≡ true → lt t u ≡ true → lt s u ≡ true
lt_trans s t [] h k = cc (lt-nil t)
lt_trans s [] (e ∷ u) h k = cc (lt-nil s)
lt_trans [] (d ∷ t) (e ∷ u) h k = nil-lt-cons e u
lt_trans (c ∷ s) (d ∷ t) (e ∷ u) h k =
    ground (arith, lt-cons c d s t, lt-cons d e t u, lt-cons c e s u, lt_trans s t u)

pub lt_total : (s t : String) → (lt s t ≡ true) ⊎ (lt t s ≡ true) ⊎ (s ≡ t)
lt_total s t = ground (arith, compare-flip s t, path_by_compare s t)
