-- ===== src/DocSearch/Windows/Fit.antt =====
-- Whether the window of the results of docs/docs_output/html/search/search.js fits into the page.
use cherry_recorder_server.Prelude.{
  ℕ, zero, suc, ◌≡◌, inl, inr, refl, arith, true, false, leb, subst, ◌≤◌, ◌⊎◌, Bool-cases,
}
use cherry_recorder_server.Integer.{ℤ, pos, negsuc, ◌+ℤ◌, ◌-ℤ◌, leb_ℤ}
use cherry_recorder_server.DocSearch.Windows.{
  Placed, Size, styled, fitted, get_x_pos, get_y_pos, at_least_10, results_place,
}

sub_add : (end start : ℤ) → (end -ℤ start -ℤ pos 8) +ℤ start +ℤ pos 8 ≡ end
sub_add (pos m) (pos zero) = ground arith
sub_add (pos m) (pos (suc n)) = ground arith
sub_add (pos m) (negsuc n) = ground arith
sub_add (negsuc m) (pos zero) = ground arith
sub_add (negsuc m) (pos (suc n)) = ground arith
sub_add (negsuc m) (negsuc n) = ground arith

leb_ℤ-refl : (i : ℤ) → leb_ℤ i i ≡ true
leb_ℤ-refl (pos n) = ground arith
leb_ℤ-refl (negsuc n) = ground arith

fitted-end : (size start end : ℤ) → leb_ℤ (fitted size start end +ℤ start +ℤ pos 8) end ≡ true
fitted-end size start end = elim (Bool-cases (leb_ℤ (size +ℤ start +ℤ pos 8) end)) [
  | inl fits ↦ rw (fits, fits) refl
  | inr wide ↦ rw (wide, sub_add end start) (leb_ℤ-refl end)
]

fitted-size : (size : ℕ) (start end : ℤ) → leb_ℤ (fitted (pos size) start end) (pos size) ≡ true
fitted-size size (pos zero) (pos m) = ground arith
fitted-size size (pos (suc n)) (pos m) = ground arith
fitted-size size (negsuc n) (pos m) = ground arith
fitted-size size (pos zero) (negsuc m) = ground arith
fitted-size size (pos (suc n)) (negsuc m) = ground arith
fitted-size size (negsuc n) (negsuc m) = ground arith

at_least_10_lem : (left : ℤ) → leb_ℤ (pos 10) (at_least_10 left) ≡ true
at_least_10_lem left = elim (Bool-cases (leb_ℤ (pos 10) left)) [
  | inl far ↦ rw (far, far) refl
  | inr near ↦ rw near refl
]

leb-le : (m n : ℕ) → leb m n ≡ true → m ≤ n
leb-le m n e = ground (arith, e)

sub-negative :
    (start end : ℤ) (n : ℕ)
    → (end -ℤ start -ℤ pos 8) ≡ negsuc n
    → leb_ℤ (start +ℤ pos 8) end ≡ false
sub-negative (pos zero) (pos m) n e = ground (arith, e)
sub-negative (pos (suc k)) (pos m) n e = ground (arith, e)
sub-negative (negsuc k) (pos m) n e = ground (arith, e)
sub-negative (pos zero) (negsuc m) n e = ground (arith, e)
sub-negative (pos (suc k)) (negsuc m) n e = ground (arith, e)
sub-negative (negsuc k) (negsuc m) n e = ground (arith, e)

fitted-negative :
    (size : ℕ) (start end : ℤ) (n : ℕ)
    → fitted (pos size) start end ≡ negsuc n
    → leb_ℤ (start +ℤ pos 8) end ≡ false
fitted-negative size start end n e = elim (Bool-cases (leb_ℤ (pos size +ℤ start +ℤ pos 8) end)) [
  | inl fits ↦ let same : pos size ≡ negsuc n = rw fits at e in cc same
  | inr wide ↦ sub-negative start end n (rw wide at e)
]

-- A length that ends eight pixels before the end at the latest and is not above the wanted one; or
-- the start is too far right or down for any, and the length is the old one.
abbrev pub IsFitted : ℕ → ℤ → ℕ → ℕ → ℕ → Type 0
IsFitted size start end old length =
    ((leb_ℤ (pos length +ℤ start +ℤ pos 8) (pos end) ≡ true) × (length ≤ size))
    ⊎ ((leb_ℤ (start +ℤ pos 8) (pos end) ≡ false) × (length ≡ old))

styled-IsFitted :
    (size : ℕ) (start : ℤ) (end old : ℕ) (f : ℤ)
    → fitted (pos size) start (pos end) ≡ f
    → IsFitted size start end old (styled f old)
styled-IsFitted size start end old (pos n) e = inl (
  subst (λ f. leb_ℤ (f +ℤ start +ℤ pos 8) (pos end) ≡ true) e
      (fitted-end (pos size) start (pos end)),
  leb-le n size (subst (λ f. leb_ℤ f (pos size) ≡ true) e (fitted-size size start (pos end))),
)
styled-IsFitted size start end old (negsuc n) e =
    inr (fitted-negative size start (pos end) n e, refl)

-- The window of the results begins ten pixels from the left at least. It ends eight pixels before the
-- page at the latest and is not wider than 300; if the page is too narrow for any window there, it
-- keeps its width. The same holds below, for a height of 400.
pub results_place-fits :
    (search_box : Placed) (results_width max_width max_height : ℕ) (old : Size)
    → let b = results_place search_box results_width max_width max_height old in
      (leb_ℤ (pos 10) b.left ≡ true)
      × IsFitted 300 b.left max_width old.width b.size.width
      × IsFitted 400 b.top max_height old.height b.size.height
unfolding results_place
results_place-fits search_box results_width max_width max_height old =
    let wanted = get_x_pos search_box +ℤ pos 150 -ℤ pos results_width in
    let left = at_least_10 wanted in
    let top = get_y_pos search_box +ℤ pos 20 in
    (
      at_least_10_lem wanted,
      styled-IsFitted 300 left max_width old.width _ refl,
      styled-IsFitted 400 top max_height old.height _ refl,
    )
