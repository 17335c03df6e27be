-- ===== src/NavTree/Siblings.antt =====
-- `removeToInsertLater` of docs/docs_output/html/navtree.js: an element is taken from its parent
-- while its content is made, and put back. Elements are numbers.
use cherry_recorder_server.Prelude.{
  ℕ, Bool, true, false, not, ◌||◌, ◌&&◌, ◌==◌, ==_iff, ==_refl, ◌≡◌, refl, arith, if◌then◌else◌,
  Option, none, some, List, [], ◌∷◌, ◌++◌, Bool-cases, inl, inr, ap, ◌∙◌,
}

abbrev pub first : List ℕ → Option ℕ
first [] = none
first (x ∷ xs) = some x

unfoldable pub next_sibling : ℕ → List ℕ → Option ℕ
next_sibling e [] = none
next_sibling e (x ∷ xs) = let later = next_sibling e xs in if x == e then first xs else later

unfoldable pub remove_child : ℕ → List ℕ → List ℕ
remove_child e [] = []
remove_child e (x ∷ xs) = let rest = remove_child e xs in if x == e then xs else x ∷ rest

unfoldable pub insert_before : ℕ → ℕ → List ℕ → List ℕ
insert_before e next [] = []
insert_before e next (x ∷ xs) =
    let rest = insert_before e next xs in if x == next then e ∷ x ∷ xs else x ∷ rest

-- The children of the parent without the element, and the function that puts it back
unfoldable pub insert_later : ℕ → Option ℕ → List ℕ → List ℕ
unfolding insert_before
insert_later e none siblings = siblings ++ e ∷ []
insert_later e (some next) siblings = insert_before e next siblings

unfoldable pub remove_to_insert_later : ℕ → List ℕ → List ℕ × (List ℕ → List ℕ)
unfolding next_sibling remove_child insert_later
remove_to_insert_later e siblings =
    (remove_child e siblings, insert_later e (next_sibling e siblings))

abbrev pub has : ℕ → List ℕ → Bool
has e [] = false
has e (x ∷ xs) = x == e || has e xs

abbrev pub distinct : List ℕ → Bool
distinct [] = true
distinct (x ∷ xs) = not (has x xs) && distinct xs

next_sibling-has : (e : ℕ) (xs : List ℕ) (n : ℕ) → next_sibling e xs ≡ some n → has n xs ≡ true
unfolding next_sibling
next_sibling-has e [] n h = cc
next_sibling-has e (x ∷ []) n h = ground (arith, h)
next_sibling-has e (x ∷ (y ∷ ys)) n h = ground (arith, h, next_sibling-has e (y ∷ ys) n, ==_refl y)

insert_later-cons :
    (e x : ℕ) (o : Option ℕ) (rest : List ℕ)
    → ((n : ℕ) → o ≡ some n → (x == n) ≡ false)
    → insert_later e o (x ∷ rest) ≡ x ∷ insert_later e o rest
unfolding insert_later insert_before
insert_later-cons e x none rest h = refl
insert_later-cons e x (some n) rest h = rw (h n refl) refl

differs : (xs : List ℕ) (x n : ℕ) → has x xs ≡ false → has n xs ≡ true → (x == n) ≡ false
differs xs x n h k = elim (Bool-cases (x == n)) [
  | inl same ↦ absurd (cc (ap (λ m. has m xs) ((==_iff x n).0 same)))
  | inr other ↦ other
]

distinct_parts :
    (x : ℕ) (xs : List ℕ) → distinct (x ∷ xs) ≡ true → (has x xs ≡ false) × (distinct xs ≡ true)
distinct_parts x xs d = ground (arith, d)

put_back : ℕ → List ℕ → List ℕ
put_back e siblings = insert_later e (next_sibling e siblings) (remove_child e siblings)

at_once : (e : ℕ) (xs : List ℕ) → put_back e (e ∷ xs) ≡ e ∷ xs
unfolding put_back next_sibling remove_child insert_later insert_before
at_once e [] = rw (==_refl e) refl
at_once e (y ∷ ys) = rw (==_refl e, ==_refl y) refl

put_back-cons :
    (e x : ℕ) (xs : List ℕ)
    → (x == e) ≡ false
    → has x xs ≡ false
    → put_back e (x ∷ xs) ≡ x ∷ put_back e xs
unfolding put_back next_sibling remove_child
put_back-cons e x xs other new = rw other (
    insert_later-cons e x (next_sibling e xs) (remove_child e xs)
      λ n found. differs xs x n new (next_sibling-has e xs n found))

put_back-same :
    (e : ℕ) (siblings : List ℕ)
    → has e siblings ≡ true
    → distinct siblings ≡ true
    → put_back e siblings ≡ siblings
put_back-same e [] h d = cc
put_back-same e (x ∷ xs) h d = elim (Bool-cases (x == e)) [
  | inl same ↦ rw ((==_iff x e).0 same) (at_once e xs)
  | inr other ↦
      let (new, later) = distinct_parts x xs d in
      put_back-cons e x xs other new ∙ ap (λ ys. x ∷ ys) (put_back-same e xs (rw other at h) later)
]

-- An element that is put back stands where it stood, if the children of its parent are distinct.
remove_to_insert_later-same :
    (e : ℕ) (siblings : List ℕ)
    → has e siblings ≡ true
    → distinct siblings ≡ true
    → (remove_to_insert_later e siblings).1 (remove_to_insert_later e siblings).0 ≡ siblings
unfolding remove_to_insert_later put_back
remove_to_insert_later-same e siblings h d = put_back-same e siblings h d
