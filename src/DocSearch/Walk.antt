-- ===== src/DocSearch/Walk.antt =====
-- What the loop of `FindChildElement` in docs/docs_output/html/search/search.js finds.
use cherry_recorder_server.Prelude.{
  ℕ, suc, zero, ◌+◌, ◌≤◌, ◌<◌, String, Bool, true, false, str_eq, ◌&&◌, if◌then◌else◌, Option, none,
  some, List, [], ◌∷◌, ◌≡◌, refl, arith, ap, ◌∙◌, Bool-cases, inl, inr, sym,
}
use cherry_recorder_server.DocSearch.Dom.{
  Element, Elements, element, nil, and_then, Entry, Link, child_links, create_result, is_children,
  entered, walk, size, sizes, inside_of, found_by, find_child_element,
}

abbrev first_of : Option Element → Option Element → Option Element
first_of none e = e
first_of (some d) e = some d

-- The first element of the class in document order, looked for below elements called "div" alone.
unfoldable mutual
  pub first_below : Element → Option Element
  first_below (element tag class attributes text inside) =
      if str_eq tag "div" && str_eq class "SRChildren"
      then some (element tag class attributes text inside)
      else if str_eq tag "div"
      then first_among inside
      else none

  pub first_among : Elements → Option Element
  first_among nil = none
  first_among (and_then e rest) = first_of (first_below e) (first_among rest)

abbrev first_in : List Elements → Option Element
first_in [] = none
first_in (level ∷ above) = first_of (first_among level) (first_in above)

abbrev total : List Elements → ℕ
total [] = 0
total (level ∷ above) = sizes level + total above

entered-sizes : (e : Element) → sizes (entered e) ≤ size e
unfolding size sizes
entered-sizes (element tag class attributes text nil) = ground arith
entered-sizes (element tag class attributes text (and_then e rest)) = ground arith

first_below-walk : (e : Element) → is_children e ≡ false → first_below e ≡ first_among (entered e)
unfolding first_below first_among
first_below-walk (element tag class attributes text inside) h = ground arith

first_below-children : (e : Element) → is_children e ≡ true → first_below e ≡ some e
unfolding first_below
first_below-children (element tag class attributes text inside) h = ground arith

first_of_assoc : (a b c : Option Element) → first_of (first_of a b) c ≡ first_of a (first_of b c)
first_of_assoc none b c = refl
first_of_assoc (some a) b c = refl

walk_lem :
    (fuel : ℕ) (here : Elements) (above : List Elements)
    → sizes here + total above < fuel
    → walk fuel here above ≡ some (first_of (first_among here) (first_in above))
unfolding walk sizes first_among
walk_lem zero here above enough = absurd (omega (arith, enough))
walk_lem (suc n) nil [] enough = refl
walk_lem (suc n) nil (level ∷ above) enough = walk_lem n level above (omega (arith, enough))
walk_lem (suc n) (and_then e rest) above enough = elim (Bool-cases (is_children e)) [
  | inl found ↦ simp (found, first_below-children e found) refl
  | inr deeper ↦ simp deeper (
      walk_lem n (entered e) (rest ∷ above) (omega (arith, enough, entered-sizes e))
      ∙ simp (sym (first_below-walk e deeper), first_of_assoc) refl)
]

first_of-none : (a : Option Element) → first_of a none ≡ a
first_of-none none = refl
first_of-none (some a) = refl

-- With as many rounds as there are elements and ends of levels below the parent, the walk ends; it
-- finds the first element of the class in document order among those that it enters.
pub find_child_element-first :
    (parent : Element)
    → (walk (1 + sizes (inside_of parent)) (inside_of parent) []
        ≡ some (first_among (inside_of parent)))
      × (find_child_element parent ≡ first_among (inside_of parent))
unfolding find_child_element
find_child_element-first parent =
    let ends =
      walk_lem (1 + sizes (inside_of parent)) (inside_of parent) [] (omega arith)
      ∙ ap some (first_of-none (first_among (inside_of parent))) in
    (ends, ap found_by ends)

child_links-none :
    (path index : String) (c : ℕ) (links : List Link)
    → first_among (child_links path index c links) ≡ none
unfolding child_links first_among first_below
child_links-none path index c [] = refl
child_links-none path index c (link ∷ links) = child_links-none path index (1 + c) links

abbrev is_single : List Link → Bool
is_single (link ∷ []) = true
is_single links = false

-- What is found in a row
abbrev pub children_element : String → String → Entry → Option Element
children_element path index entry =
    if is_single entry.links
    then none
    else some (element "div" "SRChildren" [] "" (child_links path index 0 entry.links))

-- In the row that is created for an entry of the search data, the element that is toggled is the one
-- with all the links of the entry, and there is none exactly for an entry with a single link.
find_child_element-create_result :
    (path index : String) (entry : Entry)
    → find_child_element (create_result path index entry) ≡ children_element path index entry
unfolding create_result first_among first_below
find_child_element-create_result path index entry =
    (find_child_element-first (create_result path index entry)).1 ∙ rows entry.links
  where
    rows :
        (links : List Link)
        → first_among (inside_of (create_result path index (record entry { links = links })))
          ≡ children_element path index (record entry { links = links })
    rows [] = refl
    rows (link ∷ []) = refl
    rows (link ∷ other ∷ links) = refl
