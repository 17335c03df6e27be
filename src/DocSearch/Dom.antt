-- ===== src/DocSearch/Dom.antt =====
-- `createResults` of docs/docs_output/html/search/search.js, and the walk of `FindChildElement`
-- through what it makes.
use cherry_recorder_server.Prelude.{
  ℕ, suc, zero, ◌+◌, String, Bool, str_eq, ◌⧺◌, ◌&&◌, if◌then◌else◌, Option, none, some, List, [],
  ◌∷◌, ◌++◌,
}
use cherry_recorder_server.Text.{to_string}
use cherry_recorder_server.StringMap.{StringMap}

-- An element: its name in lower case, its class, its other attributes and text, and its children.
mutual
  pub data Element : Type 0 where
    element : String → String → StringMap String → String → Elements → Element

  pub data Elements : Type 0 where
    nil : Elements
    and_then : Element → Elements → Elements

pub record Link : Type 0 where
  pub url : String
  pub parent : Bool
  pub scope : String

-- An entry of `searchData`: the id, the name, and the links.
pub record Entry : Type 0 where
  pub id : String
  pub symbol : String
  pub links : List Link

abbrev key_actions : String → StringMap String
key_actions action = ("onkeydown", action) ∷ ("onkeypress", action) ∷ ("onkeyup", action) ∷ []

abbrev link_attributes : String → Link → StringMap String
link_attributes results_path link =
    ("href", results_path ⧺ link.url)
    ∷ ("onclick", "searchBox.CloseResultsWindow()")
    ∷ ("target", if link.parent then "_parent" else "_blank")
    ∷ []

-- The links of an entry with several, from the number `c` on
unfoldable pub child_links : String → String → ℕ → List Link → Elements
child_links results_path index c [] = nil
child_links results_path index c (link ∷ links) =
    and_then
      (element "a" "SRScope"
        (("id", "Item" ⧺ index ⧺ "_c" ⧺ to_string c)
            ∷ key_actions ("return searchResults.NavChild(event," ⧺ index ⧺ "," ⧺ to_string c ⧺ ")")
          ++ link_attributes results_path link)
        link.scope nil)
      (child_links results_path index (1 + c) links)

abbrev symbol_link : String → Entry → StringMap String → Element
symbol_link index entry attributes =
    element "a" "SRSymbol"
      (("id", "Item" ⧺ index) ∷ key_actions ("return searchResults.Nav(event," ⧺ index ⧺ ")")
        ++ attributes)
      entry.symbol nil

abbrev sr_entry : String → String → Entry → List Link → Elements
sr_entry results_path index entry (link ∷ []) =
    and_then (symbol_link index entry (link_attributes results_path link))
      (and_then (element "span" "SRScope" [] link.scope nil) nil)
sr_entry results_path index entry links =
    and_then
      (symbol_link index entry
        (("href", "javascript:searchResults.Toggle(\"SR_" ⧺ entry.id ⧺ "\")") ∷ []))
      (and_then (element "div" "SRChildren" [] "" (child_links results_path index 0 links)) nil)

unfoldable pub create_result : String → String → Entry → Element
unfolding child_links
create_result results_path index entry =
    element "div" "SRResult" (("id", "SR_" ⧺ entry.id) ∷ []) ""
      (and_then (element "div" "SREntry" [] "" (sr_entry results_path index entry entry.links)) nil)

-- From the number `index` on
unfoldable create_results : String → ℕ → List Entry → Elements
unfolding create_result
create_results results_path index [] = nil
create_results results_path index (entry ∷ entries) =
    and_then (create_result results_path (to_string index) entry)
      (create_results results_path (1 + index) entries)

abbrev pub is_children : Element → Bool
is_children (element tag class attributes text inside) =
    str_eq tag "div" && str_eq class "SRChildren"

-- The elements that the walk goes to below one
abbrev pub entered : Element → Elements
entered (element tag class attributes text inside) = if str_eq tag "div" then inside else nil

-- The loop of `FindChildElement`: the elements left at the level of the walk, and those left at each
-- level above. It runs on fuel; `none` within is that the fuel ran out.
unfoldable pub walk : ℕ → Elements → List Elements → Option (Option Element)
walk zero here above = none
walk (suc n) nil [] = some none
walk (suc n) nil (level ∷ above) = walk n level above
walk (suc n) (and_then e rest) above =
    let deeper = walk n (entered e) (rest ∷ above) in
    if is_children e then some (some e) else deeper

-- How many rounds the walk has at most
unfoldable mutual
  pub size : Element → ℕ
  size (element tag class attributes text inside) = sizes inside

  pub sizes : Elements → ℕ
  sizes nil = 1
  sizes (and_then e rest) = 1 + (size e + sizes rest)

abbrev pub inside_of : Element → Elements
inside_of (element tag class attributes text inside) = inside

abbrev pub found_by : Option (Option Element) → Option Element
found_by none = none
found_by (some found) = found

unfoldable pub find_child_element : Element → Option Element
unfolding walk sizes
find_child_element parent = found_by (walk (1 + sizes (inside_of parent)) (inside_of parent) [])
