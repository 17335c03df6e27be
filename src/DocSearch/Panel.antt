-- ===== src/DocSearch/Panel.antt =====
-- The state of the search panel, the fields of `SearchBox` and `SearchResults` with what their
-- elements show, and the actions on it: the closing of its windows, `Activate` and `Search`.
-- The places and sizes of the windows are left out. Texts have characters of one code unit.
use Prim.Native.String.{[], ◌∷◌}
use cherry_recorder_server.Prelude.{
  ℕ, suc, zero, ◌+◌, String, Bool, true, false, str_eq, ◌⧺◌, ◌||◌, if◌then◌else◌, Option, none,
  some, List, [], ◌∷◌, ◌++◌,
}
use cherry_recorder_server.DocSearch.Ids.{strip_leading, to_hex}
use cherry_recorder_server.DocSearch.Cookie.{Browser, strip_prefix}
use cherry_recorder_server.DocSearch.Rows
use cherry_recorder_server.DocSearch.Rows.{Row, Results}

-- The element that has the focus
pub data Focus : Type 0 where
  search_field : Focus
  select_item : ℕ → Focus
  item : ℕ → Focus
  child : ℕ → ℕ → Focus
  elsewhere : Focus

-- A search: its text, and the index file that is loaded for it, if there is one.
pub record Request : Type 0 where
  pub value : String
  pub file : Option String

pub record Panel : Type 0 where
  pub results : Results
  pub focus : Focus
  pub last_key : ℕ
  pub repeat_on : Bool
  pub field_value : String
  pub window_shown : Bool
  pub close_shown : Bool
  pub select_shown : Bool
  pub key_timeout : Bool
  pub hide_timeout : Bool
  pub last_search_value : String
  pub search_index : ℕ
  pub search_active : Bool
  -- the names of the elements of class SelectItem, and which of them are marked
  pub labels : List String
  pub marks : List Bool
  pub browser : Browser
  -- the rows that `createResults` makes of the `searchData` loaded last
  pub search_data : Option (List Row)
  -- the searches whose index file was asked for, in order
  pub requests : List Request

-- What the page gives: `toLowerCase`, the query of the URL, the path of the results, and for each
-- section its name and the characters that its index files stand for.
pub record Site : Type 0 where
  pub to_lower_case : String → String
  pub query : String
  pub results_path : String
  pub section_names : List String
  pub sections_with_content : List String

unfoldable pub activate : Bool → Panel → Panel
activate is_active p =
    if is_active || p.window_shown
    then record p { search_active = true }
    else record p { search_active = false; last_search_value = ""; field_value = "" }

unfoldable pub close_results_window : Panel → Panel
unfolding activate
close_results_window p = activate false (record p { window_shown = false; close_shown = false })

unfoldable pub close_selection_window : Panel → Panel
close_selection_window p = record p { select_shown = false }

abbrev pub focus_field : Panel → Panel
focus_field p = record p { focus = search_field }

-- `text.indexOf(part)`, counted from `n`
unfoldable pub index_from : ℕ → String → String → Option ℕ
unfolding strip_prefix
index_from n part [] = if str_eq part "" then some n else none
index_from n part (c ∷ s) =
    let later = index_from (1 + n) part s in
    elim (strip_prefix part (c ∷ s)) [ none ↦ later | some rest ↦ some n ]

abbrev pub nth {ℓ} : {A : Type ℓ} → ℕ → List A → Option A
nth n [] = none
nth zero (x ∷ xs) = some x
nth (suc n) (x ∷ xs) = nth n xs

abbrev pub first_character : String → String
first_character [] = ""
first_character (c ∷ s) = c ∷ []

abbrev text_of : Option String → String
text_of none = "undefined"
text_of (some s) = s

abbrev pub js_file : Site → ℕ → Option ℕ → Option String
js_file site section none = none
js_file site section (some index) =
    some (site.results_path ⧺ text_of (nth section site.section_names) ⧺ "_" ⧺ to_hex index ⧺ ".js")

abbrev with_rows : Option (List Row) → Results → Results
with_rows none r = r
with_rows (some rows) r = record r { rows = rows; no_matches = false }

abbrev search_text : Request → String
search_text r = elim r.file [ none ↦ "====" | some file ↦ r.value ]

-- `handleResults`
unfoldable pub handle_results : Site → Request → Panel → Panel
handle_results site r p = record p {
  results =
      Rows.search site.to_lower_case site.query (search_text r) (with_rows p.search_data p.results);
  window_shown = true;
  close_shown = if p.window_shown then p.close_shown else true;
}

-- The load of the file that a search has asked for, whose data makes these rows
unfoldable pub on_load : Site → List Row → Request → Panel → Panel
unfolding handle_results
on_load site rows r p = handle_results site r (record p { search_data = some rows })

abbrev pub requested : Site → String → Option String → Panel → Panel
requested site value none p =
    let v =
      handle_results site (record { value = value; file = none })
        (record p { key_timeout = false }) in
    record v { last_search_value = value }
requested site value (some file) p = record p {
  key_timeout = false;
  requests = p.requests ++ record { value = value; file = some file } ∷ [];
  last_search_value = value;
}

abbrev pub search_in : Site → Option String → Panel → Option Panel
search_in site none p = none
search_in site (some content) p =
    let value = strip_leading p.field_value in
    some (
      requested site value
        (js_file site p.search_index
          (index_from 0 (site.to_lower_case (first_character value)) content))
        p)

-- `Search`. It throws where the chosen section is not there.
unfoldable pub search : Site → Panel → Option Panel
unfolding index_from handle_results
search site p = search_in site (nth p.search_index site.sections_with_content) p
