-- ===== src/DocSearch/Select.antt =====
-- The choice of a section and `init_search` of docs/docs_output/html/search/search.js.
use cherry_recorder_server.Prelude.{
  ℕ, suc, zero, ◌+◌, ◌≤◌, ◌<◌, String, Bool, true, false, str_eq-ne, ◌==◌, ◌||◌, if◌then◌else◌,
  Option, none, some, List, [], ◌∷◌, ◌≡◌, ◌≢◌, refl, arith, length, ap,
}
use cherry_recorder_server.DocSearch.Cookie.{
  Browser, Platform, read_setting, write_setting, session,
}
use cherry_recorder_server.DocSearch.Ids.{remove_spaces}
use cherry_recorder_server.DocSearch.Panel
use cherry_recorder_server.DocSearch.Panel.{
  Panel, Site, Request, nth, activate, close_results_window, close_selection_window, focus_field,
  handle_results, on_load, requested, js_file, index_from, first_character,
}
use cherry_recorder_server.DocSearch.Box.{
  on_search_select_show, select_item_count, get_selection_id_by_name, search_cookie_name, set_marks,
  select_item_set, on_select_item, on_search_select_key,
}

-- The key handler that `init_search` installs
unfoldable on_select_box_key : ℕ → Panel → Panel
unfolding close_selection_window on_search_select_show
on_select_box_key key_code p =
    if key_code == 13 || key_code == 40
    then if p.select_shown then close_selection_window p else on_search_select_show p
    else p

-- `init_search`, over the labels of the sections; the default name is the number 0.
unfoldable init_search : Platform → Site → List String → Panel → Option Panel
unfolding get_selection_id_by_name on_select_item
init_search f site labels q =
    let p = record q { labels = labels } in
    on_select_item f site
      (get_selection_id_by_name (read_setting p.browser search_cookie_name "0") p) p

abbrev all_false : List String → List Bool
all_false [] = []
all_false (label ∷ labels) = false ∷ all_false labels

-- The marks with one at a position, if it is there
abbrev pub only : ℕ → List String → List Bool
only id [] = []
only zero (label ∷ labels) = true ∷ all_false labels
only (suc id) (label ∷ labels) = false ∷ only id labels

set_marks-past :
    (f : Platform) (id j : ℕ) (labels : List String) (b : Browser)
    → id < j
    → set_marks f id j labels b ≡ (all_false labels, b)
unfolding set_marks
set_marks-past f id j [] b past = refl
set_marks-past f id j (label ∷ labels) b past =
    ground (arith, set_marks-past f id (1 + j) labels b (omega (arith, past)))

-- The setting that is written: the label at the position, if it is there
abbrev written : Platform → Option String → Browser → Browser
written f none b = b
written f (some label) b = write_setting f search_cookie_name label session b

set_marks_lem :
    (f : Platform) (id j k : ℕ) (labels : List String) (b : Browser)
    → id ≡ j + k
    → set_marks f id j labels b ≡ (only k labels, written f (nth k labels) b)
unfolding set_marks
set_marks_lem f id j k [] b e = refl
set_marks_lem f id j zero (label ∷ labels) b e =
    ground (
      arith,
      set_marks-past f id (1 + j) labels (write_setting f search_cookie_name label session b),
    )
set_marks_lem f id j (suc k) (label ∷ labels) b e =
    ground (arith, set_marks_lem f id (1 + j) k labels b)

-- Choosing an item marks it and no other, and writes its name to the settings; past the last item
-- nothing is marked or written.
pub select_item_set_lem :
    (f : Platform) (id : ℕ) (p : Panel)
    → ((select_item_set f id p).marks ≡ only id p.labels)
      × ((select_item_set f id p).browser ≡ written f (nth id p.labels) p.browser)
unfolding select_item_set
select_item_set_lem f id p =
    let e = set_marks_lem f id 0 id p.labels p.browser (omega arith) in
    (ap (λ r. r.0) e, ap (λ r. r.1) e)

nth-past {ℓ} : {A : Type ℓ} (n : ℕ) (xs : List A) → length xs ≤ n → nth n xs ≡ none
nth-past n [] h = refl
nth-past zero (x ∷ xs) h = absurd (omega (arith, h))
nth-past (suc n) (x ∷ xs) h = nth-past n xs (omega (arith, h))

select_item_set-frame :
    (f : Platform) (id : ℕ) (p : Panel)
    → ((select_item_set f id p).search_index ≡ p.search_index)
      × ((select_item_set f id p).search_active ≡ p.search_active)
      × ((select_item_set f id p).field_value ≡ p.field_value)
unfolding select_item_set
select_item_set-frame f id p = (refl, refl, refl)

-- Where the last section is chosen, a text is entered and the panel is active, the Down key makes the
-- handler throw, since it goes one section further and the search then reads past the sections.
on_search_select_key-throws :
    (f : Platform) (site : Site) (p : Panel)
    → length site.sections_with_content ≡ select_item_count p
    → p.search_index + 1 ≡ select_item_count p
    → remove_spaces p.field_value ≢ ""
    → p.search_active ≡ true
    → on_search_select_key f site 40 p ≡ none
unfolding on_search_select_key on_select_item Panel.search select_item_set
on_search_select_key-throws f site p sections last entered active = ground (
  arith,
  str_eq-ne (remove_spaces p.field_value) "" entered,
  nth-past (p.search_index + 1) site.sections_with_content (omega (arith, sections, last)),
)
