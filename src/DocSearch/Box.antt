-- ===== src/DocSearch/Box.antt =====
-- The event handlers of `SearchBox` in docs/docs_output/html/search/search.js.
use Prim.Native.String.{[], ◌∷◌}
use cherry_recorder_server.Prelude.{
  ℕ, ◌+◌, ◌-◌, String, Bool, true, false, str_eq, ◌==◌, ltb, not, ◌||◌, ◌&&◌, if◌then◌else◌, Option,
  none, some, List, [], ◌∷◌, length,
}
use cherry_recorder_server.DocSearch.Ids.{remove_spaces}
use cherry_recorder_server.DocSearch.Cookie.{Browser, Platform, write_setting, session}
use cherry_recorder_server.DocSearch.Rows.{nav_next}
use cherry_recorder_server.DocSearch.Panel.{
  Panel, Site, item, select_item, elsewhere, activate, close_selection_window, focus_field, search,
}

unfoldable pub on_search_field_focus : Bool → Panel → Panel
unfolding activate
on_search_field_focus is_active p = activate is_active p

unfoldable pub on_search_select_show : Panel → Panel
on_search_select_show p = record p { select_shown = true; hide_timeout = false }

unfoldable pub on_search_select_hide : Panel → Panel
on_search_select_hide p = record p { hide_timeout = true }

abbrev pub focus_select_item : List String → Panel → Panel
focus_select_item [] p = p
focus_select_item (label ∷ labels) p = record p { focus = select_item 0 }

abbrev pub focus_item : Option ℕ → Panel → Panel
focus_item none p = p
focus_item (some i) p = record p { focus = item i }

-- The last part of `OnSearchFieldChange`
unfoldable pub value_changed : Panel → Panel
value_changed p =
    let value = remove_spaces p.field_value in
    if str_eq value p.last_search_value
    then p
    else if not (str_eq value "")
    then record p { key_timeout = true }
    else record p { window_shown = false; close_shown = false; last_search_value = "" }

-- `OnSearchFieldChange` for a key code, with shift or without
unfoldable pub on_search_field_change : ℕ → Bool → Panel → Panel
unfolding on_search_select_show activate value_changed
on_search_field_change key_code shift q =
    let p = record q { key_timeout = false } in
    if key_code == 40 || key_code == 13
    then if shift
      then focus_select_item p.labels (on_search_select_show p)
      else value_changed (focus_item (nav_next 0 p.results.rows) p)
    else if key_code == 27
    then activate false (record p {
      focus = elsewhere;
      window_shown = false;
      close_shown = false;
      last_search_value = "";
    })
    else value_changed p

abbrev pub select_item_count : Panel → ℕ
select_item_count p = length p.labels

-- `GetSelectionIdByName`, from the position `j` on
unfoldable position : String → ℕ → List String → ℕ
position name j [] = 0
position name j (label ∷ labels) =
    let later = position name (1 + j) labels in if str_eq label name then j else later

unfoldable pub get_selection_id_by_name : String → Panel → ℕ
unfolding position
get_selection_id_by_name name p = position name 0 p.labels

abbrev pub search_cookie_name : String
search_cookie_name = "search_grp"

-- The loop of `SelectItemSet`, from the position `j` on: the marks, and the browser's settings
unfoldable pub set_marks : Platform → ℕ → ℕ → List String → Browser → List Bool × Browser
set_marks f id j [] b = ([], b)
set_marks f id j (label ∷ labels) b =
    let b' = if j == id then write_setting f search_cookie_name label session b else b in
    let (marks, after) = set_marks f id (1 + j) labels b' in ((j == id) ∷ marks, after)

unfoldable pub select_item_set : Platform → ℕ → Panel → Panel
unfolding set_marks
select_item_set f id p =
    let (marks, b) = set_marks f id 0 p.labels p.browser in record p { marks = marks; browser = b }

unfoldable pub on_select_item : Platform → Site → ℕ → Panel → Option Panel
unfolding select_item_set search
on_select_item f site id q =
    let p = select_item_set f id (record q { search_index = id }) in
    if not (str_eq (remove_spaces p.field_value) "") && p.search_active
    then search site p
    else some p

abbrev pub selection_done : Option Panel → Option Panel
selection_done none = none
selection_done (some p) = some (focus_field (close_selection_window p))

-- `OnSearchSelectKey`
unfoldable pub on_search_select_key : Platform → Site → ℕ → Panel → Option Panel
unfolding on_select_item close_selection_window
on_search_select_key f site key_code p =
    if key_code == 40 && ltb p.search_index (select_item_count p)
    then on_select_item f site (p.search_index + 1) p
    else if key_code == 38 && ltb 0 p.search_index
    then on_select_item f site (p.search_index - 1) p
    else if key_code == 13 || key_code == 27
    then selection_done (on_select_item f site p.search_index p)
    else some p
