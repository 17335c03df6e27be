-- ===== src/Examples/Documentation.antt =====
-- Runs of the search panel of the documentation.
use cherry_recorder_server.Prelude.{
  ℕ, ◌+◌, List, Option, ◌≤◌, ◌↔◌, ◌⧺◌, String, Bool, true, false, none, some, [], ◌∷◌, ◌≡◌, arith,
  refl, ◌==◌,
}
use cherry_recorder_server.DocSearch.Cookie.{
  Browser, Platform, days, read_setting, write_setting, read-write_setting,
}
use cherry_recorder_server.DocSearch.Ids.{strip_row_prefix}
use cherry_recorder_server.DocSearch.Rows
use cherry_recorder_server.DocSearch.Rows.{
  Row, Results, get_row, is_shown, count_shown, next_from, drop_rows, nav_next, nav_prev, show_rows,
  nav_next-first, nav_prev-last,
}
use cherry_recorder_server.DocSearch.Matches.{search-matches}
use cherry_recorder_server.DocSearch.Dom.{
  Entry, create_result, find_child_element, walk, sizes, inside_of,
}
use cherry_recorder_server.DocSearch.Walk.{first_among, find_child_element-first}
use cherry_recorder_server.DocSearch.Panel.{Panel, Site, search_field}
use cherry_recorder_server.DocSearch.Box.{on_search_field_change}
use cherry_recorder_server.DocSearch.Tidy.{IsTidy, Reach, here, further, field_change, Reach-IsTidy}
use cherry_recorder_server.DocSearch.Sections.{FolderRow}
use cherry_recorder_server.Examples.{different}

abbrev platform : Platform
platform = record { gmt_string = λ d. "Thu, 01 Jan 2026 00:00:00 GMT"; set_cookie = λ set old. set }

abbrev browser : Browser
browser = record { chrome = true; local_storage = []; session_storage = []; cookie = "" }

read-write_setting_example :
    read_setting (write_setting platform "width" "250" (days 1) browser) "width" "180" ≡ "250"
read-write_setting_example =
    read-write_setting platform browser "width" "250" "180" (days 1) refl (different "250" "" refl)
      (λ h. cc)

abbrev plain_browser : Browser
plain_browser = record browser { chrome = false; cookie = "doxygen_width=250; SameSite=Lax;path=/" }

abbrev row : String → Bool → Row
row id shown = record { id = id; shown = shown; children = none }

abbrev results : Results
results = record {
  rows = row "sr_chat" true ∷ row "sr_http" false ∷ row "sr_chatroom" true ∷ [];
  no_matches = false;
  last_match_count = 2;
}

search-matches_example :
    ((is_shown (get_row 1 (Rows.search (λ s. s) "" "ht" results).rows) ≡ true)
      ↔ ((rest : String) × (strip_row_prefix "sr_http" ≡ "ht" ⧺ rest)))
    × ((Rows.search (λ s. s) "" "ht" results).last_match_count
        ≡ count_shown (Rows.search (λ s. s) "" "ht" results).rows)
    × ((Rows.search (λ s. s) "" "ht" results).no_matches
        ≡ (count_shown (Rows.search (λ s. s) "" "ht" results).rows == 0))
unfolding get_row
search-matches_example =
    search-matches (λ s. s) "" "ht" results 1 (row "sr_http" false) (different "ht" "" refl)
      (refl, (refl, tt)) refl refl

nav_next-first_example :
    (1 ≤ 2)
    × (is_shown (get_row 2 results.rows) ≡ true)
    × (is_shown (get_row 1 results.rows) ≡ false)
unfolding nav_next
nav_next-first_example = nav_next-first results.rows 1 2 1 refl (omega arith) (omega arith)

nav_prev-last_example :
    (is_shown (get_row 0 results.rows) ≡ true) × (is_shown (get_row 1 results.rows) ≡ false)
unfolding nav_prev get_row
nav_prev-last_example = nav_prev-last results.rows 2 0 1 refl (omega arith) (omega arith)

abbrev entry : Entry
entry = record {
  id = "main";
  symbol = "main";
  links =
      record { url = "a.html"; parent = true; scope = "main.cpp" }
      ∷ record { url = "b.html"; parent = true; scope = "test_main.cpp" }
      ∷ [];
}

find_child_element-first_example :
    (walk
        (1 + sizes (inside_of (create_result "../" "0" entry)))
        (inside_of (create_result "../" "0" entry))
        []
      ≡ some (first_among (inside_of (create_result "../" "0" entry))))
    × (find_child_element (create_result "../" "0" entry)
        ≡ first_among (inside_of (create_result "../" "0" entry)))
find_child_element-first_example = find_child_element-first (create_result "../" "0" entry)

abbrev panel : Panel
panel = record {
  results = results;
  focus = search_field;
  last_key = 0;
  repeat_on = false;
  field_value = "chat";
  window_shown = true;
  close_shown = true;
  select_shown = false;
  key_timeout = false;
  hide_timeout = false;
  last_search_value = "";
  search_index = 1;
  search_active = true;
  labels = "All" ∷ "Classes" ∷ [];
  marks = false ∷ true ∷ [];
  browser = browser;
  search_data = none;
  requests = [];
}

abbrev site : Site
site = record {
  to_lower_case = λ s. s;
  query = "";
  results_path = "search/";
  section_names = "all" ∷ "classes" ∷ [];
  sections_with_content = "ch" ∷ "c" ∷ [];
}

panel-Reach : (shift : Bool) → Reach platform site panel (on_search_field_change 65 shift panel)
panel-Reach shift = further here (field_change 65 shift)

Reach-IsTidy_example : IsTidy (on_search_field_change 65 false panel)
Reach-IsTidy_example = Reach-IsTidy (panel-Reach false) (record { together = refl })

abbrev folder : List ℕ → Bool → Option Bool → FolderRow
folder path visible icon = record { path = path; visible = visible; icon = icon }

abbrev folders : List FolderRow
folders =
    folder (0 ∷ []) true (some false)
    ∷ folder (0 ∷ 1 ∷ []) false (some false)
    ∷ folder (0 ∷ 1 ∷ 2 ∷ []) false none
    ∷ []
