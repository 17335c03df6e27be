-- ===== src/DocSearch/Tidy.antt =====
-- What the handlers of docs/docs_output/html/search/search.js keep of the panel's state.
use cherry_recorder_server.Prelude.{
  ℕ, ◌+◌, ◌-◌, String, Bool, true, false, str_eq, ◌==◌, ltb, not, ◌||◌, ◌&&◌, if◌then◌else◌, Option,
  none, some, List, [], ◌∷◌, ◌≡◌, ◌≢◌, refl, arith,
}
use cherry_recorder_server.DocSearch.Cookie.{Platform}
use cherry_recorder_server.DocSearch.Ids.{remove_spaces}
use cherry_recorder_server.DocSearch.Rows.{Row, nav_next}
use cherry_recorder_server.DocSearch.Panel
use cherry_recorder_server.DocSearch.Panel.{
  Panel, Site, Request, elsewhere, search_in, nth, activate, close_results_window,
  close_selection_window, handle_results, on_load, requested, js_file, index_from, first_character,
}
use cherry_recorder_server.DocSearch.Box.{
  on_search_field_focus, on_search_select_show, on_search_select_hide, on_search_field_change,
  value_changed, select_item_set, select_item_count, selection_done, on_select_item,
  on_search_select_key, focus_item, focus_select_item,
}

-- The results and the button that closes them are shown together.
pub record IsTidy (p : Panel) : Type 0 where
  pub together : p.close_shown ≡ p.window_shown

-- What happens to the panel
pub data Step (f : Platform) (site : Site) (p : Panel) : Panel → Type 0 where
  field_focus : (is_active : Bool) → Step f site p (on_search_field_focus is_active p)
  select_show : Step f site p (on_search_select_show p)
  select_hide : Step f site p (on_search_select_hide p)
  field_edit : (value : String) → Step f site p (record p { field_value = value })
  field_change :
      (key_code : ℕ) (shift : Bool) → Step f site p (on_search_field_change key_code shift p)
  select_key :
      (key_code : ℕ) (v : Panel) → on_search_select_key f site key_code p ≡ some v → Step f site p v
  select_item : (id : ℕ) (v : Panel) → on_select_item f site id p ≡ some v → Step f site p v
  close_results : Step f site p (close_results_window p)
  key_timer : (v : Panel) → Panel.search site p ≡ some v → Step f site p v
  loaded : (rows : List Row) (r : Request) → Step f site p (on_load site rows r p)

requested-IsTidy :
    (site : Site) (value : String) (file : Option String) (p : Panel)
    → IsTidy p
    → IsTidy (requested site value file p)
unfolding handle_results
requested-IsTidy site value none p tidy = record { together = ground (arith, tidy.together) }
requested-IsTidy site value (some file) p tidy = record { together = tidy.together }

-- A handler that throws leaves nothing to say.
abbrev IsTidyAfter : Option Panel → Type 0
IsTidyAfter none = Unit
IsTidyAfter (some p) = IsTidy p

search_in-IsTidy :
    (site : Site) (o : Option String) (p : Panel) → IsTidy p → IsTidyAfter (search_in site o p)
search_in-IsTidy site none p tidy = tt
search_in-IsTidy site (some content) p tidy = requested-IsTidy site _ _ p tidy

search-IsTidy : (site : Site) (p : Panel) → IsTidy p → IsTidyAfter (Panel.search site p)
unfolding Panel.search
search-IsTidy site p tidy =
    search_in-IsTidy site (nth p.search_index site.sections_with_content) p tidy

if-IsTidyAfter :
    (b : Bool) (p q : Option Panel)
    → IsTidyAfter p
    → IsTidyAfter q
    → IsTidyAfter (if b then p else q)
if-IsTidyAfter true p q h k = h
if-IsTidyAfter false p q h k = k

on_select_item-IsTidy :
    (f : Platform) (site : Site) (id : ℕ) (p : Panel)
    → IsTidy p
    → IsTidyAfter (on_select_item f site id p)
unfolding on_select_item select_item_set
on_select_item-IsTidy f site id p tidy =
    let v = select_item_set f id (record p { search_index = id }) in
    if-IsTidyAfter (not (str_eq (remove_spaces p.field_value) "") && p.search_active)
      (Panel.search site v) (some v) (search-IsTidy site v (record { together = tidy.together }))
      (record { together = tidy.together })

selection_done-IsTidy : (o : Option Panel) → IsTidyAfter o → IsTidyAfter (selection_done o)
unfolding close_selection_window
selection_done-IsTidy none h = tt
selection_done-IsTidy (some p) h = record { together = h.together }

select_key-IsTidy :
    (f : Platform) (site : Site) (key_code : ℕ) (p : Panel)
    → IsTidy p
    → IsTidyAfter (on_search_select_key f site key_code p)
unfolding on_search_select_key
select_key-IsTidy f site key_code p tidy =
    let i = p.search_index in
    let again = on_select_item f site i p in
    let back = if key_code == 13 || key_code == 27 then selection_done again else some p in
    let up = if key_code == 38 && ltb 0 i then on_select_item f site (i - 1) p else back in
    if-IsTidyAfter (key_code == 40 && ltb i (select_item_count p)) (on_select_item f site (i + 1) p)
      up (on_select_item-IsTidy f site (i + 1) p tidy)
      (if-IsTidyAfter (key_code == 38 && ltb 0 i) (on_select_item f site (i - 1) p) back
        (on_select_item-IsTidy f site (i - 1) p tidy)
        (if-IsTidyAfter (key_code == 13 || key_code == 27) (selection_done again) (some p)
          (selection_done-IsTidy again (on_select_item-IsTidy f site i p tidy)) tidy))

if-IsTidy : (b : Bool) (p q : Panel) → IsTidy p → IsTidy q → IsTidy (if b then p else q)
if-IsTidy true p q a b = a
if-IsTidy false p q a b = b

value_changed-IsTidy : (p : Panel) → IsTidy p → IsTidy (value_changed p)
unfolding value_changed
value_changed-IsTidy p tidy = record { together = ground (arith, tidy.together) }

focus_item-IsTidy : (o : Option ℕ) (p : Panel) → IsTidy p → IsTidy (focus_item o p)
focus_item-IsTidy none p tidy = tidy
focus_item-IsTidy (some i) p tidy = record { together = tidy.together }

focus_select_item-IsTidy :
    (labels : List String) (p : Panel) → IsTidy p → IsTidy (focus_select_item labels p)
focus_select_item-IsTidy [] p tidy = tidy
focus_select_item-IsTidy (label ∷ labels) p tidy = record { together = tidy.together }

activate-IsTidy : (is_active : Bool) (p : Panel) → IsTidy p → IsTidy (activate is_active p)
unfolding activate
activate-IsTidy is_active p tidy = record { together = ground (arith, tidy.together) }

field_change-IsTidy :
    (key_code : ℕ) (shift : Bool) (p : Panel)
    → IsTidy p
    → IsTidy (on_search_field_change key_code shift p)
unfolding on_search_field_change on_search_select_show
field_change-IsTidy key_code shift p tidy =
    let q = record p { key_timeout = false } in
    let started : IsTidy q = record { together = tidy.together } in
    let shown = focus_select_item p.labels (on_search_select_show q) in
    let moved = focus_item (nav_next 0 p.results.rows) q in
    let closed = record q {
      focus = elsewhere;
      window_shown = false;
      close_shown = false;
      last_search_value = "";
    } in
    if-IsTidy (key_code == 40 || key_code == 13) (if shift then shown else value_changed moved)
      (if key_code == 27 then activate false closed else value_changed q)
      (if-IsTidy shift shown (value_changed moved)
        (focus_select_item-IsTidy p.labels _ (record { together = tidy.together }))
        (value_changed-IsTidy moved (focus_item-IsTidy (nav_next 0 p.results.rows) q started)))
      (if-IsTidy (key_code == 27) (activate false closed) (value_changed q)
        (activate-IsTidy false closed (record { together = refl }))
        (value_changed-IsTidy q started))

after_some : (o : Option Panel) (v : Panel) → IsTidyAfter o → o ≡ some v → IsTidy v
after_some none v h e = cc
after_some (some p) v h e = record { together = ground (arith, h.together, e) }

Step-IsTidy :
    (f : Platform) (site : Site) (p : Panel) {v : Panel} → Step f site p v → IsTidy p → IsTidy v
unfolding on_search_field_focus on_search_select_show on_search_select_hide close_results_window
    on_load handle_results
Step-IsTidy f site p (field_focus is_active) tidy = activate-IsTidy is_active p tidy
Step-IsTidy f site p select_show tidy = record { together = tidy.together }
Step-IsTidy f site p select_hide tidy = record { together = tidy.together }
Step-IsTidy f site p (field_edit value) tidy = record { together = tidy.together }
Step-IsTidy f site p (field_change key_code shift) tidy = field_change-IsTidy key_code shift p tidy
Step-IsTidy f site p (select_key key_code v e) tidy =
    after_some _ v (select_key-IsTidy f site key_code p tidy) e
Step-IsTidy f site p (select_item id v e) tidy =
    after_some _ v (on_select_item-IsTidy f site id p tidy) e
Step-IsTidy f site p close_results tidy =
    activate-IsTidy false (record p { window_shown = false; close_shown = false })
      (record { together = refl })
Step-IsTidy f site p (key_timer v e) tidy = after_some _ v (search-IsTidy site p tidy) e
Step-IsTidy f site p (loaded rows r) tidy = record { together = ground (arith, tidy.together) }

pub data Reach (f : Platform) (site : Site) (p : Panel) : Panel → Type 0 where
  here : Reach f site p p
  further : {q v : Panel} → Reach f site p q → Step f site q v → Reach f site p v

-- From a panel whose close button is shown exactly with the results, whatever the handlers do, it
-- is still so.
pub Reach-IsTidy :
    {f : Platform} {site : Site} {p v : Panel} → Reach f site p v → IsTidy p → IsTidy v
Reach-IsTidy here tidy = tidy
Reach-IsTidy (further {q} {v} r st) tidy = Step-IsTidy _ _ q st (Reach-IsTidy r tidy)

-- After a change of the field by any key but Escape and those that move the focus, the search is
-- awaited exactly if the text is neither empty nor the one searched for last, spaces aside; if it is
-- empty and another one was searched for, the results are hidden.
on_search_field_change_lem :
    (key_code : ℕ) (shift : Bool) (p : Panel)
    → key_code ≢ 40
    → key_code ≢ 13
    → key_code ≢ 27
    → ((on_search_field_change key_code shift p).key_timeout ≡ (
        not (str_eq (remove_spaces p.field_value) "")
        && not (str_eq (remove_spaces p.field_value) p.last_search_value)))
      × ((on_search_field_change key_code shift p).window_shown ≡ (
          p.window_shown
          && not (
              str_eq (remove_spaces p.field_value) ""
              && not (str_eq (remove_spaces p.field_value) p.last_search_value))))
unfolding on_search_field_change value_changed
on_search_field_change_lem key_code shift p down enter escape = ground arith

-- Closing the results hides them and their button, empties the field and ends the activity of the
-- panel, and forgets the text searched for last.
close_results_window_lem :
    (p : Panel)
    → ((close_results_window p).window_shown ≡ false)
      × ((close_results_window p).close_shown ≡ false)
      × ((close_results_window p).search_active ≡ false)
      × ((close_results_window p).field_value ≡ "")
      × ((close_results_window p).last_search_value ≡ "")
unfolding close_results_window activate
close_results_window_lem p = (refl, refl, refl, refl, refl)
