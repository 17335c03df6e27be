-- ===== src/DocSearch/Keys.antt =====
-- The keys in the results: `ProcessKeys`, `Nav`, `NavChild` and `Toggle` of
-- docs/docs_output/html/search/search.js.
use cherry_recorder_server.Prelude.{
  ℕ, suc, zero, ◌+◌, ◌-◌, Bool, true, false, ◌==◌, ltb, not, ◌&&◌, if◌then◌else◌, Option, none,
  some, List, [], ◌∷◌,
}
use cherry_recorder_server.DocSearch.Rows.{Row, get_row, nav_next, nav_prev}
use cherry_recorder_server.DocSearch.Panel.{Panel, item, child, close_results_window, focus_field}
use cherry_recorder_server.DocSearch.Box.{focus_item}

pub data EventType : Type 0 where
  keydown : EventType
  keypress : EventType
  keyup : EventType

pub record KeyEvent : Type 0 where
  pub type : EventType
  pub key_code : ℕ

-- The state after, and whether the event is to be acted on
unfoldable process_keys : KeyEvent → Panel → Panel × Bool
process_keys e p = elim e.type [
  | keydown ↦ (record p { repeat_on = false; last_key = e.key_code }, not (e.key_code == 0))
  | keypress ↦
      if not p.repeat_on
      then ((if p.last_key == 0 then p else record p { repeat_on = true }), false)
      else (p, not (p.last_key == 0))
  | keyup ↦ (record p { last_key = 0; repeat_on = false }, false)
]

-- The display of a row's children is set.
unfoldable show_children : Bool → ℕ → List Row → List Row
show_children shown i [] = []
show_children shown zero (row ∷ rows) =
    record row { children = elim row.children [ none ↦ none | some (b, n) ↦ some (shown, n) ] }
    ∷ rows
show_children shown (suc i) (row ∷ rows) = row ∷ show_children shown i rows

abbrev with_children : Bool → ℕ → Panel → Panel
with_children shown i p = record p {
  results = record p.results { rows = show_children shown i p.results.rows };
}

abbrev child_count : Option Row → ℕ
child_count none = 0
child_count (some row) = elim row.children [ none ↦ 0 | some (b, n) ↦ n ]

-- Whether the row's children are there and shown
abbrev is_open : Option Row → Bool
is_open none = false
is_open (some row) = elim row.children [ none ↦ false | some (b, n) ↦ b ]

unfoldable toggle : ℕ → Panel → Panel
unfolding show_children
toggle i p = with_children (not (is_open (get_row i p.results.rows))) i p

abbrev pub escape : Panel → Panel
escape p = focus_field (close_results_window p)

-- The last child of the row that the step up goes to, if its children are shown; the children are
-- looked up under the number of the row just before, as the source does.
abbrev focus_above : ℕ → Option ℕ → Panel → Panel
focus_above before none p = focus_field p
focus_above before (some i) p =
    if is_open (get_row i p.results.rows)
    then elim (child_count (get_row before p.results.rows)) [
      | zero ↦ record p { focus = item i }
      | suc n ↦ record p { focus = child before n }
    ]
    else record p { focus = item i }

abbrev step_down : ℕ → Panel → Panel
step_down i p = focus_item (nav_next (1 + i) p.results.rows) p

-- The keys of `Nav`, after `ProcessKeys`
unfoldable nav_key : ℕ → Panel → Panel
unfolding show_children
nav_key i p =
    let rows = p.results.rows in
    if p.last_key == 38
    then focus_above (i - 1) (nav_prev i rows) p
    else if p.last_key == 40
    then if is_open (get_row i rows) && ltb 0 (child_count (get_row i rows))
      then record p { focus = child i 0 }
      else step_down i p
    else if p.last_key == 39
    then with_children true i p
    else if p.last_key == 37
    then with_children false i p
    else if p.last_key == 27
    then escape p
    else p

-- The keys of `NavChild`, after `ProcessKeys`
unfoldable nav_child_key : ℕ → ℕ → Panel → Panel
nav_child_key i c p =
    if p.last_key == 38
    then if ltb 0 c then record p { focus = child i (c - 1) } else record p { focus = item i }
    else if p.last_key == 40
    then if ltb (c + 1) (child_count (get_row i p.results.rows))
      then record p { focus = child i (c + 1) }
      else step_down i p
    else if p.last_key == 27
    then escape p
    else p

-- The state after, and what the handler returns
abbrev handled : (Panel → Panel) → KeyEvent → Panel → Panel × Bool
handled act e p =
    if e.key_code == 13
    then (p, true)
    else let (v, on) = process_keys e p in if on then (act v, v.last_key == 13) else (v, false)

unfoldable nav : KeyEvent → ℕ → Panel → Panel × Bool
unfolding nav_key process_keys
nav e i p = handled (nav_key i) e p

unfoldable nav_child : KeyEvent → ℕ → ℕ → Panel → Panel × Bool
unfolding nav_child_key process_keys
nav_child e i c p = handled (nav_child_key i c) e p
