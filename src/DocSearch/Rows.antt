-- ===== src/DocSearch/Rows.antt =====
-- The rows of the search results in docs/docs_output/html/search/search.js: which are shown after a
-- search, and the steps from one to the next.
use Prim.Native.String.{[], ◌∷◌}
use cherry_recorder_server.Prelude.{
  ℕ, suc, zero, ◌+◌, ◌-◌, ◌<◌, ◌≤◌, String, code, str_eq-ne, Bool, true, false, str_eq, ◌==◌, ◌&&◌,
  if◌then◌else◌, ◌≡◌, ◌≢◌, refl, ap, arith, Option, none, some, List, [], ◌∷◌, inl, inr,
  Option-cases,
}
use cherry_recorder_server.DocSearch.Ids.{
  convert_to_id, strip_leading, strip_trailing, strip_row_prefix,
}

-- A `div` of class SRResult. `children` is there if the row has several links: whether they are
-- shown, and how many there are.
pub record Row : Type 0 where
  pub id : String
  pub shown : Bool
  pub children : Option (Bool × ℕ)

-- The page: its rows, the message that nothing matches, and the counters of `SearchResults`.
pub record Results : Type 0 where
  pub rows : List Row
  pub no_matches : Bool
  pub last_match_count : ℕ

-- `s.substr(0, p.length) == p`
unfoldable pub starts_with : String → String → Bool
starts_with [] s = true
starts_with (c ∷ p) [] = false
starts_with (c ∷ p) (d ∷ s) = code c == code d && starts_with p s

module _ (to_lower_case : String → String) where
  abbrev pub row_matches : String → Row → Bool
  row_matches search row = starts_with search (strip_row_prefix (to_lower_case row.id))

  -- The loop over the rows, and the number of matches
  unfoldable pub show_rows : String → List Row → List Row × ℕ
  show_rows search [] = ([], 0)
  show_rows search (row ∷ rows) =
      let (shown_rows, matches) = show_rows search rows in
      if row_matches search row
      then (record row { shown = true } ∷ shown_rows, 1 + matches)
      else (record row { shown = false } ∷ shown_rows, matches)

  abbrev pub search_id : String → String
  search_id text = convert_to_id (to_lower_case (strip_trailing (strip_leading text)))

  -- `query` is the search part of the URL, unescaped, without the "?".
  unfoldable pub search : String → String → Results → Results
  unfolding show_rows
  search query text r =
      let (rows, matches) = show_rows (search_id (if str_eq text "" then query else text)) r.rows in
      record { rows = rows; no_matches = matches == 0; last_match_count = matches }

unfoldable pub get_row : ℕ → List Row → Option Row
get_row i [] = none
get_row zero (row ∷ rows) = some row
get_row (suc i) (row ∷ rows) = get_row i rows

abbrev pub is_shown : Option Row → Bool
is_shown none = false
is_shown (some row) = row.shown

unfoldable pub count_shown : List Row → ℕ
count_shown [] = 0
count_shown (row ∷ rows) = if row.shown then 1 + count_shown rows else count_shown rows

-- `NavNext`: the loop from an index on, over the rows that are left there
unfoldable pub next_from : ℕ → List Row → Option ℕ
next_from index [] = none
next_from index (row ∷ rows) =
    let later = next_from (1 + index) rows in if row.shown then some index else later

unfoldable pub drop_rows : ℕ → List Row → List Row
drop_rows zero rows = rows
drop_rows (suc n) [] = []
drop_rows (suc n) (row ∷ rows) = drop_rows n rows

unfoldable pub nav_next : ℕ → List Row → Option ℕ
unfolding next_from drop_rows
nav_next index rows = next_from index (drop_rows index rows)

-- `NavPrev` from `n - 1` down. There is no item before the first, and none past the last.
unfoldable pub nav_prev : ℕ → List Row → Option ℕ
nav_prev zero rows = none
nav_prev (suc n) rows =
    let earlier = nav_prev n rows in
    elim (get_row n rows) [ none ↦ none | some row ↦ if row.shown then some n else earlier ]

module _ (to_lower_case : String → String) where
  show_rows_lem :
      (search_word : String) (rows : List Row) (i : ℕ) (row : Row)
      → get_row i rows ≡ some row
      → get_row i (show_rows to_lower_case search_word rows).0
        ≡ some (record row { shown = row_matches to_lower_case search_word row })
  unfolding show_rows get_row
  show_rows_lem w [] i row e = cc
  show_rows_lem w (r ∷ rows) zero row e = ground arith
  show_rows_lem w (r ∷ rows) (suc i) row e = ground (arith, show_rows_lem w rows i row e)

  show_rows-count :
      (search_word : String) (rows : List Row)
      → (show_rows to_lower_case search_word rows).1
        ≡ count_shown (show_rows to_lower_case search_word rows).0
  unfolding show_rows count_shown
  show_rows-count w [] = refl
  show_rows-count w (r ∷ rows) = ground (arith, show_rows-count w rows)

  -- After a search for a text that is not empty, a row is shown exactly if its name starts with the
  -- id of the text, the match count is the number of the rows shown, and the message that nothing
  -- matches is shown exactly if there are none.
  pub search-rows :
      (query text : String) (r : Results) (i : ℕ) (row : Row)
      → text ≢ ""
      → get_row i r.rows ≡ some row
      → (get_row i (search to_lower_case query text r).rows
          ≡ some
              (record row { shown = row_matches to_lower_case (search_id to_lower_case text) row }))
        × ((search to_lower_case query text r).last_match_count
            ≡ count_shown (search to_lower_case query text r).rows)
        × ((search to_lower_case query text r).no_matches
            ≡ (count_shown (search to_lower_case query text r).rows == 0))
  unfolding search
  search-rows query text r i row named e = ground (
    arith,
    str_eq-ne text "" named,
    show_rows_lem (search_id to_lower_case text) r.rows i row e,
    show_rows-count (search_id to_lower_case text) r.rows,
  )

next_from_ge : (index : ℕ) (rows : List Row) (i : ℕ) → next_from index rows ≡ some i → index ≤ i
unfolding next_from
next_from_ge index [] i e = cc
next_from_ge index (row ∷ rows) i e = ground (arith, next_from_ge (1 + index) rows i)

next_from_hit :
    (index : ℕ) (rows : List Row) (i k : ℕ)
    → next_from index rows ≡ some i
    → i ≡ index + k
    → is_shown (get_row k rows) ≡ true
unfolding next_from get_row
next_from_hit index [] i k e p = cc
next_from_hit index (row ∷ rows) i zero e p = ground (arith, next_from_ge (1 + index) rows i)
next_from_hit index (row ∷ rows) i (suc k) e p = ground (arith, next_from_hit (1 + index) rows i k)

next_from_miss :
    (index : ℕ) (rows : List Row) (i k : ℕ)
    → next_from index rows ≡ some i
    → index + k < i
    → is_shown (get_row k rows) ≡ false
unfolding next_from get_row
next_from_miss index [] i k e p = cc
next_from_miss index (row ∷ rows) i zero e p = ground arith
next_from_miss index (row ∷ rows) i (suc k) e p =
    ground (arith, next_from_miss (1 + index) rows i k)

next_from-none :
    (index : ℕ) (rows : List Row) (k : ℕ)
    → next_from index rows ≡ none
    → is_shown (get_row k rows) ≡ false
unfolding next_from get_row
next_from-none index [] k e = refl
next_from-none index (row ∷ rows) zero e = ground arith
next_from-none index (row ∷ rows) (suc k) e = ground (arith, next_from-none (1 + index) rows k)

get_row-drop_rows :
    (n : ℕ) (rows : List Row) (k : ℕ) → get_row k (drop_rows n rows) ≡ get_row (n + k) rows
unfolding drop_rows get_row
get_row-drop_rows zero rows k = ap (λ m. get_row m rows) (omega arith)
get_row-drop_rows (suc n) [] k = refl
get_row-drop_rows (suc n) (row ∷ rows) k = ground (arith, get_row-drop_rows n rows k)

-- The step down from an index goes to a row that is shown, at the index or after, and passes over
-- no row that is shown.
pub nav_next-first :
    (rows : List Row) (index i j : ℕ)
    → nav_next index rows ≡ some i
    → index ≤ j
    → j < i
    → (index ≤ i) × (is_shown (get_row i rows) ≡ true) × (is_shown (get_row j rows) ≡ false)
unfolding nav_next
nav_next-first rows index i j e from before =
    let rest = drop_rows index rows in
    ground (
      arith,
      next_from_ge index rest i e,
      next_from_hit index rest i (i - index) e,
      next_from_miss index rest i (j - index) e,
      get_row-drop_rows index rows (i - index),
      get_row-drop_rows index rows (j - index),
    )

-- There is no step down only where no row from the index on is shown.
nav_next-none :
    (rows : List Row) (index j : ℕ)
    → nav_next index rows ≡ none
    → index ≤ j
    → is_shown (get_row j rows) ≡ false
unfolding nav_next
nav_next-none rows index j e from = ground (
  arith,
  next_from-none index (drop_rows index rows) (j - index) e,
  get_row-drop_rows index rows (j - index),
)

nav_prev_hit :
    (rows : List Row) (n i : ℕ) → nav_prev n rows ≡ some i → is_shown (get_row i rows) ≡ true
unfolding nav_prev
nav_prev_hit rows zero i e = cc
nav_prev_hit rows (suc n) i e = ground (arith, nav_prev_hit rows n i)

-- The step up from before a row goes to a row that is shown, and passes over no row that is shown.
pub nav_prev-last :
    (rows : List Row) (n i j : ℕ)
    → nav_prev n rows ≡ some i
    → i < j
    → j < n
    → (is_shown (get_row i rows) ≡ true) × (is_shown (get_row j rows) ≡ false)
unfolding nav_prev
nav_prev-last rows zero i j e above below = cc
nav_prev-last rows (suc n) i j e above below = elim (Option-cases (get_row n rows)) [
  | inl missing ↦ cc (e, missing)
  | inr (row, found) ↦ ground (arith, found, nav_prev_hit rows n i, nav_prev-last rows n i j)
]
