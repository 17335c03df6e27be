-- ===== src/DocSearch/Sections.antt =====
-- docs/docs_output/html/dynsections.js: the folding of sections, of the rows of a directory, and of
-- blocks of code.
use cherry_recorder_server.Prelude.{
  ℕ, suc, zero, ◌+◌, ◌≤◌, Bool, true, false, not, ◌==◌, ltb, leb, if◌then◌else◌, Option, none, some,
  List, [], ◌∷◌, ◌++◌, ◌≡◌, ◌≢◌, arith, length, length-append, map, ap, ◌∙◌,
}
use cherry_recorder_server.DocSearch.Panel.{nth}

-- `toggleVisibility`: whether the content of a section is visible, whether its summary is, and
-- whether its link and its image are those of an open one
record Section : Type 0 where
  pub content : Bool
  pub summary : Bool
  pub opened : Bool

unfoldable toggle_visibility : Section → Section
toggle_visibility s =
    if s.content
    then record { content = false; summary = true; opened = false }
    else record { content = true; summary = false; opened = true }

-- A row of a directory: the numbers in its id, whether it is visible, and, for a folder, whether its
-- icon and arrow are those of an open one.
pub record FolderRow : Type 0 where
  pub path : List ℕ
  pub visible : Bool
  pub icon : Option Bool

abbrev with_icon : Bool → Option Bool → Option Bool
with_icon b none = none
with_icon b (some was) = some b

abbrev level_row : ℕ → FolderRow → FolderRow
level_row level row =
    let depth = length row.path in
    if ltb depth level
    then record row { visible = true; icon = with_icon true row.icon }
    else if depth == level
    then record row { visible = true; icon = with_icon false row.icon }
    else record row { visible = false }

unfoldable pub toggle_level : ℕ → List FolderRow → List FolderRow
toggle_level level [] = []
toggle_level level (row ∷ rows) = level_row level row ∷ toggle_level level rows

-- The path is below the folder's; what it has more
unfoldable pub below : List ℕ → List ℕ → Option (List ℕ)
below [] path = some path
below (n ∷ folder) [] = none
below (n ∷ folder) (k ∷ path) = let rest = below folder path in if n == k then rest else none

abbrev is_child : Option (List ℕ) → Bool
is_child (some (n ∷ [])) = true
is_child rest = false

abbrev is_below : Option (List ℕ) → Bool
is_below none = false
is_below (some rest) = true

abbrev is_itself : Option (List ℕ) → Bool
is_itself (some []) = true
is_itself rest = false

unfoldable first_child_visible : List ℕ → List FolderRow → Bool
first_child_visible folder [] = false
first_child_visible folder (row ∷ rows) =
    let later = first_child_visible folder rows in
    if is_child (below folder row.path) then row.visible else later

-- What a row after the folder's becomes
abbrev fold_row : Bool → List ℕ → FolderRow → FolderRow
fold_row true folder row =
    if is_below (below folder row.path) then record row { visible = false } else row
fold_row false folder row =
    if is_child (below folder row.path)
    then record row { visible = true; icon = with_icon false row.icon }
    else row

unfoldable fold_rows : Bool → List ℕ → List FolderRow → List FolderRow
fold_rows hiding folder [] = []
fold_rows hiding folder (row ∷ rows) = fold_row hiding folder row ∷ fold_rows hiding folder rows

unfoldable toggle_folder : List ℕ → List FolderRow → List FolderRow
unfolding first_child_visible fold_rows below
toggle_folder folder [] = []
toggle_folder folder (row ∷ rows) =
    let hiding = first_child_visible folder rows in
    let later = toggle_folder folder rows in
    if is_itself (below folder row.path)
    then record row { icon = with_icon (not hiding) row.icon } ∷ fold_rows hiding folder rows
    else row ∷ later

-- A block of code, with its folded form: which of them is shown
record Fold : Type 0 where
  pub open_shown : Bool
  pub closed_shown : Bool

record CodeFold : Type 0 where
  pub opened : Bool
  pub folds : List Fold

unfoldable toggle_all : CodeFold → CodeFold
toggle_all c = record {
  opened = not c.opened;
  folds = map (λ f. record { open_shown = not c.opened; closed_shown = c.opened }) c.folds;
}

unfoldable toggle_fold : ℕ → List Fold → List Fold
toggle_fold i [] = []
toggle_fold zero (f ∷ folds) =
    record { open_shown = not f.open_shown; closed_shown = not f.closed_shown } ∷ folds
toggle_fold (suc i) (f ∷ folds) = f ∷ toggle_fold i folds

toggle_level-nth :
    (level : ℕ) (rows : List FolderRow) (i : ℕ) (r : FolderRow)
    → nth i (toggle_level level rows) ≡ some r
    → (r.visible ≡ leb (length r.path) level) × (r.icon ≡ some false → level ≤ length r.path)
unfolding toggle_level
toggle_level-nth level [] i r e = cc
toggle_level-nth level (row ∷ rows) zero r e = (ground (arith, e), λ h. ground (arith, e, h))
toggle_level-nth level (row ∷ rows) (suc i) r e = toggle_level-nth level rows i r e

-- After the rows are folded to a level, a folder with a visible row below it is visible too, and is
-- not marked as closed.
toggle_level-nested :
    (level : ℕ) (rows : List FolderRow) (i j n : ℕ) (more : List ℕ) (r q : FolderRow)
    → nth i (toggle_level level rows) ≡ some r
    → nth j (toggle_level level rows) ≡ some q
    → q.path ≡ r.path ++ n ∷ more
    → q.visible ≡ true
    → (r.visible ≡ true) × (r.icon ≢ some false)
toggle_level-nested level rows i j n more r q at_i at_j under shown =
    let (r_shown, r_closed) = toggle_level-nth level rows i r at_i in
    let (q_shown, q_closed) = toggle_level-nth level rows j q at_j in
    let longer : length q.path ≡ length r.path + suc (length more) =
      ap length under ∙ length-append r.path (n ∷ more) in
    (
      ground (arith, r_shown, q_shown, longer),
      λ closed. ground (arith, r_closed closed, q_shown, longer),
    )

-- `toggleInherit`: whether each row of the inherited members is visible, and whether the image is that
-- of an open section
record Inherited : Type 0 where
  pub rows : List Bool
  pub opened : Bool

abbrev first_visible : List Bool → Bool
first_visible [] = false
first_visible (row ∷ rows) = row

unfoldable toggle_inherit : Inherited → Inherited
toggle_inherit g =
    if first_visible g.rows
    then record { rows = map (λ row. false) g.rows; opened = false }
    else record { rows = map (λ row. true) g.rows; opened = true }

-- `updateStripes`: each row's stripe, even or not, counted over the visible rows from the one given;
-- the others have none.
unfoldable update_stripes : Bool → List FolderRow → List (Option Bool)
update_stripes even [] = []
update_stripes even (row ∷ rows) =
    if row.visible
    then some even ∷ update_stripes (not even) rows
    else none ∷ update_stripes even rows
