-- ===== src/NavTree/Page.antt =====
-- What docs/docs_output/html/navtree.js does with the tree when the page or its hash changes:
-- selectAndHighlight, gotoNode, navTo and the handler of hashchange. The scrolling is left out.
use Prim.Native.String.{[], ◌∷◌, compare}
use text.Mathlib.Text.{is_lt}
use cherry_recorder_server.Prelude.{
  ℕ, zero, suc, ◌-◌, String, Bool, true, false, not, ◌||◌, ◌&&◌, ◌==◌, if◌then◌else◌, ◌⧺◌, str_eq,
  Option, none, some, List, [], ◌∷◌,
}
use cherry_recorder_server.StringMap
use cherry_recorder_server.StringMap.{StringMap}
use cherry_recorder_server.NavTree.{
  array, Entries, empty, entry, Item, Node, node, Nodes, nil, cons, Site,
}
use cherry_recorder_server.NavTree.Links.{
  has_char, strip_path, strip_path2, path_name, hash_url, hash_value, keep, is_hash_char,
  before_hash, after_hash, is_line_number, substring_1, ends_with,
}
use cherry_recorder_server.NavTree.Tree.{End, with_node, without_node, waits, throws, show_node}

-- `$('.item ...')` for a condition on the items: whether one meets it, and a class added to those
-- that do. The root has no item in the page.
unfoldable mutual
  pub any_node : (Item → Bool) → Node → Bool
  any_node p (node it children) = p it || any_nodes p children

  pub any_nodes : (Item → Bool) → Nodes → Bool
  any_nodes p nil = false
  any_nodes p (cons child children) = any_node p child || any_nodes p children

unfoldable mutual
  pub map_node : (Item → Item) → Node → Node
  map_node f (node it children) = node (f it) (map_nodes f children)

  pub map_nodes : (Item → Item) → Nodes → Nodes
  map_nodes f nil = nil
  map_nodes f (cons child children) = cons (map_node f child) (map_nodes f children)

abbrev pub below : (Nodes → Nodes) → Node → Node
below f (node it children) = node it (f children)

abbrev pub children_of : Node → Nodes
children_of (node it children) = children

abbrev pub is_selected : Item → Bool
is_selected it = it.selected

abbrev pub unselect : Item → Item
unselect it = record it { selected = false }

abbrev pub has_class : String → Item → Bool
has_class link it = ends_with link it.class_name

abbrev pub select_if : (Item → Bool) → Item → Item
select_if p it = if p it then record it { selected = true } else it

-- `$(n.itemDiv).addClass('selected')` for the node that the breadcrumbs lead to
abbrev pub select_item : Node → Node
select_item (node it children) = node (record it { selected = true }) children

unfoldable pub update : (Node → Node) → ℕ → Nodes → Nodes
update f n nil = nil
update f zero (cons child children) = cons (f child) children
update f (suc n) (cons child children) = cons child (update f n children)

unfoldable pub select_path : List ℕ → Nodes → Nodes
unfolding update
select_path [] children = children
select_path (crumb ∷ []) children = update select_item crumb children
select_path (crumb ∷ (next ∷ crumbs)) children =
    update (below (select_path (next ∷ crumbs))) crumb children

-- `clslink`, and the link of selectAndHighlight
abbrev pub class_link : Site → String → String
class_link site anchor = strip_path (path_name site) ⧺ ":" ⧺ anchor

-- The node `n`, if there is one
unfoldable pub select_node : Option (List ℕ) → Node → Node
unfolding select_path
select_node none tree = tree
select_node (some path) tree = below (select_path path) tree

unfoldable pub select_and_highlight : Site → String → Option (List ℕ) → Node → Node
unfolding any_node map_node select_node strip_path path_name ends_with
select_and_highlight site hash n tree =
    let link = has_class (class_link site (substring_1 hash)) in
    if not (str_eq hash "") && any_nodes link (children_of tree)
    then below (map_nodes (select_if link)) tree
    else select_node n tree

abbrev pub ended : Site → String → List ℕ → Node × End → Node × End
ended site hash path (tree, with_node) =
    (select_and_highlight site hash (some path) tree, with_node)
ended site hash path (tree, without_node) = (select_and_highlight site hash none tree, without_node)
ended site hash path (tree, waits) = (tree, waits)
ended site hash path (tree, throws) = (tree, throws)

-- `$.extend(true, [], crumbs)` copies the breadcrumbs, and makes an empty array of undefined. The
-- test that follows it is true for every array.
abbrev pub found_or : Option (List ℕ) → List ℕ → List ℕ
found_or none crumbs = crumbs
found_or (some found) crumbs = found

unfoldable pub breadcrumbs : StringMap (List ℕ) → String → String → List ℕ
breadcrumbs sub_index root hash =
    found_or (StringMap.find (root ⧺ hash) sub_index) (found_or (StringMap.find root sub_index) [])

unfoldable pub goto_node : Site → StringMap (List ℕ) → String → String → Node → Node × End
unfolding breadcrumbs select_and_highlight
goto_node site sub_index root hash tree =
    let crumbs = breadcrumbs sub_index root hash in
    ended site hash (0 ∷ crumbs) (show_node site crumbs 0 tree)

-- `while (NAVTREEINDEX[i+1]<=url) i++`, from -1: the number of the rounds
unfoldable pub index_rounds : List String → String → ℕ
index_rounds [] url = 0
index_rounds (key ∷ keys) url =
    let rounds = index_rounds keys url in if is_lt (compare url key) then 0 else suc rounds

-- `NAVTREE[0][1]` as a text; there is none if NAVTREE is empty.
abbrev pub first_link : Entries → Option String
first_link empty = none
first_link (entry text none child_data rest) = some "null"
first_link (entry text (some link) child_data rest) = some link

abbrev pub goto_loaded : Site → Option (StringMap (List ℕ)) → String → String → Node → Node × End
goto_loaded site none root hash tree = (tree, waits)
goto_loaded site (some sub_index) root hash tree = goto_node site sub_index root hash tree

-- `i=0; root=NAVTREE[0][1]`
abbrev pub goto_first : Site → Option String → String → Node → Node × End
goto_first site none hash tree = (tree, throws)
goto_first site (some first) hash tree = goto_loaded site (site.sub_index 0) first hash tree

-- From the line after the link of the cookie
unfoldable pub nav_to_page : Site → String → String → Node → Node × End
unfolding index_rounds goto_node is_line_number
nav_to_page site root hash tree =
    let anchor = if is_line_number hash then "" else hash in
    let rounds = index_rounds site.navtreeindex (root ⧺ anchor) in
    if rounds == 0
    then goto_first site (first_link site.navtree) anchor tree
    else goto_loaded site (site.sub_index (rounds - 1)) root anchor tree

abbrev pub cached_hash : String → String
cached_hash link = if has_char b'#' link then "#" ⧺ keep is_hash_char (after_hash link) else ""

-- The link is that of the cookie, empty if there is none.
unfoldable pub nav_to : Site → String → String → String → Node → Node × End
unfolding nav_to_page before_hash after_hash has_char keep
nav_to site link root hash tree =
    if str_eq link ""
    then nav_to_page site root hash tree
    else nav_to_page site (before_hash link) (cached_hash link) tree

abbrev pub unselect_all : Node → Node
unselect_all tree = below (map_nodes unselect) tree

unfoldable pub selected_at : List ℕ → Nodes → Bool
selected_at path nil = false
selected_at [] (cons child children) = false
selected_at (zero ∷ []) (cons (node it below_it) children) = it.selected
selected_at (zero ∷ (next ∷ path)) (cons (node it below_it) children) =
    selected_at (next ∷ path) below_it
selected_at (suc n ∷ path) (cons child children) = selected_at (n ∷ path) children

-- A click on the anchor of the item at a place, where its link has a hash
unfoldable pub on_anchor_click : List ℕ → Node → Node
unfolding map_node select_node selected_at
on_anchor_click path tree =
    if selected_at path (children_of tree)
    then tree
    else select_node (some path) (unselect_all tree)

-- An item with the class of the hash is selected already.
abbrev pub shows_hash : Site → Node → Bool
shows_hash site tree =
    any_nodes (λ it. has_class (class_link site (hash_value site)) it && it.selected)
      (children_of tree)

abbrev pub is_long : String → Bool
is_long [] = false
is_long (c ∷ s) = not (str_eq s "")

-- `o.node`, whose list is displayed from the start
abbrev pub root_node : Site → Node
root_node site =
    node
      (record {
        label = "";
        class_name = "";
        href = "";
        stored = none;
        children_data = array site.navtree;
        depth = 0;
        indent = 0;
        is_last = true;
        children_visited = false;
        expanded = false;
        children_shown = true;
        arrow_down = false;
        selected = false;
      })
      nil

-- `initNavTree`, but for the button
unfoldable pub init_nav_tree : Site → String → Node × End
unfolding nav_to hash_url
init_nav_tree site link = nav_to site link site.toroot (hash_url site) (root_node site)

unfoldable pub on_hashchange : Site → String → Bool → Node → Node × End
unfolding nav_to any_node map_node hash_url hash_value strip_path2 path_name strip_path ends_with
on_hashchange site link animation_in_progress tree =
    if animation_in_progress
    then (tree, without_node)
    else if is_long site.hash
    then nav_to site link (strip_path2 (path_name site)) (hash_url site)
        (if shows_hash site tree then tree else unselect_all tree)
    else nav_to site link site.toroot (hash_url site) (unselect_all tree)
