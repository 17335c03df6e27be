-- ===== src/NavTree/Tree.antt =====
-- The nodes of docs/docs_output/html/navtree.js: newNode, getNode, expandNode and showNode.
use Prim.Native.String.{[], ◌∷◌}
use cherry_recorder_server.Prelude.{
  ℕ, zero, suc, ◌-◌, ◌*◌, String, code, Bool, true, false, ◌||◌, ◌==◌, if◌then◌else◌, ◌⧺◌, str_eq,
  Option, none, some, List, [], ◌∷◌,
}
use cherry_recorder_server.NavTree.{
  ChildrenData, null, script, array, Entries, empty, entry, Item, Node, node, Nodes, nil, cons,
  Site,
}
use cherry_recorder_server.NavTree.Links.{
  has_char, strip_path, path_name, before_hash, after_hash, colon_for_hash, strip_extension,
}

-- The class, the address, and the link that a click stores
abbrev Anchor : Type 0
Anchor = String × String × Option String

-- `url` and `link`: a caret marks an address outside.
abbrev outside : String → String → String × String
outside relpath [] = ("", "")
outside relpath (c ∷ s) = if code c == b'^' then (s, s) else (relpath ⧺ (c ∷ s), c ∷ s)

unfoldable pub linked : Site → String → Anchor
unfolding strip_path path_name before_hash after_hash colon_for_hash has_char
linked site text =
    let (url, link) = outside site.relpath text in
    let class_name = strip_path (colon_for_hash link) in
    let same_page = str_eq (strip_path (path_name site)) (strip_path (before_hash link)) in
    if has_char b'#' link
    then (class_name, (if same_page then "#" ⧺ after_hash link else url), some link)
    else (class_name, url, some link)

abbrev unlinked : ChildrenData → Anchor
unlinked null = ("", "", none)
unlinked _ = ("nolink", "javascript:void(0)", none)

unfoldable pub anchor : Site → Option String → ChildrenData → Anchor
unfolding linked
anchor site none child_data = unlinked child_data
anchor site (some link) child_data =
    if str_eq link "" then unlinked child_data else linked site link

-- The left padding of the arrow, or the width of what stands in its place
abbrev pub create_indent : ℕ → ChildrenData → ℕ
create_indent depth null = 16 * depth
create_indent depth _ = 16 * (depth - 1)

unfoldable pub new_node : Site → ℕ → String → Option String → ChildrenData → Bool → Node
unfolding anchor
new_node site depth text link child_data last_node =
    let (class_name, href, stored) = anchor site link child_data in
    node
      (record {
        label = text;
        class_name = class_name;
        href = href;
        stored = stored;
        children_data = child_data;
        depth = depth;
        indent = create_indent depth child_data;
        is_last = last_node;
        children_visited = false;
        expanded = false;
        children_shown = false;
        arrow_down = false;
        selected = false;
      })
      nil

abbrev is_empty : Entries → Bool
is_empty empty = true
is_empty (entry text link child_data rest) = false

-- The loop of `getNode`
unfoldable pub get_node : Site → ℕ → Entries → Nodes
unfolding new_node
get_node site depth empty = nil
get_node site depth (entry text link child_data rest) =
    cons (new_node site depth text link child_data (is_empty rest)) (get_node site depth rest)

-- The children, made when they are first needed
abbrev pub visited_children : Site → Item → Entries → Nodes → Nodes
visited_children site it entries children =
    if it.children_visited then children else get_node site (suc it.depth) entries

-- The children are there and displayed.
abbrev pub opened : Item → Entries → Item
opened it entries = record it {
  children_data = array entries;
  children_visited = true;
  expanded = true;
  children_shown = true;
  arrow_down = true;
}

abbrev pub expand_with : Site → Item → Nodes → Option Entries → Node
expand_with site it children none = node it children
expand_with site it children (some entries) =
    node (opened it entries) (visited_children site it entries children)

-- What the data of a node are once its script is loaded
abbrev pub loaded : Site → ChildrenData → Option Entries
loaded site null = none
loaded site (script name) = site.scripts name
loaded site (array entries) = some entries

unfoldable pub expand_node : Site → Node → Node
unfolding get_node
expand_node site (node it children) =
    if it.expanded
    then node it children
    else expand_with site it children (loaded site it.children_data)

-- A click on the arrow
unfoldable pub toggle : Site → Node → Node
unfolding expand_node
toggle site (node it children) =
    if it.expanded
    then node (record it { expanded = false; children_shown = false; arrow_down = false }) children
    else expand_node site (node it children)

-- How `showNode` ends: with the node to select, or with none, or in wait for a script that does not
-- load, or by reading a property of an undefined node.
pub data End : Type 0 where
  with_node : End
  without_node : End
  waits : End
  throws : End

-- The child at an index is dealt with; a missing one is undefined.
unfoldable pub visit : (Node → Node × End) → End → ℕ → Nodes → Nodes × End
visit f missing n nil = (nil, missing)
visit f missing zero (cons child children) =
    let (child', end) = f child in (cons child' children, end)
visit f missing (suc n) (cons child children) =
    let (children', end) = visit f missing n children in (cons child children', end)

abbrev pub show_with : Site → (Nodes → Nodes × End) → Item → Nodes → Option Entries → Node × End
show_with site inner it children none = (node it children, waits)
show_with site inner it children (some entries) =
    let (children', end) = inner (visited_children site it entries children) in
    (node (opened it entries) children', end)

-- A node on the way is opened, and its children are dealt with.
abbrev pub show_data : Site → (Nodes → Nodes × End) → Item → Nodes → ChildrenData → Node × End
show_data site inner it children null = (node it children, without_node)
show_data site inner it children (script name) =
    show_with site inner it children (site.scripts name)
show_data site inner it children (array entries) = show_with site inner it children (some entries)

-- The pages whose own children are shown too
unfoldable pub is_overview : Site → Bool
unfolding strip_path strip_extension
is_overview site =
    let root_base = strip_path (strip_extension site.toroot) in
    str_eq root_base "index" || str_eq root_base "pages" || str_eq root_base "search"

abbrev finish : Site → Node → Node × End
finish site n = ((if is_overview site then expand_node site n else n), with_node)

abbrev pub filled : Site → Item → Nodes → Option Entries → Node × End
filled site it children none = (node it children, waits)
filled site it children (some entries) =
    finish site (node (record it { children_data = array entries }) children)

abbrev pub last_data : Site → Item → Nodes → ChildrenData → Node × End
last_data site it children (script name) = filled site it children (site.scripts name)
last_data site it children _ = finish site (node it children)

-- The last node of the way: its script is loaded.
unfoldable pub show_last : Site → Node → Node × End
unfolding expand_node is_overview
show_last site (node it children) = last_data site it children it.children_data

abbrev pub show_at : Site → (Nodes → Nodes × End) → Node → Node × End
show_at site inner (node it children) = show_data site inner it children it.children_data

-- `showNode` for the breadcrumbs from the index on: the first, and the others
unfoldable pub show_node : Site → List ℕ → ℕ → Node → Node × End
unfolding visit show_last get_node
show_node site [] crumb = show_at site (visit (show_last site) throws crumb)
show_node site (next ∷ crumbs) crumb =
    show_at site (visit (show_node site crumbs next) without_node crumb)
