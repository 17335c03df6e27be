-- ===== src/NavTree/Opening/Selection.antt =====
-- What `gotoNode` of docs/docs_output/html/navtree.js selects.
use cherry_recorder_server.Prelude.{
  ℕ, zero, suc, String, Bool, true, false, not, ◌&&◌, if◌then◌else◌, ◌≡◌, refl, arith, some, List,
  [], ◌∷◌, str_eq,
}
use cherry_recorder_server.StringMap.{StringMap}
use cherry_recorder_server.NavTree.{Item, Node, node, Nodes, nil, cons, Site}
use cherry_recorder_server.NavTree.Links.{substring_1}
use cherry_recorder_server.NavTree.Tree.{End, with_node, without_node, waits, throws, show_node}
use cherry_recorder_server.NavTree.Page.{
  any_node, any_nodes, map_node, map_nodes, below, children_of, is_selected, has_class, class_link,
  select_if, select_item, update, select_path, select_node, select_and_highlight, ended,
  breadcrumbs, goto_node,
}
use cherry_recorder_server.NavTree.Opening.{
  child_at, IsOpen, show_node-IsOpen, below_map-IsOpen, select_path-IsOpen,
}

mutual
  unfolding any_node map_node

  map_node-selects :
      (p : Item → Bool) (n : Node)
      → any_node p n ≡ true
      → any_node is_selected (map_node (select_if p) n) ≡ true
  map_node-selects p (node it children) e = ground (arith, map_nodes-selects p children)

  map_nodes-selects :
      (p : Item → Bool) (children : Nodes)
      → any_nodes p children ≡ true
      → any_nodes is_selected (map_nodes (select_if p) children) ≡ true
  map_nodes-selects p nil e = e
  map_nodes-selects p (cons child children) e =
      ground (arith, map_node-selects p child, map_nodes-selects p children)

update-selects :
    (f : Node → Node) (n : ℕ) (children : Nodes) (child : Node)
    → child_at n children ≡ some child
    → any_node is_selected (f child) ≡ true
    → any_nodes is_selected (update f n children) ≡ true
unfolding any_node update child_at
update-selects f n nil child e h = absurd (ground (arith, e))
update-selects f zero (cons m children) child e h =
    let same : m ≡ child = ground (arith, e) in
    let picked : any_node is_selected (f m) ≡ true = rw same h in ground (arith, picked)
update-selects f (suc n) (cons m children) child e h =
    ground (arith, update-selects f n children child e h)

selected_here : (n : Node) → any_node is_selected (select_item n) ≡ true
unfolding any_node
selected_here (node it children) = refl

below_selected :
    (f : Nodes → Nodes) (m : Node)
    → any_nodes is_selected (f (children_of m)) ≡ true
    → any_node is_selected (below f m) ≡ true
unfolding any_node
below_selected f (node one others) e = ground (arith, e)

select_path-selects :
    (crumb : ℕ) (crumbs : List ℕ) (n : Node)
    → IsOpen (crumb ∷ crumbs) n
    → any_nodes is_selected (select_path (crumb ∷ crumbs) (children_of n)) ≡ true
unfolding IsOpen select_path
select_path-selects crumb [] (node it children) (expanded, shown, (child, at, h)) =
    update-selects select_item crumb children child at (selected_here child)
select_path-selects crumb (next ∷ crumbs) (node it children) (expanded, shown, (child, at, h)) =
    update-selects (below (select_path (next ∷ crumbs))) crumb children child at
      (below_selected (select_path (next ∷ crumbs)) child (select_path-selects next crumbs child h))

-- The way to the node is open, and something is selected.
abbrev pub IsShown : List ℕ → Node → Type 0
IsShown path n = IsOpen path n × (any_nodes is_selected (children_of n) ≡ true)

children_of-below : (f : Nodes → Nodes) (n : Node) → children_of (below f n) ≡ f (children_of n)
children_of-below f (node it children) = refl

select_path-IsShown :
    (crumb : ℕ) (crumbs : List ℕ) (n : Node)
    → IsOpen (crumb ∷ crumbs) n
    → IsShown (crumb ∷ crumbs) (select_node (some (crumb ∷ crumbs)) n)
unfolding select_node
select_path-IsShown crumb crumbs n h = (
  select_path-IsOpen (crumb ∷ crumbs) n h,
  rw (children_of-below (select_path (crumb ∷ crumbs)) n) (select_path-selects crumb crumbs n h),
)

mapped-IsShown :
    (p : Item → Bool) (path : List ℕ) (n : Node)
    → any_nodes p (children_of n) ≡ true
    → IsOpen path n
    → IsShown path (below (map_nodes (select_if p)) n)
mapped-IsShown p path n some_match h = (
  below_map-IsOpen p path n h,
  rw (children_of-below (map_nodes (select_if p)) n)
      (map_nodes-selects p (children_of n) some_match),
)

either-IsShown :
    (path : List ℕ) (b : Bool) (m n : Node)
    → (b ≡ true → IsShown path m)
    → IsShown path n
    → IsShown path (if b then m else n)
either-IsShown path true m n h k = h refl
either-IsShown path false m n h k = k

and_second : (a b : Bool) → (a && b) ≡ true → b ≡ true
and_second a b e = ground arith

select_and_highlight-IsShown :
    (site : Site) (hash : String) (crumb : ℕ) (crumbs : List ℕ) (n : Node)
    → IsOpen (crumb ∷ crumbs) n
    → IsShown (crumb ∷ crumbs) (select_and_highlight site hash (some (crumb ∷ crumbs)) n)
unfolding select_and_highlight
select_and_highlight-IsShown site hash crumb crumbs n h =
    let link = has_class (class_link site (substring_1 hash)) in
    let matches = any_nodes link (children_of n) in
    either-IsShown (crumb ∷ crumbs) (not (str_eq hash "") && matches) _ _
      (λ e. mapped-IsShown link (crumb ∷ crumbs) n (and_second (not (str_eq hash "")) matches e) h)
      (select_path-IsShown crumb crumbs n h)

ended-IsShown :
    (site : Site) (hash : String) (crumb : ℕ) (crumbs : List ℕ) (r : Node × End)
    → (r.1 ≡ with_node → IsOpen (crumb ∷ crumbs) r.0)
    → (ended site hash (crumb ∷ crumbs) r).1 ≡ with_node
    → IsShown (crumb ∷ crumbs) (ended site hash (crumb ∷ crumbs) r).0
ended-IsShown site hash crumb crumbs (n, with_node) h e =
    select_and_highlight-IsShown site hash crumb crumbs n (h refl)
ended-IsShown site hash crumb crumbs (n, without_node) h e = absurd (ground (arith, e))
ended-IsShown site hash crumb crumbs (n, waits) h e = absurd (ground (arith, e))
ended-IsShown site hash crumb crumbs (n, throws) h e = absurd (ground (arith, e))

-- Whatever the tree was before, if `gotoNode` ends with a node to select, then each node from the
-- root to the place of that node in the index displays its children, and an item is selected.
pub goto_node-IsShown :
    (site : Site) (sub_index : StringMap (List ℕ)) (root hash : String) (n : Node)
    → (goto_node site sub_index root hash n).1 ≡ with_node
    → IsShown (0 ∷ breadcrumbs sub_index root hash) (goto_node site sub_index root hash n).0
unfolding goto_node
goto_node-IsShown site sub_index root hash n =
    let crumbs = breadcrumbs sub_index root hash in
    ended-IsShown site hash 0 crumbs (show_node site crumbs 0 n) (show_node-IsOpen site crumbs 0 n)
