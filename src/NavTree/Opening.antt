-- ===== src/NavTree/Opening.antt =====
-- What `showNode` and `gotoNode` of docs/docs_output/html/navtree.js leave open.
pub mod Selection
pub mod First
use cherry_recorder_server.Prelude.{
  ℕ, zero, suc, String, Bool, true, false, not, ◌||◌, ◌&&◌, if◌then◌else◌, ◌≡◌, ◌≢◌, refl, ap,
  arith, ◌∙◌, Option, none, some, List, [], ◌∷◌, str_eq, ◌⧺◌, Bool-cases, inl, inr,
}
use cherry_recorder_server.StringMap.{StringMap}
use cherry_recorder_server.NavTree.{
  ChildrenData, null, script, array, Entries, Item, Node, node, Nodes, nil, cons, Site,
}
use cherry_recorder_server.NavTree.Links.{substring_1}
use cherry_recorder_server.NavTree.Tree.{
  End, with_node, without_node, waits, throws, visit, visited_children, opened, show_with,
  show_data, show_last, show_at, show_node,
}
use cherry_recorder_server.NavTree.Page.{
  any_node, any_nodes, map_node, map_nodes, below, children_of, is_selected, has_class, class_link,
  select_if, select_item, update, select_path, select_node, select_and_highlight, ended,
  breadcrumbs, goto_node,
}

unfoldable pub child_at : ℕ → Nodes → Option Node
child_at n nil = none
child_at zero (cons child children) = some child
child_at (suc n) (cons child children) = child_at n children

-- The indices lead through the tree, and every node on the way displays its children.
unfoldable pub IsOpen : List ℕ → Node → Type 0
IsOpen [] n = Unit
IsOpen (crumb ∷ crumbs) (node it children) =
    (it.expanded ≡ true)
    × (it.children_shown ≡ true)
    × ((child : Node) × (child_at crumb children ≡ some child) × IsOpen crumbs child)

visit-with_node :
    (f : Node → Node × End) (missing : End) (n : ℕ) (children : Nodes)
    → missing ≢ with_node
    → (visit f missing n children).1 ≡ with_node
    → (child : Node) × ((f child).1 ≡ with_node)
      × (child_at n (visit f missing n children).0 ≡ some (f child).0)
unfolding visit child_at
visit-with_node f missing n nil out e = absurd (out e)
visit-with_node f missing zero (cons child children) out e = (child, e, refl)
visit-with_node f missing (suc n) (cons child children) out e =
    visit-with_node f missing n children out e

-- The node after the way has been shown below it, where the rest of the way is open
module _ (site : Site) (f : Node → Node × End) (missing : End) (crumb : ℕ) (crumbs : List ℕ)
    (out : missing ≢ with_node)
    (opens : (n : Node) → (f n).1 ≡ with_node → IsOpen crumbs (f n).0) where
  show_with-IsOpen :
      (it : Item) (children : Nodes) (o : Option Entries)
      → (show_with site (visit f missing crumb) it children o).1 ≡ with_node
      → IsOpen (crumb ∷ crumbs) (show_with site (visit f missing crumb) it children o).0
  unfolding IsOpen
  show_with-IsOpen it children none e = absurd (ground (arith, e))
  show_with-IsOpen it children (some entries) e =
      let (child, done, there) =
        visit-with_node f missing crumb (visited_children site it entries children) out e in
      (refl, refl, (_, there, opens child done))

  show_data-IsOpen :
      (it : Item) (children : Nodes) (d : ChildrenData)
      → (show_data site (visit f missing crumb) it children d).1 ≡ with_node
      → IsOpen (crumb ∷ crumbs) (show_data site (visit f missing crumb) it children d).0
  show_data-IsOpen it children null e = absurd (ground (arith, e))
  show_data-IsOpen it children (script name) e = show_with-IsOpen it children (site.scripts name) e
  show_data-IsOpen it children (array entries) e = show_with-IsOpen it children (some entries) e

  show_at-IsOpen :
      (n : Node)
      → (show_at site (visit f missing crumb) n).1 ≡ with_node
      → IsOpen (crumb ∷ crumbs) (show_at site (visit f missing crumb) n).0
  show_at-IsOpen (node it children) e = show_data-IsOpen it children it.children_data e

throws_else : throws ≢ with_node
throws_else e = ground (arith, e)

without_else : without_node ≢ with_node
without_else e = ground (arith, e)

pub show_node-IsOpen :
    (site : Site) (crumbs : List ℕ) (crumb : ℕ) (n : Node)
    → (show_node site crumbs crumb n).1 ≡ with_node
    → IsOpen (crumb ∷ crumbs) (show_node site crumbs crumb n).0
unfolding show_node IsOpen
show_node-IsOpen site [] crumb n e =
    show_at-IsOpen site (show_last site) throws crumb [] throws_else (λ m done. tt) n e
show_node-IsOpen site (next ∷ crumbs) crumb n e =
    show_at-IsOpen site (show_node site crumbs next) without_node crumb (next ∷ crumbs) without_else
      (show_node-IsOpen site crumbs next) n e

-- The selection changes nothing of this.
child_at-map :
    (f : Item → Item) (n : ℕ) (children : Nodes) (child : Node)
    → child_at n children ≡ some child
    → child_at n (map_nodes f children) ≡ some (map_node f child)
unfolding child_at map_node
child_at-map f n nil child e = absurd (ground (arith, e))
child_at-map f zero (cons m children) child e = ground (arith, e)
child_at-map f (suc n) (cons m children) child e = child_at-map f n children child e

map_node-IsOpen :
    (p : Item → Bool) (path : List ℕ) (n : Node)
    → IsOpen path n
    → IsOpen path (map_node (select_if p) n)
unfolding IsOpen map_node
map_node-IsOpen p [] n h = tt
map_node-IsOpen p (crumb ∷ crumbs) (node it children) (expanded, shown, (child, at, h)) = (
  ground (arith, expanded),
  ground (arith, shown),
  (_, child_at-map (select_if p) crumb children child at, map_node-IsOpen p crumbs child h),
)

pub below_map-IsOpen :
    (p : Item → Bool) (path : List ℕ) (n : Node)
    → IsOpen path n
    → IsOpen path (below (map_nodes (select_if p)) n)
unfolding IsOpen
below_map-IsOpen p [] n h = tt
below_map-IsOpen p (crumb ∷ crumbs) (node it children) (expanded, shown, (child, at, h)) = (
  expanded,
  shown,
  (_, child_at-map (select_if p) crumb children child at, map_node-IsOpen p crumbs child h),
)

child_at-update :
    (f : Node → Node) (n : ℕ) (children : Nodes) (child : Node)
    → child_at n children ≡ some child
    → child_at n (update f n children) ≡ some (f child)
unfolding child_at update
child_at-update f n nil child e = absurd (ground (arith, e))
child_at-update f zero (cons m children) child e = ground (arith, e)
child_at-update f (suc n) (cons m children) child e = child_at-update f n children child e

pub select_path-IsOpen :
    (path : List ℕ) (n : Node) → IsOpen path n → IsOpen path (below (select_path path) n)
unfolding IsOpen select_path
select_path-IsOpen [] n h = tt
select_path-IsOpen (crumb ∷ []) (node it children) (expanded, shown, (child, at, h)) =
    (expanded, shown, (_, child_at-update select_item crumb children child at, tt))
select_path-IsOpen (crumb ∷ (next ∷ crumbs)) (node it children) (expanded, shown, (child, at, h)) =
    (
      expanded,
      shown,
      (
        _,
        child_at-update (below (select_path (next ∷ crumbs))) crumb children child at,
        select_path-IsOpen (next ∷ crumbs) child h,
      ),
    )
