-- ===== src/NavTree/Opening/First.antt =====
-- The first page that docs/docs_output/html/navtree.js shows: the way through the data of the
-- generated scripts becomes a way through the tree.
use cherry_recorder_server.Prelude.{
  ℕ, zero, suc, String, false, ◌≡◌, refl, ap, subst, arith, ◌∙◌, Option, none, some, List, [], ◌∷◌,
  ◌⧺◌,
}
use cherry_recorder_server.StringMap
use cherry_recorder_server.StringMap.{StringMap}
use cherry_recorder_server.NavTree.{
  ChildrenData, null, script, array, Entries, empty, entry, Item, Node, node, Nodes, nil, cons,
  Site,
}
use cherry_recorder_server.NavTree.Tree.{
  End, with_node, without_node, waits, throws, visit, loaded, get_node, new_node, show_with,
  show_data, filled, last_data, show_last, show_at, show_node,
}
use cherry_recorder_server.NavTree.Page.{ended, breadcrumbs, goto_node, root_node}
use cherry_recorder_server.NavTree.Opening.{child_at}
use cherry_recorder_server.NavTree.Opening.Selection.{IsShown, goto_node-IsShown}

unfoldable pub entry_at : ℕ → Entries → Option ChildrenData
entry_at n empty = none
entry_at zero (entry text link child_data rest) = some child_data
entry_at (suc n) (entry text link child_data rest) = entry_at n rest

-- A script with these data loads, if they are one.
abbrev pub IsReady : Site → ChildrenData → Type 0
IsReady site (script name) = (entries : Entries) × (site.scripts name ≡ some entries)
IsReady site _ = Unit

-- The indices lead through the data, and all scripts on the way load.
abbrev pub LeadsOn : Site → List ℕ → ℕ → ChildrenData → Type 0
LeadsOn site [] crumb d =
    (entries : Entries) × (loaded site d ≡ some entries)
    × ((next_data : ChildrenData) × (entry_at crumb entries ≡ some next_data)
        × IsReady site next_data)
LeadsOn site (next ∷ crumbs) crumb d =
    (entries : Entries) × (loaded site d ≡ some entries)
    × ((next_data : ChildrenData) × (entry_at crumb entries ≡ some next_data)
        × LeadsOn site crumbs next next_data)

-- A node whose children have not been made
abbrev IsNew : ChildrenData → Node → Type 0
IsNew d (node it children) = (it.children_visited ≡ false) × (it.children_data ≡ d)

get_node-IsNew :
    (site : Site) (depth n : ℕ) (entries : Entries) (d : ChildrenData)
    → entry_at n entries ≡ some d
    → (child : Node) × (child_at n (get_node site depth entries) ≡ some child) × IsNew d child
unfolding entry_at get_node child_at new_node
get_node-IsNew site depth n empty d e = absurd (ground (arith, e))
get_node-IsNew site depth zero (entry text link child_data rest) d e =
    (_, refl, (refl, ground (arith, e)))
get_node-IsNew site depth (suc n) (entry text link child_data rest) d e =
    get_node-IsNew site depth n rest d e

visit-end :
    (f : Node → Node × End) (missing : End) (n : ℕ) (children : Nodes) (child : Node)
    → child_at n children ≡ some child
    → (visit f missing n children).1 ≡ (f child).1
unfolding visit child_at
visit-end f missing n nil child e = absurd (ground (arith, e))
visit-end f missing zero (cons m children) child e = ap (λ x. (f x).1) (ground (arith, e))
visit-end f missing (suc n) (cons m children) child e = visit-end f missing n children child e

show_data-loaded :
    (site : Site) (inner : Nodes → Nodes × End) (it : Item) (children : Nodes) (d : ChildrenData)
    (entries : Entries)
    → loaded site d ≡ some entries
    → show_data site inner it children d ≡ show_with site inner it children (some entries)
show_data-loaded site inner it children null entries e = absurd (ground (arith, e))
show_data-loaded site inner it children (script name) entries e =
    ap (show_with site inner it children) e
show_data-loaded site inner it children (array known) entries e =
    ap (show_with site inner it children) e

-- The end of a new node is that of the child on the way.
show_at-end :
    (site : Site) (f : Node → Node × End) (missing : End) (crumb : ℕ) (d next_data : ChildrenData)
    (entries : Entries) (n : Node)
    → IsNew d n
    → loaded site d ≡ some entries
    → entry_at crumb entries ≡ some next_data
    → ((child : Node) → IsNew next_data child → (f child).1 ≡ with_node)
    → (show_at site (visit f missing crumb) n).1 ≡ with_node
show_at-end site f missing crumb d next_data entries (node it children) (new, same) loads at ends =
    let inner = visit f missing crumb in
    let (child, there, fresh) = get_node-IsNew site (suc it.depth) crumb entries next_data at in
    let shown : show_data site inner it children it.children_data
        ≡ show_with site inner it children (some entries) =
      show_data-loaded site inner it children it.children_data entries (rw same loads) in
    ap (λ r. r.1) shown
    ∙ rw new (visit-end f missing crumb (get_node site (suc it.depth) entries) child there)
    ∙ ends child fresh

last_data-end :
    (site : Site) (it : Item) (children : Nodes) (d : ChildrenData)
    → IsReady site d
    → (last_data site it children d).1 ≡ with_node
last_data-end site it children null h = refl
last_data-end site it children (array entries) h = refl
last_data-end site it children (script name) (entries, e) =
    ap (λ o. (filled site it children o).1) e

show_last-end :
    (site : Site) (d : ChildrenData) (n : Node)
    → IsReady site d
    → IsNew d n
    → (show_last site n).1 ≡ with_node
unfolding show_last
show_last-end site d (node it children) ready (new, same) =
    ap (λ x. (last_data site it children x).1) same ∙ last_data-end site it children d ready

show_node-end :
    (site : Site) (crumbs : List ℕ) (crumb : ℕ) (d : ChildrenData) (n : Node)
    → IsNew d n
    → LeadsOn site crumbs crumb d
    → (show_node site crumbs crumb n).1 ≡ with_node
unfolding show_node
show_node-end site [] crumb d n new (entries, loads, (next_data, at, ready)) =
    show_at-end site (show_last site) throws crumb d next_data entries n new loads at
      (λ child. show_last-end site next_data child ready)
show_node-end site (next ∷ crumbs) crumb d n new (entries, loads, (next_data, at, on)) =
    show_at-end site (show_node site crumbs next) without_node crumb d next_data entries n new loads
      at (λ child fresh. show_node-end site crumbs next next_data child fresh on)

ended-end :
    (site : Site) (hash : String) (path : List ℕ) (r : Node × End)
    → r.1 ≡ with_node
    → (ended site hash path r).1 ≡ with_node
ended-end site hash path (n, with_node) e = refl
ended-end site hash path (n, without_node) e = e
ended-end site hash path (n, waits) e = e
ended-end site hash path (n, throws) e = e

goto_node-end :
    (site : Site) (sub_index : StringMap (List ℕ)) (root hash : String)
    → LeadsOn site (breadcrumbs sub_index root hash) 0 (array site.navtree)
    → (goto_node site sub_index root hash (root_node site)).1 ≡ with_node
unfolding goto_node
goto_node-end site sub_index root hash on =
    let crumbs = breadcrumbs sub_index root hash in
    ended-end site hash (0 ∷ crumbs) (show_node site crumbs 0 (root_node site))
      (show_node-end site crumbs 0 (array site.navtree) (root_node site) (refl, refl) on)

-- From the tree of a new page, where the index entry of the page leads through the data of the
-- generated scripts, and those on the way load, `gotoNode` ends with a node to select; each node from
-- the root to its place displays its children, and an item is selected.
pub goto_node-first :
    (site : Site) (sub_index : StringMap (List ℕ)) (root hash : String)
    → LeadsOn site (breadcrumbs sub_index root hash) 0 (array site.navtree)
    → ((goto_node site sub_index root hash (root_node site)).1 ≡ with_node)
      × IsShown
          (0 ∷ breadcrumbs sub_index root hash)
          (goto_node site sub_index root hash (root_node site)).0
goto_node-first site sub_index root hash on =
    let e = goto_node-end site sub_index root hash on in
    (e, goto_node-IsShown site sub_index root hash (root_node site) e)

breadcrumbs-unknown :
    (sub_index : StringMap (List ℕ)) (root hash : String)
    → StringMap.find (root ⧺ hash) sub_index ≡ none
    → StringMap.find root sub_index ≡ none
    → breadcrumbs sub_index root hash ≡ []
unfolding breadcrumbs
breadcrumbs-unknown sub_index root hash no_hash no_root = rw (no_hash, no_root) refl

-- From the tree of a new page that the index does not know, `gotoNode` opens the root and leaves an
-- item selected, if the first entry of the data needs no script or one that loads.
goto_node-unknown :
    (site : Site) (sub_index : StringMap (List ℕ)) (root hash text : String) (link : Option String)
    (d : ChildrenData) (rest : Entries)
    → StringMap.find (root ⧺ hash) sub_index ≡ none
    → StringMap.find root sub_index ≡ none
    → site.navtree ≡ entry text link d rest
    → IsReady site d
    → ((goto_node site sub_index root hash (root_node site)).1 ≡ with_node)
      × IsShown (0 ∷ []) (goto_node site sub_index root hash (root_node site)).0
unfolding entry_at
goto_node-unknown site sub_index root hash text link d rest no_hash no_root first ready =
    let on : LeadsOn site [] 0 (array site.navtree) =
      (site.navtree, refl, (d, rw first refl, ready)) in
    subst
      (λ crumbs.
        LeadsOn site crumbs 0 (array site.navtree)
        → ((goto_node site sub_index root hash (root_node site)).1 ≡ with_node)
          × IsShown (0 ∷ crumbs) (goto_node site sub_index root hash (root_node site)).0)
      (breadcrumbs-unknown sub_index root hash no_hash no_root)
      (goto_node-first site sub_index root hash) on
