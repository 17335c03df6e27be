-- ===== src/NavTree/Clicks.antt =====
-- The tree of docs/docs_output/html/navtree.js under its events: a page is shown, its hash changes,
-- an arrow or a link is clicked.
use cherry_recorder_server.Prelude.{
  ℕ, String, Bool, true, false, not, ◌&&◌, ◌==◌, ◌-◌, if◌then◌else◌, refl, arith, Option, none,
  some, List, [], ◌∷◌, str_eq, ◌⧺◌,
}
use cherry_recorder_server.StringMap.{StringMap}
use cherry_recorder_server.NavTree.{Node, Site}
use cherry_recorder_server.NavTree.Links.{
  is_line_number, before_hash, hash_url, path_name, strip_path2, substring_1,
}
use cherry_recorder_server.NavTree.Tree.{
  toggle, End, with_node, without_node, waits, throws, show_node,
}
use cherry_recorder_server.NavTree.Page.{
  any_nodes, below, children_of, unselect, unselect_all, has_class, class_link, select_if, update,
  select_path, select_node, select_and_highlight, ended, breadcrumbs, goto_node, goto_loaded,
  goto_first, index_rounds, first_link, nav_to_page, cached_hash, nav_to, shows_hash, is_long,
  root_node, init_nav_tree, on_anchor_click, selected_at, on_hashchange,
}
use cherry_recorder_server.NavTree.Settled.{IsSettled, if-IsSettled, toggle-IsSettled}
use cherry_recorder_server.NavTree.Settled.Showing.{show_node-IsSettled}
use cherry_recorder_server.NavTree.Settled.Pages.{
  select_path-AllSettled, below-IsSettled, mapped-IsSettled, update-AllSettled, unselect-SameFlags,
  select_if-SameFlags,
}

-- The node that the indices lead to is clicked on.
unfoldable pub toggle_path : Site → List ℕ → Node → Node
unfolding toggle update
toggle_path site [] n = toggle site n
toggle_path site (crumb ∷ crumbs) n = below (update (toggle_path site crumbs) crumb) n

-- Any number of events, each on a page of its own
pub data Reach : Node → Type 0 where
  init : (site : Site) (link : String) → Reach (init_nav_tree site link).0
  hashchange :
      (site : Site) (link : String) (animating : Bool) (n : Node)
      → Reach n
      → Reach (on_hashchange site link animating n).0
  click : (site : Site) (path : List ℕ) (n : Node) → Reach n → Reach (toggle_path site path n)
  follow : (path : List ℕ) (n : Node) → Reach n → Reach (on_anchor_click path n)

select_path-IsSettled :
    (path : List ℕ) (n : Node) → IsSettled n → IsSettled (below (select_path path) n)
select_path-IsSettled path n = below-IsSettled (select_path path) n (select_path-AllSettled path)

select_node-IsSettled :
    (path : Option (List ℕ)) (n : Node) → IsSettled n → IsSettled (select_node path n)
unfolding select_node
select_node-IsSettled none n h = h
select_node-IsSettled (some path) n h = select_path-IsSettled path n h

select_and_highlight-IsSettled :
    (site : Site) (hash : String) (path : Option (List ℕ)) (n : Node)
    → IsSettled n
    → IsSettled (select_and_highlight site hash path n)
unfolding select_and_highlight
select_and_highlight-IsSettled site hash path n h =
    let link = has_class (class_link site (substring_1 hash)) in
    if-IsSettled (not (str_eq hash "") && any_nodes link (children_of n)) _ _
      (mapped-IsSettled (select_if link) n (select_if-SameFlags link) h)
      (select_node-IsSettled path n h)

ended-IsSettled :
    (site : Site) (hash : String) (path : List ℕ) (r : Node × End)
    → IsSettled r.0
    → IsSettled (ended site hash path r).0
ended-IsSettled site hash path (n, with_node) h =
    select_and_highlight-IsSettled site hash (some path) n h
ended-IsSettled site hash path (n, without_node) h =
    select_and_highlight-IsSettled site hash none n h
ended-IsSettled site hash path (n, waits) h = h
ended-IsSettled site hash path (n, throws) h = h

goto_node-IsSettled :
    (site : Site) (sub_index : StringMap (List ℕ)) (root hash : String) (n : Node)
    → IsSettled n
    → IsSettled (goto_node site sub_index root hash n).0
unfolding goto_node
goto_node-IsSettled site sub_index root hash n h =
    let crumbs = breadcrumbs sub_index root hash in
    ended-IsSettled site hash (0 ∷ crumbs) (show_node site crumbs 0 n)
      (show_node-IsSettled site crumbs 0 n h)

goto_loaded-IsSettled :
    (site : Site) (o : Option (StringMap (List ℕ))) (root hash : String) (n : Node)
    → IsSettled n
    → IsSettled (goto_loaded site o root hash n).0
goto_loaded-IsSettled site none root hash n h = h
goto_loaded-IsSettled site (some sub_index) root hash n h =
    goto_node-IsSettled site sub_index root hash n h

goto_first-IsSettled :
    (site : Site) (first : Option String) (hash : String) (n : Node)
    → IsSettled n
    → IsSettled (goto_first site first hash n).0
goto_first-IsSettled site none hash n h = h
goto_first-IsSettled site (some first) hash n h =
    goto_loaded-IsSettled site (site.sub_index 0) first hash n h

if_fst-IsSettled :
    (b : Bool) (r q : Node × End) → IsSettled r.0 → IsSettled q.0 → IsSettled (if b then r else q).0
if_fst-IsSettled true r q h k = h
if_fst-IsSettled false r q h k = k

nav_to_page-IsSettled :
    (site : Site) (root hash : String) (n : Node)
    → IsSettled n
    → IsSettled (nav_to_page site root hash n).0
unfolding nav_to_page
nav_to_page-IsSettled site root hash n h =
    let anchor = if is_line_number hash then "" else hash in
    let rounds = index_rounds site.navtreeindex (root ⧺ anchor) in
    if_fst-IsSettled (rounds == 0) _ _
      (goto_first-IsSettled site (first_link site.navtree) anchor n h)
      (goto_loaded-IsSettled site (site.sub_index (rounds - 1)) root anchor n h)

nav_to-IsSettled :
    (site : Site) (link root hash : String) (n : Node)
    → IsSettled n
    → IsSettled (nav_to site link root hash n).0
unfolding nav_to
nav_to-IsSettled site link root hash n h =
    if_fst-IsSettled (str_eq link "") _ _ (nav_to_page-IsSettled site root hash n h)
      (nav_to_page-IsSettled site (before_hash link) (cached_hash link) n h)

root_node-IsSettled : (site : Site) → IsSettled (root_node site)
unfolding IsSettled
root_node-IsSettled site = (
  record {
    shown_iff = λ inner. absurd (inner refl);
    expanded_shown = λ e. absurd (ground (arith, e));
    arrow_iff = refl;
    expanded_visited = λ e. absurd (ground (arith, e));
    not_visited = λ e. refl;
    visited = λ e. absurd (ground (arith, e));
  },
  tt,
)

init_nav_tree-IsSettled : (site : Site) (link : String) → IsSettled (init_nav_tree site link).0
unfolding init_nav_tree
init_nav_tree-IsSettled site link =
    nav_to-IsSettled site link site.toroot (hash_url site) (root_node site)
      (root_node-IsSettled site)

on_hashchange-IsSettled :
    (site : Site) (link : String) (animating : Bool) (n : Node)
    → IsSettled n
    → IsSettled (on_hashchange site link animating n).0
unfolding on_hashchange
on_hashchange-IsSettled site link animating n h =
    let cleared = mapped-IsSettled unselect n unselect-SameFlags h in
    let kept = if shows_hash site n then n else unselect_all n in
    if_fst-IsSettled animating (n, without_node) _ h
      (if_fst-IsSettled (is_long site.hash) _ _
        (nav_to-IsSettled site link (strip_path2 (path_name site)) (hash_url site) kept
          (if-IsSettled (shows_hash site n) n (unselect_all n) h cleared))
        (nav_to-IsSettled site link site.toroot (hash_url site) (unselect_all n) cleared))

on_anchor_click-IsSettled :
    (path : List ℕ) (n : Node) → IsSettled n → IsSettled (on_anchor_click path n)
unfolding on_anchor_click
on_anchor_click-IsSettled path n h = if-IsSettled (selected_at path (children_of n)) n _ h (
    select_node-IsSettled (some path) (unselect_all n)
      (mapped-IsSettled unselect n unselect-SameFlags h))

toggle_path-IsSettled :
    (site : Site) (path : List ℕ) (n : Node) → IsSettled n → IsSettled (toggle_path site path n)
unfolding toggle_path
toggle_path-IsSettled site [] n h = toggle-IsSettled site n h
toggle_path-IsSettled site (crumb ∷ crumbs) n h =
    below-IsSettled (update (toggle_path site crumbs) crumb) n
      (λ ms.
        update-AllSettled (toggle_path site crumbs) crumb ms (toggle_path-IsSettled site crumbs))
      h

-- Whichever pages are shown and whichever arrows and links are clicked: an expanded node displays its
-- children, and a node below the root that is not expanded does not; an arrow points down exactly if
-- its node is expanded; an expanded node has its children, and a node has either all the children
-- that its data lists or none.
pub Reach-IsSettled : (n : Node) → Reach n → IsSettled n
Reach-IsSettled _ (init site link) = init_nav_tree-IsSettled site link
Reach-IsSettled _ (hashchange site link animating n r) =
    on_hashchange-IsSettled site link animating n (Reach-IsSettled n r)
Reach-IsSettled _ (follow path n r) = on_anchor_click-IsSettled path n (Reach-IsSettled n r)
Reach-IsSettled _ (click site path n r) = toggle_path-IsSettled site path n (Reach-IsSettled n r)
