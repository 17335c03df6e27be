-- ===== src/NavTree/Settled/Showing.antt =====
-- `showNode` of docs/docs_output/html/navtree.js keeps the nodes in order.
use cherry_recorder_server.Prelude.{
  ℕ, zero, suc, String, if◌then◌else◌, ◌≡◌, refl, arith, ◌∙◌, Option, none, some, List, [], ◌∷◌,
  Bool-cases, inl, inr,
}
use cherry_recorder_server.NavTree.{
  ChildrenData, null, script, array, Entries, Item, Node, node, Nodes, nil, cons, Site,
}
use cherry_recorder_server.NavTree.Tree.{
  loaded, expand_node, End, without_node, throws, visit, show_with, show_data, show_last, last_data,
  filled, is_overview, show_at, show_node,
}
use cherry_recorder_server.NavTree.Settled.{
  number_of, IsSettled, AllSettled, if-IsSettled, expand_node-IsSettled, opened-IsOrderly,
  visited_children-number, visited_children-AllSettled,
}

-- One child is dealt with.
visit-AllSettled :
    (f : Node → Node × End) (missing : End) (n : ℕ) (children : Nodes)
    → ((m : Node) → IsSettled m → IsSettled (f m).0)
    → AllSettled children
    → (AllSettled (visit f missing n children).0)
      × (number_of (visit f missing n children).0 ≡ number_of children)
unfolding visit IsSettled number_of
visit-AllSettled f missing n nil g h = (tt, refl)
visit-AllSettled f missing zero (cons child children) g (p, h) = ((g child p, h), refl)
visit-AllSettled f missing (suc n) (cons child children) g (p, h) =
    let (q, same) = visit-AllSettled f missing n children g h in ((p, q), omega (arith, same))

show_with-IsSettled :
    (site : Site) (inner : Nodes → Nodes × End) (it : Item) (children : Nodes) (o : Option Entries)
    → loaded site it.children_data ≡ o
    → ((ms : Nodes)
        → AllSettled ms
        → (AllSettled (inner ms).0) × (number_of (inner ms).0 ≡ number_of ms))
    → IsSettled (node it children)
    → IsSettled (show_with site inner it children o).0
unfolding IsSettled
show_with-IsSettled site inner it children none e g h = h
show_with-IsSettled site inner it children (some entries) e g (orderly, below) =
    let (kept, same) = g _ (visited_children-AllSettled site it children entries e orderly below) in
    (
      opened-IsOrderly it entries _
          (same ∙ visited_children-number site it children entries e orderly),
      kept,
    )

show_data-IsSettled :
    (site : Site) (inner : Nodes → Nodes × End) (it : Item) (children : Nodes) (d : ChildrenData)
    → it.children_data ≡ d
    → ((ms : Nodes)
        → AllSettled ms
        → (AllSettled (inner ms).0) × (number_of (inner ms).0 ≡ number_of ms))
    → IsSettled (node it children)
    → IsSettled (show_data site inner it children d).0
show_data-IsSettled site inner it children null e g h = h
show_data-IsSettled site inner it children (script name) e g h =
    show_with-IsSettled site inner it children (site.scripts name) (rw e refl) g h
show_data-IsSettled site inner it children (array entries) e g h =
    show_with-IsSettled site inner it children (some entries) (rw e refl) g h

-- A node whose data is a script has no children, whatever the script then brings.
filled-IsSettled :
    (it : Item) (children : Nodes) (name : String) (entries : Entries)
    → it.children_data ≡ script name
    → IsSettled (node it children)
    → IsSettled (node (record it { children_data = array entries }) children)
unfolding IsSettled
filled-IsSettled it children name entries e (orderly, below) =
    elim (Bool-cases it.children_visited) [
      | inl seen ↦ absurd (let (known, f, same) = orderly.visited seen in cc (e, f))
      | inr new ↦ (
        record {
          shown_iff = orderly.shown_iff;
          expanded_shown = orderly.expanded_shown;
          arrow_iff = orderly.arrow_iff;
          expanded_visited = orderly.expanded_visited;
          not_visited = orderly.not_visited;
          visited = λ seen. absurd (ground (arith, seen, new));
        },
        below,
      )
    ]

finish-IsSettled :
    (site : Site) (n : Node)
    → IsSettled n
    → IsSettled (if is_overview site then expand_node site n else n)
finish-IsSettled site n h = if-IsSettled (is_overview site) _ n (expand_node-IsSettled site n h) h

fill-IsSettled :
    (site : Site) (it : Item) (children : Nodes) (name : String) (o : Option Entries)
    → it.children_data ≡ script name
    → IsSettled (node it children)
    → IsSettled (filled site it children o).0
fill-IsSettled site it children name none e h = h
fill-IsSettled site it children name (some entries) e h =
    finish-IsSettled site _ (filled-IsSettled it children name entries e h)

last_data-IsSettled :
    (site : Site) (it : Item) (children : Nodes) (d : ChildrenData)
    → it.children_data ≡ d
    → IsSettled (node it children)
    → IsSettled (last_data site it children d).0
last_data-IsSettled site it children null e h = finish-IsSettled site _ h
last_data-IsSettled site it children (array entries) e h = finish-IsSettled site _ h
last_data-IsSettled site it children (script name) e h =
    fill-IsSettled site it children name (site.scripts name) e h

show_last-IsSettled : (site : Site) (n : Node) → IsSettled n → IsSettled (show_last site n).0
unfolding show_last
show_last-IsSettled site (node it children) h = last_data-IsSettled site it children _ refl h

show_at-IsSettled :
    (site : Site) (inner : Nodes → Nodes × End) (n : Node)
    → ((ms : Nodes)
        → AllSettled ms
        → (AllSettled (inner ms).0) × (number_of (inner ms).0 ≡ number_of ms))
    → IsSettled n
    → IsSettled (show_at site inner n).0
show_at-IsSettled site inner (node it children) g h =
    show_data-IsSettled site inner it children it.children_data refl g h

pub show_node-IsSettled :
    (site : Site) (crumbs : List ℕ) (crumb : ℕ) (n : Node)
    → IsSettled n
    → IsSettled (show_node site crumbs crumb n).0
unfolding show_node
show_node-IsSettled site [] crumb n h =
    show_at-IsSettled site (visit (show_last site) throws crumb) n
      (λ ms. visit-AllSettled (show_last site) throws crumb ms (show_last-IsSettled site)) h
show_node-IsSettled site (next ∷ crumbs) crumb n h =
    show_at-IsSettled site (visit (show_node site crumbs next) without_node crumb) n
      (λ ms.
        visit-AllSettled (show_node site crumbs next) without_node crumb ms
          (show_node-IsSettled site crumbs next))
      h
