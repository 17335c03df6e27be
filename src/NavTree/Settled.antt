-- ===== src/NavTree/Settled.antt =====
-- The flags of a node of docs/docs_output/html/navtree.js, its arrow, and the number of its children
-- agree, whatever is clicked and whichever page is shown.
pub mod Showing
pub mod Pages
use cherry_recorder_server.Prelude.{
  ℕ, zero, suc, String, Bool, true, false, not, ◌||◌, ◌&&◌, ◌==◌, ◌+◌, if◌then◌else◌, ◌≡◌, ◌≢◌,
  refl, arith, ◌∙◌, Option, none, some, List, [], ◌∷◌, str_eq, Bool-cases, inl, inr,
}
use cherry_recorder_server.NavTree.{
  ChildrenData, null, script, array, Entries, empty, entry, Item, Node, node, Nodes, nil, cons,
  Site,
}
use cherry_recorder_server.NavTree.Tree.{
  new_node, get_node, visited_children, opened, expand_with, loaded, expand_node, toggle, End,
  with_node, without_node, waits, throws, visit, show_with, show_data, show_last, last_data, filled,
  is_overview, show_at, show_node, anchor,
}
use cherry_recorder_server.NavTree.Page.{update}

unfoldable pub number_of : Nodes → ℕ
number_of nil = 0
number_of (cons child children) = suc (number_of children)

unfoldable pub number_of_entries : Entries → ℕ
number_of_entries empty = 0
number_of_entries (entry text link child_data rest) = suc (number_of_entries rest)

-- A node with its children, by themselves
pub record IsOrderly (it : Item) (children : Nodes) : Type 0 where
  pub shown_iff : it.depth ≢ 0 → it.children_shown ≡ it.expanded
  pub expanded_shown : it.expanded ≡ true → it.children_shown ≡ true
  pub arrow_iff : it.arrow_down ≡ it.expanded
  pub expanded_visited : it.expanded ≡ true → it.children_visited ≡ true
  pub not_visited : it.children_visited ≡ false → children ≡ nil
  pub visited :
      it.children_visited ≡ true
      → (entries : Entries) × (it.children_data ≡ array entries)
        × (number_of children ≡ number_of_entries entries)

unfoldable mutual
  pub IsSettled : Node → Type 0
  IsSettled (node it children) = IsOrderly it children × AllSettled children

  pub AllSettled : Nodes → Type 0
  AllSettled nil = Unit
  AllSettled (cons child children) = IsSettled child × AllSettled children

number_of-get_node :
    (site : Site) (depth : ℕ) (entries : Entries)
    → number_of (get_node site depth entries) ≡ number_of_entries entries
unfolding get_node number_of number_of_entries
number_of-get_node site depth empty = refl
number_of-get_node site depth (entry text link child_data rest) =
    omega (arith, number_of-get_node site depth rest)

get_node-AllSettled :
    (site : Site) (depth : ℕ) (entries : Entries) → AllSettled (get_node site depth entries)
unfolding get_node new_node IsSettled
get_node-AllSettled site depth empty = tt
get_node-AllSettled site depth (entry text link child_data rest) = (
  (
    record {
      shown_iff = λ below_root. refl;
      expanded_shown = λ e. absurd (ground (arith, e));
      arrow_iff = refl;
      expanded_visited = λ e. absurd (ground (arith, e));
      not_visited = λ e. refl;
      visited = λ e. absurd (ground (arith, e));
    },
    tt,
  ),
  get_node-AllSettled site depth rest,
)

-- A node whose children are there is opened.
pub opened-IsOrderly :
    (it : Item) (entries : Entries) (children : Nodes)
    → number_of children ≡ number_of_entries entries
    → IsOrderly (opened it entries) children
opened-IsOrderly it entries children same = record {
  shown_iff = λ below_root. refl;
  expanded_shown = λ e. refl;
  arrow_iff = refl;
  expanded_visited = λ e. refl;
  not_visited = λ e. absurd (ground (arith, e));
  visited = λ e. (entries, refl, same);
}

-- The children that a node is opened with
module _ (site : Site) (it : Item) (children : Nodes) (entries : Entries)
    (loads : loaded site it.children_data ≡ some entries) (orderly : IsOrderly it children) where
  pub visited_children-number :
      number_of (visited_children site it entries children) ≡ number_of_entries entries
  visited_children-number = elim (Bool-cases it.children_visited) [
    | inl seen ↦
        let (known, e, same) = orderly.visited seen in
        let one : known ≡ entries = ground (arith, loads, e) in rw seen (same ∙ rw one refl)
    | inr new ↦ rw new (number_of-get_node site (suc it.depth) entries)
  ]

  pub visited_children-AllSettled :
      AllSettled children → AllSettled (visited_children site it entries children)
  visited_children-AllSettled h = elim (Bool-cases it.children_visited) [
    | inl seen ↦ rw seen h
    | inr new ↦ rw new (get_node-AllSettled site (suc it.depth) entries)
  ]

  opened-IsSettled : AllSettled children → IsSettled (expand_with site it children (some entries))
  unfolding IsSettled
  opened-IsSettled h =
      (opened-IsOrderly it entries _ visited_children-number, visited_children-AllSettled h)

expand_with-IsSettled :
    (site : Site) (it : Item) (children : Nodes) (o : Option Entries)
    → loaded site it.children_data ≡ o
    → IsSettled (node it children)
    → IsSettled (expand_with site it children o)
unfolding IsSettled
expand_with-IsSettled site it children none e h = h
expand_with-IsSettled site it children (some entries) e (orderly, below) =
    opened-IsSettled site it children entries e orderly below

pub if-IsSettled :
    (b : Bool) (m n : Node) → IsSettled m → IsSettled n → IsSettled (if b then m else n)
if-IsSettled true m n h k = h
if-IsSettled false m n h k = k

pub expand_node-IsSettled : (site : Site) (n : Node) → IsSettled n → IsSettled (expand_node site n)
unfolding expand_node
expand_node-IsSettled site (node it children) h =
    if-IsSettled it.expanded (node it children) _ h
      (expand_with-IsSettled site it children _ refl h)

pub toggle-IsSettled : (site : Site) (n : Node) → IsSettled n → IsSettled (toggle site n)
unfolding toggle IsSettled
toggle-IsSettled site (node it children) (orderly, below) =
    if-IsSettled it.expanded
      (node (record it { expanded = false; children_shown = false; arrow_down = false }) children) _
      (
        record {
          shown_iff = λ below_root. refl;
          expanded_shown = λ e. absurd (ground (arith, e));
          arrow_iff = refl;
          expanded_visited = λ e. absurd (ground (arith, e));
          not_visited = orderly.not_visited;
          visited = orderly.visited;
        },
        below,
      )
      (expand_node-IsSettled site (node it children) (orderly, below))
