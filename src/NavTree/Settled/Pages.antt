-- ===== src/NavTree/Settled/Pages.antt =====
-- The nodes of docs/docs_output/html/navtree.js stay in order when pages are shown and arrows clicked.
use cherry_recorder_server.Prelude.{ℕ, zero, suc, Bool, ◌≡◌, refl, sym, arith, ◌∙◌, List, [], ◌∷◌}
use cherry_recorder_server.NavTree.{Item, Node, node, Nodes, nil, cons}
use cherry_recorder_server.NavTree.Page.{
  map_node, map_nodes, below, unselect, select_if, select_item, update, select_path,
}
use cherry_recorder_server.NavTree.Settled.{number_of, IsOrderly, IsSettled, AllSettled}

-- Only the selection may differ.
pub record SameFlags (it before : Item) : Type 0 where
  pub same_depth : it.depth ≡ before.depth
  pub same_data : it.children_data ≡ before.children_data
  pub same_visited : it.children_visited ≡ before.children_visited
  pub same_expanded : it.expanded ≡ before.expanded
  pub same_shown : it.children_shown ≡ before.children_shown
  pub same_arrow : it.arrow_down ≡ before.arrow_down

pub unselect-SameFlags : (it : Item) → SameFlags (unselect it) it
unselect-SameFlags it = record {
  same_depth = refl;
  same_data = refl;
  same_visited = refl;
  same_expanded = refl;
  same_shown = refl;
  same_arrow = refl;
}

pub select_if-SameFlags : (p : Item → Bool) (it : Item) → SameFlags (select_if p it) it
select_if-SameFlags p it = record {
  same_depth = ground arith;
  same_data = ground arith;
  same_visited = ground arith;
  same_expanded = ground arith;
  same_shown = ground arith;
  same_arrow = ground arith;
}

none_left : (children : Nodes) → number_of children ≡ 0 → children ≡ nil
unfolding number_of
none_left nil e = refl
none_left (cons child children) e = absurd (omega (arith, e))

SameFlags-IsOrderly :
    (it before : Item) (children old : Nodes)
    → SameFlags it before
    → number_of children ≡ number_of old
    → IsOrderly before old
    → IsOrderly it children
unfolding number_of
SameFlags-IsOrderly it before children old same number h = record {
  shown_iff =
      λ inner. same.same_shown ∙ h.shown_iff (rw same.same_depth at inner) ∙ sym same.same_expanded;
  expanded_shown = λ e. same.same_shown ∙ h.expanded_shown (sym same.same_expanded ∙ e);
  arrow_iff = same.same_arrow ∙ h.arrow_iff ∙ sym same.same_expanded;
  expanded_visited = λ e. same.same_visited ∙ h.expanded_visited (sym same.same_expanded ∙ e);
  not_visited =
      λ e. none_left children (number ∙ rw (h.not_visited (sym same.same_visited ∙ e)) refl);
  visited = λ e.
      let (entries, d, n) = h.visited (sym same.same_visited ∙ e) in
      (entries, same.same_data ∙ d, number ∙ n);
}

number_of-map :
    (f : Item → Item) (children : Nodes) → number_of (map_nodes f children) ≡ number_of children
unfolding map_node number_of
number_of-map f nil = refl
number_of-map f (cons child children) = omega (arith, number_of-map f children)

module _ (f : Item → Item) (keeps : (it : Item) → SameFlags (f it) it) where
  mutual
    unfolding map_node IsSettled

    map_node-IsSettled : (n : Node) → IsSettled n → IsSettled (map_node f n)
    map_node-IsSettled (node it children) (orderly, h) = (
      SameFlags-IsOrderly (f it) it _ children (keeps it) (number_of-map f children) orderly,
      map_nodes-AllSettled children h,
    )

    map_nodes-AllSettled :
        (children : Nodes) → AllSettled children → AllSettled (map_nodes f children)
    map_nodes-AllSettled nil h = tt
    map_nodes-AllSettled (cons child children) (p, h) =
        (map_node-IsSettled child p, map_nodes-AllSettled children h)

-- A node's children are changed, but not their number.
pub below-IsSettled :
    (f : Nodes → Nodes) (n : Node)
    → ((ms : Nodes) → AllSettled ms → AllSettled (f ms) × (number_of (f ms) ≡ number_of ms))
    → IsSettled n
    → IsSettled (below f n)
unfolding IsSettled
below-IsSettled f (node it children) g (orderly, h) =
    let (kept, same) = g children h in
    (
      SameFlags-IsOrderly it it (f children) children
          (record {
            same_depth = refl;
            same_data = refl;
            same_visited = refl;
            same_expanded = refl;
            same_shown = refl;
            same_arrow = refl;
          })
          same orderly,
      kept,
    )

pub mapped-IsSettled :
    (f : Item → Item) (n : Node)
    → ((it : Item) → SameFlags (f it) it)
    → IsSettled n
    → IsSettled (below (map_nodes f) n)
mapped-IsSettled f n keeps =
    below-IsSettled (map_nodes f) n
      (λ ms h. (map_nodes-AllSettled f keeps ms h, number_of-map f ms))

pub update-AllSettled :
    (f : Node → Node) (n : ℕ) (children : Nodes)
    → ((m : Node) → IsSettled m → IsSettled (f m))
    → AllSettled children
    → AllSettled (update f n children) × (number_of (update f n children) ≡ number_of children)
unfolding update IsSettled number_of
update-AllSettled f n nil g h = (tt, refl)
update-AllSettled f zero (cons child children) g (p, h) = ((g child p, h), refl)
update-AllSettled f (suc n) (cons child children) g (p, h) =
    let (q, same) = update-AllSettled f n children g h in ((p, q), omega (arith, same))

select_item-IsSettled : (n : Node) → IsSettled n → IsSettled (select_item n)
unfolding IsSettled
select_item-IsSettled (node it children) (o, h) = (
  record {
    shown_iff = o.shown_iff;
    expanded_shown = o.expanded_shown;
    arrow_iff = o.arrow_iff;
    expanded_visited = o.expanded_visited;
    not_visited = o.not_visited;
    visited = o.visited;
  },
  h,
)

pub select_path-AllSettled :
    (path : List ℕ) (children : Nodes)
    → AllSettled children
    → AllSettled (select_path path children)
      × (number_of (select_path path children) ≡ number_of children)
unfolding select_path
select_path-AllSettled [] children h = (h, refl)
select_path-AllSettled (crumb ∷ []) children h =
    update-AllSettled select_item crumb children select_item-IsSettled h
select_path-AllSettled (crumb ∷ (next ∷ crumbs)) children h =
    update-AllSettled (below (select_path (next ∷ crumbs))) crumb children
      (λ m.
        below-IsSettled (select_path (next ∷ crumbs)) m (select_path-AllSettled (next ∷ crumbs)))
      h
