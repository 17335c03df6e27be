-- ===== src/NavTree/Anchors.antt =====
-- The scrolling to an anchor in docs/docs_output/html/navtree.js: gotoAnchor with its animation and
-- glow, highlightAnchor, the links of the table of contents, and the place of the button. Positions
-- are whole pixels.
pub mod Bounds
use cherry_recorder_server.Prelude.{
  ℕ, zero, suc, ◌+◌, ◌≤◌, String, Bool, true, false, ◌||◌, ◌&&◌, leb, str_eq, if◌then◌else◌, Option,
  none, some, List, [], ◌∷◌, ◌++◌, ◌≡◌, ◌≢◌, refl, arith,
}
use cherry_recorder_server.Integer.{ℤ, pos, negsuc, ◌+ℤ◌, ◌-ℤ◌, abs, min_ℤ}
use cherry_recorder_server.NavTree.{Node, node, Nodes, nil, cons}
use cherry_recorder_server.NavTree.Page.{is_selected, children_of}

-- The parent of an anchor: its attribute class with its parts, whether it is a header, and its place
pub record Parent : Type 0 where
  pub class_attribute : String
  pub classes : List String
  pub is_header : Bool
  pub top : ℤ

-- What `$(aname)` finds; the place of the anchor is `offset().top`.
pub record Anchor : Type 0 where
  pub parent : Parent
  pub top : ℤ

pub record DocContent : Type 0 where
  pub offset : ℤ
  pub height : ℕ
  pub scroll_height : ℕ
  pub scroll_top : ℤ

-- What is lit up when the animation ends: the rows of a member without details, with the hash, the
-- row of an enum value or a field, the header, or what follows the anchor
pub data Lit : Type 0 where
  rows : String → Lit
  row header next : Lit

pub record Animation : Type 0 where
  pub scroll_top : ℤ
  pub duration : ℕ
  pub parent : Parent

-- The animations that are queued, the first one running, and
-- what has been made to glow, the last one first
pub record Scrolling : Type 0 where
  pub animation_in_progress : Bool
  pub animations : List Animation
  pub glowing : List (Lit × ℕ)

abbrev pub has_class : String → List String → Bool
has_class name [] = false
has_class name (c ∷ classes) = str_eq c name || has_class name classes

abbrev pub is_titled : Parent → Bool
is_titled p =
    has_class "memItemLeft" p.classes
    || has_class "memtitle" p.classes
    || has_class "fieldname" p.classes
    || has_class "fieldtype" p.classes
    || p.is_header

abbrev pub anchor_position : Anchor → ℤ
anchor_position a = if is_titled a.parent then a.parent.top else a.top

-- `if (pos)`
abbrev pub is_nonzero : ℤ → Bool
is_nonzero (pos zero) = false
is_nonzero _ = true

abbrev pub max : ℕ → ℕ → ℕ
max m n = if leb m n then n else m

abbrev pub min : ℕ → ℕ → ℕ
min m n = if leb m n then m else n

abbrev pub distance : DocContent → ℤ → ℕ
distance d place =
    abs (min_ℤ (place -ℤ d.offset) (pos d.scroll_height -ℤ pos d.height -ℤ d.scroll_top))

abbrev pub glow_of : String → Parent → Lit × ℕ
glow_of hash p =
    if str_eq p.class_attribute "memItemLeft"
    then (rows hash, 300)
    else if str_eq p.class_attribute "fieldname"
    then (row, 1000)
    else if str_eq p.class_attribute "fieldtype"
    then (row, 1000)
    else if p.is_header
    then (header, 1000)
    else (next, 1000)

unfoldable pub goto_anchor : DocContent → Option Anchor → Scrolling → Scrolling
goto_anchor d none s = s
goto_anchor d (some a) s =
    let place = anchor_position a in
    let animation : Animation = record {
      scroll_top = (place +ℤ d.scroll_top) -ℤ d.offset;
      duration = max 50 (min 500 (distance d place));
      parent = a.parent;
    } in
    if is_nonzero place
    then record s { animation_in_progress = true; animations = s.animations ++ animation ∷ [] }
    else s

-- `glowEffect`: what has the class, and for how long
unfoldable pub glow_effect : Lit × ℕ → Scrolling → Scrolling
glow_effect glow s = record s { glowing = glow ∷ s.glowing }

-- The running animation ends on a page with the hash.
unfoldable pub on_animated : String → Scrolling → Scrolling
unfolding glow_effect
on_animated hash s = elim s.animations [
  | [] ↦ s
  | animation ∷ animations ↦
      glow_effect (glow_of hash animation.parent)
        (record s { animation_in_progress = false; animations = animations })
]

-- `highlightAnchor`, and a link of the table of contents, with what the page has under a name
unfoldable pub highlight_anchor :
    DocContent → (String → Option Anchor) → String → Scrolling → Scrolling
unfolding goto_anchor
highlight_anchor d find hash_url s = goto_anchor d (find hash_url) s

unfoldable pub on_toc_click : DocContent → (String → Option Anchor) → String → Scrolling → Scrolling
unfolding goto_anchor
on_toc_click d find href s = goto_anchor d (find href) s

-- `topOffset` of selectAndHighlight: lower if the first item is selected
abbrev pub first_selected : Nodes → Bool
first_selected nil = false
first_selected (cons (node it children) rest) = is_selected it

unfoldable pub top_offset : Node → ℕ
top_offset tree = if first_selected (children_of tree) then 5 + 25 else 5
