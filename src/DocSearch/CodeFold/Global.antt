-- ===== src/DocSearch/CodeFold/Global.antt =====
-- Whether a listing has the control for all its folds after `codefold.init` of
-- docs/docs_output/html/dynsections.js.
use cherry_recorder_server.Prelude.{
  String, Bool, true, false, ◌||◌, ◌&&◌, ◌≡◌, refl, arith, str_eq, Option, none, some, List, [],
  ◌∷◌,
}
use cherry_recorder_server.DocSearch.CodeFold.{
  Control, Line, Closed, FoldOpen, Block, line, fold, Blocks, nil, cons, Style, add_control,
  add_controls, add_to, install, install_folds, install_in, init,
}

abbrev pub is_global : Option String → Bool
is_global none = false
is_global (some id) = str_eq id "fold_all"

abbrev pub any_global : List Control → Bool
any_global [] = false
any_global (control ∷ controls) = is_global control.id || any_global controls

abbrev pub in_closed : Option Closed → Bool
in_closed none = false
in_closed (some closed) = any_global closed.line.controls

-- The control for all folds is somewhere.
unfoldable mutual
  pub has_global : Blocks → Bool
  has_global nil = false
  has_global (cons block blocks) = global_in block || has_global blocks

  pub global_in : Block → Bool
  global_in (line l) = any_global l.controls
  global_in (fold f blocks) = any_global f.head.controls || in_closed f.closed || has_global blocks

abbrev pub is_nil : List Control → Bool
is_nil [] = true
is_nil (control ∷ controls) = false

abbrev pub no_control : Line → Bool
no_control l = is_nil l.controls

and_parts : (a b : Bool) → (a && b) ≡ true → (a ≡ true) × (b ≡ true)
and_parts a b e = ground (arith, e)

-- The page as it is loaded has no controls.
unfoldable mutual
  pub is_bare : Blocks → Bool
  is_bare nil = true
  is_bare (cons block blocks) = bare block && is_bare blocks

  pub bare : Block → Bool
  bare (line l) = no_control l
  bare (fold f blocks) = no_control f.head && is_bare blocks

abbrev pub begins_with_line : Blocks → Bool
begins_with_line nil = false
begins_with_line (cons (line l) blocks) = true
begins_with_line (cons (fold f inner) blocks) = false

no_control-controls : (controls : List Control) → is_nil controls ≡ true → controls ≡ []
no_control-controls [] e = refl
no_control-controls (control ∷ controls) e = cc

-- The first control of a fold gives way to its own.
head-global :
    (style : Style) (first : Bool) (f : FoldOpen)
    → no_control f.head ≡ true
    → let g = install style (record f { head = add_control style first f.head }) in
      (any_global g.head.controls ≡ false) × (in_closed g.closed ≡ false)
head-global style first f e = rw (no_control-controls f.head.controls e) (refl, refl)

line-global :
    (style : Style) (first : Bool) (l : Line)
    → no_control l ≡ true
    → any_global (add_control style first l).controls ≡ first
line-global style true l e = rw (no_control-controls l.controls e) refl
line-global style false l e = rw (no_control-controls l.controls e) refl

mutual
  unfolding has_global is_bare add_controls install_folds

  later-has_global :
      (style : Style) (blocks : Blocks)
      → is_bare blocks ≡ true
      → has_global (install_folds style (add_controls style false blocks)) ≡ false
  later-has_global style nil h = refl
  later-has_global style (cons block blocks) h =
      let (here, later) = and_parts (bare block) (is_bare blocks) h in
      rw (later-global_in style block here, later-has_global style blocks later) refl

  later-global_in :
      (style : Style) (block : Block)
      → bare block ≡ true
      → global_in (install_in style (add_to style false block)) ≡ false
  later-global_in style (line l) h = line-global style false l h
  later-global_in style (fold f blocks) h =
      let (here, inside) = and_parts (no_control f.head) (is_bare blocks) h in
      let (head, closed) = head-global style false f here in
      rw (head, closed, later-has_global style blocks inside) refl

-- The page has the control for all its folds exactly if it begins with a line outside every fold: a
-- fold at the beginning puts its own control in its place.
pub has_global-init :
    (style : Style) (blocks : Blocks)
    → is_bare blocks ≡ true
    → has_global (init style blocks) ≡ begins_with_line blocks
unfolding init has_global is_bare add_controls install_folds
has_global-init style nil h = refl
has_global-init style (cons (line l) blocks) h =
    let (here, later) = and_parts (no_control l) (is_bare blocks) h in
    rw (line-global style true l here) refl
has_global-init style (cons (fold f inner) blocks) h =
    let (here, later) = and_parts (no_control f.head && is_bare inner) (is_bare blocks) h in
    let (own, inside) = and_parts (no_control f.head) (is_bare inner) here in
    let (head, closed) = head-global style true f own in
    rw (head, closed, later-has_global style inner inside, later-has_global style blocks later) refl
