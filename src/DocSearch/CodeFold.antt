-- ===== src/DocSearch/CodeFold.antt =====
-- `codefold.init` of docs/docs_output/html/dynsections.js: the controls for folding that are put into
-- a listing. A fold begins with a line; the RegExp that takes its start marker off is an argument.
pub mod Global
use Prim.Native.String.{[], ◌∷◌}
use cherry_recorder_server.Prelude.{
  String, Bool, true, false, str_eq, ◌||◌, ◌⧺◌, if◌then◌else◌, Option, none, some, List, [], ◌∷◌,
  ◌++◌,
}
use cherry_recorder_server.DocSearch.Cookie.{strip_prefix}

-- A span of class "fold": its id, what a click does, and its picture, as far as it has them
pub record Control : Type 0 where
  pub id : Option String
  pub onclick : Option String
  pub image : Option String

-- A line: the controls behind its number, its class "glow", its code, and what is put after it
pub record Line : Type 0 where
  pub controls : List Control
  pub glow : Bool
  pub code : String
  pub tail : String

-- The closed form of a fold
pub record Closed : Type 0 where
  pub id : String
  pub displayed : Bool
  pub line : Line

pub record FoldOpen : Type 0 where
  pub id : String
  pub start : Option String
  pub end : Option String
  pub head : Line
  pub closed : Option Closed

-- The children of the fragment and of a fold
mutual
  pub data Block : Type 0 where
    line : Line → Block
    fold : FoldOpen → Blocks → Block

  pub data Blocks : Type 0 where
    nil : Blocks
    cons : Block → Blocks → Blocks

-- The pictures for a path, and the code without a start marker at its end
pub record Style : Type 0 where
  pub rel_path : String
  pub plus_img : String
  pub minus_img : String
  pub strip_start : String → String → String

abbrev pub fold_all : Style → Control
fold_all style = record {
  id = some "fold_all";
  onclick = some ("javascript:codefold.toggle_all(" ⧺ style.rel_path ⧺ ");");
  image = some style.minus_img;
}

abbrev pub plain : Control
plain = record { id = none; onclick = none; image = none }

abbrev pub add_control : Style → Bool → Line → Line
add_control style first l = record l {
  controls = l.controls ++ (if first then fold_all style else plain) ∷ [];
}

-- The global control in the first line, and a span in the others
unfoldable mutual
  pub add_controls : Style → Bool → Blocks → Blocks
  add_controls style first nil = nil
  add_controls style first (cons block blocks) =
      cons (add_to style first block) (add_controls style false blocks)

  pub add_to : Style → Bool → Block → Block
  add_to style first (line l) = line (add_control style first l)
  add_to style first (fold f blocks) =
      fold (record f { head = add_control style first f.head }) (add_controls style false blocks)

abbrev pub minus : Style → String → Control
minus style id = record {
  id = none;
  onclick = some ("javascript:codefold.toggle('" ⧺ id ⧺ "');");
  image = some style.minus_img;
}

abbrev pub replace_first : Control → List Control → List Control
replace_first control [] = []
replace_first control (old ∷ controls) = control ∷ controls

abbrev pub plus_controls : Style → List Control → List Control
plus_controls style [] = []
plus_controls style (control ∷ controls) =
    record control { image = some style.plus_img } ∷ plus_controls style controls

-- `replace('foldopen','')`
unfoldable pub fold_id : String → String
unfolding strip_prefix
fold_id [] = ""
fold_id (c ∷ s) =
    let later = fold_id s in
    elim (strip_prefix "foldopen" (c ∷ s)) [ none ↦ c ∷ later | some rest ↦ rest ]

-- As a text that is put together
abbrev pub in_text : Option String → String
in_text none = "undefined"
in_text (some s) = s

abbrev pub without_start : Style → Option String → String → String
without_start style none code = code
without_start style (some start) code =
    if str_eq start "" then code else style.strip_start start code

abbrev pub closed_form : Style → String → FoldOpen → Line → Closed
closed_form style id f head = record {
  id = "foldclosed" ⧺ id;
  displayed = false;
  line = record {
    controls = plus_controls style head.controls;
    glow = false;
    code = without_start style f.start head.code;
    tail =
        head.tail
        ⧺ " "
        ⧺ in_text f.start
        ⧺ "<a href=\"javascript:codefold.toggle('"
        ⧺ id
        ⧺ "')\">&#8230;</a>"
        ⧺ in_text f.end;
  };
}

abbrev pub install : Style → FoldOpen → FoldOpen
install style f =
    let id = fold_id f.id in
    let head : Line = record f.head { controls = replace_first (minus style id) f.head.controls } in
    record f { head = head; closed = some (closed_form style id f head) }

unfoldable mutual
  pub install_folds : Style → Blocks → Blocks
  install_folds style nil = nil
  install_folds style (cons block blocks) =
      cons (install_in style block) (install_folds style blocks)

  pub install_in : Style → Block → Block
  install_in style (line l) = line l
  install_in style (fold f blocks) = fold (install style f) (install_folds style blocks)

unfoldable pub init : Style → Blocks → Blocks
unfolding add_controls install_folds
init style blocks = install_folds style (add_controls style true blocks)
