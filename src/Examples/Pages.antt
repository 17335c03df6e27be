-- ===== src/Examples/Pages.antt =====
-- The small scripts of the documentation's pages on concrete pages.
use cherry_recorder_server.Prelude.{
  String, true, false, Option, none, some, [], ◌∷◌, ◌≡◌, refl, length,
}
use cherry_recorder_server.Integer.{pos, negsuc, leb_ℤ}
use cherry_recorder_server.Clipboard
use cherry_recorder_server.Clipboard.{
  text_node, element, Contents, fresh, Button, on_click, on_timeout, clean,
}
use cherry_recorder_server.Clipboard.Copies.{visible, shown, ends_with_newline, on_click-visible}
use cherry_recorder_server.NavTree.Anchors.{
  Anchor, DocContent, Scrolling, on_toc_click, on_animated,
}
use cherry_recorder_server.NavTree.Anchors.Bounds.{still, init, toc, AllShort, settle, Reach-settle}
use cherry_recorder_server.NavTree.Scripts.{data_variable}
use cherry_recorder_server.DocSearch.Windows.{Placed, Size, results_place}
use cherry_recorder_server.DocSearch.Windows.Fit.{IsFitted, results_place-fits}
use cherry_recorder_server.DocSearch.CodeFold
use cherry_recorder_server.DocSearch.CodeFold.{Line, FoldOpen, line, fold, Blocks, Style}
use cherry_recorder_server.DocSearch.CodeFold.Global.{
  has_global, is_bare, begins_with_line, has_global-init,
}

-- A line with its number, and a folded block that is not copied
abbrev fragment : Contents
fragment =
    Clipboard.cons (element ("lineno" ∷ []) (Clipboard.cons (text_node "    1") Clipboard.nil)) (
      Clipboard.cons (text_node "int main();\n\n\n") (
        Clipboard.cons
          (element ("foldclosed" ∷ []) (Clipboard.cons (text_node "{...}") Clipboard.nil))
          Clipboard.nil))

on_click-visible_example :
    (visible (on_click fragment fresh).0 ≡ visible (shown fragment))
    × (ends_with_newline (on_click fragment fresh).0 ≡ false)
on_click-visible_example = on_click-visible fragment fresh

-- Empty lines are joined, not only cleared of their spaces.
clean_empty_lines : clean "a\n  \n\nb\n\n" ≡ "a\n\nb"
unfolding clean
clean_empty_lines = refl

-- The first of two timers ends the sign of the second success.
success_cut_short :
    (on_timeout (on_click fragment (on_click fragment fresh).1).1).success_icon ≡ false
unfolding on_click on_timeout
success_cut_short = refl

abbrev member : Anchor
member = record {
  parent = record {
    class_attribute = "memItemLeft";
    classes = "memItemLeft" ∷ [];
    is_header = false;
    top = pos 900;
  };
  top = pos 905;
}

abbrev content : DocContent
content = record { offset = pos 100; height = 600; scroll_height = 3000; scroll_top = pos 0 }

abbrev found : String → Option Anchor
found href = some member

abbrev one_click : Scrolling
one_click = on_toc_click content found "#a1" still

Reach-settle_example :
    AllShort one_click.animations
    × ((settle "a1" (length one_click.animations) one_click).animation_in_progress ≡ false)
Reach-settle_example = Reach-settle "a1" one_click (toc content found "#a1" still init)

-- With two animations queued, the end of the first lets a new hash through while the second runs.
second_unnoticed :
    ((on_animated "a1" (on_toc_click content found "#a1" one_click)).animation_in_progress ≡ false)
    × (length (on_animated "a1" (on_toc_click content found "#a1" one_click)).animations ≡ 1)
unfolding on_animated on_toc_click
second_unnoticed = (refl, refl)

data_variable_of_script : data_variable "../dir-a/annotated-dup" ≡ "annotated_dup"
unfolding data_variable
data_variable_of_script = refl

abbrev search_box : Placed
search_box = record {
  width = 200;
  height = 20;
  offsets = record { left = pos 700; top = pos 10 } ∷ record { left = negsuc 4; top = pos 0 } ∷ [];
}

abbrev unsized : Size
unsized = record { width = 0; height = 0 }

results_place-fits_example :
    (leb_ℤ (pos 10) (results_place search_box 300 800 500 unsized).left ≡ true)
    × IsFitted 300
        (results_place search_box 300 800 500 unsized).left
        800
        0
        (results_place search_box 300 800 500 unsized).size.width
    × IsFitted 400
        (results_place search_box 300 800 500 unsized).top
        500
        0
        (results_place search_box 300 800 500 unsized).size.height
results_place-fits_example = results_place-fits search_box 300 800 500 unsized

abbrev style : Style
style = record {
  rel_path = "0";
  plus_img = "plus";
  minus_img = "minus";
  strip_start = λ start code. code;
}

abbrev code_line : String → Line
code_line code = record { controls = []; glow = false; code = code; tail = "" }

-- A page that begins with a comment of several lines
abbrev listing : Blocks
listing =
    CodeFold.cons
      (fold
        (record {
          id = "foldopen00001";
          start = some "/*";
          end = some "*/";
          head = code_line "/*";
          closed = none;
        })
        (CodeFold.cons (line (code_line "*/")) CodeFold.nil))
      CodeFold.nil

listing_bare : is_bare listing ≡ true
unfolding is_bare
listing_bare = refl

has_global-init_example : has_global (CodeFold.init style listing) ≡ begins_with_line listing
has_global-init_example = has_global-init style listing listing_bare
