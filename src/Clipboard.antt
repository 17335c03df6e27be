-- ===== src/Clipboard.antt =====
-- docs/docs_output/html/clipboard.js: the button that copies a fragment of code. With the flag m, `^`
-- matches at the beginning of a text and after a line terminator.
pub mod Copies
use Prim.Native.String.{[], ◌∷◌}
use cherry_recorder_server.Prelude.{
  ℕ, suc, zero, ◌+◌, ◌-◌, String, Char, code, Bool, true, false, ◌||◌, ◌&&◌, ◌==◌, leb, str_eq, ◌⧺◌,
  if◌then◌else◌, Option, none, some, List, [], ◌∷◌,
}

-- `\s` of a regular expression
abbrev pub is_space : ℕ → Bool
is_space c =
    leb 9 c && leb c 13
    || c == 32
    || c == 160
    || c == 5760
    || leb 8192 c && leb c 8202
    || c == 8232
    || c == 8233
    || c == 8239
    || c == 8287
    || c == 12288
    || c == 65279

abbrev pub is_line_terminator : ℕ → Bool
is_line_terminator c = c == 10 || c == 13 || c == 8232 || c == 8233

-- The match ends here, if not later
abbrev pub or_here : Char → String → Option String → Option String
or_here c s none = if code c == 10 then some s else none
or_here c s (some rest) = some rest

-- What follows the longest match of `\s*\n`
unfoldable pub after_blank : String → Option String
after_blank [] = none
after_blank (c ∷ s) =
    let later = after_blank s in if is_space (code c) then or_here c s later else none

unfoldable pub chars : String → ℕ
chars [] = 0
chars (c ∷ s) = suc (chars s)

-- `text.replace(/^\s*\n/gm,'\n')` from a position, which is at `^` or not. Each round passes a
-- character at least.
unfoldable pub replace_blank : ℕ → Bool → String → String
unfolding after_blank
replace_blank zero at_start s = ""
replace_blank (suc fuel) at_start [] = ""
replace_blank (suc fuel) at_start (c ∷ s) =
    let next = replace_blank fuel (is_line_terminator (code c)) s in
    let blank : Option String = if at_start then after_blank (c ∷ s) else none in
    elim blank [ none ↦ c ∷ next | some rest ↦ "\n" ⧺ replace_blank fuel true rest ]

-- `text.replace(/\n*$/,'')`
unfoldable pub strip_newlines : String → String
strip_newlines [] = ""
strip_newlines (c ∷ s) =
    let rest = strip_newlines s in if code c == 10 && str_eq rest "" then "" else c ∷ rest

unfoldable pub clean : String → String
unfolding chars replace_blank strip_newlines
clean text = strip_newlines (replace_blank (chars text) true text)

-- The content of an element: texts, and elements with their classes and contents
mutual
  pub data Content : Type 0 where
    text_node : String → Content
    element : List String → Contents → Content

  pub data Contents : Type 0 where
    nil : Contents
    cons : Content → Contents → Contents

abbrev pub has_class : String → List String → Bool
has_class name [] = false
has_class name (c ∷ classes) = str_eq c name || has_class name classes

-- Line numbers, tooltips and the closed form of folded code
abbrev pub is_hidden : Content → Bool
is_hidden (text_node s) = false
is_hidden (element classes contents) =
    has_class "lineno" classes || has_class "ttc" classes || has_class "foldclosed" classes

-- The clone after `node.remove()` for each hidden element
unfoldable mutual
  pub without_hidden : Contents → Contents
  without_hidden nil = nil
  without_hidden (cons content contents) =
      let kept = kept_of content in
      let rest = without_hidden contents in if is_hidden content then rest else cons kept rest

  pub kept_of : Content → Content
  kept_of (text_node s) = text_node s
  kept_of (element classes contents) = element classes (without_hidden contents)

-- `textContent`
unfoldable mutual
  pub text_content : Contents → String
  text_content nil = ""
  text_content (cons content contents) = text_of content ⧺ text_content contents

  pub text_of : Content → String
  text_of (text_node s) = s
  text_of (element classes contents) = text_content contents

-- The button has the class "success" and its icon, or the icon to copy; each click starts a timer.
pub record Button : Type 0 where
  pub success : Bool
  pub success_icon : Bool
  pub timers : ℕ

-- A button for each fragment, if there is a clipboard
abbrev pub fresh : Button
fresh = record { success = false; success_icon = false; timers = 0 }

unfoldable pub add_buttons : Bool → List Contents → List (Button × Contents)
add_buttons clipboard [] = []
add_buttons clipboard (fragment ∷ fragments) =
    let rest = add_buttons clipboard fragments in if clipboard then (fresh, fragment) ∷ rest else []

-- The text that is written to the clipboard, and the button
unfoldable pub on_click : Contents → Button → String × Button
unfolding without_hidden text_content clean
on_click fragment button = (
  clean (text_content (without_hidden fragment)),
  record { success = true; success_icon = true; timers = button.timers + 1 },
)

-- The timer of the first click that has one
unfoldable pub on_timeout : Button → Button
on_timeout button = record { success = false; success_icon = false; timers = button.timers - 1 }
