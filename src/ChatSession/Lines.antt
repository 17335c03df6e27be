-- ===== src/ChatSession/Lines.antt =====
-- How `on_read` of src/ChatSession.cpp cuts what it receives into commands.
use text.Mathlib.TextLemmas.{nil-append, cons-append, append-nil, append_assoc}
use Prim.Native.String.{[], ◌∷◌}
use cherry_recorder_server.Prelude.{
  String, Char, false, List, [], ◌∷◌, str_eq, str_eq-ne, ◌⧺◌, if◌then◌else◌, ◌≡◌, ◌≢◌, arith, ◌∙◌,
  ap,
}
use cherry_recorder_server.History.{get_lines, push}
use cherry_recorder_server.History.Lines.{NoNewline, get_lines-line}
use cherry_recorder_server.ChatSession.{commands, chomp}

pushed : (line : String) (c : Char) (e : String) → push line c ⧺ e ≡ line ⧺ (c ∷ e)
pushed line c e =
    append_assoc line (c ∷ []) e
    ∙ ap (λ t. line ⧺ t) (rw (cons-append c [] e) (ap (λ t. c ∷ t) (nil-append e)))

get_lines-last :
    (line e : String)
    → NoNewline e
    → str_eq (line ⧺ e) "" ≡ false
    → get_lines line e ≡ (line ⧺ e) ∷ []
unfolding get_lines
get_lines-last line [] h some_text =
    rw append-nil (ground (arith, ap (λ t. str_eq t "") (append-nil line), some_text))
get_lines-last line (c ∷ e) (p, h) some_text = ground (
  arith,
  get_lines-last (push line c) e h (ap (λ t. str_eq t "") (pushed line c e) ∙ some_text),
  pushed line c e,
)

abbrev as_command : String → List String → List String
as_command line rest = if str_eq (chomp line) "" then rest else chomp line ∷ rest

-- What follows the last newline of a read is taken for a command too, whether or not the rest of its
-- line is still to come.
commands-partial :
    (line part : String)
    → NoNewline line
    → NoNewline part
    → part ≢ ""
    → commands (get_lines "" (line ⧺ "\n" ⧺ part)) ≡ as_command line (as_command part [])
unfolding commands
commands-partial line part h k some_text =
    let last : get_lines "" part ≡ part ∷ [] =
      get_lines-last "" part k
        (ap (λ t. str_eq t "") (nil-append part) ∙ str_eq-ne part "" some_text)
      ∙ ap (λ t. t ∷ []) (nil-append part) in
    let split : get_lines "" (line ⧺ "\n" ⧺ part) ≡ line ∷ part ∷ [] =
      get_lines-line "" line part h ∙ ground (arith, last, nil-append line) in
    ap commands split
