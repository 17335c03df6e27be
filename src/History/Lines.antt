-- ===== src/History/Lines.antt =====
-- The line loop of `read_last_lines` in src/MessageHistory.cpp, against texts made of lines.
use Prim.Native.String.{[], ◌∷◌}
use Prim.Native.String
use text.Mathlib.TextLemmas.{nil-append, cons-append, append-nil, append_assoc}
use cherry_recorder_server.Prelude.{
  String, code, List, [], ◌∷◌, ◌++◌, ◌≡◌, ◌≢◌, refl, sym, arith, ◌⧺◌, ◌∙◌,
}
use cherry_recorder_server.History.{get_lines, push}

abbrev pub NoNewline : String → Type 0
NoNewline [] = Unit
NoNewline (c ∷ s) = (code c ≢ 10) × NoNewline s

abbrev pub NoNewlines : List String → Type 0
NoNewlines [] = Unit
NoNewlines (e ∷ es) = NoNewline e × NoNewlines es

-- The text that holds the given lines, each ended by a newline.
unfoldable pub render : List String → String
render [] = ""
render (e ∷ es) = e ⧺ "\n" ⧺ render es

len_newline : String.len "\n" ≡ 1
len_newline = refl

get_lines-newline : (line rest : String) → get_lines line ("\n" ⧺ rest) ≡ line ∷ get_lines "" rest
unfolding get_lines
get_lines-newline line rest = rw (cons-append, nil-append)

pub get_lines-line :
    (line e rest : String)
    → NoNewline e
    → get_lines line (e ⧺ "\n" ⧺ rest) ≡ (line ⧺ e) ∷ get_lines "" rest
unfolding get_lines
get_lines-line line [] rest h = rw (nil-append, append-nil) (get_lines-newline line rest)
get_lines-line line (c ∷ e) rest (p, h) = rw (cons-append c e _) (
    ground (
      arith,
      get_lines-line (push line c) e rest h,
      append_assoc line (c ∷ []) e,
      cons-append c [] e,
      nil-append e,
    ))

-- A file of lines is read back as these lines.
pub get_lines-render : (es : List String) → NoNewlines es → get_lines "" (render es) ≡ es
unfolding render get_lines
get_lines-render [] h = refl
get_lines-render (e ∷ es) (h, hs) =
    get_lines-line "" e (render es) h ∙ rw (nil-append, get_lines-render es hs)

pub render-append : (es fs : List String) → render (es ++ fs) ≡ render es ⧺ render fs
unfolding render
render-append [] fs = sym (nil-append (render fs))
render-append (e ∷ es) fs = rw (render-append es fs) (simp append_assoc)
