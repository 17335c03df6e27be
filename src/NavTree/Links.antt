-- ===== src/NavTree/Links.antt =====
-- The functions on addresses of docs/docs_output/html/navtree.js.
use Prim.Native.String.{[], ◌∷◌}
use cherry_recorder_server.Prelude.{
  ℕ, String, code, Bool, true, false, not, ◌&&◌, ◌||◌, ◌==◌, leb, if◌then◌else◌, ◌⧺◌, str_eq,
}
use cherry_recorder_server.NavTree.{Site}

unfoldable pub has_char : ℕ → String → Bool
has_char n [] = false
has_char n (c ∷ s) = code c == n || has_char n s

-- What follows the last slash
unfoldable pub strip_path : String → String
unfolding has_char
strip_path [] = ""
strip_path (c ∷ s) =
    let rest = strip_path s in if has_char b'/' s then rest else if code c == b'/' then s else c ∷ s

-- `\w`, `[\w-]`, and the class of `pathName`
abbrev pub is_word : ℕ → Bool
is_word n = (leb 48 n && leb n 57) || (leb 65 n && leb n 90) || (leb 97 n && leb n 122) || n == b'_'

abbrev pub is_hash_char : ℕ → Bool
is_hash_char n = is_word n || n == b'-'

abbrev pub is_path_char : ℕ → Bool
is_path_char n = is_hash_char n || has_char n "+&@#/%?=~|!:,.;()"

-- `replace(/[^...]/g, '')`
unfoldable pub keep : (ℕ → Bool) → String → String
keep p [] = ""
keep p (c ∷ s) = let rest = keep p s in if p (code c) then c ∷ rest else rest

-- The text is `/d\w/d\w\w/` and a name without a slash.
abbrev is_subdirectory : String → Bool
is_subdirectory (a ∷ b ∷ c ∷ d ∷ e ∷ f ∷ g ∷ h ∷ s) =
    code a == b'/'
    && code b == b'd'
    && is_word (code c)
    && code d == b'/'
    && code e == b'd'
    && is_word (code f)
    && is_word (code g)
    && code h == b'/'
    && not (has_char b'/' s)
is_subdirectory _ = false

unfoldable pub strip_path2 : String → String
unfolding strip_path has_char
strip_path2 [] = ""
strip_path2 (c ∷ s) =
    let rest = strip_path2 s in
    if is_subdirectory (c ∷ s) then s else if has_char b'/' s then rest else strip_path (c ∷ s)

abbrev pub substring_1 : String → String
substring_1 [] = ""
substring_1 (c ∷ s) = s

unfoldable pub hash_value : Site → String
unfolding keep
hash_value site = keep is_hash_char (substring_1 site.hash)

unfoldable pub hash_url : Site → String
unfolding hash_value
hash_url site = "#" ⧺ hash_value site

unfoldable pub path_name : Site → String
unfolding keep has_char
path_name site = keep is_path_char site.pathname

-- `split('#')[0]`
unfoldable pub before_hash : String → String
before_hash [] = ""
before_hash (c ∷ s) = let rest = before_hash s in if code c == b'#' then "" else c ∷ rest

-- `split('#')[1]`, or the empty text if there is none
unfoldable pub after_hash : String → String
unfolding before_hash
after_hash [] = ""
after_hash (c ∷ s) = let rest = after_hash s in if code c == b'#' then before_hash s else rest

-- `replace('#', ':')`
unfoldable pub colon_for_hash : String → String
colon_for_hash [] = ""
colon_for_hash (c ∷ s) = let rest = colon_for_hash s in if code c == b'#' then ":" ⧺ s else c ∷ rest

-- `match(/^#l\d+$/)`
unfoldable pub all_digits : String → Bool
all_digits [] = true
all_digits (c ∷ s) = leb 48 (code c) && leb (code c) 57 && all_digits s

unfoldable pub is_line_number : String → Bool
unfolding all_digits
is_line_number (a ∷ b ∷ c ∷ s) = code a == b'#' && code b == b'l' && all_digits (c ∷ s)
is_line_number _ = false

-- `replace(/\..+$/, '')`
unfoldable pub strip_extension : String → String
strip_extension [] = ""
strip_extension (c ∷ s) =
    let rest = strip_extension s in if code c == b'.' && not (str_eq s "") then "" else c ∷ rest

-- `[class$="..."]`
unfoldable pub ends_with : String → String → Bool
ends_with text [] = str_eq text ""
ends_with text (c ∷ s) = str_eq text (c ∷ s) || ends_with text s
