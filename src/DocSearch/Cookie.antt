-- ===== src/DocSearch/Cookie.antt =====
-- docs/docs_output/html/cookie.js. The browser's two storages are maps; what it makes of an
-- assignment to `document.cookie`, and of a date, are arguments.
use Prim.Native.String.{[], ◌∷◌}
use text.Mathlib.TextLemmas.{nil-append, cons-append, append_assoc}
use cherry_recorder_server.Prelude.{
  ℕ, String, code, Bool, true, false, Option, none, some, [], ◌∷◌, ◌≡◌, ◌≢◌, refl, arith, str_eq,
  str_eq-ne, eq_refl, ◌⧺◌, ◌==◌, if◌then◌else◌,
}
use cherry_recorder_server.StringMap
use cherry_recorder_server.StringMap.{StringMap, find-assign, find-erase}

-- `days`: a session cookie, a deletion, or a number of days
pub data Days : Type 0 where
  session : Days
  delete : Days
  days : ℕ → Days

pub record Browser : Type 0 where
  pub chrome : Bool
  pub local_storage : StringMap String
  pub session_storage : StringMap String
  pub cookie : String

-- What the browser does: the date so many days ahead, and the cookies after an assignment.
pub record Platform : Type 0 where
  pub gmt_string : Days → String
  pub set_cookie : String → String → String

abbrev pub cookie_namespace : String
cookie_namespace = "doxygen_"

-- `s` starts with the text; what follows it
unfoldable pub strip_prefix : String → String → Option String
strip_prefix [] s = some s
strip_prefix (c ∷ p) [] = none
strip_prefix (c ∷ p) (d ∷ s) =
    let rest = strip_prefix p s in if code c == code d then rest else none

-- `s.substring(s.indexOf(text) + text.length)`, if the text occurs
unfoldable pub after : String → String → Option String
unfolding strip_prefix
after text [] = strip_prefix text ""
after text (c ∷ s) =
    let later = after text s in
    elim (strip_prefix text (c ∷ s)) [ none ↦ later | some rest ↦ some rest ]

-- Up to the next ";", or to the end
unfoldable until_semicolon : String → String
until_semicolon [] = ""
until_semicolon (c ∷ s) = let rest = until_semicolon s in if code c == 59 then "" else c ∷ rest

-- A missing item and an empty one are both false, so that the next one is taken.
abbrev pub or_else : Option String → String → String
or_else none default = default
or_else (some value) default = if str_eq value "" then default else value

abbrev cookie_value : Option String → String → String
cookie_value none default = default
cookie_value (some rest) default = until_semicolon rest

unfoldable pub read_setting : Browser → String → String → String
unfolding after until_semicolon
read_setting b name default =
    let key = cookie_namespace ⧺ name in
    if b.chrome
    then or_else (StringMap.find key b.local_storage)
        (or_else (StringMap.find key b.session_storage) default)
    else cookie_value (after (key ⧺ "=") b.cookie) default

abbrev is_session : Days → Bool
is_session session = true
is_session delete = false
is_session (days n) = n == 0

unfoldable pub write_setting : Platform → String → String → Days → Browser → Browser
write_setting p name value d b =
    let key = cookie_namespace ⧺ name in
    let expiration = if is_session d then "" else "expires=" ⧺ p.gmt_string d ⧺ ";" in
    if b.chrome
    then if is_session d
      then record b { session_storage = StringMap.assign key value b.session_storage }
      else record b { local_storage = StringMap.assign key value b.local_storage }
    else record b {
      cookie =
          p.set_cookie (key ⧺ "=" ⧺ value ⧺ "; SameSite=Lax;" ⧺ expiration ⧺ "path=/") b.cookie;
    }

-- `getItem` is true
abbrev pub is_set : Option String → Bool
is_set none = false
is_set (some value) = if str_eq value "" then false else true

unfoldable pub erase_setting : Platform → String → Browser → Browser
unfolding write_setting
erase_setting p name b =
    let key = cookie_namespace ⧺ name in
    if b.chrome
    then if is_set (StringMap.find key b.local_storage)
      then record b { local_storage = StringMap.erase key b.local_storage }
      else if is_set (StringMap.find key b.session_storage)
      then record b { session_storage = StringMap.erase key b.session_storage }
      else b
    else write_setting p name "" delete b

-- In a browser with storages, a value that is not empty is read back after it is written, unless it
-- was written for the session while another one that is not empty is stored for good.
pub read-write_setting :
    (p : Platform) (b : Browser) (name value default : String) (d : Days)
    → b.chrome ≡ true
    → value ≢ ""
    → (is_session d ≡ true
        → is_set (StringMap.find (cookie_namespace ⧺ name) b.local_storage) ≡ false)
    → read_setting (write_setting p name value d b) name default ≡ value
unfolding read_setting write_setting
read-write_setting p b name value default d chrome named unset =
    let key = cookie_namespace ⧺ name in
    ground (
      arith,
      str_eq-ne value "" named,
      find-assign key key value b.local_storage,
      find-assign key key value b.session_storage,
      eq_refl key,
    )

pub strip_prefix-append : (p s : String) → strip_prefix p (p ⧺ s) ≡ some s
unfolding strip_prefix
strip_prefix-append [] s = rw nil-append
strip_prefix-append (c ∷ p) s = rw (cons-append c p s) (ground (arith, strip_prefix-append p s))

pub after_here : (p t s : String) → strip_prefix p t ≡ some s → after p t ≡ some s
unfolding after
after_here p [] s e = e
after_here p (c ∷ t) s e = ground (arith, e)

pub after-append : (p s : String) → after p (p ⧺ s) ≡ some s
after-append p s = after_here p (p ⧺ s) s (strip_prefix-append p s)

abbrev NoSemicolon : String → Type 0
NoSemicolon [] = Unit
NoSemicolon (c ∷ s) = (code c ≢ 59) × NoSemicolon s

until_semicolon-append : (v s : String) → NoSemicolon v → until_semicolon (v ⧺ ";" ⧺ s) ≡ v
unfolding until_semicolon
until_semicolon-append [] s h = rw (nil-append, cons-append) refl
until_semicolon-append (c ∷ v) s (p, h) =
    rw (cons-append c v _) (ground (arith, until_semicolon-append v s h))

-- In a browser without storages, the setting that stands first among the cookies is read back, if
-- its value has no semicolon.
pub read_setting-first :
    (b : Browser) (name value others default : String)
    → b.chrome ≡ false
    → b.cookie ≡ (cookie_namespace ⧺ name ⧺ "=") ⧺ value ⧺ ";" ⧺ others
    → NoSemicolon value
    → read_setting b name default ≡ value
unfolding read_setting
read_setting-first b name value others default plain stored clean =
    let first = cookie_namespace ⧺ name ⧺ "=" in
    ground (
      arith,
      stored,
      append_assoc cookie_namespace name "=",
      after-append first (value ⧺ ";" ⧺ others),
      until_semicolon-append value others clean,
    )
