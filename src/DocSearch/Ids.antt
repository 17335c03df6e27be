-- ===== src/DocSearch/Ids.antt =====
-- `convertToId`, and the other functions on texts that docs/docs_output/html/search/search.js uses.
use Prim.Native.Nat.{◌/◌, ◌%◌}
use Prim.Native.String.{[], ◌∷◌}
use text.Mathlib.TextLemmas.{append_assoc, nil-append, cons-append}
use cherry_recorder_server.Prelude.{
  ℕ, suc, zero, ◌+◌, String, code, Bool, true, str_eq, ◌==◌, leb, ltb, ◌⧺◌, ◌||◌, ◌&&◌,
  if◌then◌else◌, ◌≡◌, refl, arith, Option, none, some,
}

abbrev hex_digit : ℕ → String
hex_digit n =
    if n == 15
    then "f"
    else if n == 14
    then "e"
    else if n == 13
    then "d"
    else if n == 12
    then "c"
    else if n == 11
    then "b"
    else if n == 10
    then "a"
    else if n == 9
    then "9"
    else if n == 8
    then "8"
    else if n == 7
    then "7"
    else if n == 6
    then "6"
    else if n == 5
    then "5"
    else if n == 4
    then "4"
    else if n == 3
    then "3"
    else if n == 2
    then "2"
    else if n == 1
    then "1"
    else "0"

-- Each round takes the last digit off, so that `n + 1` rounds are enough for `n`.
hex_digits : ℕ → ℕ → String → String
hex_digits zero n rest = rest
hex_digits (suc fuel) n rest =
    let more = hex_digits fuel (n / 16) (hex_digit (n % 16) ⧺ rest) in
    if n / 16 == 0 then hex_digit (n % 16) ⧺ rest else more

-- `n.toString(16)`
unfoldable pub to_hex : ℕ → String
unfolding hex_digits
to_hex n = hex_digits (n + 1) n ""

-- `/[a-z0-9\u0080-\uFFFF]/`. A character beyond is two code units, which both match.
abbrev is_plain : ℕ → Bool
is_plain c = (leb 97 c && leb c 122) || (leb 48 c && leb c 57) || leb 128 c

abbrev pub escape : ℕ → String
escape c = if ltb c 16 then "_0" ⧺ to_hex c else "_" ⧺ to_hex c

unfoldable pub convert_to_id : String → String
convert_to_id [] = ""
convert_to_id (c ∷ s) =
    let rest = convert_to_id s in if is_plain (code c) then c ∷ rest else escape (code c) ⧺ rest

-- `replace(/^ +/, "")`
unfoldable pub strip_leading : String → String
strip_leading [] = ""
strip_leading (c ∷ s) = let rest = strip_leading s in if code c == 32 then rest else c ∷ s

-- `replace(/ +$/, "")`
unfoldable pub strip_trailing : String → String
strip_trailing [] = ""
strip_trailing (c ∷ s) =
    let rest = strip_trailing s in if code c == 32 && str_eq rest "" then "" else c ∷ rest

-- `replace(/ +/g, "")`
unfoldable pub remove_spaces : String → String
remove_spaces [] = ""
remove_spaces (c ∷ s) = let rest = remove_spaces s in if code c == 32 then rest else c ∷ rest

abbrev is_digit : ℕ → Bool
is_digit c = leb 48 c && leb c 57

-- After the digits, "_" and what follows it
unfoldable pub skip_digits : String → Option String
skip_digits [] = none
skip_digits (c ∷ s) =
    let rest = skip_digits s in
    if is_digit (code c) then rest else if code c == 95 then some s else none

abbrev or_itself : String → Option String → String
or_itself s none = s
or_itself s (some rest) = rest

-- `replace(/^sr\d*_/, '')`
unfoldable pub strip_row_prefix : String → String
unfolding skip_digits
strip_row_prefix (c ∷ d ∷ s) =
    if code c == 115 && code d == 114 then or_itself (c ∷ d ∷ s) (skip_digits s) else c ∷ d ∷ s
strip_row_prefix s = s

-- A text of plain characters is its own id.
abbrev IsPlain : String → Type 0
IsPlain [] = Unit
IsPlain (c ∷ s) = (is_plain (code c) ≡ true) × IsPlain s

convert_to_id-IsPlain : (s : String) → IsPlain s → convert_to_id s ≡ s
unfolding convert_to_id
convert_to_id-IsPlain [] h = refl
convert_to_id-IsPlain (c ∷ s) (p, h) = ground (arith, convert_to_id-IsPlain s h)

-- The id of a text is made character by character.
convert_to_id-append : (s t : String) → convert_to_id (s ⧺ t) ≡ convert_to_id s ⧺ convert_to_id t
unfolding convert_to_id
convert_to_id-append [] t = rw (nil-append t) (rw nil-append refl)
convert_to_id-append (c ∷ s) t = rw (cons-append c s t) (
    ground (
      arith,
      convert_to_id-append s t,
      cons-append c (convert_to_id s) (convert_to_id t),
      append_assoc (escape (code c)) (convert_to_id s) (convert_to_id t),
    ))
