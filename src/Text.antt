-- ===== src/Text.antt =====
-- What the code uses of the standard library on texts: `std::to_string`, `find_first_of` over
-- whitespace, and the extraction of words and lines from a `std::istringstream`.
use Prim.Native.Nat.{◌/◌, ◌%◌}
use Prim.Native.String.{[], ◌∷◌}
use cherry_recorder_server.Prelude.{
  ℕ, suc, zero, ◌+◌, String, code, Bool, false, ◌==◌, leb, ltb, ◌⧺◌, ◌||◌, ◌&&◌, if◌then◌else◌,
}

abbrev pub digit : ℕ → String
digit zero = "0"
digit (suc zero) = "1"
digit (suc (suc zero)) = "2"
digit (suc (suc (suc zero))) = "3"
digit (suc (suc (suc (suc zero)))) = "4"
digit (suc (suc (suc (suc (suc zero))))) = "5"
digit (suc (suc (suc (suc (suc (suc zero)))))) = "6"
digit (suc (suc (suc (suc (suc (suc (suc zero))))))) = "7"
digit (suc (suc (suc (suc (suc (suc (suc (suc zero)))))))) = "8"
digit (suc (suc (suc (suc (suc (suc (suc (suc (suc n))))))))) = "9"

-- Each round takes the last digit off, so that `n + 1` rounds are enough for `n`.
unfoldable pub digits : ℕ → ℕ → String → String
digits zero n rest = rest
digits (suc fuel) n rest =
    let more = digits fuel (n / 10) (digit (n % 10) ⧺ rest) in
    if n / 10 == 0 then digit (n % 10) ⧺ rest else more

unfoldable pub to_string : ℕ → String
unfolding digits
to_string n = digits (n + 1) n ""

-- One of " \t\n\v\f\r"
abbrev pub is_space : ℕ → Bool
is_space c = c == 32 || (leb 9 c && leb c 13)

-- `s.find_first_of(" \t\n\r\f\v") != std::string::npos`
unfoldable pub has_whitespace : String → Bool
has_whitespace [] = false
has_whitespace (c ∷ s) = is_space (code c) || has_whitespace s

unfoldable pub skip_spaces : String → String
skip_spaces [] = ""
skip_spaces (c ∷ s) = let rest = skip_spaces s in if is_space (code c) then rest else c ∷ s

-- The word that `iss >> word` reads from a text with no space in front, and what it leaves.
unfoldable split_word : String → String × String
split_word [] = ("", "")
split_word (c ∷ s) =
    let (word, rest) = split_word s in if is_space (code c) then ("", c ∷ s) else (c ∷ word, rest)

unfoldable pub read_word : String → String × String
unfolding skip_spaces split_word
read_word s = split_word (skip_spaces s)

-- `std::getline(iss, line)`: up to the first newline
unfoldable pub read_line : String → String
read_line [] = ""
read_line (c ∷ s) = let rest = read_line s in if code c == 10 then "" else c ∷ rest

-- `s.length()` of a `std::string` that holds the text in UTF-8
unfoldable pub byte_length : String → ℕ
byte_length [] = 0
byte_length (c ∷ s) =
    (if ltb (code c) 128
      then 1
      else if ltb (code c) 2048
      then 2
      else if ltb (code c) 65536
      then 3
      else 4)
    + byte_length s
