-- ===== src/Main/Ports.antt =====
-- Which ports and numbers of threads src/main.cpp takes from the environment.
use Prim.Native.Nat.{◌/◌, ◌%◌}
use Prim.Native.String.{◌∷◌}
use cherry_recorder_server.Prelude.{
  ℕ, zero, suc, ◌+◌, ◌≤◌, ◌<◌, String, Char, code, true, false, ◌&&◌, ◌==◌, leb, ltb, ◌⧺◌, ◌≡◌, ◌≢◌,
  refl, arith, ◌∙◌, ap, sym, Bool-cases, inl, inr, Option, none, some,
}
use cherry_recorder_server.Text.{to_string, digit, digits, skip_spaces, is_space}
use cherry_recorder_server.Integer.{ℤ, pos, negsuc}
use cherry_recorder_server.Resize.{parse_int}
use cherry_recorder_server.Resize.Width.{digit-code, parse-to_string}
use cherry_recorder_server.Main.{
  Stoi, value, invalid_argument, out_of_range, stoi, is_digit, positive, Port, port, not_a_number,
  not_an_integer, not_a_port, as_port, port_of, get_required_port_env_var, num_threads,
}

-- A text that begins with a digit
BeginsWithDigit : String → Type 0
BeginsWithDigit s = (c : Char) × (rest : String) × (s ≡ c ∷ rest) × (48 ≤ code c) × (code c ≤ 57)

digits-begin : (fuel n : ℕ) (rest : String) → n < fuel → BeginsWithDigit (digits fuel n rest)
unfolding digits BeginsWithDigit
digits-begin zero n rest h = absurd (omega arith)
digits-begin (suc fuel) n rest h = elim (Bool-cases (n / 10 == 0)) [
  | inl small ↦
      let (c, e, is_value) = digit-code (n % 10) rest (omega arith) in
      rw small (c, rest, e, omega (arith, is_value), omega (arith, is_value))
  | inr large ↦
      let some_left : n / 10 ≢ 0 = λ none_left. ground (arith, large) in
      rw large (digits-begin fuel (n / 10) (digit (n % 10) ⧺ rest) (omega (arith, some_left)))
]

stoi-digit :
    (c : Char) (rest : String)
    → 48 ≤ code c
    → code c ≤ 57
    → stoi (c ∷ rest) ≡ positive (some (parse_int 0 (c ∷ rest)))
unfolding stoi skip_spaces
stoi-digit c rest h k =
    let word : is_space (code c) ≡ false = ground (arith, h, k) in
    let no_minus : (code c == 45) ≡ false = ground (arith, h, k) in
    let no_plus : (code c == 43) ≡ false = ground (arith, h, k) in
    let first : is_digit (code c) ≡ true = ground (arith, h, k) in
    rw (word, no_minus, no_plus, first) refl

to_string-begins :
    (n : ℕ)
    → (c : Char) × (rest : String) × (to_string n ≡ c ∷ rest) × (48 ≤ code c) × (code c ≤ 57)
unfolding to_string BeginsWithDigit
to_string-begins n = digits-begin (n + 1) n "" (omega arith)

stoi-to_string : (n : ℕ) → n ≤ 2147483647 → stoi (to_string n) ≡ value (pos n)
stoi-to_string n h =
    let (c, rest, e, low, high) = to_string-begins n in
    let small : leb n 2147483647 ≡ true = ground (arith, h) in
    ap stoi e
    ∙ stoi-digit c rest low high
    ∙ ap (λ s. positive (some (parse_int 0 s))) (sym e)
    ∙ ap (λ m. positive (some m)) (parse-to_string n)
    ∙ rw small refl

abbrev pub IsPort : Port → Type 0
IsPort (port p) = (0 < p) × (p ≤ 65535)
IsPort not_a_number = Unit
IsPort not_an_integer = Unit
IsPort not_a_port = Unit

as_port-IsPort : (i : ℤ) → IsPort (as_port i)
as_port-IsPort (negsuc n) = tt
as_port-IsPort (pos n) = elim (Bool-cases (ltb 0 n && leb n 65535)) [
  | inl valid ↦ rw valid (ground (arith, valid))
  | inr wrong ↦ rw wrong tt
]

port_of-IsPort : (read : Stoi) → IsPort (port_of read)
port_of-IsPort (value i) = as_port-IsPort i
port_of-IsPort invalid_argument = tt
port_of-IsPort out_of_range = tt

num_threads-positive :
    (threads : ℤ) (hardware_threads : ℕ) → 0 < num_threads threads hardware_threads
unfolding num_threads
num_threads-positive (pos zero) hardware_threads = ground arith
num_threads-positive (pos (suc n)) hardware_threads = ground arith
num_threads-positive (negsuc n) hardware_threads = ground arith

variable-IsPort :
    (variable : Option String) (default_port : ℕ)
    → IsPort (port default_port)
    → IsPort (get_required_port_env_var variable default_port)
unfolding get_required_port_env_var
variable-IsPort none default_port k = k
variable-IsPort (some text) default_port k = port_of-IsPort (stoi text)

-- Each port from 1 to 65535 that is written in digits is read as it is; whatever the variable holds,
-- a port that is read is one of these, if the default is; and the server has a thread at least.
pub get_port-to_string :
    (n default_port : ℕ) (variable : Option String) (threads : ℤ) (hardware_threads : ℕ)
    → IsPort (port n)
    → IsPort (port default_port)
    → (get_required_port_env_var (some (to_string n)) default_port ≡ port n)
      × IsPort (get_required_port_env_var variable default_port)
      × (0 < num_threads threads hardware_threads)
unfolding get_required_port_env_var
get_port-to_string n default_port variable threads hardware_threads (low, high) k =
    let valid : (ltb 0 n && leb n 65535) ≡ true = ground (arith, low, high) in
    (
      ap port_of (stoi-to_string n (omega (arith, high))) ∙ rw valid refl,
      variable-IsPort variable default_port k,
      num_threads-positive threads hardware_threads,
    )
