-- ===== src/Main.antt =====
-- The settings of src/main.cpp, read from the environment, and the number of threads of
-- `HttpServer::run` in src/HttpServer.cpp.
pub mod Ports
use Prim.Native.String.{[], ◌∷◌}
use cherry_recorder_server.Prelude.{
  ℕ, zero, suc, ◌+◌, ◌-◌, String, code, Bool, true, false, ◌&&◌, ◌==◌, leb, ltb, if◌then◌else◌,
  Option, none, some,
}
use cherry_recorder_server.Text.{skip_spaces}
use cherry_recorder_server.Integer.{ℤ, pos, negsuc, neg}
use cherry_recorder_server.Resize.{parse_int}

-- `std::stoi` of 32 bits, or its exception
pub data Stoi : Type 0 where
  value : ℤ → Stoi
  invalid_argument out_of_range : Stoi

abbrev pub is_digit : ℕ → Bool
is_digit c = leb 48 c && leb c 57

-- The digits at the beginning; what follows them is ignored.
abbrev pub unsigned : String → Option ℕ
unsigned [] = none
unsigned (c ∷ s) = if is_digit (code c) then some (parse_int 0 (c ∷ s)) else none

abbrev pub positive : Option ℕ → Stoi
positive none = invalid_argument
positive (some n) = if leb n 2147483647 then value (pos n) else out_of_range

abbrev pub negative : Option ℕ → Stoi
negative none = invalid_argument
negative (some n) = if leb n 2147483648 then value (neg (pos n)) else out_of_range

abbrev pub signed : String → Stoi
signed [] = invalid_argument
signed (c ∷ s) =
    if code c == b'-'
    then negative (unsigned s)
    else if code c == b'+'
    then positive (unsigned s)
    else positive (unsigned (c ∷ s))

unfoldable pub stoi : String → Stoi
unfolding skip_spaces parse_int
stoi s = signed (skip_spaces s)

-- A port, or why std::runtime_error is thrown
pub data Port : Type 0 where
  port : ℕ → Port
  not_a_number not_an_integer not_a_port : Port

abbrev pub in_port_range : ℤ → Bool
in_port_range (pos n) = ltb 0 n && leb n 65535
in_port_range (negsuc n) = false

abbrev pub as_port : ℤ → Port
as_port (pos n) = if in_port_range (pos n) then port n else not_a_port
as_port (negsuc n) = not_a_port

abbrev pub port_of : Stoi → Port
port_of (value i) = as_port i
port_of invalid_argument = not_a_number
port_of out_of_range = not_an_integer

-- The variable is none where it is not set.
unfoldable pub get_required_port_env_var : Option String → ℕ → Port
unfolding stoi
get_required_port_env_var none default_port = port default_port
get_required_port_env_var (some value_str) default_port = port_of (stoi value_str)

abbrev pub get_env_var : Option String → String → String
get_env_var none default_value = default_value
get_env_var (some text) default_value = text

abbrev pub int_or : ℤ → Stoi → ℤ
int_or default_value (value i) = i
int_or default_value invalid_argument = default_value
int_or default_value out_of_range = default_value

unfoldable pub get_int_env_var : Option String → ℤ → ℤ
unfolding stoi
get_int_env_var none default_value = default_value
get_int_env_var (some value_str) default_value = int_or default_value (stoi value_str)

-- `num_threads` of `HttpServer::run`, with `hardware_concurrency()`
unfoldable pub num_threads : ℤ → ℕ → ℕ
num_threads (pos (suc n)) hardware_threads = suc n
num_threads (pos zero) hardware_threads = if ltb 0 hardware_threads then hardware_threads else 2
num_threads (negsuc n) hardware_threads = if ltb 0 hardware_threads then hardware_threads else 2
