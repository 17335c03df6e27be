-- ===== src/Examples/Startup.antt =====
-- The start of the server: its settings and its listeners.
use cherry_recorder_server.Prelude.{◌<◌, true, none, some, List, [], ◌∷◌, ◌≡◌, refl, arith}
use cherry_recorder_server.Text.{to_string}
use cherry_recorder_server.Integer.{pos, negsuc}
use cherry_recorder_server.Json.{ok, throws}
use cherry_recorder_server.Main.{port, get_required_port_env_var, get_int_env_var, num_threads}
use cherry_recorder_server.Main.Ports.{IsPort, get_port-to_string}
use cherry_recorder_server.Listener.{
  Setup, Listener, acceptor, http_listener, chat_listener, connection, gone, Accepted, error,
}
use cherry_recorder_server.Listener.Accepting.{
  IsAccepting, IsChatAccepting, IsWebSocketAccepting, Spins, listeners-serve, http_listener-Spins,
}

get_port-to_string_example :
    (get_required_port_env_var (some (to_string 33334)) 8080 ≡ port 33334)
    × IsPort (get_required_port_env_var (some "8080x") 8080)
    × (0 < num_threads (negsuc 0) 0)
get_port-to_string_example =
    get_port-to_string 33334 8080 (some "8080x") (negsuc 0) 0 (omega arith, omega arith)
      (omega arith, omega arith)

-- What follows the digits is ignored.
port_with_rest : get_required_port_env_var (some " 8080x") 80 ≡ port 8080
unfolding get_required_port_env_var
port_with_rest = refl

threads_by_default : get_int_env_var (some "four") (pos 1) ≡ pos 1
unfolding get_int_env_var
threads_by_default = refl

abbrev free : Setup
free = record { opening = none; set_option = none; bind = none; listen = none }

abbrev in_use : Setup
in_use = record { opening = none; set_option = none; bind = some "in use"; listen = none }

abbrev accepts : List Accepted
accepts = connection 7 ∷ error ∷ connection 8 ∷ []

free_http : http_listener free (some "key") ≡ ok (acceptor true true (some "key"))
unfolding http_listener
free_http = refl

free_chat : chat_listener free ≡ ok (acceptor true true none)
unfolding chat_listener
free_chat = refl

abbrev with_gone : List Accepted
with_gone = connection 7 ∷ gone 8 ∷ error ∷ connection 9 ∷ []

listeners-serve_example :
    IsAccepting (some "key") accepts (acceptor true true (some "key"))
    × IsChatAccepting 1000 with_gone (acceptor true true none)
    × IsWebSocketAccepting with_gone (acceptor true true none)
listeners-serve_example =
    listeners-serve free (some "key") (acceptor true true (some "key")) (acceptor true true none)
      1000 accepts with_gone free_http free_chat tt

chat_fails : chat_listener in_use ≡ throws "in use"
unfolding chat_listener
chat_fails = refl

http_listener-Spins_example : (l : Listener) × (http_listener in_use (some "key") ≡ ok l) × Spins l
http_listener-Spins_example = http_listener-Spins in_use (some "key") "in use" chat_fails
