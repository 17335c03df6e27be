-- ===== src/History.antt =====
-- src/MessageHistory.cpp: the log files of the chat, one text for each file name.
-- The clock (`get_timestamp`) and whether the file system opens a file are arguments.
pub mod Lines
pub mod Files
pub mod Replay
use Prim.Native.String.{compare, [], ◌∷◌}
use Prim.Native.Nat.{Ordering}
use cherry_recorder_server.Prelude.{
  ℕ, ◌-◌, String, Char, code, Bool, true, false, ◌||◌, Option, none, some, List, [], ◌∷◌, str_eq,
  ◌==◌, leb, ◌⧺◌, if◌then◌else◌, length, drop,
}
use cherry_recorder_server.StringMap
use cherry_recorder_server.StringMap.{StringMap}

-- What the standard library answers during a call: the formatted local time, and `is_open`.
pub record Env : Type 0 where
  pub timestamp : String
  pub opens : String → Bool

pub record MessageHistory : Type 0 where
  pub history_dir : String
  pub enabled : Bool
  pub files : StringMap String

-- The constructor; `created` is false if making the directories throws.
unfoldable pub message_history : String → Bool → MessageHistory
message_history dir created = record { history_dir = dir; enabled = created; files = [] }

abbrev pub content : Option String → String
content none = ""
content (some text) = text

-- `std::ofstream file(name, std::ios::app)`, and `file << log_entry << std::endl` if it is open.
unfoldable append_entry : Env → String → String → MessageHistory → MessageHistory
append_entry env name entry h =
    if env.opens name
    then record h {
      files = StringMap.assign name (content (StringMap.find name h.files) ⧺ entry ⧺ "\n") h.files;
    }
    else h

abbrev sender_or_system : String → String
sender_or_system sender = if str_eq sender "" then "system" else sender

unfoldable pub public_entry : String → String → String → String
public_entry timestamp sender message = timestamp ⧺ " [" ⧺ sender_or_system sender ⧺ "]: " ⧺ message

unfoldable global_file : String → String
global_file dir = dir ⧺ "/global/history.txt"

unfoldable pub room_file : String → String → String
room_file dir room = dir ⧺ "/rooms/" ⧺ room ⧺ ".txt"

-- `operator>` on strings
abbrev pub gtb : String → String → Bool
gtb s t = elim (compare s t) [ Ordering.gt ↦ true | _ ↦ false ]

abbrev pair_file : String → String → String → String
pair_file dir user1 user2 = dir ⧺ "/private/" ⧺ user1 ⧺ "_" ⧺ user2 ⧺ ".txt"

-- The users of a private file are put in order first.
unfoldable pub private_file : String → String → String → String
private_file dir user1 user2 =
    if gtb user1 user2 then pair_file dir user2 user1 else pair_file dir user1 user2

unfoldable pub log_global_message : Env → String → String → MessageHistory → MessageHistory
unfolding append_entry public_entry global_file
log_global_message env message sender h =
    if h.enabled
    then append_entry env (global_file h.history_dir) (public_entry env.timestamp sender message) h
    else h

unfoldable pub log_private_message :
    Env → String → String → String → MessageHistory → MessageHistory
unfolding append_entry private_file
log_private_message env message sender receiver h =
    if h.enabled
    then append_entry env (private_file h.history_dir sender receiver)
        (env.timestamp ⧺ " [" ⧺ sender ⧺ " -> " ⧺ receiver ⧺ "]: " ⧺ message) h
    else h

unfoldable pub log_room_message : Env → String → String → String → MessageHistory → MessageHistory
unfolding append_entry public_entry room_file
log_room_message env room message sender h =
    if h.enabled
    then append_entry env (room_file h.history_dir room) (public_entry env.timestamp sender message)
        h
    else h

abbrev pub push : String → Char → String
push s c = s ⧺ (c ∷ [])

-- The `while (std::getline(file, line))` loop; `line` holds what was read of the current line.
unfoldable pub get_lines : String → String → List String
get_lines line [] = if str_eq line "" then [] else line ∷ []
get_lines line (c ∷ rest) =
    let ended : List String = line ∷ get_lines "" rest in
    let longer = get_lines (push line c) rest in if code c == 10 then ended else longer

unfoldable pub last_lines : ℕ → List String → List String
last_lines limit lines =
    if limit == 0 || leb (length lines) limit then lines else drop (length lines - limit) lines

unfoldable pub read_last_lines : Env → String → ℕ → String → List String
unfolding get_lines last_lines
read_last_lines env name limit text =
    if env.opens name then last_lines limit (get_lines "" text) else []

-- The common part of the three `load_*_history` functions: a file that is not there has no lines.
unfoldable pub read_found : Env → String → ℕ → Option String → List String
read_found env name limit none = []
read_found env name limit (some text) = read_last_lines env name limit text

unfoldable load : Env → String → ℕ → MessageHistory → List String
unfolding read_found read_last_lines
load env name limit h =
    if h.enabled then read_found env name limit (StringMap.find name h.files) else []

unfoldable pub load_global_history : Env → ℕ → MessageHistory → List String
unfolding load global_file
load_global_history env limit h = load env (global_file h.history_dir) limit h

unfoldable pub load_private_history : Env → String → String → ℕ → MessageHistory → List String
unfolding load private_file
load_private_history env user1 user2 limit h =
    load env (private_file h.history_dir user1 user2) limit h

unfoldable pub load_room_history : Env → String → ℕ → MessageHistory → List String
unfolding load room_file
load_room_history env room limit h = load env (room_file h.history_dir room) limit h

unfoldable pub set_enabled : Bool → MessageHistory → MessageHistory
set_enabled enabled h = record h { enabled = enabled }
