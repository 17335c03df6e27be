-- ===== src/Examples/Histories.antt =====
-- Runs of the message history.
use Prim.Native.String.{[], ◌∷◌}
use cherry_recorder_server.Prelude.{
  String, Bool, true, not, code, ◌&&◌, ◌==◌, List, [], ◌∷◌, ◌≡◌, arith, refl,
}
use cherry_recorder_server.StringMap
use cherry_recorder_server.History.{
  Env, MessageHistory, last_lines, load_room_history, log_room_message, room_file, public_entry,
}
use cherry_recorder_server.History.Lines.{NoNewline, render}
use cherry_recorder_server.History.Replay.{Post, log_posts, load-log_posts, load-log_room_ne}
use cherry_recorder_server.Examples.{different}

abbrev env : Env
env = record { timestamp = "2025-01-01 00:00:00"; opens = λ name. true }

abbrev history : MessageHistory
history = record {
  history_dir = "history";
  enabled = true;
  files = ("history/rooms/lobby.txt", "old\n") ∷ [];
}

abbrev posts : List Post
posts =
    record { env = env; message = "hi"; sender = "cherry" }
    ∷ record { env = env; message = "* bye"; sender = "" }
    ∷ []

unfoldable pub has_no_newline : String → Bool
has_no_newline [] = true
has_no_newline (c ∷ s) = not (code c == 10) && has_no_newline s

pub has_no_newline-NoNewline : (s : String) → has_no_newline s ≡ true → NoNewline s
unfolding has_no_newline
has_no_newline-NoNewline [] h = tt
has_no_newline-NoNewline (c ∷ s) h =
    ((λ e. ground arith), has_no_newline-NoNewline s (ground arith))

load-log_posts_example :
    load_room_history env "lobby" 2 (log_posts "lobby" posts history)
    ≡ "2025-01-01 00:00:00 [cherry]: hi" ∷ "2025-01-01 00:00:00 [system]: * bye" ∷ []
unfolding has_no_newline public_entry render last_lines StringMap.find room_file
load-log_posts_example =
    load-log_posts "lobby" ("old" ∷ []) posts history env 2 refl refl
      (has_no_newline-NoNewline "old" refl, tt)
      (
        has_no_newline-NoNewline "2025-01-01 00:00:00 [cherry]: hi" refl,
        (has_no_newline-NoNewline "2025-01-01 00:00:00 [system]: * bye" refl, tt),
      )
      (refl, (refl, tt)) refl

load-log_room_ne_example :
    load_room_history env "lobby" 5 (log_room_message env "garden" "hi" "cherry" history)
    ≡ load_room_history env "lobby" 5 history
load-log_room_ne_example =
    load-log_room_ne env env "garden" "lobby" "hi" "cherry" 5 history
      (different "garden" "lobby" refl)
