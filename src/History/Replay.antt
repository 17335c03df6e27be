-- ===== src/History/Replay.antt =====
-- Logging and loading of src/MessageHistory.cpp together.
use Prim.Native.Nat.{min}
use text.Mathlib.TextLemmas.{append-nil, append_assoc}
use cherry_recorder_server.Prelude.{
  ℕ, suc, zero, ◌-◌, String, true, Option, none, some, List, [], ◌∷◌, ◌++◌, ◌≡◌, ◌≢◌, refl, sym,
  arith, ◌⧺◌, ◌∙◌, ap, eq_iff, eq_refl, length, take, take-append-drop, Bool-cases, leb, inl, inr,
  length-drop,
}
use cherry_recorder_server.StringMap
use cherry_recorder_server.StringMap.{map_laws, find-assign}
use cherry_recorder_server.History.{
  Env, MessageHistory, content, public_entry, room_file, log_room_message, load_room_history,
  read_found, read_last_lines, last_lines, get_lines,
}
use cherry_recorder_server.History.Lines.{NoNewlines, render, get_lines-render, render-append}
use cherry_recorder_server.History.Files.{room_file-injective}

-- A message to a room: the moment, the text and its sender.
pub record Post : Type 0 where
  pub env : Env
  pub message : String
  pub sender : String

unfoldable pub log_posts : String → List Post → MessageHistory → MessageHistory
log_posts room [] h = h
log_posts room (p ∷ ps) h = log_posts room ps (log_room_message p.env room p.message p.sender h)

abbrev pub entry : Post → String
entry p = public_entry p.env.timestamp p.sender p.message

abbrev pub entries : List Post → List String
entries [] = []
entries (p ∷ ps) = entry p ∷ entries ps

-- Every log call could open the file of the room.
abbrev CanOpen : String → String → List Post → Type 0
CanOpen dir room [] = Unit
CanOpen dir room (p ∷ ps) = (p.env.opens (room_file dir room) ≡ true) × CanOpen dir room ps

-- What the file of a room holds.
abbrev pub stored : String → MessageHistory → String
stored room h = content (StringMap.find (room_file h.history_dir room) h.files)

module _ (env : Env) (room message sender : String) (h : MessageHistory) where
  history_dir-log : (log_room_message env room message sender h).history_dir ≡ h.history_dir
  unfolding log_room_message
  history_dir-log = ground arith

  enabled-log : (log_room_message env room message sender h).enabled ≡ h.enabled
  unfolding log_room_message
  enabled-log = ground arith

  stored-log :
      h.enabled ≡ true
      → env.opens (room_file h.history_dir room) ≡ true
      → stored room (log_room_message env room message sender h)
        ≡ stored room h ⧺ public_entry env.timestamp sender message ⧺ "\n"
  unfolding log_room_message
  stored-log on opens = rw (on, opens) (rw (find-assign, eq_refl))

stored-log_posts :
    (room : String) (ps : List Post) (h : MessageHistory)
    → h.enabled ≡ true
    → CanOpen h.history_dir room ps
    → stored room (log_posts room ps h) ≡ stored room h ⧺ render (entries ps)
unfolding log_posts render
stored-log_posts room [] h on opens = sym (append-nil _)
stored-log_posts room (p ∷ ps) h on (first, later) =
    stored-log_posts room ps (log_room_message p.env room p.message p.sender h) (rw enabled-log on)
      (rw history_dir-log later)
    ∙ rw (stored-log p.env room p.message p.sender h on first) (simp append_assoc)

enabled-log_posts :
    (room : String) (ps : List Post) (h : MessageHistory)
    → (log_posts room ps h).enabled ≡ h.enabled
unfolding log_posts
enabled-log_posts room [] h = refl
enabled-log_posts room (p ∷ ps) h =
    enabled-log_posts room ps _ ∙ enabled-log p.env room p.message p.sender h

dir-log_posts :
    (room : String) (ps : List Post) (h : MessageHistory)
    → (log_posts room ps h).history_dir ≡ h.history_dir
unfolding log_posts
dir-log_posts room [] h = refl
dir-log_posts room (p ∷ ps) h =
    dir-log_posts room ps _ ∙ history_dir-log p.env room p.message p.sender h

-- A missing file and an empty one load alike.
read_found-content :
    (env : Env) (name : String) (limit : ℕ) (o : Option String)
    → env.opens name ≡ true
    → read_found env name limit o ≡ last_lines limit (get_lines "" (content o))
unfolding read_found read_last_lines last_lines get_lines
read_found-content env name zero none opens = refl
read_found-content env name (suc limit) none opens = ground arith
read_found-content env name limit (some text) opens = rw opens

load-stored :
    (env : Env) (room : String) (limit : ℕ) (h : MessageHistory)
    → h.enabled ≡ true
    → env.opens (room_file h.history_dir room) ≡ true
    → load_room_history env room limit h ≡ last_lines limit (get_lines "" (stored room h))
unfolding load_room_history
load-stored env room limit h on opens = rw on (
    read_found-content env (room_file h.history_dir room) limit
      (StringMap.find (room_file h.history_dir room) h.files) opens)

NoNewlines-append : (es fs : List String) → NoNewlines es → NoNewlines fs → NoNewlines (es ++ fs)
NoNewlines-append [] fs h k = k
NoNewlines-append (e ∷ es) fs (p, h) k = (p, NoNewlines-append es fs h k)

-- If the file of a room holds lines, and messages whose entries have no newline are logged to the
-- room, each call being able to open the file, then loading the room's history gives the last
-- lines of the old ones followed by the entries, in order.
pub load-log_posts :
    (room : String) (old : List String) (ps : List Post) (h : MessageHistory) (env : Env)
    (limit : ℕ)
    → h.enabled ≡ true
    → stored room h ≡ render old
    → NoNewlines old
    → NoNewlines (entries ps)
    → CanOpen h.history_dir room ps
    → env.opens (room_file h.history_dir room) ≡ true
    → load_room_history env room limit (log_posts room ps h) ≡ last_lines limit (old ++ entries ps)
load-log_posts room old ps h env limit on before clean news opens reads =
    load-stored env room limit (log_posts room ps h) (rw enabled-log_posts on)
      (rw dir-log_posts reads)
    ∙ ap (λ t. last_lines limit (get_lines "" t))
        (stored-log_posts room ps h on opens ∙ rw before (sym (render-append old (entries ps))))
    ∙ ap (last_lines limit) (get_lines-render _ (NoNewlines-append old _ clean news))

-- How many of so many lines are kept: all of them for the limit 0.
abbrev kept : ℕ → ℕ → ℕ
kept zero n = n
kept (suc k) n = min (suc k) n

-- What is returned of the lines is the end of the list, as long as the limit if there are as many
-- lines, and all of it otherwise or for the limit 0.
last_lines_lem :
    (limit : ℕ) (lines : List String)
    → (front : List String) × (lines ≡ front ++ last_lines limit lines)
      × (length (last_lines limit lines) ≡ kept limit (length lines))
unfolding last_lines
last_lines_lem zero lines = ([], refl, refl)
last_lines_lem (suc k) lines = elim (Bool-cases (leb (length lines) (suc k))) [
  | inl all ↦ ([], ground arith, ground arith)
  | inr some_only ↦ (
    take (length lines - suc k) lines,
    ground (arith, take-append-drop (length lines - suc k) lines),
    ground (arith, length-drop (length lines - suc k) lines),
  )
]

find-log_room :
    (env : Env) (room name message sender : String) (h : MessageHistory)
    → room_file h.history_dir room ≢ name
    → StringMap.find name (log_room_message env room message sender h).files
      ≡ StringMap.find name h.files
unfolding log_room_message
find-log_room env room name message sender h ne = ground (
  arith,
  find-assign (room_file h.history_dir room) name
      (stored room h ⧺ public_entry env.timestamp sender message ⧺ "\n") h.files,
  eq_iff (room_file h.history_dir room) name,
)

-- A message to one room does not change what is loaded for another.
pub load-log_room_ne :
    (env later : Env) (room other message sender : String) (limit : ℕ) (h : MessageHistory)
    → room ≢ other
    → load_room_history later other limit (log_room_message env room message sender h)
      ≡ load_room_history later other limit h
unfolding load_room_history
load-log_room_ne env later room other message sender limit h ne =
    rw (history_dir-log, enabled-log)
      (rw (
        find-log_room env room (room_file h.history_dir other) message sender h
          λ e. ne (room_file-injective h.history_dir room other e)))
