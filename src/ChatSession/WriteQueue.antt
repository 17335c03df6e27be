-- ===== src/ChatSession/WriteQueue.antt =====
-- `deliver`, `do_write_strand` and `on_write` of src/ChatSession.cpp.
use cherry_recorder_server.Prelude.{
  ℕ, String, Bool, true, false, not, ◌||◌, ◌&&◌, ◌⧺◌, List, [], ◌∷◌, ◌++◌, if◌then◌else◌,
}
use cherry_recorder_server.ChatServer.Nicknames.{Outcome, done}
use cherry_recorder_server.ChatSession.{shared_from_this, and_then}
use cherry_recorder_server.WebSocketSession.WriteQueue.{is_nil}

pub record WriteQueue : Type 0 where
  pub write_msgs : List String
  pub writing_flag : Bool
  pub stopped : Bool
  -- the messages whose `async_write` succeeded
  pub sent : List String
  -- `stop_session` was posted by a failed write
  pub stop_posted : Bool

abbrev pub new_queue : WriteQueue
new_queue = record {
  write_msgs = [];
  writing_flag = false;
  stopped = false;
  sent = [];
  stop_posted = false;
}

-- The flag is set before `shared_from_this`.
unfoldable pub do_write_strand : ℕ → ℕ → WriteQueue → Outcome WriteQueue
unfolding shared_from_this
do_write_strand frames s q =
    if q.stopped || is_nil q.write_msgs || q.writing_flag
    then done q
    else and_then (shared_from_this frames s) (λ self. done (record q { writing_flag = true }))

-- What `deliver` posts
abbrev pub queued : ℕ → ℕ → String → WriteQueue → Outcome WriteQueue
queued frames s msg q =
    if q.stopped
    then done q
    else let v = record q { write_msgs = q.write_msgs ++ (msg ⧺ "\r\n") ∷ [] } in
      if is_nil q.write_msgs && not q.writing_flag then do_write_strand frames s v else done v

unfoldable pub deliver : ℕ → ℕ → String → WriteQueue → Outcome WriteQueue
unfolding do_write_strand
deliver frames s msg q = and_then (shared_from_this frames s) (λ self. queued frames self msg q)

-- What the completion of the `async_write` in progress brings: no error, the abortion of the
-- operation, or another error.
pub data Completion : Type 0 where
  success : Completion
  aborted : Completion
  failed : Completion

-- The socket is open as long as the session is not stopped.
abbrev pub sent_first : ℕ → ℕ → WriteQueue → List String → Outcome WriteQueue
sent_first frames s q [] = done (record q { writing_flag = false })
sent_first frames s q (m ∷ ms) =
    let v = record q { write_msgs = ms; sent = q.sent ++ m ∷ []; writing_flag = false } in
    if is_nil ms then done v else do_write_strand frames s v

unfoldable pub on_write : ℕ → ℕ → Completion → WriteQueue → Outcome WriteQueue
unfolding do_write_strand
on_write frames s c q = if q.stopped then done (record q { writing_flag = false }) else elim c [
  | success ↦ sent_first frames s q q.write_msgs
  | aborted ↦ done (record q { write_msgs = []; writing_flag = false })
  | failed ↦
      and_then (shared_from_this frames s)
        (λ self. done (record q { write_msgs = []; writing_flag = false; stop_posted = true }))
]
