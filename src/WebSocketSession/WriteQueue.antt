-- ===== src/WebSocketSession/WriteQueue.antt =====
-- `deliver`, `do_write` and `on_write` of src/WebSocketSession.cpp.
use cherry_recorder_server.Prelude.{
  ℕ, String, Bool, true, false, not, ◌||◌, ◌&&◌, List, [], ◌∷◌, ◌++◌, ◌≡◌, leb, if◌then◌else◌,
  length,
}

pub record WriteQueue : Type 0 where
  pub write_msgs : List String
  pub is_writing : Bool
  -- the messages whose `async_write` succeeded
  pub sent : List String
  -- `server_->leave` was called
  pub left : Bool

abbrev pub max_queue_size : ℕ
max_queue_size = 100

abbrev pub new_queue : WriteQueue
new_queue = record { write_msgs = []; is_writing = false; sent = []; left = false }

abbrev pub is_nil : List String → Bool
is_nil [] = true
is_nil (m ∷ ms) = false

-- `async_write` of the first message
unfoldable pub do_write : WriteQueue → WriteQueue
do_write q = if is_nil q.write_msgs || q.is_writing then q else record q { is_writing = true }

unfoldable pub deliver : String → WriteQueue → WriteQueue
deliver msg q =
    if leb max_queue_size (length q.write_msgs)
    then q
    else let v = record q { write_msgs = q.write_msgs ++ msg ∷ [] } in
      if is_nil q.write_msgs && not q.is_writing then do_write v else v

-- `write_msgs_.pop()`: what was sent, and what is left
abbrev pub pop : WriteQueue → List String → WriteQueue
pop q [] = q
pop q (m ∷ ms) = record q { write_msgs = ms; sent = q.sent ++ m ∷ [] }

-- The completion of the `async_write` in progress, `failed` if it has an error.
unfoldable pub on_write : Bool → WriteQueue → WriteQueue
on_write true q = record q { is_writing = false; left = true }
on_write false q =
    let v = pop (record q { is_writing = false }) q.write_msgs in
    if is_nil v.write_msgs then v else do_write v

-- What happens to a session. A write completes only while one is in progress.
pub data Step (q : WriteQueue) : WriteQueue → Type 0 where
  delivers : (msg : String) → Step q (deliver msg q)
  completes : q.is_writing ≡ true → Step q (on_write false q)
  fails : q.is_writing ≡ true → Step q (on_write true q)
