-- ===== src/WebSocketSession/WriteOrder.antt =====
-- The write queue of src/WebSocketSession.cpp against the order of its messages.
use cherry_recorder_server.Prelude.{
  ℕ, zero, suc, ◌≤◌, String, Bool, true, false, List, [], ◌∷◌, ◌++◌, ◌≡◌, refl, arith, ◌∙◌, leb,
  if◌then◌else◌, length, length-append, append_assoc, append-nil, Option, some, none, ap,
}
use cherry_recorder_server.WebSocketSession.WriteQueue.{
  WriteQueue, max_queue_size, new_queue, is_nil, pop, do_write, deliver, on_write, Step, delivers,
  completes, fails,
}

-- All that was accepted, in the order in which it was: what was sent, and what waits.
abbrev pub accepted : WriteQueue → List String
accepted q = q.sent ++ q.write_msgs

pub record IsValid (q : WriteQueue) : Type 0 where
  pub bounded : length q.write_msgs ≤ max_queue_size
  pub not_idle : q.is_writing ≡ true → is_nil q.write_msgs ≡ false
  pub busy : q.left ≡ false → is_nil q.write_msgs ≡ false → q.is_writing ≡ true

new_queue-IsValid : IsValid new_queue
new_queue-IsValid = record { bounded = omega arith; not_idle = λ h. cc; busy = λ h k. cc }

is_nil-push : (ms : List String) (m : String) → is_nil (ms ++ m ∷ []) ≡ false
is_nil-push [] m = refl
is_nil-push (x ∷ ms) m = refl

deliver-IsValid : (msg : String) (q : WriteQueue) → IsValid q → IsValid (deliver msg q)
unfolding deliver do_write
deliver-IsValid msg q v = record {
  bounded = ground (arith, v.bounded, length-append q.write_msgs (msg ∷ []));
  not_idle = ground (arith, v.not_idle, is_nil-push q.write_msgs msg);
  busy = ground (arith, v.busy, v.not_idle, is_nil-push q.write_msgs msg);
}

on_write-IsValid : (failed : Bool) (q : WriteQueue) → IsValid q → IsValid (on_write failed q)
unfolding on_write do_write
on_write-IsValid true q v = record { bounded = v.bounded; not_idle = λ h. cc; busy = λ h k. cc }
on_write-IsValid false q v = record {
  bounded = ground (arith, v.bounded);
  not_idle = ground (arith);
  busy = ground (arith);
}

Step-IsValid : {q r : WriteQueue} → Step q r → IsValid q → IsValid r
Step-IsValid {q} (delivers msg) v = deliver-IsValid msg q v
Step-IsValid {q} (completes h) v = on_write-IsValid false q v
Step-IsValid {q} (fails h) v = on_write-IsValid true q v

pub data Reach : WriteQueue → Type 0 where
  start : Reach new_queue
  next : {q r : WriteQueue} → Reach q → Step q r → Reach r

-- In every state that a session reaches, at most 100 messages wait, a write is in progress only
-- if messages wait, and if messages wait and no write has failed, one is in progress.
pub Reach-IsValid : {q : WriteQueue} → Reach q → IsValid q
Reach-IsValid start = new_queue-IsValid
Reach-IsValid (next r st) = Step-IsValid st (Reach-IsValid r)

-- A message is accepted after all others, unless 100 wait already; then it is dropped.
pub accepted-deliver :
    (msg : String) (q : WriteQueue)
    → accepted (deliver msg q)
      ≡ (if leb max_queue_size (length q.write_msgs) then accepted q else accepted q ++ msg ∷ [])
unfolding deliver do_write
accepted-deliver msg q = ground (arith, append_assoc q.sent q.write_msgs (msg ∷ []))

pop-accepted :
    (q : WriteQueue) (ms : List String) → q.write_msgs ≡ ms → accepted (pop q ms) ≡ accepted q
pop-accepted q [] e = refl
pop-accepted q (m ∷ ms) e = append_assoc q.sent (m ∷ []) ms ∙ rw e

do_write-accepted : (q : WriteQueue) → accepted (do_write q) ≡ accepted q
unfolding do_write
do_write-accepted q = ground arith

-- The completion of a write, well or not, loses no message and changes no order.
accepted-on_write : (failed : Bool) (q : WriteQueue) → accepted (on_write failed q) ≡ accepted q
unfolding on_write
accepted-on_write true q = refl
accepted-on_write false q =
    let p = pop (record q { is_writing = false }) q.write_msgs in
    ground
      (arith, do_write-accepted p, pop-accepted (record q { is_writing = false }) q.write_msgs refl)

-- The given number of writes complete, one after the other. None completes unless one is in progress.
unfoldable pub drain : ℕ → WriteQueue → Option WriteQueue
drain zero q = some q
drain (suc n) q = let later = drain n (on_write false q) in if q.is_writing then later else none

abbrev pub queue : List String → Bool → List String → WriteQueue
queue ms writing sent = record { write_msgs = ms; is_writing = writing; sent = sent; left = false }

drain-writing :
    (m : String) (ms sent : List String)
    → drain (suc (length ms)) (queue (m ∷ ms) true sent) ≡ some (queue [] false (sent ++ m ∷ ms))
unfolding drain on_write do_write
drain-writing m [] sent = refl
drain-writing m (m' ∷ ms) sent =
    drain-writing m' ms (sent ++ m ∷ []) ∙ rw (append_assoc sent (m ∷ []) (m' ∷ ms))

drain-queue :
    (ms : List String) (writing : Bool) (sent : List String)
    → IsValid (queue ms writing sent)
    → drain (length ms) (queue ms writing sent) ≡ some (queue [] false (sent ++ ms))
unfolding drain
drain-queue [] true sent v = cc (v.not_idle refl)
drain-queue [] false sent v = rw append-nil
drain-queue (m ∷ ms) true sent v = drain-writing m ms sent
drain-queue (m ∷ ms) false sent v = cc (v.busy refl refl)

drain-running :
    (ms : List String) (writing : Bool) (sent : List String) (left : Bool)
    → left ≡ false
    → IsValid (record { write_msgs = ms; is_writing = writing; sent = sent; left = left })
    → drain (length ms) (record { write_msgs = ms; is_writing = writing; sent = sent; left = left })
      ≡ some (queue [] false (sent ++ ms))
drain-running ms writing sent true here v = cc
drain-running ms writing sent false here v = drain-queue ms writing sent v

-- What a session takes of the messages that are delivered, each with the queue at that time: all but
-- those that find 100 waiting.
abbrev pub taken : {q : WriteQueue} → Reach q → List String
taken start = []
taken (next {q} r (delivers msg)) =
    if leb max_queue_size (length q.write_msgs) then taken r else taken r ++ msg ∷ []
taken (next r (completes writing)) = taken r
taken (next r (fails writing)) = taken r

accepted-taken : {q : WriteQueue} (r : Reach q) → accepted q ≡ taken r
accepted-taken start = refl
accepted-taken (next {q} r (delivers msg)) = accepted-deliver msg q ∙ rw (accepted-taken r) refl
accepted-taken (next {q} r (completes writing)) = accepted-on_write false q ∙ accepted-taken r
accepted-taken (next {q} r (fails writing)) = accepted-on_write true q ∙ accepted-taken r

-- In every state that a session reaches without a failed write, as many writes as messages wait
-- complete, each one in progress when it does; then all messages that were delivered, but those that
-- found 100 waiting, are sent, in the order of the deliveries, and the session is idle.
pub drain-Reach :
    {q : WriteQueue} (r : Reach q)
    → q.left ≡ false
    → drain (length q.write_msgs) q ≡ some (queue [] false (taken r))
drain-Reach {q} r here =
    drain-running q.write_msgs q.is_writing q.sent q.left here (Reach-IsValid r)
    ∙ ap (λ ms. some (queue [] false ms)) (accepted-taken r)
