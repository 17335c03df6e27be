-- ===== src/ChatSession/Recursion.antt =====
-- What the recursion of `shared_from_this` in include/ChatSession.hpp makes of src/ChatSession.cpp.
use cherry_recorder_server.Prelude.{
  ℕ, zero, suc, String, Bool, true, false, Option, none, some, List, [], ◌∷◌, ◌≡◌, refl, ap, str_eq,
  ltb, if◌then◌else◌, Bool-cases, inl, inr, ◌∙◌, eq_iff,
}
use cherry_recorder_server.Text.{has_whitespace, byte_length}
use cherry_recorder_server.History.{Env, get_lines}
use cherry_recorder_server.ChatServer.{ChatServer}
use cherry_recorder_server.ChatServer.Nicknames.{Outcome, done, undefined}
use cherry_recorder_server.ChatSession
use cherry_recorder_server.ChatSession.{
  Chat, shared_from_this, and_then, deliver, change_nickname, list_users, say, is_slash, execute,
  parse, stop_session, process_command, process_all, commands, on_read, start, do_read,
}
use cherry_recorder_server.ChatSession.WriteQueue
use cherry_recorder_server.ChatSession.WriteQueue.{WriteQueue}

pub shared_from_this-undefined : (frames s : ℕ) → shared_from_this frames s ≡ undefined
unfolding shared_from_this
shared_from_this-undefined zero s = refl
shared_from_this-undefined (suc frames) s = shared_from_this-undefined frames s

and_then-undefined {ℓ ℓ'} :
    {A : Type ℓ} {B : Type ℓ'} (o : Outcome A) (f : A → Outcome B)
    → o ≡ undefined
    → and_then o f ≡ undefined
and_then-undefined o f e = ap (λ x. and_then x f) e

with_self-undefined {ℓ} :
    {B : Type ℓ} (frames s : ℕ) (f : ℕ → Outcome B)
    → and_then (shared_from_this frames s) f ≡ undefined
with_self-undefined frames s f = and_then-undefined _ f (shared_from_this-undefined frames s)

either-undefined {ℓ} :
    {A : Type ℓ} (b : Bool) (o p : Outcome A)
    → o ≡ undefined
    → p ≡ undefined
    → (if b then o else p) ≡ undefined
either-undefined true o p h k = h
either-undefined false o p h k = k

not_empty-undefined {ℓ} :
    {A : Type ℓ} (b : Bool) (o p : Outcome A)
    → b ≡ false
    → p ≡ undefined
    → (if b then o else p) ≡ undefined
not_empty-undefined b o p there h = rw there h

module _ (frames s : ℕ) where
  pub deliver-undefined : (msg : String) (w : ChatServer) → deliver frames s msg w ≡ undefined
  unfolding deliver
  deliver-undefined msg w = with_self-undefined frames s _

  change_nickname-undefined :
      (env : Env) (nick : String) (w : ChatServer) → change_nickname frames env s nick w ≡ undefined
  unfolding change_nickname
  change_nickname-undefined env nick w =
      either-undefined (str_eq nick "") _ _ (deliver-undefined _ w) (
        either-undefined (has_whitespace nick) _ _ (deliver-undefined _ w) (
          either-undefined (ltb 20 (byte_length nick)) _ _ (deliver-undefined _ w)
            (with_self-undefined frames s _)))

  join-undefined : (room : String) (w : ChatServer) → ChatSession.join frames s room w ≡ undefined
  unfolding ChatSession.join
  join-undefined room w = either-undefined (str_eq room "") _ _ (deliver-undefined _ w) (
      either-undefined (has_whitespace room) _ _ (deliver-undefined _ w) (
        either-undefined (ltb 30 (byte_length room)) _ _ (deliver-undefined _ w) (
          either-undefined (str_eq room (w.objects s).current_room) _ _ (deliver-undefined _ w)
            (with_self-undefined frames s _))))

  leave-undefined : (w : ChatServer) → ChatSession.leave frames s w ≡ undefined
  unfolding ChatSession.leave
  leave-undefined w =
      either-undefined (str_eq (w.objects s).current_room "") _ _ (deliver-undefined _ w)
        (with_self-undefined frames s _)

  -- Every word but the empty one
  execute-undefined :
      (env : Env) (cmd arg line : String) (w : ChatServer)
      → str_eq cmd "" ≡ false
      → execute frames env s cmd arg line w ≡ undefined
  unfolding execute list_users say
  execute-undefined env cmd arg line w there =
      either-undefined (str_eq cmd "/nick") _ _ (change_nickname-undefined env arg w) (
        either-undefined (str_eq cmd "/join") _ _ (join-undefined arg w) (
          either-undefined (str_eq cmd "/leave") _ _ (leave-undefined w) (
            either-undefined (str_eq cmd "/users") _ _ (with_self-undefined frames s _) (
              either-undefined (str_eq cmd "/help") _ _
                (and_then-undefined _ _ (deliver-undefined _ w))
                (not_empty-undefined (str_eq cmd "") _ _ there (
                  either-undefined (is_slash cmd) _ _ (deliver-undefined _ w)
                    (with_self-undefined frames s _)))))))

  pub process_command-undefined :
      (env : Env) (line : String) (w : ChatServer)
      → str_eq (parse line).0 "" ≡ false
      → process_command frames env s line (w, false) ≡ undefined
  unfolding process_command
  process_command-undefined env line w there =
      either-undefined (str_eq (parse line).0 "/quit") _ _
        (and_then-undefined _ _ (deliver-undefined _ w))
        (and_then-undefined _ _ (execute-undefined env (parse line).0 (parse line).1 line w there))

  pub start-undefined : (env : Env) (w : ChatServer) → start frames env s (w, false) ≡ undefined
  unfolding start
  start-undefined env w = with_self-undefined frames s _

  stop_session-undefined :
      (env : Env) (w : ChatServer) → stop_session frames env s (w, false) ≡ undefined
  unfolding stop_session
  stop_session-undefined env w = with_self-undefined frames s _

  execute-empty :
      (env : Env) (cmd arg line : String) (w : ChatServer)
      → cmd ≡ ""
      → execute frames env s cmd arg line w ≡ done w
  unfolding execute
  execute-empty env cmd arg line w e = rw e refl

  pub process_command-empty :
      (env : Env) (line : String) (w : ChatServer)
      → str_eq (parse line).0 "" ≡ true
      → process_command frames env s line (w, false) ≡ done (w, false)
  unfolding process_command
  process_command-empty env line w blank =
      let e : (parse line).0 ≡ "" = (eq_iff (parse line).0 "").0 blank in
      let none_done = execute-empty env (parse line).0 (parse line).1 line w e in
      rw (ap (λ t. str_eq t "/quit") e, none_done) refl

  process_all-undefined :
      (env : Env) (lines : List String) (w : ChatServer)
      → process_all frames env s lines (w, false) ≡ undefined
  unfolding process_all do_read
  process_all-undefined env [] w = with_self-undefined frames s _
  process_all-undefined env (line ∷ lines) w = elim (Bool-cases (str_eq (parse line).0 "")) [
    | inl blank ↦
        ap (λ o. and_then o (process_all frames env s lines))
          (process_command-empty env line w blank)
        ∙ process_all-undefined env lines w
    | inr there ↦ and_then-undefined _ _ (process_command-undefined env line w there)
  ]

  on_read-undefined :
      (env : Env) (received : Option String) (w : ChatServer)
      → on_read frames env s received (w, false) ≡ undefined
  unfolding on_read
  on_read-undefined env none w = stop_session-undefined env w
  on_read-undefined env (some buffer) w =
      process_all-undefined env (commands (get_lines "" buffer)) w

-- Whatever room the stack has, no step of a TCP session that is not stopped has a result: not its
-- start, nor a read, whatever it brings, nor a command, nor the delivery of a message, nor the stop.
pub running-undefined :
    (frames s : ℕ) (env : Env) (w : ChatServer) (received : Option String) (line msg : String)
    (q : WriteQueue)
    → str_eq (parse line).0 "" ≡ false
    → (start frames env s (w, false) ≡ undefined)
      × (on_read frames env s received (w, false) ≡ undefined)
      × (process_command frames env s line (w, false) ≡ undefined)
      × (WriteQueue.deliver frames s msg q ≡ undefined)
      × (stop_session frames env s (w, false) ≡ undefined)
unfolding WriteQueue.deliver
running-undefined frames s env w received line msg q there = (
  start-undefined frames s env w,
  on_read-undefined frames s env received w,
  process_command-undefined frames s env line w there,
  with_self-undefined frames s _,
  stop_session-undefined frames s env w,
)
