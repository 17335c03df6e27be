-- ===== src/WebSocketSession/Handlers.antt =====
-- `try_register_nickname_async` of src/ChatServer.cpp with the handler of src/WebSocketSession.cpp,
-- which names the session after a success and otherwise only talks.
use cherry_recorder_server.Prelude.{
  ℕ, String, Bool, true, false, ◌||◌, ◌≡◌, refl, ◌∙◌, if◌then◌else◌,
}
use cherry_recorder_server.StringMap.Sorted.{IsSorted}
use cherry_recorder_server.IdSet.{contains}
use cherry_recorder_server.ChatServer.{ChatServer}
use cherry_recorder_server.ChatServer.Frames.Messages.{SameState}
use cherry_recorder_server.ChatServer.Nicknames.{
  Outcome, done, undefined, try_register_nickname_async, try_register_nickname_impl,
  is_invalid_nickname,
}
use cherry_recorder_server.ChatServer.Nicknames.Registry.{register_failure, register-frame}
use cherry_recorder_server.ChatServer.Nicknames.Keeping.{
  IsRegistered, SameNames-IsRegistered, renamed, renamed-IsRegistered, never_undefined,
  register-IsSorted,
}
use cherry_recorder_server.WebSocketSession.{then_done}

-- What a request for a nickname keeps.
pub record Keeps (w v : ChatServer) : Type 0 where
  pub registered : IsRegistered v
  pub same_order : IsSorted w.nicknames → IsSorted v.nicknames
  pub same_rooms : v.rooms ≡ w.rooms

pub SameState-Keeps : (w v : ChatServer) → SameState v w → IsRegistered w → Keeps w v
SameState-Keeps w v same reg = record {
  registered = SameNames-IsRegistered v w same.names reg;
  same_order = λ h. rw same.names.same_nicknames h;
  same_rooms = same.rooms.same_rooms;
}

-- It has a result, which keeps them.
abbrev pub KeptBy : ChatServer → Outcome ChatServer → Type 0
KeptBy w o = (v : ChatServer) × (o ≡ done v) × Keeps w v

module _ (s : ℕ) (nick : String) (handler : ChatServer × Bool → ChatServer)
    (yes : (u : ChatServer) → SameState (handler (u, true)) (renamed s nick u))
    (no : (u : ChatServer) → SameState (handler (u, false)) u) (w : ChatServer)
    (reg : IsRegistered w) (here : contains s w.sessions ≡ true) where
  handled_yes :
      (u : ChatServer)
      → try_register_nickname_impl nick s w ≡ done (u, true)
      → Keeps w (handler (u, true))
  handled_yes u e =
      let same = yes u in
      record {
        registered =
            SameNames-IsRegistered _ (renamed s nick u) same.names
              (renamed-IsRegistered s nick w u reg here e);
        same_order = λ h. rw same.names.same_nicknames (register-IsSorted nick s w u true h e);
        same_rooms = same.rooms.same_rooms ∙ (register-frame nick s w u true e).2;
      }

  handled :
      (o : Outcome (ChatServer × Bool))
      → try_register_nickname_impl nick s w ≡ o
      → KeptBy w (then_done handler o)
  handled undefined e = absurd (never_undefined s nick w reg here e)
  handled (done (u, true)) e = (handler (u, true), refl, handled_yes u e)
  handled (done (u, false)) e = (
    handler (u, false),
    refl,
    rw (register_failure nick s w u e) (SameState-Keeps w (handler (w, false)) (no w) reg),
  )

  decided :
      (refused : Bool)
      → KeptBy w (
          then_done handler
            (if refused then done (w, false) else try_register_nickname_impl nick s w))
  decided true = (handler (w, false), refl, SameState-Keeps w _ (no w) reg)
  decided false = handled _ refl

  pub handled_registration : KeptBy w (then_done handler (try_register_nickname_async nick s w))
  unfolding try_register_nickname_async
  handled_registration = decided (w.stopped || is_invalid_nickname nick)
