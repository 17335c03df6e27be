-- ===== src/HttpSession/KeepAlive.antt =====
-- The requests that a connection of src/HttpServer.cpp answers, one after the other.
use cherry_recorder_server.Prelude.{
  Bool, true, false, if◌then◌else◌, ◌≡◌, refl, ◌∙◌, Option, some, List, [], ◌∷◌, ◌++◌, map,
}
use cherry_recorder_server.HttpSession.{
  Request, Response, Outside, respond, Phase, reading, writing, closed, on_read, on_write,
}

-- What happens on a connection: the read that is waited for, or the write, is completed.
pub data Event : Type 0 where
  received : Option Request → Event
  written : Bool → Event

-- An event that is not waited for does not happen.
abbrev pub step : Outside → Event → Phase → Phase
step out (received what) reading = on_read out what
step out (written failed) (writing response) = on_write (out.need_eof response) failed
step out _ phase = phase

-- The phase after the events, and the responses that were written out
abbrev pub sent_by : Event → Phase → List Response
sent_by (written failed) (writing response) = if failed then [] else response ∷ []
sent_by _ _ = []

unfoldable pub serve : Outside → List Event → Phase → List Response × Phase
unfolding on_read on_write
serve out [] phase = ([], phase)
serve out (event ∷ events) phase =
    let (responses, end) = serve out events (step out event phase) in
    (sent_by event phase ++ responses, end)

-- Each request is read, and its response is written out.
abbrev pub rounds : List Request → List Event
rounds [] = []
rounds (request ∷ requests) = received (some request) ∷ (written false ∷ rounds requests)

-- No response to these ends the connection.
abbrev pub AllKept : Outside → List Request → Type 0
AllKept out [] = Unit
AllKept out (request ∷ requests) =
    (out.need_eof (respond out request) ≡ false) × AllKept out requests

closed-serve : (out : Outside) (events : List Event) → serve out events closed ≡ ([], closed)
unfolding serve
closed-serve out [] = refl
closed-serve out (received what ∷ events) = rw (closed-serve out events) refl
closed-serve out (written failed ∷ events) = rw (closed-serve out events) refl

serve-rounds :
    (out : Outside) (requests : List Request) (events : List Event)
    → AllKept out requests
    → serve out (rounds requests ++ events) reading
      ≡ (map (respond out) requests ++ (serve out events reading).0, (serve out events reading).1)
unfolding serve on_read on_write
serve-rounds out [] events h = refl
serve-rounds out (request ∷ requests) events (kept, h) =
    rw (kept, serve-rounds out requests events h) refl

-- A connection answers each request with one response, in the order of the requests, as long as no
-- response ends it; the first one that does is the last, whatever is still sent to it.
pub serve-last :
    (out : Outside) (requests : List Request) (last : Request) (events : List Event)
    → AllKept out requests
    → out.need_eof (respond out last) ≡ true
    → serve out (rounds requests ++ (received (some last) ∷ (written false ∷ events))) reading
      ≡ (map (respond out) requests ++ (respond out last ∷ []), closed)
unfolding serve on_read on_write
serve-last out requests last events h ends =
    serve-rounds out requests (received (some last) ∷ (written false ∷ events)) h
    ∙ rw (ends, closed-serve out events) refl
