-- ===== src/Google.antt =====
-- The connections of src/handlers/PlacesApiHandler.cpp to the servers of Google: what the network
-- answers is an argument, and the attempts of `requestGooglePlacesApi` to connect are a loop.
pub mod Attempts
pub mod Exchange
use cherry_recorder_server.Prelude.{
  ℕ, suc, zero, ◌+◌, ◌-◌, ◌*◌, String, Bool, ltb, leb, ◌==◌, ◌&&◌, if◌then◌else◌, Option, none,
  some, List, [], ◌∷◌,
}
use cherry_recorder_server.Json.{Result, ok, throws, ◌>>=◌, ◌>>◌}
use cherry_recorder_server.HttpSession.{Verb}

pub record GoogleRequest : Type 0 where
  pub method : Verb
  pub target : String
  pub host : String
  pub user_agent : String
  pub content_type : Option String
  pub api_key : Option String
  pub field_mask : Option String
  pub body : String

pub record Reply : Type 0 where
  pub result : ℕ
  pub location : Option String
  pub content_type : Option String
  pub body : String

-- `clean` is for the end of the stream and a truncated stream.
pub record ErrorCode : Type 0 where
  pub value : ℕ
  pub message : String
  pub clean : Bool

-- What a connection to a host meets: the attempts to connect are counted from 0.
pub record Host : Type 0 where
  pub resolve : Result (Unit {0})
  pub connect : ℕ → Option ErrorCode
  pub handshake : Result (Unit {0})
  pub write : GoogleRequest → Result (Unit {0})
  pub read : GoogleRequest → Result Reply
  pub shutdown : Option ErrorCode

abbrev pub max_retries : ℕ
max_retries = 3

-- Where the loop stands: `retry_count` and `last_error` after it, or the exception that left it.
pub data Ended : Type 0 where
  running : Ended
  left : ℕ → Option ErrorCode → Ended
  threw : String → Ended

-- The milliseconds that were waited, and the end
abbrev pub wait : ℕ → List ℕ × Ended → List ℕ × Ended
wait time (waits, ended) = (time ∷ waits, ended)

-- The loop, with `retry_count` and `last_error`; the exception that the attempt throws is caught
-- in the same round.
unfoldable pub connect_loop : Host → ℕ → ℕ → Option ErrorCode → List ℕ × Ended
connect_loop host zero retry_count last_error = ([], running)
connect_loop host (suc fuel) retry_count last_error =
    let round : List ℕ × Ended = elim (host.connect retry_count) [
      | none ↦ ([], left retry_count last_error)
      | some ec ↦
          let again = connect_loop host fuel (retry_count + 1) (some ec) in
          if ec.value == 99 && ltb retry_count (max_retries - 1)
          then wait (100 * (retry_count + 1)) again
          else if leb (max_retries - 1) retry_count
          then ([], threw ec.message)
          else again
    ] in
    if ltb retry_count max_retries then round else ([], left retry_count last_error)

-- The test after the loop
abbrev pub reached : Ended → Result (Unit {0})
reached running = throws ""
reached (left retry_count none) = ok tt
reached (left retry_count (some last_error)) =
    if leb max_retries retry_count then throws last_error.message else ok tt
reached (threw what) = throws what

unfoldable pub connect : Host → List ℕ × Ended
unfolding connect_loop
connect host = connect_loop host max_retries 0 none

abbrev pub closed_down : Option ErrorCode → Result (Unit {0})
closed_down none = ok tt
closed_down (some ec) = if ec.clean then ok tt else throws ec.message

-- From the resolver to the end of the connection
unfoldable pub exchange : Host → GoogleRequest → Result Reply
unfolding connect
exchange host req = do
  host.resolve
  reached (connect host).1
  host.handshake
  host.write req
  reply ← host.read req
  closed_down host.shutdown
  ok reply
