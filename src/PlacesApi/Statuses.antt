-- ===== src/PlacesApi/Statuses.antt =====
-- The statuses of the searches of src/handlers/PlacesApiHandler.cpp.
use cherry_recorder_server.Prelude.{
  ℕ, ◌≤◌, ◌<◌, String, Bool, true, false, ◌≡◌, ◌≢◌, refl, arith, ap, ltb, leb, ◌||◌, ◌⧺◌,
  if◌then◌else◌,
}
use cherry_recorder_server.Json.{
  Result, ok, throws, ◌>>=◌, Value, uint64, string, object, Object, end, field, find, assign, at,
  c_str,
}
use cherry_recorder_server.HttpSession.{post, Request, Response}
use cherry_recorder_server.Google.{GoogleRequest, Reply, exchange}
use cherry_recorder_server.Google.Exchange.{exchange-read}
use cherry_recorder_server.PlacesApi.{
  Config, error_object, is_error, caught, interpreted, google_host, google_request,
  request_google_places_api, create_error_response, search_response, bad_request_of,
  handle_nearby_search, handle_text_search,
}
use cherry_recorder_server.PlacesApi.Requests.{nearby_data, text_data}
use cherry_recorder_server.PlacesApi.Transform.{transform}
use cherry_recorder_server.PlacesApi.Answers.{
  Found, nothing, no_array, bad_place, listed, caught-transform,
}

-- A status that may have a body
abbrev pub HasBody : ℕ → Type 0
HasBody status = (200 ≤ status) × (status ≢ 204) × (status ≢ 304)

module _ {Double : Type 0} (c : Config Double) where
  -- What Beast and Boost.JSON document, and that Google's statuses have three digits and a body
  pub record IsUsual : Type 0 where
    pub accepts : (res : Response) → HasBody res.result → c.prepare_payload res ≡ ok res
    pub to_status-uint64 : (n : ℕ) → n < 1000 → c.json.to_status (uint64 n) ≡ ok n
    pub replies :
        (n : ℕ) (host : String) (req : GoogleRequest) (reply : Reply)
        → (c.network n host).read req ≡ ok reply
        → HasBody reply.result × (reply.result < 1000)

  abbrev pub error_body : String → String
  error_body error = c.json.serialize (object (field "error" (string error) end))

  -- Status and body for a reply of Google's, with its body parsed
  abbrev pub answered_reply : Reply → Result (Value Double) → ℕ × String
  answered_reply reply (throws what) = (reply.result, error_body (c_str reply.body))
  answered_reply reply (ok v) =
      if ltb reply.result 200 || leb 300 reply.result
      then (reply.result, error_body (c_str (c.json.serialize v)))
      else (200, c.json.serialize (caught c (transform c.json v)))

  -- The same for what the exchange with Google gives
  abbrev pub answered : Result Reply → ℕ × String
  answered (throws what) = (200, error_body what)
  answered (ok reply) = answered_reply reply (c.json.parse reply.body)

  -- The same for the data of the search, if the body of the request has them
  abbrev pub outcome : Result (Object Double) → (Object Double → ℕ × String) → ℕ × String
  outcome (throws what) answer = (400, error_body ("Error processing request: " ⧺ what))
  outcome (ok request_data) answer = answer request_data

  abbrev pub Returns : Result Response → ℕ × String → Type 0
  Returns m (status, body) =
      (res : Response) × (m ≡ ok res) × (res.result ≡ status) × (res.body ≡ body)

  Found-is_error : {sent v : Value Double} → Found c.json sent v → is_error v ≡ false
  unfolding find
  Found-is_error (nothing e) = refl
  Found-is_error (no_array places what e not_one) = refl
  Found-is_error (bad_place sources source what e inside fails) = refl
  Found-is_error (listed sources places e p) = refl

  -- What `Returns` asks of a response that Beast accepts
  accepted :
      IsUsual
      → (res : Response) → HasBody res.result
      → Returns (c.prepare_payload res) (res.result, res.body)
  accepted usual res h = (res, usual.accepts res h, refl, refl)

  error_passed_on :
      IsUsual
      → (req : Request) (status : ℕ) (body : String) → HasBody status
      → status < 1000
      → Returns (search_response c req (error_object status body)) (status, error_body (c_str body))
  unfolding search_response create_error_response error_object assign find at
  error_passed_on usual req status body h small =
      rw (usual.to_status-uint64 status small) (accepted usual _ h)

  result_passed_on :
      IsUsual
      → (req : Request) (v : Value Double) → is_error v ≡ false
      → Returns (search_response c req v) (200, c.json.serialize v)
  unfolding search_response
  result_passed_on usual req v e = rw e (accepted usual _ (omega arith, omega arith, omega arith))

  good_reply :
      IsUsual
      → (req : Request) (b : Bool) (status : ℕ) (v : Value Double) → HasBody status
      → status < 1000
      → Returns
          (search_response c req (
            caught c
              (if b then ok (error_object status (c.json.serialize v)) else transform c.json v)))
          (if b
            then (status, error_body (c_str (c.json.serialize v)))
            else (200, c.json.serialize (caught c (transform c.json v))))
  good_reply usual req true status v h small = error_passed_on usual req status _ h small
  good_reply usual req false status v h small =
      result_passed_on usual req _ (Found-is_error (caught-transform c v))

  parsed_reply :
      IsUsual
      → (req : Request) (reply : Reply) (m : Result (Value Double)) → HasBody reply.result
      → reply.result < 1000
      → Returns
          (search_response c req (caught c (interpreted c post reply m)))
          (answered_reply reply m)
  parsed_reply usual req reply (throws what) h small =
      error_passed_on usual req reply.result reply.body h small
  parsed_reply usual req reply (ok v) h small =
      good_reply usual req (ltb reply.result 200 || leb 300 reply.result) reply.result v h small

  exchanged :
      IsUsual
      → (req : Request) (m : Result Reply)
      → ((reply : Reply) → m ≡ ok reply → HasBody reply.result × (reply.result < 1000))
      → Returns
          (search_response c req
            (caught c (m >>= λ reply. interpreted c post reply (c.json.parse reply.body))))
          (answered m)
  unfolding assign find
  exchanged usual req (throws what) h = result_passed_on usual req _ refl
  exchanged usual req (ok reply) h =
      let (has_body, small) = h reply refl in
      parsed_reply usual req reply (c.json.parse reply.body) has_body small

  -- What Google is asked for a search
  abbrev pub sent : String → Object Double → Result Reply
  sent endpoint request_data =
      exchange (c.network 0 google_host) (google_request c post endpoint (object request_data))

  asked :
      IsUsual
      → (req : Request) (endpoint : String) (request_data : Object Double)
      → Returns
          (search_response c req (request_google_places_api c post endpoint (object request_data)))
          (answered (sent endpoint request_data))
  unfolding request_google_places_api
  asked usual req endpoint request_data =
      exchanged usual req (sent endpoint request_data)
        λ reply e. usual.replies 0 google_host _ reply (exchange-read (c.network 0 google_host) _ e)

  bad_data-Returns :
      IsUsual
      → (m : Result (Object Double)) (k : Object Double → Result Response)
      → (answer : Object Double → ℕ × String)
      → ((request_data : Object Double) → Returns (k request_data) (answer request_data))
      → Returns (bad_request_of c (m >>= k)) (outcome m answer)
  unfolding create_error_response assign
  bad_data-Returns usual (throws what) k answer h =
      accepted usual _ (omega arith, omega arith, omega arith)
  bad_data-Returns usual (ok request_data) k answer h =
      let (res, e, status, body) = h request_data in (res, ap (bad_request_of c) e, status, body)

  bad_request-Returns :
      IsUsual
      → (m : Result (Value Double)) (data_of : Value Double → Result (Object Double))
      → (k : Object Double → Result Response) (answer : Object Double → ℕ × String)
      → ((request_data : Object Double) → Returns (k request_data) (answer request_data))
      → Returns (bad_request_of c (m >>= λ v. data_of v >>= k)) (outcome (m >>= data_of) answer)
  bad_request-Returns usual (ok v) data_of k = bad_data-Returns usual (data_of v) k
  bad_request-Returns usual (throws what) data_of k = bad_data-Returns usual (throws what) k

  -- Both searches return a response: 400 where the body of the request lacks what they read, the
  -- status of Google's reply where that is an error or its body is no JSON, and 200 otherwise; also
  -- where Google cannot be reached, with the exception as an error in the body.
  pub searches-outcome :
      IsUsual
      → (req : Request)
      → Returns (handle_nearby_search c req) (
          outcome (c.json.parse req.body >>= nearby_data c.json) λ request_data.
            answered (sent "https://places.googleapis.com/v1/places:searchNearby" request_data))
        × Returns (handle_text_search c req) (
            outcome (c.json.parse req.body >>= text_data c.json) λ request_data.
              answered (sent "https://places.googleapis.com/v1/places:searchText" request_data))
  unfolding handle_nearby_search handle_text_search
  searches-outcome usual req = (
    bad_request-Returns usual (c.json.parse req.body) (nearby_data c.json) _ _
        (asked usual req "https://places.googleapis.com/v1/places:searchNearby"),
    bad_request-Returns usual (c.json.parse req.body) (text_data c.json) _ _
        (asked usual req "https://places.googleapis.com/v1/places:searchText"),
  )
