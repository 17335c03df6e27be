-- ===== src/PlacesApi.antt =====
-- `PlacesApiHandler` of src/handlers/PlacesApiHandler.cpp: the searches and the details of a place,
-- answered with what Google answers. JSON, the arithmetic of doubles, Beast's check of a response
-- and the network are arguments.
pub mod Transform
pub mod Requests
pub mod Photo
pub mod Shape
pub mod Answers
pub mod Statuses
pub mod Cors
pub mod Bias
pub mod Redirect
use cherry_recorder_server.Prelude.{
  ℕ, String, Bool, true, false, not, ltb, leb, ◌&&◌, ◌||◌, ◌⧺◌, if◌then◌else◌, Option, none, some,
}
use cherry_recorder_server.Json.{
  Result, ok, throws, ◌>>=◌, Value, uint64, int64, double, string, array, object, nil, item, Object,
  end, field, Library, is_some, find, contains, assign, as_object, as_string, as_double, at, c_str,
}
use cherry_recorder_server.HttpSession.{Verb, get, post, other, Request, Response, is_get, is_post}
use cherry_recorder_server.Google.{GoogleRequest, Reply, Host, exchange}
use Transform.{transform}
use Requests.{nearby_data, text_data}

-- `known_status` is for the codes of `http::status`. The n-th connection that a handler makes is one to `network n host`. `prepare_payload` gives the
-- response back, or throws where the status must not have a body.
pub record Config (Double : Type 0) : Type 0 where
  pub json : Library Double
  pub beast_version : String
  pub known_status : ℕ → Bool
  pub prepare_payload : Response → Result Response
  pub api_key : String
  pub network : ℕ → String → Host

abbrev pub google_host : String
google_host = "places.googleapis.com"

module _ {Double : Type 0} where
  -- An error of Google's, for the handlers
  unfoldable pub error_object : ℕ → String → Value Double
  unfolding assign
  error_object status body =
      object
        (assign "__error_body" (string body) (assign "__error_status_code" (uint64 status) end))

  abbrev pub is_error : Value Double → Bool
  is_error (object o) = contains "__error_status_code" o
  is_error _ = false

module _ {Double : Type 0} (c : Config Double) where
  -- The place as it is, or the places of a search
  abbrev pub converted : Verb → Value Double → Result (Value Double)
  converted get v = do o ← as_object c.json v; ok (object o)
  converted _ v = transform c.json v

  -- What is made of Google's reply, when its body has been parsed
  abbrev pub interpreted : Verb → Reply → Result (Value Double) → Result (Value Double)
  interpreted method reply (throws what) = ok (error_object reply.result reply.body)
  interpreted method reply (ok v) =
      if ltb reply.result 200 || leb 300 reply.result
      then ok (error_object reply.result (c.json.serialize v))
      else converted method v

  abbrev pub caught : Result (Value Double) → Value Double
  caught (ok v) = v
  caught (throws what) = object (assign "error" (string what) end)

  abbrev pub google_request : Verb → String → Value Double → GoogleRequest
  google_request method endpoint request_data = record {
    method = method;
    target = endpoint;
    host = google_host;
    user_agent = c.beast_version;
    content_type = some "application/json";
    api_key = some c.api_key;
    field_mask =
        if is_get method
        then none
        else some "places.id,places.displayName,places.formattedAddress,places.location";
    body = if is_post method then c.json.serialize request_data else "";
  }

  unfoldable pub request_google_places_api : Verb → String → Value Double → Value Double
  unfolding exchange assign error_object
  request_google_places_api method endpoint request_data = caught (do
    reply ← exchange (c.network 0 google_host) (google_request method endpoint request_data)
    interpreted method reply (c.json.parse reply.body))

  unfoldable pub create_error_response : ℕ → String → Result Response
  unfolding assign
  create_error_response status error = c.prepare_payload (record {
    result = status;
    version = 11;
    server = c.beast_version;
    content_type = "application/json";
    keep_alive = none;
    cors = false;
    body = c.json.serialize (object (assign "error" (string error) end));
  })

  abbrev pub ok_json : ℕ → Option Bool → String → Response
  ok_json version keep_alive body = record {
    result = 200;
    version = version;
    server = c.beast_version;
    content_type = "application/json";
    keep_alive = keep_alive;
    cors = false;
    body = body;
  }

  -- Status and body of an error of Google's
  abbrev pub error_of : Value Double → Result (ℕ × String)
  error_of response_data = do
    status ← at c.json "__error_status_code" response_data
    status_code ← c.json.to_status status
    body ← at c.json "__error_body" response_data
    error_body ← as_string c.json body
    ok (status_code, c_str error_body)

  -- How the two searches end
  unfoldable pub search_response : Request → Value Double → Result Response
  unfolding create_error_response find at c_str
  search_response req response_data =
      if is_error response_data
      then (do (status, body) ← error_of response_data; create_error_response status body)
      else c.prepare_payload
          (ok_json req.version (some req.keep_alive) (c.json.serialize response_data))

  abbrev pub bad_request_of : Result Response → Result Response
  bad_request_of (ok res) = ok res
  bad_request_of (throws what) = create_error_response 400 ("Error processing request: " ⧺ what)

  unfoldable pub handle_nearby_search : Request → Result Response
  unfolding nearby_data request_google_places_api search_response create_error_response
  handle_nearby_search req = bad_request_of (do
    req_json ← c.json.parse req.body
    request_data ← nearby_data c.json req_json
    let response_data =
        request_google_places_api post "https://places.googleapis.com/v1/places:searchNearby"
          (object request_data)
    search_response req response_data)

  unfoldable pub handle_text_search : Request → Result Response
  unfolding text_data request_google_places_api search_response create_error_response
  handle_text_search req = bad_request_of (do
    req_json ← c.json.parse req.body
    request_data ← text_data c.json req_json
    let response_data =
        request_google_places_api post "https://places.googleapis.com/v1/places:searchText"
          (object request_data)
    search_response req response_data)

  abbrev pub details_url : String → String
  details_url place_id =
      "https://places.googleapis.com/v1/places/" ⧺ place_id ⧺ "?fields="
      ⧺ "id,displayName,formattedAddress,location,rating,userRatingCount,reviews,photos"

  abbrev pub passed_on : ℕ → String → Response
  passed_on status body = record {
    result = status;
    version = 11;
    server = c.beast_version;
    content_type = "application/json";
    keep_alive = none;
    cors = false;
    body = body;
  }

  -- How the details end
  unfoldable pub details_response : Value Double → Result Response
  unfolding find at c_str
  details_response response_data =
      if is_error response_data
      then (do (status, body) ← error_of response_data; c.prepare_payload (passed_on status body))
      else c.prepare_payload (ok_json 11 none (c.json.serialize response_data))

  abbrev pub server_error_of : String → Result Response → Result Response
  server_error_of doing (ok res) = ok res
  server_error_of doing (throws what) = create_error_response 500 (doing ⧺ what)

  unfoldable pub handle_place_details : String → Result Response
  unfolding details_response request_google_places_api create_error_response
  handle_place_details place_id =
      server_error_of "Error processing place details request: "
        (details_response (request_google_places_api get (details_url place_id) (object end)))
