-- ===== src/Examples/Places.antt =====
-- Searches for places through the HTTP server. The doubles are natural numbers, and the parser knows
-- a few texts.
use cherry_recorder_server.Prelude.{
  ℕ, String, true, false, ltb, leb, str_eq, ◌⧺◌, if◌then◌else◌, none, some, ◌≡◌, ◌≢◌, ◌⊎◌, refl,
  arith,
}
use cherry_recorder_server.Json.{
  Result, ok, throws, ◌>>=◌, Value, string, uint64, array, object, nil, item, end, field, Library,
  find,
}
use cherry_recorder_server.HttpSession.{
  get, post, Request, Response, Outside, place_photo, route, respond,
}
use cherry_recorder_server.Google.{ErrorCode, Host, connect_loop, exchange}
use cherry_recorder_server.Google.Attempts.{Outcome, connect_loop-Outcome}
use cherry_recorder_server.PlacesApi.{
  Config, google_host, google_request, request_google_places_api, handle_nearby_search,
  handle_text_search, handle_place_details,
}
use cherry_recorder_server.PlacesApi.Requests.{text_request, circle, nearby_data, text_data}
use cherry_recorder_server.PlacesApi.Photo.{redirect, handle_place_photo}
use cherry_recorder_server.PlacesApi.Answers.{Answer, search-Answer}
use cherry_recorder_server.PlacesApi.Statuses.{
  IsUsual, Returns, outcome, answered, sent, searches-outcome,
}
use cherry_recorder_server.PlacesApi.Cors.{IsServed, respond-cors}
use cherry_recorder_server.PlacesApi.Bias.{IsLandmark, text_request-location_bias}
use cherry_recorder_server.Examples.Http.{unavailable, outside}
use cherry_recorder_server.PlacesApi.Redirect.{redirect-parts}

abbrev query_body : Value ℕ
query_body = object (field "query" (string "cafe") end)

abbrev found_body : Value ℕ
found_body =
    object (field "places" (array (item (object (field "id" (string "ChIJ") end)) nil)) end)

abbrev library : Library ℕ
library = record {
  parse = λ text.
      if str_eq text "query"
      then ok query_body
      else if str_eq text "places"
      then ok found_body
      else throws "syntax";
  serialize = λ v. "serialized";
  to_status = λ v. elim v [ uint64 n ↦ ok n | _ ↦ throws "number" ];
  out_of_range = "out of range";
  not_kind = λ kind. kind;
  literal = λ text. 1;
  of_int64 = λ n. 1;
  is_positive = λ radius. ltb 0 radius;
  six_digits = λ x. x;
}

abbrev timed_out : ErrorCode
timed_out = record { value = 110; message = "timed out"; clean = false }

-- The first attempt to reach the server of the places fails.
abbrev host : Host
host = record {
  resolve = ok tt;
  connect = λ n. if leb 1 n then none else some timed_out;
  handshake = ok tt;
  write = λ req. ok tt;
  read = λ req. ok (record { result = 404; location = none; content_type = none; body = "places" });
  shutdown = none;
}

abbrev prepare : Response → Result Response
prepare res = ok res

abbrev config : Config ℕ
config = record {
  json = library;
  beast_version = "Boost.Beast/347";
  known_status = λ n. true;
  prepare_payload = prepare;
  api_key = "key";
  network = λ n name. record host {
    connect = λ k. if str_eq name "maps.googleapis.com" then none else host.connect k;
  };
}

connect_loop-Outcome_example : Outcome host (connect_loop host 5 0 none).1
connect_loop-Outcome_example = connect_loop-Outcome host 5 (omega arith)

search-Answer_example :
    Answer library
      (exchange
        (config.network 0 google_host)
        (google_request config post "/v1/places:searchText" query_body))
      (request_google_places_api config post "/v1/places:searchText" query_body)
search-Answer_example = search-Answer config "/v1/places:searchText" query_body

text_request-location_bias_example :
    (find "textQuery" (text_request library "서울역" 37 127 500) ≡ some (string "서울역"))
    × (((find "locationBias" (text_request library "서울역" 37 127 500) ≡ none)
          × (IsLandmark "서울역" ⊎ (ltb 0 500 ≡ false)))
        ⊎ ((find "locationBias" (text_request library "서울역" 37 127 500) ≡ some (circle 37 127 500))
            × (¬ IsLandmark "서울역")
            × (ltb 0 500 ≡ true)))
text_request-location_bias_example = text_request-location_bias library "서울역" 37 127 500

redirect-parts_example :
    (redirect ("https" ⧺ "://" ⧺ "lh3.googleusercontent.com" ⧺ "/" ⧺ "p/AF1")
      ≡ some ("lh3.googleusercontent.com", "/p/AF1"))
    × (redirect ("https" ⧺ "://" ⧺ "lh3.googleusercontent.com") ≡ none)
redirect-parts_example = redirect-parts "https" "lh3.googleusercontent.com" "p/AF1" refl refl

usual : IsUsual config
usual = record {
  accepts = λ res h. refl;
  to_status-uint64 = λ n h. refl;
  replies = λ n name req reply e. ground (arith, e);
}

-- Google answers with 404.
abbrev search : Request
search = record {
  method = post;
  target = "/places/search";
  version = 11;
  keep_alive = true;
  body = "query";
}

searches-outcome_example :
    Returns config (handle_nearby_search config search) (
      outcome config (library.parse "query" >>= nearby_data library) λ request_data.
        answered config
          (sent config "https://places.googleapis.com/v1/places:searchNearby" request_data))
    × Returns config (handle_text_search config search) (
        outcome config (library.parse "query" >>= text_data library) λ request_data.
          answered config
            (sent config "https://places.googleapis.com/v1/places:searchText" request_data))
searches-outcome_example = searches-outcome config usual search

abbrev or_unavailable : Result Response → Response
or_unavailable (ok res) = res
or_unavailable (throws what) = unavailable

returned : (m : Result Response) {res : Response} → m ≡ ok res → m ≡ ok (or_unavailable m)
returned (ok res) e = refl
returned (throws what) e = cc

abbrev served_outside : Outside
served_outside = record outside {
  handle_nearby_search = λ req. or_unavailable (handle_nearby_search config req);
  handle_text_search = λ req. or_unavailable (handle_text_search config req);
  handle_place_details = λ id. or_unavailable (handle_place_details config id);
  handle_place_photo = λ reference. or_unavailable (handle_place_photo config "npos" reference);
}

details_return :
    (id : String)
    → handle_place_details config id ≡ ok (or_unavailable (handle_place_details config id))
unfolding handle_place_details
details_return id = refl

photo_return :
    (reference : String)
    → handle_place_photo config "npos" reference
      ≡ ok (or_unavailable (handle_place_photo config "npos" reference))
unfolding handle_place_photo
photo_return reference = refl

served : IsServed config served_outside "npos"
served = record {
  nearby_search = λ req. returned _ (searches-outcome config usual req).0.1;
  text_search = λ req. returned _ (searches-outcome config usual req).1.1;
  details = details_return;
  photo = photo_return;
}

abbrev photo : Request
photo = record {
  method = get;
  target = "/place/photo/AF1";
  version = 11;
  keep_alive = true;
  body = "";
}

photo_open : (respond served_outside photo).cors ≡ true
unfolding respond route handle_place_photo
photo_open = refl

respond-cors_example :
    (reference : String) × (route photo ≡ place_photo reference)
    × ((respond served_outside photo).result ≢ 200)
respond-cors_example = respond-cors config (λ res prepared e. cc) served photo photo_open

-- An address without a scheme loses its first two characters.
redirect_relative : redirect "/maps/photo.jpg" ≡ some ("aps", "/photo.jpg")
unfolding redirect
redirect_relative = refl
