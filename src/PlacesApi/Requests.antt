-- ===== src/PlacesApi/Requests.antt =====
-- The data that the searches of src/handlers/PlacesApiHandler.cpp send to Google, and what they
-- read in the body of a request.
use cherry_recorder_server.Prelude.{
  String, Bool, not, ◌&&◌, ◌||◌, if◌then◌else◌, Option, none, some,
}
use cherry_recorder_server.Integer.{pos}
use cherry_recorder_server.Json.{
  Result, ok, ◌>>=◌, Value, int64, double, string, array, object, nil, item, Object, end, Library,
  is_some, find, assign, as_object, as_string, as_double, at, c_str,
}
use cherry_recorder_server.DocSearch.Cookie.{after}

-- A station, an airport, a terminal or a university
unfoldable pub is_landmark_search : String → Bool
unfolding after
is_landmark_search query =
    is_some (after "역" query)
    || is_some (after "공항" query)
    || is_some (after "터미널" query)
    || is_some (after "대학" query)

module _ {Double : Type 0} where
  abbrev pub circle : Double → Double → Double → Value Double
  circle latitude longitude radius = object (
      assign "circle"
        (object (
          assign "radius" (double radius) (
            assign "center"
              (object
                (assign "longitude" (double longitude) (assign "latitude" (double latitude) end)))
              end)))
        end)

  abbrev pub primary_types : Value Double
  primary_types = array (
      item (string "restaurant")
        (item (string "cafe") (item (string "bakery") (item (string "bar") nil))))

  unfoldable pub nearby_request : Double → Double → Double → Object Double
  unfolding assign
  nearby_request latitude longitude radius = assign "rankPreference" (string "DISTANCE") (
      assign "maxResultCount" (int64 (pos 5)) (
        assign "includedPrimaryTypes" primary_types
          (assign "locationRestriction" (circle latitude longitude radius) end)))

module _ {Double : Type 0} (l : Library Double) where
  -- A double or an integer; another kind is ignored.
  abbrev pub radius_or : Double → Option (Value Double) → Double
  radius_or default (some (double x)) = x
  radius_or default (some (int64 n)) = l.of_int64 n
  radius_or default _ = default

  -- The data of a nearby search for a body
  unfoldable pub nearby_data : Value Double → Result (Object Double)
  unfolding find at nearby_request
  nearby_data req_json = do
    latitude ← at l "latitude" req_json
    lat ← as_double l latitude
    longitude ← at l "longitude" req_json
    lng ← as_double l longitude
    o ← as_object l req_json
    ok (nearby_request lat lng (radius_or (l.literal "1500.0") (find "radius" o)))

  abbrev pub double_or : String → Option (Value Double) → Result Double
  double_or default none = ok (l.literal default)
  double_or default (some v) = as_double l v

  unfoldable pub text_request : String → Double → Double → Double → Object Double
  text_request query latitude longitude radius =
      let query_only = assign "textQuery" (string query) end in
      let request_data =
        if not (is_landmark_search query) && l.is_positive radius
        then assign "locationBias" (circle latitude longitude radius) query_only
        else query_only in
      assign "languageCode" (string "ko") (assign "maxResultCount" (int64 (pos 5)) request_data)

  -- The data of a text search for a body
  unfoldable pub text_data : Value Double → Result (Object Double)
  unfolding find at c_str text_request
  text_data req_json = do
    query ← at l "query" req_json
    words ← as_string l query
    o ← as_object l req_json
    lat ← double_or "37.5665" (find "latitude" o)
    lng ← double_or "126.9780" (find "longitude" o)
    ok (text_request (c_str words) lat lng (radius_or (l.literal "50000.0") (find "radius" o)))
