-- ===== src/HttpSession.antt =====
-- `HttpSession` of src/HttpServer.cpp: the routing of requests, the responses it makes itself, and
-- the order of reads and writes on a connection. The handler of the places API, the key in the
-- environment and what Beast says of a response are arguments.
pub mod Routes
pub mod KeepAlive
pub mod Answers
use Prim.Native.String.{[], ◌∷◌}
use cherry_recorder_server.Prelude.{
  ℕ, String, Bool, true, false, ◌&&◌, if◌then◌else◌, ◌⧺◌, str_eq, Option, none, some, List, [], ◌∷◌,
}
use cherry_recorder_server.DocSearch.Cookie.{strip_prefix}

pub data Verb : Type 0 where
  get post other : Verb

pub record Request : Type 0 where
  pub method : Verb
  pub target : String
  pub version : ℕ
  pub keep_alive : Bool
  pub body : String

-- `keep_alive` is none where it is not set, and `cors` says whether the three headers
-- Access-Control-Allow-Origin, -Methods and -Headers are.
pub record Response : Type 0 where
  pub result : ℕ
  pub version : ℕ
  pub server : String
  pub content_type : String
  pub keep_alive : Option Bool
  pub cors : Bool
  pub body : String

pub record Outside : Type 0 where
  pub handle_nearby_search : Request → Response
  pub handle_text_search : Request → Response
  pub handle_place_details : String → Response
  pub handle_place_photo : String → Response
  pub api_key : Option String
  pub beast_version : String
  pub need_eof : Response → Bool

pub data Route : Type 0 where
  health maps_key places_nearby places_search status not_found : Route
  place_details place_photo : String → Route
  bad_request : String → Route

abbrev pub is_get : Verb → Bool
is_get get = true
is_get _ = false

abbrev pub is_post : Verb → Bool
is_post post = true
is_post _ = false

-- What follows a prefix, if it is not missing
abbrev pub with_rest : (String → Route) → String → String → Route
with_rest route why rest = if str_eq rest "" then bad_request why else route rest

-- The last tests, for any method
abbrev pub route_any : String → Route
route_any target = if str_eq target "/status" then status else not_found

abbrev pub route_photo : String → Option String → Route
route_photo target none = route_any target
route_photo target (some rest) =
    with_rest place_photo "Missing Photo Reference in /place/photo/ request." rest

abbrev pub route_details : String → Option String → Route
route_details target none = route_photo target (strip_prefix "/place/photo/" target)
route_details target (some rest) =
    with_rest place_details "Missing Place ID in /places/details/ request." rest

abbrev pub route_get : String → Route
route_get target =
    if str_eq target "/health"
    then health
    else if str_eq target "/maps/key"
    then maps_key
    else route_details target (strip_prefix "/places/details/" target)

abbrev pub route_post : String → Route
route_post target =
    if str_eq target "/places/nearby"
    then places_nearby
    else if str_eq target "/places/search"
    then places_search
    else if str_eq target "/places/details"
    then not_found
    else route_any target

-- Which branch `on_read` takes
unfoldable pub route : Request → Route
unfolding strip_prefix
route req =
    if is_get req.method
    then route_get req.target
    else if is_post req.method
    then route_post req.target
    else route_any req.target

abbrev pub handle_bad_request : Outside → String → Response
handle_bad_request out why = record {
  result = 400;
  version = 11;
  server = out.beast_version;
  content_type = "text/plain";
  keep_alive = none;
  cors = false;
  body = why;
}

abbrev pub handle_not_found_request : Outside → Request → Response
handle_not_found_request out req = record {
  result = 404;
  version = req.version;
  server = out.beast_version;
  content_type = "text/plain";
  keep_alive = some req.keep_alive;
  cors = false;
  body = "The resource '" ⧺ req.target ⧺ "' was not found.";
}

abbrev pub ok_response : String → String → Request → String → Response
ok_response server content_type req body = record {
  result = 200;
  version = req.version;
  server = server;
  content_type = content_type;
  keep_alive = some req.keep_alive;
  cors = false;
  body = body;
}

abbrev pub no_key : Outside → Response
no_key out = handle_bad_request out "Google Maps API key is not configured on the server"

abbrev pub handle_maps_key_request : Outside → Request → Option String → Response
handle_maps_key_request out req none = no_key out
handle_maps_key_request out req (some api_key) =
    if str_eq api_key "" then no_key out else ok_response "WebServer" "text/plain" req api_key

abbrev pub handle : Outside → Request → Route → Response
handle out req health = ok_response "WebServer" "text/plain" req "OK"
handle out req maps_key = handle_maps_key_request out req out.api_key
handle out req places_nearby = out.handle_nearby_search req
handle out req places_search = out.handle_text_search req
handle out req (place_details place_id) = out.handle_place_details place_id
handle out req (place_photo photo_reference) = out.handle_place_photo photo_reference
handle out req (bad_request why) = handle_bad_request out why
handle out req status = ok_response out.beast_version "application/json" req "{\"status\": \"ok\"}"
handle out req not_found = handle_not_found_request out req

unfoldable pub respond : Outside → Request → Response
unfolding route
respond out req = handle out req (route req)

-- What the session waits for
pub data Phase : Type 0 where
  reading : Phase
  writing : Response → Phase
  closed : Phase

-- `on_read`: a request, or an error or the end of the stream
unfoldable pub on_read : Outside → Option Request → Phase
unfolding respond
on_read out none = closed
on_read out (some req) = writing (respond out req)

-- `on_write` with `need_eof` of the response, and whether it failed
unfoldable pub on_write : Bool → Bool → Phase
on_write close failed = if failed then closed else if close then closed else reading
