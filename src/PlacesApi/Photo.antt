-- ===== src/PlacesApi/Photo.antt =====
-- `PlacesApiHandler::handlePlacePhoto` of src/handlers/PlacesApiHandler.cpp. Addresses are in ASCII.
use Prim.Native.String.{[], ◌∷◌}
use cherry_recorder_server.Prelude.{
  String, code, true, false, ltb, leb, ◌==◌, ◌||◌, ◌⧺◌, if◌then◌else◌, Option, none, some,
}
use cherry_recorder_server.DocSearch.Cookie.{after}
use cherry_recorder_server.Json.{Result, ok, throws, ◌>>=◌, ◌>>◌}
use cherry_recorder_server.HttpSession.{get, Response}
use cherry_recorder_server.Google.{GoogleRequest, Reply, Host}
use cherry_recorder_server.PlacesApi.Transform.{or_whole}
use cherry_recorder_server.PlacesApi.{Config, create_error_response, server_error_of}

abbrev pub maps_host : String
maps_host = "maps.googleapis.com"

-- What follows "/photos/", or the whole reference
unfoldable pub actual_photo_reference : String → String
unfolding after
actual_photo_reference photo_reference = or_whole photo_reference (after "/photos/" photo_reference)

-- `s.substr(2)`, which throws where the text is shorter
abbrev pub substr_2 : String → Option String
substr_2 (c ∷ d ∷ s) = some s
substr_2 _ = none

-- `find` without "://" is npos, and npos + 3 is 2.
abbrev pub host_on : String → Option String → Option String
host_on url (some rest) = some rest
host_on url none = substr_2 url

unfoldable pub until_slash : String → String
until_slash [] = ""
until_slash (c ∷ s) = let rest = until_slash s in if code c == 47 then "" else c ∷ rest

-- From the first slash on, if there is one
unfoldable pub from_slash : String → Option String
from_slash [] = none
from_slash (c ∷ s) = let rest = from_slash s in if code c == 47 then some (c ∷ s) else rest

-- The host ends where the path begins.
abbrev pub with_path : String → Option String → Option (String × String)
with_path rest none = none
with_path rest (some path) = some (until_slash rest, path)

abbrev pub parts : Option String → Option (String × String)
parts none = none
parts (some rest) = with_path rest (from_slash rest)

-- `redirect_host` and `redirect_path`; none where `substr` throws
unfoldable pub redirect : String → Option (String × String)
unfolding after from_slash until_slash
redirect url = parts (host_on url (after "://" url))

abbrev pub connected : Host → Result (Unit {0})
connected h = elim (h.connect 0) [ none ↦ ok tt | some ec ↦ throws ec.message ]

-- One attempt to connect; how the connection ends does not matter.
unfoldable pub fetch : Host → GoogleRequest → Result Reply
fetch h req = do h.resolve; connected h; h.handshake; h.write req; h.read req

module _ {Double : Type 0} (c : Config Double) where
  abbrev pub photo_url : String → String
  photo_url reference =
      "https://maps.googleapis.com/maps/api/place/photo" ⧺ "?maxwidth=1600" ⧺ "&photoreference="
      ⧺ reference ⧺ "&key=" ⧺ c.api_key

  abbrev pub photo_request : String → String → GoogleRequest
  photo_request host target = record {
    method = get;
    target = target;
    host = host;
    user_agent = c.beast_version;
    content_type = none;
    api_key = none;
    field_mask = none;
    body = "";
  }

  -- The address has to have a host and a path.
  abbrev pub redirected : String → Option (String × String) → Result Reply
  redirected out_of_range none = throws out_of_range
  redirected out_of_range (some (host, path)) = fetch (c.network 1 host) (photo_request host path)

  -- A reply 302 that names another address is replaced by what that address answers.
  unfoldable pub followed : String → Reply → Result Reply
  unfolding fetch redirect
  followed out_of_range reply = elim reply.location [
    | none ↦ ok reply
    | some url ↦ if reply.result == 302 then redirected out_of_range (redirect url) else ok reply
  ]

  abbrev pub image_type : Option String → String
  image_type none = "image/jpeg"
  image_type (some content_type) = content_type

  -- `res.result()` of an unknown status is 0.
  abbrev pub photo_error : Reply → Response
  photo_error reply = record {
    result = if c.known_status reply.result then reply.result else 0;
    version = 11;
    server = c.beast_version;
    content_type = "text/plain";
    keep_alive = none;
    cors = true;
    body = reply.body;
  }

  abbrev pub photo_image : Reply → Response
  photo_image reply = record {
    result = 200;
    version = 11;
    server = c.beast_version;
    content_type = image_type reply.content_type;
    keep_alive = none;
    cors = false;
    body = reply.body;
  }

  abbrev pub photo_response : Reply → Response
  photo_response reply =
      if ltb reply.result 200 || leb 300 reply.result then photo_error reply else photo_image reply

  -- `out_of_range` is what the exception of `substr` says.
  unfoldable pub handle_place_photo : String → String → Result Response
  unfolding fetch followed actual_photo_reference create_error_response
  handle_place_photo out_of_range photo_reference =
      server_error_of c "Error fetching place photo: " (do
        reply ←
            fetch (c.network 0 maps_host)
              (photo_request maps_host (photo_url (actual_photo_reference photo_reference)))
        last ← followed out_of_range reply
        c.prepare_payload (photo_response last))
