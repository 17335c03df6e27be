-- ===== src/HttpSession/Routes.antt =====
-- Which requests the routing of src/HttpServer.cpp sends where.
use Prim.Native.String.{[], ◌∷◌}
use text.Mathlib.TextLemmas.{nil-append, cons-append, append_assoc}
use cherry_recorder_server.Prelude.{
  ℕ, String, Bool, false, ◌⧺◌, str_eq, str_eq-ne, ◌≡◌, ◌≢◌, refl, sym, arith, ap, ◌∙◌, Option, none,
  some,
}
use cherry_recorder_server.DocSearch.Cookie.{strip_prefix, strip_prefix-append}
use cherry_recorder_server.HttpSession.{
  Verb, get, post, other, Request, Route, health, maps_key, places_nearby, places_search, status,
  not_found, place_details, place_photo, bad_request, route, route_get,
}

-- The request that each route is for; `bad_request` and `not_found` are for none.
abbrev pub request_of : Route → Option (Verb × String)
request_of health = some (get, "/health")
request_of maps_key = some (get, "/maps/key")
request_of places_nearby = some (post, "/places/nearby")
request_of places_search = some (post, "/places/search")
request_of status = some (other, "/status")
request_of (place_details place_id) = some (get, "/places/details/" ⧺ place_id)
request_of (place_photo reference) = some (get, "/place/photo/" ⧺ reference)
request_of (bad_request why) = none
request_of not_found = none

-- An identifier has to be there.
abbrev pub HasIdentifier : Route → Type 0
HasIdentifier (place_details place_id) = place_id ≢ ""
HasIdentifier (place_photo reference) = reference ≢ ""
HasIdentifier _ = Unit

-- An address that goes on after a prefix is another than one that does not begin with it.
with_prefix-ne :
    (prefix rest text : String)
    → strip_prefix prefix text ≡ none
    → str_eq (prefix ⧺ rest) text ≡ false
with_prefix-ne prefix rest text e =
    str_eq-ne (prefix ⧺ rest) text
      λ same. cc (strip_prefix-append prefix rest, e, ap (strip_prefix prefix) same)

route_get-details :
    (place_id : String)
    → place_id ≢ ""
    → route_get ("/places/details/" ⧺ place_id) ≡ place_details place_id
unfolding strip_prefix
route_get-details place_id named = simp (
  with_prefix-ne "/places/details/" place_id "/health" refl,
  with_prefix-ne "/places/details/" place_id "/maps/key" refl,
  str_eq-ne place_id "" named,
  strip_prefix-append "/places/details/" place_id,
)

strip_prefix-common :
    (start prefix text : String)
    → strip_prefix (start ⧺ prefix) (start ⧺ text) ≡ strip_prefix prefix text
unfolding strip_prefix
strip_prefix-common [] prefix text = rw (nil-append, nil-append) refl
strip_prefix-common (c ∷ start) prefix text =
    rw (cons-append c start prefix, cons-append c start text)
      (ground (arith, strip_prefix-common start prefix text))

no_photo : (reference : String) → strip_prefix "s/details/" ("/photo/" ⧺ reference) ≡ none
unfolding strip_prefix
no_photo reference = rw (cons-append) refl

no_details :
    (reference : String) → strip_prefix "/places/details/" ("/place/photo/" ⧺ reference) ≡ none
no_details reference =
    ap (strip_prefix "/places/details/") (append_assoc "/place" "/photo/" reference)
    ∙ strip_prefix-common "/place" "s/details/" ("/photo/" ⧺ reference)
    ∙ no_photo reference

route_get-photo :
    (reference : String)
    → reference ≢ ""
    → route_get ("/place/photo/" ⧺ reference) ≡ place_photo reference
unfolding strip_prefix
route_get-photo reference named = simp (
  with_prefix-ne "/place/photo/" reference "/health" refl,
  with_prefix-ne "/place/photo/" reference "/maps/key" refl,
  no_details reference,
  str_eq-ne reference "" named,
  strip_prefix-append "/place/photo/" reference,
)

-- Where a request goes
abbrev routed : ℕ → Bool → String → Option (Verb × String) → Route
routed version keep_alive body none = not_found
routed version keep_alive body (some (method, target)) = route (record {
  method = method;
  target = target;
  version = version;
  keep_alive = keep_alive;
  body = body;
})

routed-request_of :
    (r : Route) (version : ℕ) (keep_alive : Bool) (body : String) (request : Verb × String)
    → request_of r ≡ some request
    → HasIdentifier r
    → routed version keep_alive body (request_of r) ≡ r
unfolding route strip_prefix
routed-request_of health version keep_alive body request e named = refl
routed-request_of maps_key version keep_alive body request e named = refl
routed-request_of places_nearby version keep_alive body request e named = refl
routed-request_of places_search version keep_alive body request e named = refl
routed-request_of status version keep_alive body request e named = refl
routed-request_of not_found version keep_alive body request e named = refl
routed-request_of (bad_request why) version keep_alive body request e named = cc
routed-request_of (place_details place_id) version keep_alive body request e named =
    route_get-details place_id named
routed-request_of (place_photo reference) version keep_alive body request e named =
    route_get-photo reference named

-- Each request that a route is for, with an identifier where the address ends with one, is routed
-- there, whatever its version and connection.
route-request_of :
    (r : Route) (req : Request)
    → request_of r ≡ some (req.method, req.target)
    → HasIdentifier r
    → route req ≡ r
route-request_of r req e named =
    sym (ap (routed req.version req.keep_alive req.body) e)
    ∙ routed-request_of r req.version req.keep_alive req.body (req.method, req.target) e named
