-- ===== src/PlacesApi/Answers.antt =====
-- What `requestGooglePlacesApi` of src/handlers/PlacesApiHandler.cpp answers to a search.
use cherry_recorder_server.Prelude.{
  String, Bool, true, false, ◌≡◌, refl, ap, Option, some, none, ltb, leb, ◌||◌, if◌then◌else◌, ◌⊎◌,
  inl, inr,
}
use cherry_recorder_server.Json.{
  Result, ok, throws, ◌>>=◌, Value, null, bool, int64, uint64, double, string, array, object, Array,
  nil, item, end, field, Library, find, assign,
}
use cherry_recorder_server.HttpSession.{post}
use cherry_recorder_server.Google.{Reply, exchange}
use cherry_recorder_server.PlacesApi.{
  Config, error_object, request_google_places_api, google_request, google_host, interpreted, caught,
}
use cherry_recorder_server.PlacesApi.Transform.{
  transform, transformed, transform_place, transform_places,
}
use cherry_recorder_server.PlacesApi.Shape.{ArePlaces, transform_places-ArePlaces}

-- The value of the places in what Google sent
abbrev pub places_in : {Double : Type 0} → Value Double → Option (Value Double)
places_in (object o) = find "places" o
places_in _ = none

abbrev pub IsArray : {Double : Type 0} → Value Double → Type 0
IsArray (array a) = Unit
IsArray _ = ⊥

-- One of the places
abbrev pub IsIn : {Double : Type 0} → Value Double → Array Double → Type 0
IsIn place nil = ⊥
IsIn place (item first rest) = (place ≡ first) ⊎ IsIn place rest

-- What a search is answered with, for what Google sent
pub data Found {Double : Type 0} (l : Library Double) (sent : Value Double)
    : Value Double → Type 0 where
  nothing : places_in sent ≡ none → Found l sent (object end)
  no_array :
      (places : Value Double) (what : String)
      → places_in sent ≡ some places
      → ¬ IsArray places
      → Found l sent (object (field "error" (string what) end))
  bad_place :
      (sources : Array Double) (source : Value Double) (what : String)
      → places_in sent ≡ some (array sources)
      → IsIn source sources
      → transform_place l source ≡ throws what
      → Found l sent (object (field "error" (string what) end))
  listed :
      (sources places : Array Double)
      → places_in sent ≡ some (array sources)
      → ArePlaces sources places
      → Found l sent (object (field "places" (array places) end))

-- For what the exchange with Google ends with: no reply, a reply that is no JSON or has a status that
-- is an error, or a good one
pub data Answer {Double : Type 0} (l : Library Double) : Result Reply → Value Double → Type 0 where
  unreached : (what : String) → Answer l (throws what) (object (field "error" (string what) end))
  no_json :
      (reply : Reply) (what : String)
      → l.parse reply.body ≡ throws what
      → Answer l (ok reply) (error_object reply.result reply.body)
  google_error :
      (reply : Reply) (sent : Value Double)
      → l.parse reply.body ≡ ok sent
      → (ltb reply.result 200 || leb 300 reply.result) ≡ true
      → Answer l (ok reply) (error_object reply.result (l.serialize sent))
  found :
      (reply : Reply) (sent : Value Double) {v : Value Double}
      → l.parse reply.body ≡ ok sent
      → (ltb reply.result 200 || leb 300 reply.result) ≡ false
      → Found l sent v
      → Answer l (ok reply) v

module _ {Double : Type 0} (l : Library Double) where
  thrown_at :
      (source : Value Double) (sources : Array Double) (m : Result (Value Double))
      (n : Result (Array Double)) (what : String)
      → transform_place l source ≡ m
      → (n ≡ throws what
          → (bad : Value Double) × IsIn bad sources × (transform_place l bad ≡ throws what))
      → (m >>= λ v. n >>= λ vs. ok (item v vs)) ≡ throws what
      → (bad : Value Double) × IsIn bad (item source sources)
        × (transform_place l bad ≡ throws what)
  thrown_at source sources (throws why) n what e h t =
      let same : why ≡ what = cc t in (source, inl refl, rw same at e)
  thrown_at source sources (ok v) (throws why) what e h t =
      let same : why ≡ what = cc t in
      let (bad, inside, fails) = h (ap throws same) in (bad, inr inside, fails)
  thrown_at source sources (ok v) (ok vs) what e h t = cc

  -- The exception of the places is that of one of them.
  transform_places-throws :
      (sources : Array Double) (what : String)
      → transform_places l sources ≡ throws what
      → (bad : Value Double) × IsIn bad sources × (transform_place l bad ≡ throws what)
  unfolding transform_places
  transform_places-throws nil what e = cc
  transform_places-throws (item source sources) what e =
      thrown_at source sources (transform_place l source) (transform_places l sources) what refl
        (transform_places-throws sources what) e

module _ {Double : Type 0} (c : Config Double) where
  caught-listed :
      (sent : Value Double) (sources : Array Double) (m : Result (Array Double))
      → places_in sent ≡ some (array sources)
      → transform_places c.json sources ≡ m
      → Found c.json sent
          (caught c (m >>= λ places. ok (object (assign "places" (array places) end))))
  unfolding assign
  caught-listed sent sources (ok places) there e =
      listed sources places there (transform_places-ArePlaces c.json sources e)
  caught-listed sent sources (throws what) there e =
      let (bad, inside, fails) = transform_places-throws c.json sources what e in
      bad_place sources bad what there inside fails

  caught-transformed :
      (sent : Value Double) (o : Option (Value Double))
      → places_in sent ≡ o
      → Found c.json sent (caught c (transformed c.json o))
  unfolding assign
  caught-transformed sent none e = nothing e
  caught-transformed sent (some (array a)) e =
      caught-listed sent a (transform_places c.json a) e refl
  caught-transformed sent (some null) e = no_array null _ e (λ h. h)
  caught-transformed sent (some (bool b)) e = no_array (bool b) _ e (λ h. h)
  caught-transformed sent (some (int64 n)) e = no_array (int64 n) _ e (λ h. h)
  caught-transformed sent (some (uint64 n)) e = no_array (uint64 n) _ e (λ h. h)
  caught-transformed sent (some (double x)) e = no_array (double x) _ e (λ h. h)
  caught-transformed sent (some (string s)) e = no_array (string s) _ e (λ h. h)
  caught-transformed sent (some (object o)) e = no_array (object o) _ e (λ h. h)

  pub caught-transform : (v : Value Double) → Found c.json v (caught c (transform c.json v))
  caught-transform (object o) = caught-transformed (object o) (find "places" o) refl
  caught-transform null = nothing refl
  caught-transform (bool b) = nothing refl
  caught-transform (int64 n) = nothing refl
  caught-transform (uint64 n) = nothing refl
  caught-transform (double x) = nothing refl
  caught-transform (string s) = nothing refl
  caught-transform (array a) = nothing refl

  caught-if :
      (reply : Reply) (v : Value Double) (b : Bool)
      → c.json.parse reply.body ≡ ok v
      → (ltb reply.result 200 || leb 300 reply.result) ≡ b
      → Answer c.json (ok reply) (
          caught c
            (if b then ok (error_object reply.result (c.json.serialize v)) else transform c.json v))
  caught-if reply v true parsed e = google_error reply v parsed e
  caught-if reply v false parsed e = found reply v parsed e (caught-transform v)

  caught-interpreted :
      (reply : Reply) (m : Result (Value Double))
      → c.json.parse reply.body ≡ m
      → Answer c.json (ok reply) (caught c (interpreted c post reply m))
  caught-interpreted reply (throws what) e = no_json reply what e
  caught-interpreted reply (ok v) e = caught-if reply v _ e refl

  caught-reply :
      (m : Result Reply)
      → Answer c.json m
          (caught c (m >>= λ reply. interpreted c post reply (c.json.parse reply.body)))
  unfolding assign
  caught-reply (ok reply) = caught-interpreted reply (c.json.parse reply.body) refl
  caught-reply (throws what) = unreached what

  -- A search that gets no reply is answered with what the exception says, and one whose reply is no
  -- JSON or has a status that is an error with that status and the body. Otherwise the answer is empty
  -- where Google sent no places; what an exception says where its places are no array, or one of them
  -- cannot be transformed; and else it has as many places as Google sent, in its order, each with a
  -- name, an address, a position, and the id that Google gave it, if it gave one.
  pub search-Answer :
      (endpoint : String) (request_data : Value Double)
      → Answer c.json
          (exchange (c.network 0 google_host) (google_request c post endpoint request_data))
          (request_google_places_api c post endpoint request_data)
  unfolding request_google_places_api
  search-Answer endpoint request_data =
      caught-reply
        (exchange (c.network 0 google_host) (google_request c post endpoint request_data))
