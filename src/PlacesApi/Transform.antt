-- ===== src/PlacesApi/Transform.antt =====
-- What `requestGooglePlacesApi` of src/handlers/PlacesApiHandler.cpp makes of an answer to a
-- search: each place with the four fields that the app reads.
use cherry_recorder_server.Prelude.{String, Option, none, some}
use cherry_recorder_server.DocSearch.Cookie.{after}
use cherry_recorder_server.Json.{
  Result, ok, ◌>>=◌, Value, double, string, array, object, Array, nil, item, Object, end, Library,
  find, assign, as_object, as_array, as_string, as_double, at, c_str,
}

abbrev pub or_whole : String → Option String → String
or_whole name none = name
or_whole name (some rest) = rest

-- What follows "places/", or the whole name
unfoldable pub name_id : String → String
unfolding after
name_id name = or_whole name (after "places/" name)

abbrev pub position : {Double : Type 0} → Double → Double → Value Double
position lat lng = object (assign "lng" (double lng) (assign "lat" (double lat) end))

module _ {Double : Type 0} (l : Library Double) where
  -- Neither an id nor a name leaves the place without an id.
  abbrev pub with_id :
      Option (Value Double) → Option (Value Double) → Object Double → Result (Object Double)
  with_id (some id) name place = do s ← as_string l id; ok (assign "id" (string s) place)
  with_id none (some name) place = do
    s ← as_string l name
    ok (assign "id" (string (name_id (c_str s))) place)
  with_id none none place = ok place

  abbrev pub or_text : String → Option (Value Double) → Result String
  or_text default none = ok default
  or_text default (some v) = as_string l v

  -- `displayName`, and then its `text`
  abbrev pub place_name : Option (Value Double) → Result String
  place_name none = ok "이름 없음"
  place_name (some display_name) = do o ← as_object l display_name; or_text "이름 없음" (find "text" o)

  abbrev pub place_address : Option (Value Double) → Option (Value Double) → Result String
  place_address (some address) vicinity = as_string l address
  place_address none vicinity = or_text "주소 정보 없음" vicinity

  -- The default is Gangnam station.
  abbrev pub place_location : Option (Value Double) → Result (Value Double)
  place_location none = ok (position (l.literal "37.4979") (l.literal "127.0276"))
  place_location (some location) = do
    latitude ← at l "latitude" location
    lat ← as_double l latitude
    longitude ← at l "longitude" location
    lng ← as_double l longitude
    ok (position (l.six_digits lat) (l.six_digits lng))

  -- One round of the loop over the places
  unfoldable pub transform_place : Value Double → Result (Value Double)
  unfolding find assign at c_str name_id
  transform_place place = do
    o ← as_object l place
    named ← with_id (find "id" o) (find "name" o) end
    name ← place_name (find "displayName" o)
    address ← place_address (find "formattedAddress" o) (find "vicinity" o)
    location ← place_location (find "location" o)
    ok (
        object (
          assign "loc" location
            (assign "addr" (string address) (assign "name" (string name) named))))

  unfoldable pub transform_places : Array Double → Result (Array Double)
  unfolding transform_place
  transform_places nil = ok nil
  transform_places (item place places) = do
    v ← transform_place place
    vs ← transform_places places
    ok (item v vs)

  -- An object without places is answered by an empty one.
  abbrev pub transformed : Option (Value Double) → Result (Value Double)
  transformed none = ok (object end)
  transformed (some places) = do
    a ← as_array l places
    vs ← transform_places a
    ok (object (assign "places" (array vs) end))

  abbrev pub transform : Value Double → Result (Value Double)
  transform (object o) = transformed (find "places" o)
  transform _ = ok (object end)
