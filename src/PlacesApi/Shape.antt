-- ===== src/PlacesApi/Shape.antt =====
-- The places that `requestGooglePlacesApi` of src/handlers/PlacesApiHandler.cpp makes of Google's.
use cherry_recorder_server.Prelude.{String, ◌≡◌, refl, ap, sym, Option, some, none, subst}
use cherry_recorder_server.Json.{
  Result, ok, throws, ◌>>=◌, Value, null, bool, int64, uint64, double, string, array, object, Array,
  nil, item, Object, end, Library, find, assign, at, as_double,
}
use cherry_recorder_server.Json.Objects.{find-assign, >>=-ends, >>=-ends_4}
use cherry_recorder_server.PlacesApi.Transform.{
  transform_place, transform_places, position, with_id, place_name, place_address, place_location,
}

module _ {Double : Type 0} where
  -- A place as the app reads it, with the id that Google gave it
  abbrev pub IsPlace : Value Double → Value Double → Type 0
  IsPlace source place =
      (given : Object Double) × (o : Object Double) × (name : String) × (address : String)
      × (lat : Double) × (lng : Double) × (source ≡ object given)
      × (place ≡ object o)
      × (find "name" o ≡ some (string name))
      × (find "addr" o ≡ some (string address))
      × (find "loc" o ≡ some (position lat lng))
      × ((id : String) → find "id" given ≡ some (string id) → find "id" o ≡ some (string id))

  -- One place for each, in the same order
  abbrev pub ArePlaces : Array Double → Array Double → Type 0
  ArePlaces nil nil = Unit
  ArePlaces (item source sources) (item place places) =
      IsPlace source place × ArePlaces sources places
  ArePlaces _ _ = ⊥

  module _ (l : Library Double) where
    located_at :
        (m : Result Double) (n : Result (Value Double)) {v : Value Double}
        → (m >>= λ lat. n >>= λ longitude.
            as_double l longitude >>= λ lng. ok (position (l.six_digits lat) (l.six_digits lng)))
          ≡ ok v
        → (lat : Double) × (lng : Double) × (v ≡ position lat lng)
    located_at (ok lat) (ok (double lng)) e = (l.six_digits lat, l.six_digits lng, cc e)
    located_at (ok lat) (ok null) e = cc
    located_at (ok lat) (ok (bool b)) e = cc
    located_at (ok lat) (ok (int64 n)) e = cc
    located_at (ok lat) (ok (uint64 n)) e = cc
    located_at (ok lat) (ok (string s)) e = cc
    located_at (ok lat) (ok (array a)) e = cc
    located_at (ok lat) (ok (object o)) e = cc
    located_at (ok lat) (throws what) e = cc
    located_at (throws what) n e = cc

    located :
        (location : Option (Value Double)) {v : Value Double}
        → place_location l location ≡ ok v
        → (lat : Double) × (lng : Double) × (v ≡ position lat lng)
    located none e = (l.literal "37.4979", l.literal "127.0276", cc e)
    located (some location) e =
        let (latitude, r1, e1) = >>=-ends _ (at l "latitude" location) e in
        located_at (as_double l latitude) (at l "longitude" location) r1

    -- Only the id is there before the name is written.
    with_id-string :
        (id name : Option (Value Double)) {o : Object Double}
        → with_id l id name end ≡ ok o
        → (s : String) → id ≡ some (string s)
        → find "id" o ≡ some (string s)
    unfolding assign find
    with_id-string id name {o} e s h =
        let placed : with_id l (some (string s)) name end ≡ ok o =
          subst (λ i. with_id l i name end ≡ ok o) h e in
        let same : assign "id" (string s) end ≡ o = cc placed in sym (ap (find "id") same)

    transform_place-IsPlace :
        (source : Value Double) {place : Value Double}
        → transform_place l source ≡ ok place
        → IsPlace source place
    unfolding transform_place
    transform_place-IsPlace (object given) e =
        let (named, name, address, location, e1, e2, e3, e4, e5) =
          >>=-ends_4 _ (with_id l (find "id" given) (find "name" given) end)
            (place_name l (find "displayName" given))
            (place_address l (find "formattedAddress" given) (find "vicinity" given))
            (place_location l (find "location" given)) e in
        let (lat, lng, at_place) = located (find "location" given) e4 in
        (
          given,
          _,
          name,
          address,
          lat,
          lng,
          refl,
          e5,
          rw (find-assign, find-assign, find-assign) refl,
          rw (find-assign, find-assign) refl,
          rw (find-assign, at_place) refl,
          λ id h.
              rw (find-assign, find-assign, find-assign)
                (with_id-string (find "id" given) (find "name" given) e1 id h),
        )
    transform_place-IsPlace null e = cc
    transform_place-IsPlace (bool b) e = cc
    transform_place-IsPlace (int64 n) e = cc
    transform_place-IsPlace (uint64 n) e = cc
    transform_place-IsPlace (double x) e = cc
    transform_place-IsPlace (string s) e = cc
    transform_place-IsPlace (array a) e = cc

    pub transform_places-ArePlaces :
        (sources : Array Double) {places : Array Double}
        → transform_places l sources ≡ ok places
        → ArePlaces sources places
    unfolding transform_places
    transform_places-ArePlaces nil {places = places} e =
        let same : nil ≡ places = cc e in subst (ArePlaces nil) same tt
    transform_places-ArePlaces (item source sources) {places = answer} e =
        let (place, r1, e1) = >>=-ends _ (transform_place l source) e in
        let (places, r2, e2) = >>=-ends _ (transform_places l sources) r1 in
        let same : item place places ≡ answer = cc r2 in
        subst (ArePlaces (item source sources)) same
          (transform_place-IsPlace source e1, transform_places-ArePlaces sources e2)
