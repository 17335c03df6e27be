-- ===== src/PlacesApi/Cors.antt =====
-- The headers for other origins: src/handlers/PlacesApiHandler.cpp leaves them to
-- src/HttpServer.cpp, which does not set them.
use cherry_recorder_server.Prelude.{
  ℕ, String, Bool, true, false, ◌≡◌, ◌≢◌, ◌⊎◌, inl, inr, refl, arith, sym, Option, none, some,
  subst, Bool-cases, ltb, leb, ◌||◌, ◌⧺◌, if◌then◌else◌,
}
use cherry_recorder_server.Json.{Result, ok, throws, ◌>>=◌, Value, object, Object, end}
use cherry_recorder_server.HttpSession.{
  get, post, Request, Response, Outside, Route, health, maps_key, places_nearby, places_search,
  status, not_found, place_details, place_photo, bad_request, route, respond, handle,
  handle_maps_key_request,
}
use cherry_recorder_server.Google.{Reply}
use cherry_recorder_server.PlacesApi.Requests.{nearby_data, text_data}
use cherry_recorder_server.PlacesApi.{
  Config, create_error_response, search_response, details_response, bad_request_of, server_error_of,
  error_of, ok_json, passed_on, details_url, request_google_places_api, handle_nearby_search,
  handle_text_search, handle_place_details, is_error,
}
use cherry_recorder_server.PlacesApi.Photo.{
  handle_place_photo, photo_response, photo_request, photo_url, maps_host, actual_photo_reference,
  fetch, followed,
}

module _ {Double : Type 0} (c : Config Double) where
  -- A response that is prepared is itself.
  abbrev pub Prepares : Type 0
  Prepares = (res prepared : Response) → c.prepare_payload res ≡ ok prepared → prepared ≡ res

  -- The server is run with these handlers, which return.
  pub record IsServed (out : Outside) (out_of_range : String) : Type 0 where
    pub nearby_search :
        (req : Request) → handle_nearby_search c req ≡ ok (out.handle_nearby_search req)
    pub text_search : (req : Request) → handle_text_search c req ≡ ok (out.handle_text_search req)
    pub details : (id : String) → handle_place_details c id ≡ ok (out.handle_place_details id)
    pub photo :
        (reference : String)
        → handle_place_photo c out_of_range reference ≡ ok (out.handle_place_photo reference)

  -- Whatever is returned is of this kind.
  abbrev All : (Response → Type 0) → Result Response → Type 0
  All P m = (res : Response) → m ≡ ok res → P res

  abbrev Closed : Response → Type 0
  Closed res = res.cors ≡ false

  -- The headers are set at most where the status is an error.
  abbrev OpenOnError : Response → Type 0
  OpenOnError res = (res.cors ≡ false) ⊎ (res.result ≢ 200)

  module _ (prepares : Prepares) where
    prepared : (P : Response → Type 0) (res : Response) → P res → All P (c.prepare_payload res)
    prepared P res p answer e = subst P (sym (prepares res answer e)) p

    bound :
        {A : Type 0} (P : Response → Type 0) (m : Result A) (k : A → Result Response)
        → ((a : A) → All P (k a))
        → All P (m >>= k)
    bound P (ok a) k h = h a
    bound P (throws what) k h = λ res e. cc

    either :
        (P : Response → Type 0) (b : Bool) (m n : Result Response)
        → All P m
        → All P n
        → All P (if b then m else n)
    either P true m n h k = h
    either P false m n h k = k

    create_error-Closed :
        (code_sent : ℕ) (error : String) → All Closed (create_error_response c code_sent error)
    unfolding create_error_response
    create_error-Closed code_sent error = prepared Closed _ refl

    bad_request-Closed : (m : Result Response) → All Closed m → All Closed (bad_request_of c m)
    bad_request-Closed (ok res) h = h
    bad_request-Closed (throws what) h = create_error-Closed 400 _

    search-Closed : (req : Request) (v : Value Double) → All Closed (search_response c req v)
    unfolding search_response
    search-Closed req v =
        either Closed (is_error v) _ _ (bound Closed _ _ λ a. create_error-Closed a.0 a.1)
          (prepared Closed _ refl)

    searched-Closed :
        (m : Result (Value Double)) (data_of : Value Double → Result (Object Double))
        → (k : Object Double → Result Response)
        → ((request_data : Object Double) → All Closed (k request_data))
        → All Closed (bad_request_of c (m >>= λ v. data_of v >>= k))
    searched-Closed m data_of k h =
        bad_request-Closed _ (bound Closed m _ λ v. bound Closed (data_of v) k h)

    nearby-Closed : (req : Request) → All Closed (handle_nearby_search c req)
    unfolding handle_nearby_search
    nearby-Closed req = searched-Closed (c.json.parse req.body) (nearby_data c.json) _ λ d.
        search-Closed req (
          request_google_places_api c post "https://places.googleapis.com/v1/places:searchNearby"
            (object d))

    text-Closed : (req : Request) → All Closed (handle_text_search c req)
    unfolding handle_text_search
    text-Closed req = searched-Closed (c.json.parse req.body) (text_data c.json) _ λ d.
        search-Closed req (
          request_google_places_api c post "https://places.googleapis.com/v1/places:searchText"
            (object d))

    server_error-All :
        (P : Response → Type 0) (doing : String) (m : Result Response)
        → ((error : String) → All P (create_error_response c 500 error))
        → All P m
        → All P (server_error_of c doing m)
    server_error-All P doing (ok res) h k = k
    server_error-All P doing (throws what) h k = h (doing ⧺ what)

    details_response-Closed : (v : Value Double) → All Closed (details_response c v)
    unfolding details_response
    details_response-Closed v =
        either Closed (is_error v) _ _
          (bound Closed (error_of c v) _ λ a. prepared Closed (passed_on c a.0 a.1) refl)
          (prepared Closed (ok_json c 11 none (c.json.serialize v)) refl)

    details-Closed : (id : String) → All Closed (handle_place_details c id)
    unfolding handle_place_details
    details-Closed id =
        let v = request_google_places_api c get (details_url c id) (object end) in
        server_error-All Closed "Error processing place details request: " (details_response c v)
          (create_error-Closed 500) (details_response-Closed v)

    photo_response-OpenOnError : (reply : Reply) → OpenOnError (photo_response c reply)
    photo_response-OpenOnError reply =
        elim (Bool-cases (ltb reply.result 200 || leb 300 reply.result)) [
          | inl bad ↦ rw bad (inr λ e. ground (arith, bad, e))
          | inr good ↦ rw good (inl refl)
        ]

    photo-OpenOnError :
        (out_of_range reference : String)
        → All OpenOnError (handle_place_photo c out_of_range reference)
    unfolding handle_place_photo
    photo-OpenOnError out_of_range reference =
        let asked = photo_request c maps_host (photo_url c (actual_photo_reference reference)) in
        let first = fetch (c.network 0 maps_host) asked in
        server_error-All OpenOnError "Error fetching place photo: "
          (first >>= λ reply.
            followed c out_of_range reply >>= λ last. c.prepare_payload (photo_response c last))
          (λ error res e. inl (create_error-Closed 500 error res e))
          (bound OpenOnError first _ λ reply.
            bound OpenOnError (followed c out_of_range reply) _ λ last.
              prepared OpenOnError (photo_response c last) (photo_response-OpenOnError last))

    module _ {out : Outside} {out_of_range : String} (served : IsServed out out_of_range) where
      no_key :
          (req : Request) (o : Option String) → (handle_maps_key_request out req o).cors ≡ false
      no_key req none = refl
      no_key req (some key) = ground arith

      handle-cors :
          (req : Request) (r : Route)
          → (handle out req r).cors ≡ true
          → (reference : String) × (r ≡ place_photo reference) × ((handle out req r).result ≢ 200)
      handle-cors req health e = cc
      handle-cors req maps_key e = cc (no_key req out.api_key)
      handle-cors req places_nearby e = cc (nearby-Closed req _ (served.nearby_search req))
      handle-cors req places_search e = cc (text-Closed req _ (served.text_search req))
      handle-cors req status e = cc
      handle-cors req not_found e = cc
      handle-cors req (bad_request why) e = cc
      handle-cors req (place_details id) e = cc (details-Closed id _ (served.details id))
      handle-cors req (place_photo reference) e =
          elim (photo-OpenOnError out_of_range reference _ (served.photo reference)) [
            | inl closed ↦ cc
            | inr bad ↦ (reference, refl, bad)
          ]

      -- A response of the server says that other origins may read it only where it is an error of a
      -- photo: no search, no details and no photo that was found has the headers.
      pub respond-cors :
          (req : Request)
          → (respond out req).cors ≡ true
          → (reference : String) × (route req ≡ place_photo reference)
            × ((respond out req).result ≢ 200)
      unfolding respond
      respond-cors req e = handle-cors req (route req) e
