-- ===== src/Examples/Http.antt =====
-- Requests to the HTTP server.
use cherry_recorder_server.Prelude.{
  Bool, true, false, not, none, some, [], ◌∷◌, ◌++◌, ◌≡◌, refl, map,
}
use cherry_recorder_server.HttpSession.{
  get, Request, Response, Outside, route, respond, reading, closed,
}
use cherry_recorder_server.HttpSession.Answers.{Fits, route-Fits}
use cherry_recorder_server.HttpSession.KeepAlive.{rounds, serve, received, written, serve-last}

abbrev pub unavailable : Response
unavailable = record {
  result = 503;
  version = 11;
  server = "test";
  content_type = "text/plain";
  keep_alive = some true;
  cors = false;
  body = "";
}

-- The connection is kept unless the response says otherwise.
abbrev pub outside : Outside
outside = record {
  handle_nearby_search = λ req. unavailable;
  handle_text_search = λ req. unavailable;
  handle_place_details = λ place_id. unavailable;
  handle_place_photo = λ reference. unavailable;
  api_key = none;
  beast_version = "Boost.Beast/347";
  need_eof = λ res. elim res.keep_alive [ none ↦ false | some kept ↦ not kept ];
}

abbrev details : Request
details = record {
  method = get;
  target = "/places/details/ChIJ";
  version = 11;
  keep_alive = true;
  body = "";
}

abbrev health_request : Bool → Request
health_request keep_alive = record {
  method = get;
  target = "/health";
  version = 11;
  keep_alive = keep_alive;
  body = "";
}

serve-last_example :
    serve outside
      (rounds (health_request true ∷ [])
        ++ (received (some (health_request false))
            ∷ (written false ∷ (received (some details) ∷ []))))
      reading
    ≡ (
      map (respond outside) (health_request true ∷ [])
          ++ (respond outside (health_request false) ∷ []),
      closed,
    )
unfolding respond route
serve-last_example =
    serve-last outside (health_request true ∷ []) (health_request false)
      (received (some details) ∷ []) (refl, tt) refl

route-Fits_example : Fits (route details) details
route-Fits_example = route-Fits details
