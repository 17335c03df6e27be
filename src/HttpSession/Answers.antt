-- ===== src/HttpSession/Answers.antt =====
-- Which requests reach the handlers of src/HttpServer.cpp.
use Prim.Native.String.{[], ◌∷◌}
use text.Mathlib.TextLemmas.{nil-append, cons-append}
use text.Mathlib.TextEquality.{Char-path}
use cherry_recorder_server.Prelude.{
  String, Bool, true, false, ◌==◌, ==_iff, code, if◌then◌else◌, ◌⧺◌, str_eq, eq_iff, ◌≡◌, ◌≢◌, ◌⊎◌,
  refl, arith, ap, ◌∙◌, Option, none, some, Bool-cases, inl, inr,
}
use cherry_recorder_server.DocSearch.Cookie.{strip_prefix}
use cherry_recorder_server.HttpSession.{
  Verb, get, post, other, Request, Route, health, maps_key, places_nearby, places_search, status,
  not_found, place_details, place_photo, bad_request, is_get, is_post, route, route_get, route_post,
  route_any, route_photo, route_details,
}

pub strip_prefix-some :
    (prefix text rest : String) → strip_prefix prefix text ≡ some rest → text ≡ prefix ⧺ rest
unfolding strip_prefix
strip_prefix-some [] text rest e = rw nil-append (ground (arith, e))
strip_prefix-some (c ∷ prefix) [] rest e = absurd (ground (arith, e))
strip_prefix-some (c ∷ prefix) (d ∷ text) rest e = elim (Bool-cases (code c == code d)) [
  | inl same ↦
      let later = strip_prefix-some prefix text rest (rw same at e) in
      rw (cons-append, Char-path c d ((==_iff (code c) (code d)).0 same), later) refl
  | inr different ↦ absurd (ground (arith, e, different))
]

-- What a request looks like that goes to a route
abbrev pub Fits : Route → Request → Type 0
Fits health req = (req.method ≡ get) × (req.target ≡ "/health")
Fits maps_key req = (req.method ≡ get) × (req.target ≡ "/maps/key")
Fits places_nearby req = (req.method ≡ post) × (req.target ≡ "/places/nearby")
Fits places_search req = (req.method ≡ post) × (req.target ≡ "/places/search")
Fits status req = req.target ≡ "/status"
Fits (place_details place_id) req =
    (req.method ≡ get) × (req.target ≡ "/places/details/" ⧺ place_id) × (place_id ≢ "")
Fits (place_photo reference) req =
    (req.method ≡ get) × (req.target ≡ "/place/photo/" ⧺ reference) × (reference ≢ "")
Fits (bad_request why) req =
    (req.method ≡ get) × ((req.target ≡ "/places/details/") ⊎ (req.target ≡ "/place/photo/"))
Fits not_found req = Unit

module _ (req : Request) where
  either :
      (b : Bool) (r q : Route)
      → (b ≡ true → Fits r req)
      → (b ≡ false → Fits q req)
      → Fits (if b then r else q) req
  either true r q h k = h refl
  either false r q h k = k refl

  any-Fits : Fits (route_any req.target) req
  any-Fits =
      either (str_eq req.target "/status") status not_found (λ e. (eq_iff req.target "/status").0 e)
        (λ _. tt)

  photo-Fits :
      (o : Option String)
      → strip_prefix "/place/photo/" req.target ≡ o
      → req.method ≡ get
      → Fits (route_photo req.target o) req
  photo-Fits none e m = any-Fits
  photo-Fits (some rest) e m =
      let target = strip_prefix-some "/place/photo/" req.target rest e in
      either (str_eq rest "") _ (place_photo rest)
        (λ missing. (m, inr (target ∙ ap (λ t. "/place/photo/" ⧺ t) ((eq_iff rest "").0 missing))))
        (λ there. (m, target, λ missing. ground (arith, there, eq_iff rest "")))

  details-Fits :
      (o : Option String)
      → strip_prefix "/places/details/" req.target ≡ o
      → req.method ≡ get
      → Fits (route_details req.target o) req
  details-Fits none e m = photo-Fits (strip_prefix "/place/photo/" req.target) refl m
  details-Fits (some rest) e m =
      let target = strip_prefix-some "/places/details/" req.target rest e in
      either (str_eq rest "") _ (place_details rest)
        (λ missing.
          (m, inl (target ∙ ap (λ t. "/places/details/" ⧺ t) ((eq_iff rest "").0 missing))))
        (λ there. (m, target, λ missing. ground (arith, there, eq_iff rest "")))

  get-Fits : req.method ≡ get → Fits (route_get req.target) req
  get-Fits m =
      either (str_eq req.target "/health") health _ (λ e. (m, (eq_iff req.target "/health").0 e))
        (λ _.
          either (str_eq req.target "/maps/key") maps_key _
            (λ e. (m, (eq_iff req.target "/maps/key").0 e))
            (λ _. details-Fits (strip_prefix "/places/details/" req.target) refl m))

  post-Fits : req.method ≡ post → Fits (route_post req.target) req
  post-Fits m =
      either (str_eq req.target "/places/nearby") places_nearby _
        (λ e. (m, (eq_iff req.target "/places/nearby").0 e))
        (λ _.
          either (str_eq req.target "/places/search") places_search _
            (λ e. (m, (eq_iff req.target "/places/search").0 e))
            (λ _.
              either (str_eq req.target "/places/details") not_found _ (λ _. tt) (λ _. any-Fits)))

  is_get_lem : (v : Verb) → is_get v ≡ true → v ≡ get
  is_get_lem get e = refl
  is_get_lem post e = absurd (ground (arith, e))
  is_get_lem other e = absurd (ground (arith, e))

  is_post_lem : (v : Verb) → is_post v ≡ true → v ≡ post
  is_post_lem get e = absurd (ground (arith, e))
  is_post_lem post e = refl
  is_post_lem other e = absurd (ground (arith, e))

  -- A request goes to a handler only with the method and the address of that handler, the identifier
  -- being what follows the prefix, and not empty; a bad request is one without it.
  pub route-Fits : Fits (route req) req
  unfolding route
  route-Fits =
      either (is_get req.method) (route_get req.target) _ (λ e. get-Fits (is_get_lem req.method e))
        (λ _.
          either (is_post req.method) (route_post req.target) (route_any req.target)
            (λ e. post-Fits (is_post_lem req.method e)) (λ _. any-Fits))
