-- ===== src/PlacesApi/Bias.antt =====
-- Where the text search of src/handlers/PlacesApiHandler.cpp asks Google to look.
use Prim.Native.String.{[], ◌∷◌}
use text.Mathlib.TextLemmas.{nil-append, cons-append}
use cherry_recorder_server.Prelude.{
  String, Bool, true, false, ◌≡◌, ◌⊎◌, inl, inr, refl, arith, ◌∙◌, Option, some, none, ◌⧺◌, ◌||◌,
  ◌↔◌, Bool-cases, Option-cases,
}
use cherry_recorder_server.DocSearch.Cookie.{strip_prefix, after, after_here, strip_prefix-append}
use cherry_recorder_server.HttpSession.Answers.{strip_prefix-some}
use cherry_recorder_server.Json.{string, Library, is_some, find, assign}
use cherry_recorder_server.PlacesApi.Requests.{is_landmark_search, text_request, circle}

after-some : (w s r : String) → after w s ≡ some r → (u : String) × (s ≡ u ⧺ w ⧺ r)
unfolding after
after-some w [] r e = ("", rw nil-append (strip_prefix-some w "" r e))
after-some w (c ∷ s) r e = elim (Option-cases (strip_prefix w (c ∷ s))) [
  | inl missing ↦
      let (u, later) = after-some w s r (rw (missing, after) at e) in
      (c ∷ u, rw (cons-append, later) refl)
  | inr (rest, here) ↦
      let same : some rest ≡ some r = rw (here, after) at e in
      ("", rw nil-append (strip_prefix-some w (c ∷ s) r (here ∙ same)))
]

found_later :
    (o : Option String) (later : Option String)
    → is_some later ≡ true
    → is_some (elim o as (λ _. Option String) [ none ↦ later | some rest ↦ some rest ]) ≡ true
found_later none later e = e
found_later (some rest) later e = refl

after-found : (u w v : String) → is_some (after w (u ⧺ w ⧺ v)) ≡ true
unfolding after
after-found [] w v = rw (nil-append, after_here w (w ⧺ v) v (strip_prefix-append w v)) refl
after-found (c ∷ u) w v =
    rw cons-append
      (found_later (strip_prefix w (c ∷ (u ⧺ w ⧺ v))) (after w (u ⧺ w ⧺ v)) (after-found u w v))

-- The word occurs in the text.
abbrev pub Has : String → String → Type 0
Has s w = (u : String) × (v : String) × (s ≡ u ⧺ w ⧺ v)

Has-after : (s w : String) → (is_some (after w s) ≡ true) ↔ Has s w
Has-after s w = (
  λ e. elim (Option-cases (after w s)) [
    | inl missing ↦ absurd (ground (arith, e, missing))
    | inr (r, here) ↦ let (u, parts) = after-some w s r here in (u, r, parts)
  ],
  λ (u, v, parts). rw (parts, after-found u w v) refl,
)

-- A station, an airport, a terminal or a university is named.
abbrev pub IsLandmark : String → Type 0
IsLandmark query = Has query "역" ⊎ Has query "공항" ⊎ Has query "터미널" ⊎ Has query "대학"

any_of_4 :
    (a b c d : Bool)
    → (a || b || c || d ≡ true) ↔ ((a ≡ true) ⊎ (b ≡ true) ⊎ (c ≡ true) ⊎ (d ≡ true))
any_of_4 a b c d = ground arith

is_landmark_search_iff : (query : String) → (is_landmark_search query ≡ true) ↔ IsLandmark query
unfolding is_landmark_search
is_landmark_search_iff query =
    let (to, from) =
      any_of_4 (is_some (after "역" query)) (is_some (after "공항" query))
        (is_some (after "터미널" query)) (is_some (after "대학" query)) in
    (
      λ e. elim (to e) [
        | inl a ↦ inl ((Has-after query "역").0 a)
        | inr (inl b) ↦ inr (inl ((Has-after query "공항").0 b))
        | inr (inr (inl c)) ↦ inr (inr (inl ((Has-after query "터미널").0 c)))
        | inr (inr (inr d)) ↦ inr (inr (inr ((Has-after query "대학").0 d)))
      ],
      λ h. from (elim h [
        | inl a ↦ inl ((Has-after query "역").1 a)
        | inr (inl b) ↦ inr (inl ((Has-after query "공항").1 b))
        | inr (inr (inl c)) ↦ inr (inr (inl ((Has-after query "터미널").1 c)))
        | inr (inr (inr d)) ↦ inr (inr (inr ((Has-after query "대학").1 d)))
      ]),
    )

module _ {Double : Type 0} (l : Library Double) where
  -- The text is sent as it is. The search is bound to the circle around the position unless the text
  -- has one of the four words for landmarks or the radius is not positive; then it is bound to none.
  pub text_request-location_bias :
      (query : String) (latitude longitude radius : Double)
      → (find "textQuery" (text_request l query latitude longitude radius) ≡ some (string query))
        × (((find "locationBias" (text_request l query latitude longitude radius) ≡ none)
              × (IsLandmark query ⊎ (l.is_positive radius ≡ false)))
            ⊎ ((find "locationBias" (text_request l query latitude longitude radius)
                  ≡ some (circle latitude longitude radius))
                × (¬ IsLandmark query)
                × (l.is_positive radius ≡ true)))
  unfolding text_request assign find
  text_request-location_bias query latitude longitude radius =
      let (to, from) = is_landmark_search_iff query in
      elim (Bool-cases (is_landmark_search query)) [
        | inl landmark ↦ rw landmark (refl, inl (refl, inl (to landmark)))
        | inr plain ↦ elim (Bool-cases (l.is_positive radius)) [
          | inl near ↦ rw (plain, near) (refl, inr (refl, λ h. cc (from h), refl))
          | inr anywhere ↦ rw (plain, anywhere) (refl, inl (refl, inr refl))
        ]
      ]
