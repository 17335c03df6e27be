-- ===== src/PlacesApi/Redirect.antt =====
-- The address that `handlePlacePhoto` of src/handlers/PlacesApiHandler.cpp is redirected to.
use Prim.Native.String.{[], ◌∷◌}
use text.Mathlib.TextLemmas.{nil-append, cons-append}
use cherry_recorder_server.Prelude.{
  ℕ, String, Char, code, Bool, true, false, ◌==◌, if◌then◌else◌, ◌≡◌, refl, arith, some, none, ◌⧺◌,
}
use cherry_recorder_server.DocSearch.Cookie.{after, after_here, strip_prefix-append}
use cherry_recorder_server.PlacesApi.Photo.{redirect, until_slash, from_slash}

abbrev pub lacks : ℕ → String → Bool
lacks n [] = true
lacks n (c ∷ s) = let rest = lacks n s in if code c == n then false else rest

lacks-cons :
    (n : ℕ) (c : Char) (s : String)
    → lacks n (c ∷ s) ≡ true
    → ((code c == n) ≡ false) × (lacks n s ≡ true)
lacks-cons n c s e = ground (arith, e)

after-scheme :
    (scheme rest : String)
    → lacks 58 scheme ≡ true
    → after "://" (scheme ⧺ "://" ⧺ rest) ≡ some rest
unfolding after
after-scheme [] rest h =
    rw (nil-append, after_here "://" ("://" ⧺ rest) rest (strip_prefix-append "://" rest)) refl
after-scheme (c ∷ scheme) rest h =
    let (other, later) = lacks-cons _ c scheme h in
    rw (cons-append c scheme _) (ground (arith, other, after-scheme scheme rest later))

from_slash-append :
    (host path : String) → lacks 47 host ≡ true → from_slash (host ⧺ "/" ⧺ path) ≡ some ("/" ⧺ path)
unfolding from_slash
from_slash-append [] path h = rw (nil-append, cons-append) refl
from_slash-append (c ∷ host) path h =
    let (other, later) = lacks-cons _ c host h in
    rw (cons-append c host _) (ground (arith, other, from_slash-append host path later))

until_slash-append :
    (host path : String) → lacks 47 host ≡ true → until_slash (host ⧺ "/" ⧺ path) ≡ host
unfolding until_slash
until_slash-append [] path h = rw (nil-append, cons-append) refl
until_slash-append (c ∷ host) path h =
    let (other, later) = lacks-cons _ c host h in
    rw (cons-append c host _) (ground (arith, other, until_slash-append host path later))

from_slash-none : (host : String) → lacks 47 host ≡ true → from_slash host ≡ none
unfolding from_slash
from_slash-none [] h = refl
from_slash-none (c ∷ host) h =
    let (other, later) = lacks-cons _ c host h in ground (arith, other, from_slash-none host later)

-- An address with a scheme is taken apart into its host and its path; one without a path after the
-- host is refused.
pub redirect-parts :
    (scheme host path : String)
    → lacks 58 scheme ≡ true
    → lacks 47 host ≡ true
    → (redirect (scheme ⧺ "://" ⧺ host ⧺ "/" ⧺ path) ≡ some (host, "/" ⧺ path))
      × (redirect (scheme ⧺ "://" ⧺ host) ≡ none)
unfolding redirect
redirect-parts scheme host path h k = (
  rw
      (
        after-scheme scheme (host ⧺ "/" ⧺ path) h,
        from_slash-append host path k,
        until_slash-append host path k,
      )
      refl,
  rw (after-scheme scheme host h, from_slash-none host k) refl,
)
