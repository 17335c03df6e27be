-- ===== src/NavTree/Anchors/Bounds.antt =====
-- How long docs/docs_output/html/navtree.js scrolls, and for how long it takes no notice of a new
-- hash.
use cherry_recorder_server.Prelude.{
  ℕ, zero, suc, ◌≤◌, String, Bool, true, false, ◌≡◌, ◌≢◌, refl, arith, Option, none, some, List, [],
  ◌∷◌, ◌++◌, ◌-◌, length, subst, if◌then◌else◌,
}
use cherry_recorder_server.NavTree.Anchors.{
  Anchor, DocContent, Animation, Scrolling, goto_anchor, on_animated, highlight_anchor,
  on_toc_click, max, min, anchor_position, distance, is_nonzero,
}

abbrev pub still : Scrolling
still = record { animation_in_progress = false; animations = []; glowing = [] }

-- The events of a page
pub data Reach : Scrolling → Type 0 where
  init : Reach still
  highlight :
      (d : DocContent) (find : String → Option Anchor) (hash_url : String) (s : Scrolling)
      → Reach s
      → Reach (highlight_anchor d find hash_url s)
  toc :
      (d : DocContent) (find : String → Option Anchor) (href : String) (s : Scrolling)
      → Reach s
      → Reach (on_toc_click d find href s)
  animated : (hash : String) (s : Scrolling) → Reach s → Reach (on_animated hash s)

abbrev pub AllShort : List Animation → Type 0
AllShort [] = Unit
AllShort (a ∷ animations) = (50 ≤ a.duration) × (a.duration ≤ 500) × AllShort animations

-- A hash is only ignored while an animation is queued.
record IsPending (s : Scrolling) : Type 0 where
  pub short : AllShort s.animations
  pub pending : s.animations ≡ [] → s.animation_in_progress ≡ false

AllShort-append :
    (animations : List Animation) (a : Animation)
    → AllShort animations
    → 50 ≤ a.duration
    → a.duration ≤ 500
    → AllShort (animations ++ a ∷ [])
AllShort-append [] a h p q = (p, q, tt)
AllShort-append (b ∷ animations) a (p', q', h) p q = (p', q', AllShort-append animations a h p q)

append-ne : (animations : List Animation) (a : Animation) → animations ++ a ∷ [] ≢ []
append-ne [] a e = cc
append-ne (b ∷ animations) a e = cc

if-IsPending :
    (b : Bool) (s t : Scrolling) → IsPending s → IsPending t → IsPending (if b then s else t)
if-IsPending true s t h k = h
if-IsPending false s t h k = k

duration_range : (n : ℕ) → (50 ≤ max 50 (min 500 n)) × (max 50 (min 500 n) ≤ 500)
duration_range n = ground arith

goto_anchor-IsPending :
    (d : DocContent) (o : Option Anchor) (s : Scrolling)
    → IsPending s
    → IsPending (goto_anchor d o s)
unfolding goto_anchor
goto_anchor-IsPending d none s h = h
goto_anchor-IsPending d (some a) s h =
    let (longer, shorter) = duration_range (distance d (anchor_position a)) in
    if-IsPending (is_nonzero (anchor_position a)) _ s
      (record {
        short = AllShort-append s.animations _ h.short longer shorter;
        pending = λ e. absurd (append-ne s.animations _ e);
      })
      h

on_animated-IsPending :
    (hash : String) (s : Scrolling) → IsPending s → IsPending (on_animated hash s)
unfolding on_animated
on_animated-IsPending hash s h = go s.animations refl
  where
    go : (animations : List Animation) → s.animations ≡ animations → IsPending (on_animated hash s)
    go [] e = rw e (record { short = tt; pending = λ none_left. h.pending e })
    go (animation ∷ animations) e =
        rw e (record { short = (subst AllShort e h.short).2; pending = λ none_left. refl })

Reach-IsPending : (s : Scrolling) → Reach s → IsPending s
unfolding highlight_anchor on_toc_click
Reach-IsPending s init = record { short = tt; pending = λ e. refl }
Reach-IsPending s (highlight d find hash_url t r) =
    goto_anchor-IsPending d (find hash_url) t (Reach-IsPending t r)
Reach-IsPending s (toc d find href t r) =
    goto_anchor-IsPending d (find href) t (Reach-IsPending t r)
Reach-IsPending s (animated hash t r) = on_animated-IsPending hash t (Reach-IsPending t r)

-- The first animations end, on a page with the hash.
abbrev pub settle : String → ℕ → Scrolling → Scrolling
settle hash zero s = s
settle hash (suc n) s = settle hash n (on_animated hash s)

length-on_animated :
    (hash : String) (s : Scrolling)
    → length (on_animated hash s).animations ≡ length s.animations - 1
unfolding on_animated
length-on_animated hash s = go s.animations refl
  where
    go :
        (animations : List Animation)
        → s.animations ≡ animations
        → length (on_animated hash s).animations ≡ length s.animations - 1
    go [] e = rw e refl
    go (animation ∷ animations) e = rw e (omega arith)

none-length : (animations : List Animation) → length animations ≡ 0 → animations ≡ []
none-length [] e = refl
none-length (a ∷ animations) e = absurd (omega (arith, e))

settle-IsPending :
    (hash : String) (n : ℕ) (s : Scrolling)
    → IsPending s
    → length s.animations ≡ n
    → (settle hash n s).animation_in_progress ≡ false
settle-IsPending hash zero s h e = h.pending (none-length s.animations e)
settle-IsPending hash (suc n) s h e =
    settle-IsPending hash n (on_animated hash s) (on_animated-IsPending hash s h)
      (omega (arith, e, length-on_animated hash s))

-- Whichever links are followed, each animation takes between 50 and 500 milliseconds, and when all
-- that are queued have ended, the page takes notice of a new hash again.
pub Reach-settle :
    (hash : String) (s : Scrolling)
    → Reach s
    → AllShort s.animations × ((settle hash (length s.animations) s).animation_in_progress ≡ false)
Reach-settle hash s r =
    let h = Reach-IsPending s r in (h.short, settle-IsPending hash (length s.animations) s h refl)
