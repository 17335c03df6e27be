-- ===== src/Google/Attempts.antt =====
-- The attempts to connect of `requestGooglePlacesApi` in src/handlers/PlacesApiHandler.cpp.
use cherry_recorder_server.Prelude.{
  ℕ, suc, zero, ◌+◌, ◌*◌, Bool, true, false, ◌↔◌, ◌≤◌, ◌<◌, ◌≡◌, inl, inr, refl, arith, Option,
  none, some, List, ◌==◌, if◌then◌else◌, Option-cases,
}
use cherry_recorder_server.Google.{
  ErrorCode, Host, Ended, running, left, threw, connect_loop, connect, reached, wait,
}
use cherry_recorder_server.Json.{ok}

abbrev pub Failed : Host → ℕ → Type 0
Failed host n = (ec : ErrorCode) × (host.connect n ≡ some ec)

-- How an attempt can end: after none, one or two failures it succeeds, or the third one fails.
abbrev pub Outcome : Host → Ended → Type 0
Outcome host running = ⊥
Outcome host (left n last_error) =
    (host.connect n ≡ none) × (n < 3) × ((m : ℕ) → m < n → Failed host m)
Outcome host (threw what) =
    (ec : ErrorCode) × (host.connect 2 ≡ some ec)
    × (what ≡ ec.message)
    × ((m : ℕ) → m < 2 → Failed host m)

module _ (host : Host) where
  below_1 : Failed host 0 → (m : ℕ) → m < 1 → Failed host m
  below_1 p zero h = p
  below_1 p (suc m) h = absurd (omega arith)

  below_2 : Failed host 0 → Failed host 1 → (m : ℕ) → m < 2 → Failed host m
  below_2 p q zero h = p
  below_2 p q (suc zero) h = q
  below_2 p q (suc (suc m)) h = absurd (omega arith)

  below_3 :
      (n : ℕ) {ec : ErrorCode}
      → n < 3
      → host.connect n ≡ none
      → host.connect 2 ≡ some ec
      → ((m : ℕ) → m < 2 → Failed host m)
      → ⊥
  below_3 zero h connected third before = cc (before 0 (omega arith)).1
  below_3 (suc zero) h connected third before = cc (before 1 (omega arith)).1
  below_3 (suc (suc zero)) h connected third before = cc
  below_3 (suc (suc (suc n))) h connected third before = omega arith

  -- `wait` keeps the end.
  wait-end : (b : Bool) (time : ℕ) (w : List ℕ × Ended) → (if b then wait time w else w).1 ≡ w.1
  wait-end true time w = refl
  wait-end false time w = refl

  module _ (fuel n : ℕ) (last_error : Option ErrorCode) where
    connect_loop-left :
        host.connect n ≡ none
        → n < 3
        → (connect_loop host (suc fuel) n last_error).1 ≡ left n last_error
    unfolding connect_loop
    connect_loop-left connected h = ground (arith, connected)

    connect_loop-again :
        (ec : ErrorCode)
        → host.connect n ≡ some ec
        → n < 2
        → (connect_loop host (suc fuel) n last_error).1
          ≡ (connect_loop host fuel (n + 1) (some ec)).1
    unfolding connect_loop
    connect_loop-again ec failed h = ground (
      arith,
      failed,
      wait-end (ec.value == 99) (100 * (n + 1)) (connect_loop host fuel (n + 1) (some ec)),
    )

  connect_loop-third :
      (fuel : ℕ) (last_error : Option ErrorCode) (ec : ErrorCode)
      → host.connect 2 ≡ some ec
      → (connect_loop host (suc fuel) 2 last_error).1 ≡ threw ec.message
  unfolding connect_loop
  connect_loop-third fuel last_error ec failed = ground (arith, failed)

  outcome_third :
      (fuel : ℕ) (last_error : Option ErrorCode)
      → Failed host 0
      → Failed host 1
      → Outcome host (connect_loop host (suc fuel) 2 last_error).1
  outcome_third fuel last_error first second = elim (Option-cases (host.connect 2)) [
    | inl connected ↦
        rw (connect_loop-left fuel 2 last_error connected (omega arith))
          (connected, omega arith, below_2 first second)
    | inr (ec, failed) ↦
        rw (connect_loop-third fuel last_error ec failed) (ec, failed, refl, below_2 first second)
  ]

  outcome_second :
      (fuel : ℕ) (last_error : Option ErrorCode)
      → Failed host 0
      → Outcome host (connect_loop host (suc (suc fuel)) 1 last_error).1
  outcome_second fuel last_error first = elim (Option-cases (host.connect 1)) [
    | inl connected ↦
        rw (connect_loop-left (suc fuel) 1 last_error connected (omega arith))
          (connected, omega arith, below_1 first)
    | inr (ec, failed) ↦
        rw (connect_loop-again (suc fuel) 1 last_error ec failed (omega arith))
          (outcome_third fuel (some ec) first (ec, failed))
  ]

  -- However many rounds it is allowed beyond three, the loop ends: with the first attempt that
  -- succeeds, or with the message of the third one that fails.
  pub connect_loop-Outcome : (fuel : ℕ) → 3 ≤ fuel → Outcome host (connect_loop host fuel 0 none).1
  connect_loop-Outcome zero h = absurd (omega arith)
  connect_loop-Outcome (suc zero) h = absurd (omega arith)
  connect_loop-Outcome (suc (suc zero)) h = absurd (omega arith)
  connect_loop-Outcome (suc (suc (suc fuel))) h = elim (Option-cases (host.connect 0)) [
    | inl connected ↦
        rw (connect_loop-left (suc (suc fuel)) 0 none connected (omega arith))
          (connected, omega arith, λ m h. absurd (omega arith))
    | inr (ec, failed) ↦
        rw (connect_loop-again (suc (suc fuel)) 0 none ec failed (omega arith))
          (outcome_second fuel (some ec) (ec, failed))
  ]

  connect-Outcome : Outcome host (connect host).1
  unfolding connect
  connect-Outcome = connect_loop-Outcome 3 (omega arith)

  Outcome-reached :
      (ended : Ended)
      → Outcome host ended
      → (reached ended ≡ ok tt) ↔ ((n : ℕ) × (n < 3) × (host.connect n ≡ none))
  Outcome-reached running o = absurd o
  Outcome-reached (left n none) (connected, h, before) = (λ _. (n, h, connected), λ _. refl)
  Outcome-reached (left n (some ec)) (connected, h, before) =
      (λ _. (n, h, connected), λ _. ground arith)
  Outcome-reached (threw what) (ec, third, message, before) =
      (λ e. cc, λ (n, h, connected). absurd (below_3 n h connected third before))

  -- The attempts end with a connection exactly if one of the first three succeeds, and the test
  -- after the loop then lets it pass.
  reached-ok_iff :
      (reached (connect host).1 ≡ ok tt) ↔ ((n : ℕ) × (n < 3) × (host.connect n ≡ none))
  reached-ok_iff = Outcome-reached (connect host).1 connect-Outcome
