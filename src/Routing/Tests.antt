-- ===== src/Routing/Tests.antt =====
-- Runs of sidecar/ibreeze/routing/health.py, and instances of its theorems.
use i_breeze.Prelude.{
  ℕ, ◌+◌, ◌≡◌, refl, ◌&&◌, ◌||◌, leb, if◌then◌else◌, true, false, List, [], ◌∷◌, none, some,
}
use i_breeze.Routing.Health.{
  ProviderFailureKind, new_health, seconds, apply_failure, apply_success, cleanup_expired,
  is_eligible, duration,
}
use i_breeze.Routing.Retry.{retry_directive, apply_failure-retry_directive}
use i_breeze.Routing.History.{
  Event, failure, success, cleanup, apply, replay, strikes_since_success, replay-strikes_since,
}
use i_breeze.Routing.Bench.{IsClamped, refusal_absorbs, replay-eligible_again, rate_limit-window}

abbrev timeout_at : ℕ → Event
timeout_at t = failure ProviderFailureKind.timeout t none

abbrev reports : List Event
reports =
    timeout_at 1
    ∷ success 2
    ∷ timeout_at 3
    ∷ failure ProviderFailureKind.bad_request 4 none
    ∷ cleanup 5
    ∷ timeout_at 6
    ∷ []

reports_run :
    ((replay new_health reports).consecutive_strikes ≡ 2)
    × (is_eligible (replay new_health reports) 7 ≡ true)
    × (is_eligible (apply (replay new_health reports) (timeout_at 8)) 30000007 ≡ false)
    × (is_eligible (apply (replay new_health reports) (timeout_at 8)) 30000008 ≡ true)
unfolding replay apply apply_failure apply_success cleanup_expired is_eligible
reports_run = (refl, refl, refl, refl)

replay-strikes_since_example :
    (replay new_health reports).consecutive_strikes ≡ strikes_since_success 0 reports
replay-strikes_since_example = replay-strikes_since new_health reports

refusal_absorbs_example :
    is_eligible
      (replay
        (apply_failure new_health ProviderFailureKind.auth_invalid 1 none)
        (timeout_at 2 ∷ cleanup 3 ∷ []))
      5000000000
    ≡ false
refusal_absorbs_example =
    refusal_absorbs new_health 1 5000000000 none (timeout_at 2 ∷ cleanup 3 ∷ []) refl

replay-eligible_again_example : is_eligible (replay new_health reports) (6 + seconds 900) ≡ true
replay-eligible_again_example = replay-eligible_again 6 reports refl refl

rate_limit-window_example :
    (d : ℕ) × IsClamped (some 5) d
    × (is_eligible (apply_failure new_health ProviderFailureKind.rate_limited 8 (some 5)) 5000007
        ≡ leb (8 + seconds d) 5000007)
rate_limit-window_example = rate_limit-window new_health 8 5000007 (some 5) refl

apply_failure-retry_directive_example :
    ((apply_failure
        (replay new_health reports)
        ProviderFailureKind.timeout
        8
        none).consecutive_strikes
      ≡ (if (retry_directive ProviderFailureKind.timeout).health_strike
          then (replay new_health reports).consecutive_strikes + 1
          else (replay new_health reports).consecutive_strikes))
    × ((apply_failure (replay new_health reports) ProviderFailureKind.timeout 8 none).benched_until
        ≡ (if (retry_directive ProviderFailureKind.timeout).bench_immediately
              || ((retry_directive ProviderFailureKind.timeout).health_strike
                  && leb 3 ((replay new_health reports).consecutive_strikes + 1))
            then some (8 + seconds (duration ProviderFailureKind.timeout none))
            else (replay new_health reports).benched_until))
apply_failure-retry_directive_example =
    apply_failure-retry_directive (replay new_health reports) ProviderFailureKind.timeout 8 none
