-- ===== src/Routing/Retry.antt =====
-- sidecar/ibreeze/routing/retry.py, and how its table agrees with sidecar/ibreeze/routing/health.py.
use i_breeze.Prelude.{
  ℕ, ◌+◌, leb, Bool, true, false, ◌&&◌, ◌||◌, ◌≡◌, refl, Option, some, if◌then◌else◌,
}
use i_breeze.Routing.Health.{ProviderFailureKind, HealthState, seconds, duration, apply_failure}

pub data FallbackConstraint : Type 0 where
  any_deployment larger_context different_credential_or_provider no_fallback : FallbackConstraint

pub record RetryDirective : Type 0 where
  pub retry_same : Bool
  pub max_same_retries : ℕ
  pub fallback_allowed : Bool
  pub fallback_constraint : FallbackConstraint
  pub bench_immediately : Bool
  pub health_strike : Bool

abbrev directive : Bool → ℕ → Bool → FallbackConstraint → Bool → Bool → RetryDirective
directive same retries allowed constraint bench strike = record {
  retry_same = same;
  max_same_retries = retries;
  fallback_allowed = allowed;
  fallback_constraint = constraint;
  bench_immediately = bench;
  health_strike = strike;
}

-- `_DIRECTIVES`
unfoldable pub retry_directive : ProviderFailureKind → RetryDirective
retry_directive ProviderFailureKind.rate_limited =
    directive true 1 true FallbackConstraint.any_deployment true true
retry_directive ProviderFailureKind.provider_overloaded =
    directive true 1 true FallbackConstraint.any_deployment false true
retry_directive ProviderFailureKind.transport_transient =
    directive true 2 true FallbackConstraint.any_deployment false true
retry_directive ProviderFailureKind.timeout =
    directive true 1 true FallbackConstraint.any_deployment false true
retry_directive ProviderFailureKind.context_overflow =
    directive false 0 true FallbackConstraint.larger_context false false
retry_directive ProviderFailureKind.auth_invalid =
    directive false 0 true FallbackConstraint.different_credential_or_provider false false
retry_directive ProviderFailureKind.model_not_found =
    directive false 0 true FallbackConstraint.any_deployment true true
retry_directive ProviderFailureKind.unsupported_capability =
    directive false 0 true FallbackConstraint.any_deployment true true
retry_directive ProviderFailureKind.insufficient_credits =
    directive false 0 true FallbackConstraint.different_credential_or_provider true true
retry_directive ProviderFailureKind.bad_request =
    directive false 0 false FallbackConstraint.no_fallback false false
retry_directive ProviderFailureKind.policy_refusal =
    directive false 0 false FallbackConstraint.no_fallback false false
retry_directive ProviderFailureKind.invalid_response =
    directive true 1 true FallbackConstraint.any_deployment false true

-- What the directive of a failure says of strikes and benches is what `apply_failure` does to the health of the deployment: a strike is added just when `health_strike` is set, and the bench is renewed just when `bench_immediately` is set or a counted strike is the third or a later one; in every other case it stays as it was.
pub apply_failure-retry_directive :
    (s : HealthState)
    → (kind : ProviderFailureKind) → (now : ℕ) → (retry_after_seconds : Option ℕ)
    → ((apply_failure s kind now retry_after_seconds).consecutive_strikes ≡ (
        if (retry_directive kind).health_strike
        then s.consecutive_strikes + 1
        else s.consecutive_strikes))
      × ((apply_failure s kind now retry_after_seconds).benched_until ≡ (
          if (retry_directive kind).bench_immediately
            || ((retry_directive kind).health_strike && leb 3 (s.consecutive_strikes + 1))
          then some (now + seconds (duration kind retry_after_seconds))
          else s.benched_until))
unfolding apply_failure retry_directive
apply_failure-retry_directive s ProviderFailureKind.rate_limited now after = (refl, refl)
apply_failure-retry_directive s ProviderFailureKind.provider_overloaded now after = (refl, refl)
apply_failure-retry_directive s ProviderFailureKind.transport_transient now after = (refl, refl)
apply_failure-retry_directive s ProviderFailureKind.timeout now after = (refl, refl)
apply_failure-retry_directive s ProviderFailureKind.context_overflow now after = (refl, refl)
apply_failure-retry_directive s ProviderFailureKind.auth_invalid now after = (refl, refl)
apply_failure-retry_directive s ProviderFailureKind.model_not_found now after = (refl, refl)
apply_failure-retry_directive s ProviderFailureKind.unsupported_capability now after = (refl, refl)
apply_failure-retry_directive s ProviderFailureKind.insufficient_credits now after = (refl, refl)
apply_failure-retry_directive s ProviderFailureKind.bad_request now after = (refl, refl)
apply_failure-retry_directive s ProviderFailureKind.policy_refusal now after = (refl, refl)
apply_failure-retry_directive s ProviderFailureKind.invalid_response now after = (refl, refl)
