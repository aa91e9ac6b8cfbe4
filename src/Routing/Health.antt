-- ===== src/Routing/Health.antt =====
-- sidecar/ibreeze/routing/health.py and the failure kinds of routing/types.py. An instant is a number of
-- microseconds, the resolution of `datetime`; `now` is always given.
use i_breeze.Prelude.{
  ℕ, ◌+◌, ◌*◌, leb, str_eq, String, Bool, true, false, ◌&&◌, ◌||◌, Option, none, some,
  if◌then◌else◌,
}

pub data ProviderFailureKind : Type 0 where
  rate_limited : ProviderFailureKind
  provider_overloaded : ProviderFailureKind
  transport_transient : ProviderFailureKind
  timeout : ProviderFailureKind
  context_overflow : ProviderFailureKind
  auth_invalid : ProviderFailureKind
  model_not_found : ProviderFailureKind
  unsupported_capability : ProviderFailureKind
  insufficient_credits : ProviderFailureKind
  bad_request : ProviderFailureKind
  policy_refusal : ProviderFailureKind
  invalid_response : ProviderFailureKind

pub record HealthState : Type 0 where
  pub availability_state : String
  pub consecutive_strikes : ℕ
  pub benched_until : Option ℕ
  pub last_failure_kind : Option ProviderFailureKind
  pub last_failure_at : Option ℕ
  pub last_success_at : Option ℕ
  pub version : ℕ

-- `HealthState()`
abbrev pub new_health : HealthState
new_health = record {
  availability_state = "ready";
  consecutive_strikes = 0;
  benched_until = none;
  last_failure_kind = none;
  last_failure_at = none;
  last_success_at = none;
  version = 1;
}

unfoldable pub is_eligible : HealthState → ℕ → Bool
is_eligible s now =
    str_eq s.availability_state "ready"
    && elim s.benched_until [ none ↦ true | some until ↦ leb until now ]

-- `_NO_STRIKE`
abbrev pub no_strike : ProviderFailureKind → Bool
no_strike ProviderFailureKind.context_overflow = true
no_strike ProviderFailureKind.bad_request = true
no_strike ProviderFailureKind.policy_refusal = true
no_strike _ = false

-- `_CREDENTIAL_FAILURES`
abbrev pub credential_failures : ProviderFailureKind → Bool
credential_failures ProviderFailureKind.auth_invalid = true
credential_failures _ = false

-- `_IMMEDIATE_BENCH`
abbrev pub immediate_bench : ProviderFailureKind → Bool
immediate_bench ProviderFailureKind.rate_limited = true
immediate_bench ProviderFailureKind.model_not_found = true
immediate_bench ProviderFailureKind.unsupported_capability = true
immediate_bench ProviderFailureKind.insufficient_credits = true
immediate_bench _ = false

abbrev pub seconds : ℕ → ℕ
seconds n = n * 1000000

-- `min(900, max(1, n))`; a Retry-After below 0 is clamped to 1 as 0 is.
abbrev pub clamped : ℕ → ℕ
clamped n = let low = if leb 1 n then n else 1 in if leb 900 low then 900 else low

abbrev pub duration : ProviderFailureKind → Option ℕ → ℕ
duration ProviderFailureKind.rate_limited none = clamped 30
duration ProviderFailureKind.rate_limited (some retry_after_seconds) = clamped retry_after_seconds
duration _ _ = 30

unfoldable pub apply_failure : HealthState → ProviderFailureKind → ℕ → Option ℕ → HealthState
apply_failure s kind now retry_after_seconds =
    let noted = record s {
      last_failure_kind = some kind;
      last_failure_at = some now;
      version = s.version + 1;
    } in
    let strikes = s.consecutive_strikes + 1 in
    if credential_failures kind
    then record noted { availability_state = "credential_invalid" }
    else if no_strike kind
    then noted
    else record noted {
      consecutive_strikes = strikes;
      benched_until =
          if immediate_bench kind || leb 3 strikes
          then some (now + seconds (duration kind retry_after_seconds))
          else s.benched_until;
    }

unfoldable pub apply_success : HealthState → ℕ → HealthState
apply_success s now = record s {
  availability_state = "ready";
  consecutive_strikes = 0;
  benched_until = none;
  last_success_at = some now;
  version = s.version + 1;
}

unfoldable pub cleanup_expired : HealthState → ℕ → HealthState
cleanup_expired s now =
    if elim s.benched_until [ none ↦ false | some until ↦ leb until now ]
      && str_eq s.availability_state "ready"
    then record s { benched_until = none; version = s.version + 1 }
    else s
