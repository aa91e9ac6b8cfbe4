-- ===== src/Routing/Bench.antt =====
-- How long sidecar/ibreeze/routing/health.py keeps a deployment out of routing.
use i_breeze.Prelude.{
  ℕ, ◌+◌, ◌≤◌, leb, str_eq, Bool, true, false, ◌≡◌, refl, ◌&&◌, Option, none, some, if◌then◌else◌,
  List, [], ◌∷◌, arith, ap, ◌∙◌,
}
use i_breeze.Routing.Health.{
  ProviderFailureKind, HealthState, new_health, credential_failures, immediate_bench, seconds,
  clamped, duration, apply_failure, apply_success, cleanup_expired, is_eligible,
}
use i_breeze.Routing.History.{
  Event, failure, success, cleanup, apply, replay, strikes, strikes_since_success, unsuccessful,
  replay-strikes_since,
}

duration_le : (kind : ProviderFailureKind) (retry : Option ℕ) → duration kind retry ≤ 900
duration_le kind retry = ground arith

abbrev Invalid : HealthState → Type 0
Invalid s = s.availability_state ≡ "credential_invalid"

Invalid-is_eligible : (s : HealthState) (t : ℕ) → Invalid s → is_eligible s t ≡ false
unfolding is_eligible
Invalid-is_eligible s t i = rw i refl

failure-Invalid :
    (s : HealthState) (kind : ProviderFailureKind) (now : ℕ) (retry : Option ℕ)
    → Invalid s
    → Invalid (apply_failure s kind now retry)
unfolding apply_failure
failure-Invalid s kind now retry i = ground arith

cleanup-Invalid : (s : HealthState) (now : ℕ) → Invalid s → Invalid (cleanup_expired s now)
unfolding cleanup_expired
cleanup-Invalid s now i = ground arith

replay-Invalid :
    (s : HealthState) (es : List Event) → unsuccessful es ≡ true → Invalid s → Invalid (replay s es)
unfolding replay apply
replay-Invalid s [] u i = i
replay-Invalid s (failure kind now retry ∷ es) u i =
    replay-Invalid (apply_failure s kind now retry) es u (failure-Invalid s kind now retry i)
replay-Invalid s (success now ∷ es) u i = ground arith
replay-Invalid s (cleanup now ∷ es) u i =
    replay-Invalid (cleanup_expired s now) es u (cleanup-Invalid s now i)

refused-Invalid :
    (s : HealthState) (now : ℕ) (retry : Option ℕ)
    → Invalid (apply_failure s ProviderFailureKind.auth_invalid now retry)
unfolding apply_failure
refused-Invalid s now retry = refl

-- Once a credential was refused, a deployment is not eligible at any time t, whatever failures and
-- cleanups follow, until a success is reported.
pub refusal_absorbs :
    (s : HealthState) (now t : ℕ) (retry : Option ℕ) (es : List Event)
    → unsuccessful es ≡ true
    → is_eligible (replay (apply_failure s ProviderFailureKind.auth_invalid now retry) es) t ≡ false
refusal_absorbs s now t retry es u = Invalid-is_eligible _ t (
    replay-Invalid (apply_failure s ProviderFailureKind.auth_invalid now retry) es u
      (refused-Invalid s now retry))

-- The credentials were never refused.
abbrev pub accepted : List Event → Bool
accepted [] = true
accepted (failure kind now retry ∷ es) = if credential_failures kind then false else accepted es
accepted (success now ∷ es) = accepted es
accepted (cleanup now ∷ es) = accepted es

abbrev pub instant : Event → ℕ
instant (failure kind now retry) = now
instant (success now) = now
instant (cleanup now) = now

abbrev pub all_by : ℕ → List Event → Bool
all_by t [] = true
all_by t (e ∷ es) = leb (instant e) t && all_by t es

-- Ready, and benched for no longer than until `t`.
abbrev pub FreeBy : ℕ → HealthState → Type 0
FreeBy t s =
    (s.availability_state ≡ "ready")
    × (elim s.benched_until [ none ↦ true | some u ↦ leb u t ] ≡ true)

failure-FreeBy :
    (t : ℕ) (s : HealthState) (kind : ProviderFailureKind) (now : ℕ) (retry : Option ℕ)
    → credential_failures kind ≡ false
    → now ≤ t
    → FreeBy (t + seconds 900) s
    → FreeBy (t + seconds 900) (apply_failure s kind now retry)
unfolding apply_failure
failure-FreeBy t s kind now retry c le f = (ground arith, ground (arith, duration_le kind retry))

cleanup-FreeBy : (t : ℕ) (s : HealthState) (now : ℕ) → FreeBy t s → FreeBy t (cleanup_expired s now)
unfolding cleanup_expired
cleanup-FreeBy t s now f = (ground arith, ground arith)

success-FreeBy : (t : ℕ) (s : HealthState) (now : ℕ) → FreeBy t (apply_success s now)
unfolding apply_success
success-FreeBy t s now = (refl, refl)

replay-FreeBy :
    (t : ℕ) (s : HealthState) (es : List Event)
    → accepted es ≡ true
    → all_by t es ≡ true
    → FreeBy (t + seconds 900) s
    → FreeBy (t + seconds 900) (replay s es)
unfolding replay apply
replay-FreeBy t s [] a b f = f
replay-FreeBy t s (failure kind now retry ∷ es) a b f =
    replay-FreeBy t (apply_failure s kind now retry) es (ground arith) (ground arith)
      (failure-FreeBy t s kind now retry (ground arith) (ground arith) f)
replay-FreeBy t s (success now ∷ es) a b f =
    replay-FreeBy t (apply_success s now) es a (ground arith) (success-FreeBy _ s now)
replay-FreeBy t s (cleanup now ∷ es) a b f =
    replay-FreeBy t (cleanup_expired s now) es a (ground arith) (cleanup-FreeBy _ s now f)

FreeBy→eligible : (t : ℕ) (s : HealthState) → FreeBy t s → is_eligible s t ≡ true
unfolding is_eligible
FreeBy→eligible t s f = rw f.0 (rw f.1 refl)

-- A new deployment whose credentials were never refused is eligible again 900 seconds after the last
-- report at the latest, whatever was reported and whatever windows the provider asked for.
pub replay-eligible_again :
    (t : ℕ) (es : List Event)
    → accepted es ≡ true
    → all_by t es ≡ true
    → is_eligible (replay new_health es) (t + seconds 900) ≡ true
replay-eligible_again t es a b =
    FreeBy→eligible _ _ (replay-FreeBy t new_health es a b (refl, refl))

-- Striking failures that bench only when they add up.
abbrev pub gradual : ProviderFailureKind → Bool
gradual kind = if strikes kind then (if immediate_bench kind then false else true) else false

third_strike :
    (s : HealthState) (kind : ProviderFailureKind) (now t : ℕ) (retry : Option ℕ)
    → gradual kind ≡ true
    → is_eligible (apply_failure s kind now retry) t ≡ (
        if leb 2 s.consecutive_strikes
        then str_eq s.availability_state "ready" && leb (now + seconds 30) t
        else is_eligible s t)
unfolding apply_failure is_eligible
third_strike s kind now t retry g = ground arith

-- A failure of a kind that strikes without benching at once, after any history: if two or more strikes
-- were counted since the last success, the deployment is out for 30 seconds from then and no longer, or
-- for good if it was not ready; with fewer, its eligibility is what it was.
replay-third_strike :
    (es : List Event) (kind : ProviderFailureKind) (now t : ℕ) (retry : Option ℕ)
    → gradual kind ≡ true
    → is_eligible (apply_failure (replay new_health es) kind now retry) t ≡ (
        if leb 2 (strikes_since_success 0 es)
        then str_eq (replay new_health es).availability_state "ready" && leb (now + seconds 30) t
        else is_eligible (replay new_health es) t)
replay-third_strike es kind now t retry g =
    third_strike (replay new_health es) kind now t retry g
    ∙ ap
        (λ n.
          if leb 2 n
          then str_eq (replay new_health es).availability_state "ready" && leb (now + seconds 30) t
          else is_eligible (replay new_health es) t)
        (replay-strikes_since new_health es)

-- The window for a `Retry-After`: 30 seconds where there is none, 1 for 0, 900 above 900, and what it asks for
-- in between.
abbrev pub IsClamped : Option ℕ → ℕ → Type 0
IsClamped none d = d ≡ 30
IsClamped (some n) d = (n ≡ 0 → d ≡ 1) × (1 ≤ n → n ≤ 900 → d ≡ n) × (900 ≤ n → d ≡ 900)

-- A rate limit takes a ready deployment out for exactly the window of its `Retry-After`: the seconds that
-- are asked for, kept between 1 and 900, and 30 where none are named.
pub rate_limit-window :
    (s : HealthState) (now t : ℕ) (retry : Option ℕ)
    → s.availability_state ≡ "ready"
    → (d : ℕ) × IsClamped retry d
      × (is_eligible (apply_failure s ProviderFailureKind.rate_limited now retry) t
          ≡ leb (now + seconds d) t)
unfolding apply_failure is_eligible
rate_limit-window s now t none r = (30, refl, rw r refl)
rate_limit-window s now t (some n) r =
    (clamped n, (λ z. ground arith, λ a b. ground arith, λ a. ground arith), rw r refl)
