-- ===== src/Routing/History.antt =====
-- Histories of one deployment: what sidecar/ibreeze/routing/health.py does with a sequence of reports.
use i_breeze.Prelude.{
  ℕ, ◌+◌, Bool, true, false, ◌≡◌, refl, Option, if◌then◌else◌, List, [], ◌∷◌, arith, ap, ◌∙◌,
}
use i_breeze.Routing.Health.{
  ProviderFailureKind, HealthState, no_strike, credential_failures, apply_failure, apply_success,
  cleanup_expired,
}

pub data Event : Type 0 where
  failure : ProviderFailureKind → ℕ → Option ℕ → Event
  success : ℕ → Event
  cleanup : ℕ → Event

unfoldable pub apply : HealthState → Event → HealthState
apply s (failure kind now retry) = apply_failure s kind now retry
apply s (success now) = apply_success s now
apply s (cleanup now) = cleanup_expired s now

unfoldable pub replay : HealthState → List Event → HealthState
replay s [] = s
replay s (e ∷ es) = replay (apply s e) es

abbrev pub strikes : ProviderFailureKind → Bool
strikes kind = if credential_failures kind then false else if no_strike kind then false else true

-- The striking failures since the last success, counted on top of `n` from before.
abbrev pub strikes_since_success : ℕ → List Event → ℕ
strikes_since_success n [] = n
strikes_since_success n (failure kind now retry ∷ es) =
    strikes_since_success (if strikes kind then n + 1 else n) es
strikes_since_success n (success now ∷ es) = strikes_since_success 0 es
strikes_since_success n (cleanup now ∷ es) = strikes_since_success n es

cleanup-strikes :
    (s : HealthState) (now : ℕ)
    → (cleanup_expired s now).consecutive_strikes ≡ s.consecutive_strikes
unfolding cleanup_expired
cleanup-strikes s now = ground arith

success-strikes : (s : HealthState) (now : ℕ) → (apply_success s now).consecutive_strikes ≡ 0
unfolding apply_success
success-strikes s now = refl

failure-strikes :
    (s : HealthState) (kind : ProviderFailureKind) (now : ℕ) (retry : Option ℕ)
    → (apply_failure s kind now retry).consecutive_strikes
      ≡ (if strikes kind then s.consecutive_strikes + 1 else s.consecutive_strikes)
unfolding apply_failure
failure-strikes s kind now retry = ground arith

-- Whatever happened to a deployment, its strike counter is the number of striking failures since the
-- last success, added to the counter it started with if there was no success: cleanup, credential
-- failures and the kinds of _NO_STRIKE never count.
pub replay-strikes_since :
    (s : HealthState) (es : List Event)
    → (replay s es).consecutive_strikes ≡ strikes_since_success s.consecutive_strikes es
unfolding replay apply
replay-strikes_since s [] = refl
replay-strikes_since s (failure kind now retry ∷ es) =
    replay-strikes_since (apply_failure s kind now retry) es
    ∙ ap (λ n. strikes_since_success n es) (failure-strikes s kind now retry)
replay-strikes_since s (success now ∷ es) =
    replay-strikes_since (apply_success s now) es
    ∙ ap (λ n. strikes_since_success n es) (success-strikes s now)
replay-strikes_since s (cleanup now ∷ es) =
    replay-strikes_since (cleanup_expired s now) es
    ∙ ap (λ n. strikes_since_success n es) (cleanup-strikes s now)

-- No report that the deployment works.
abbrev pub unsuccessful : List Event → Bool
unsuccessful [] = true
unsuccessful (success now ∷ es) = false
unsuccessful (failure kind now retry ∷ es) = unsuccessful es
unsuccessful (cleanup now ∷ es) = unsuccessful es
