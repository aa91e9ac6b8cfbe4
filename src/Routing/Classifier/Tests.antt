-- ===== src/Routing/Classifier/Tests.antt =====
-- Runs of sidecar/ibreeze/routing/classifier.py, alone and before a plan, and instances of its theorems.
use i_breeze.Prelude.{true, ◌≡◌, refl, some, List, [], ◌∷◌, lookup, put}
use i_breeze.Result.{ok}
use i_breeze.Routing.Health.{is_eligible}
use i_breeze.Routing.Engine.{
  RoutingMode, RouteRole, Candidate, RoutingContext, RoutePlan, insert, sorted,
}
use i_breeze.Routing.Engine.Gate.{capability_gate, rejection, health_for}
use i_breeze.Routing.Engine.Ensemble.{
  pick, pick_next, first_n, line_up, select_proposer_candidates, should_ensemble, provider_count,
  vision_count,
}
use i_breeze.Routing.Engine.Plan.{
  effective_mode, find_id, by_id, first_found, ranked_singles, planned_fallback, ensemble_of,
  plan_primary, plan_mode, plan,
}
use i_breeze.Routing.Engine.Tests.{model, orders, context, policy, plan_of}
use i_breeze.Routing.Classifier.{
  raise_to, raise_if, note_failures, is_conflict, asked_for, tally, confidence_of, classify,
  tier_of,
}
use i_breeze.Routing.Classifier.Tiers.{classify-tier_of}
use i_breeze.Routing.Classifier.Ensembles.{has_cause, plan-has_cause}

abbrev failing : RoutingContext
failing = record context {
  prior_tool_failures = 1;
  context_pressure = 80;
  verification_failures = 0;
}

classify_run :
    ((classify failing).required_tier ≡ 3)
    × ((classify failing).confidence ≡ 85)
    × ((classify failing).rules ≡ "context_pressure" ∷ "failure_history" ∷ [])
    × ((classify context).rules ≡ "verification_failure" ∷ [])
    × ((classify context).policy_trail ≡ ("verification_failure", 3) ∷ [])
    × ((classify (record context { operator_forced_mode = some "fast" })).confidence ≡ 40)
unfolding classify tally asked_for raise_if raise_to note_failures is_conflict confidence_of
classify_run = (refl, refl, refl, refl, refl, refl)

classify-tier_of_example : (classify failing).required_tier ≡ tier_of failing
classify-tier_of_example = classify-tier_of failing

abbrev strong : List Candidate
strong = model "b" 3 true ∷ model "a" 3 true ∷ []

abbrev planned_strong : RoutePlan
planned_strong =
    plan_of
      (plan orders context (classify context) strong [] 5 (policy RoutingMode.selective_ensemble))

ensemble_run :
    plan orders context (classify context) strong [] 5 (policy RoutingMode.selective_ensemble)
    ≡ ok planned_strong
unfolding plan plan_mode effective_mode ranked_singles sorted insert capability_gate rejection
    health_for is_eligible classify tally asked_for raise_if raise_to note_failures is_conflict
    confidence_of
ensemble_run = refl

aggregator_run :
    planned_strong.aggregator
    ≡ some (record { candidate = model "a" 3 true; role = RouteRole.aggregator })
unfolding plan plan_mode plan_primary effective_mode ranked_singles find_id by_id first_found
    planned_fallback ensemble_of sorted insert capability_gate rejection health_for is_eligible pick
    pick_next first_n line_up select_proposer_candidates should_ensemble provider_count vision_count
    lookup put classify tally asked_for raise_if raise_to note_failures is_conflict confidence_of
aggregator_run = refl

plan-has_cause_example : has_cause context ≡ true
plan-has_cause_example =
    plan-has_cause orders context strong [] 5 (policy RoutingMode.selective_ensemble) planned_strong
      (record { candidate = model "a" 3 true; role = RouteRole.aggregator }) ensemble_run
      aggregator_run
