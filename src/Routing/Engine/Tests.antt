-- ===== src/Routing/Engine/Tests.antt =====
-- Runs of sidecar/ibreeze/routing/engine.py and ensemble.py beside it, and instances of their theorems.
use i_breeze.Prelude.{
  ℕ, String, str_eq, Bool, true, false, not, ◌&&◌, ◌≡◌, refl, none, List, [], ◌∷◌, map, lookup, put,
}
use i_breeze.Result.{Result, ok, err}
use i_breeze.Routing.Health.{is_eligible}
use i_breeze.Routing.Engine.{
  RoutingMode, Candidate, RoutingContext, TierDecision, RoutingPolicy, Orders, RoutePlan, insert,
  sorted,
}
use i_breeze.Routing.Engine.Gate.{capability_gate, rejection, health_for}
use i_breeze.Routing.Engine.Ensemble.{
  pick, pick_next, first_n, line_up, select_proposer_candidates, default_quorum, should_ensemble,
  provider_count, vision_count,
}
use i_breeze.Routing.Engine.Plan.{
  effective_mode, find_id, by_id, first_found, fixed_anchor, ranked_singles, planned_fallback,
  ensemble_of, plan_primary, plan_mode, plan,
}
use i_breeze.Routing.Engine.Sound.{IsSound, plan-IsSound}

abbrev all_roles : List String
all_roles = "single" ∷ "proposer" ∷ "aggregator" ∷ "fallback" ∷ []

abbrev pub model : String → ℕ → Bool → Candidate
model id tier enabled = record {
  candidate_id = id;
  company_id = "c";
  provider_release_id = id;
  model_binding_id = "m";
  credential_ref = "k";
  eligible_roles = all_roles;
  routing_enabled = enabled;
  routing_tier = tier;
  supports_tools = true;
  supports_vision = false;
  supports_streaming = true;
  max_output_tokens = 1000;
  context_window = 200000;
}

-- Candidates stand in the order of their ids.
abbrev by_name : Candidate → Candidate → Bool
by_name a b = str_eq a.candidate_id "a" && not (str_eq b.candidate_id "a")

abbrev pub orders : Orders
orders = record {
  by_score = λ tier. by_name;
  by_quality_score = by_name;
  by_diversity = λ anchor. by_name;
  by_quality = by_name;
  by_latency = by_name;
}

abbrev pub context : RoutingContext
context = record {
  run_purpose = "task_execution";
  message_char_count = 2000;
  context_pressure = 1;
  contains_code = false;
  contains_structured_schema = false;
  contains_review_signal = true;
  prior_tool_failures = 0;
  tool_count = 1;
  attachment_types = [];
  estimated_input_tokens = 500;
  operator_forced_mode = none;
  input_origin = "production";
  provider_failures = 0;
  verification_failures = 1;
  open_blocker_high_count = 0;
}

abbrev tier : TierDecision
tier = record { required_tier = 2; confidence = 70; rules = []; policy_trail = [] }

abbrev candidates : List Candidate
candidates = model "b" 2 true ∷ model "a" 3 true ∷ model "d" 1 true ∷ model "e" 3 false ∷ []

abbrev pub policy : RoutingMode → RoutingPolicy
policy mode = record {
  mode = mode;
  anchor_candidate_id = "e";
  fallback_order = "d" ∷ "b" ∷ [];
  max_proposers = 3;
}

abbrev planned : RoutingMode → Result String RoutePlan
planned mode = plan orders context tier candidates [] 5 (policy mode)

abbrev shown : Result String RoutePlan → List String × List String
shown (err e) = (e ∷ [], [])
shown (ok p) =
    (map (λ d. d.candidate.candidate_id) p.selected, map (λ d. d.candidate.candidate_id) p.fallback)

plan_run :
    (shown (planned RoutingMode.fixed) ≡ ("e" ∷ [], "d" ∷ "b" ∷ []))
    × (shown (planned RoutingMode.smart_single) ≡ ("a" ∷ [], "b" ∷ []))
    × (shown (planned RoutingMode.selective_ensemble) ≡ ("a" ∷ "b" ∷ [], "b" ∷ []))
unfolding plan plan_mode plan_primary effective_mode ranked_singles fixed_anchor find_id by_id
    first_found planned_fallback ensemble_of sorted insert capability_gate rejection health_for
    is_eligible pick pick_next first_n line_up select_proposer_candidates should_ensemble
    provider_count vision_count lookup put
plan_run = (refl, refl, refl)

default_quorum_run : (default_quorum 3 ≡ ok 2) × (default_quorum 4 ≡ ok 3)
unfolding default_quorum
default_quorum_run = (refl, refl)

abbrev pub plan_of : Result String RoutePlan → RoutePlan
plan_of (ok p) = p
plan_of (err e) = record {
  mode = RoutingMode.fixed;
  selected_kind = e;
  selected = [];
  fallback = [];
  aggregator = none;
  required_tier = 0;
  confidence = 0;
}

ensemble_run :
    planned RoutingMode.selective_ensemble ≡ ok (plan_of (planned RoutingMode.selective_ensemble))
unfolding plan plan_mode effective_mode ranked_singles sorted insert capability_gate rejection
    health_for is_eligible
ensemble_run = refl

plan-IsSound_example :
    (mode : RoutingMode) × (effective_mode none RoutingMode.selective_ensemble ≡ ok mode)
    × IsSound context tier candidates [] 5 mode (plan_of (planned RoutingMode.selective_ensemble))
plan-IsSound_example =
    plan-IsSound context tier candidates [] 5 orders (policy RoutingMode.selective_ensemble)
      (plan_of (planned RoutingMode.selective_ensemble)) ensemble_run
