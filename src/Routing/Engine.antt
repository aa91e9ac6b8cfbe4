-- ===== src/Routing/Engine.antt =====
-- sidecar/ibreeze/routing/engine.py and the selection of sidecar/ibreeze/routing/ensemble.py. A candidate is a
-- dict with the defaults of its missing keys filled in. The decimal scores appear as the orders by which
-- the code sorts (Orders); confidence is a number of hundredths.
pub mod Gate
pub mod Ensemble
pub mod Plan
pub mod Members
pub mod Choices
pub mod Sound
pub mod Returns
pub mod Tests
use i_breeze.Prelude.{
  ℕ, ◌+◌, ltb, leb, ◌==◌, String, str_eq, Bool, true, false, not, ◌&&◌, ◌||◌, Option, none, some,
  List, [], ◌∷◌, if◌then◌else◌,
}

pub data RoutingMode : Type 0 where
  fixed smart_single selective_ensemble : RoutingMode

pub data RouteRole : Type 0 where
  single proposer aggregator fallback : RouteRole

-- `.value`
abbrev pub role_value : RouteRole → String
role_value single = "single"
role_value proposer = "proposer"
role_value aggregator = "aggregator"
role_value fallback = "fallback"

pub record Candidate : Type 0 where
  pub candidate_id : String
  pub company_id : String
  pub provider_release_id : String
  pub model_binding_id : String
  pub credential_ref : String
  pub eligible_roles : List String
  pub routing_enabled : Bool
  pub routing_tier : ℕ
  pub supports_tools : Bool
  pub supports_vision : Bool
  pub supports_streaming : Bool
  pub max_output_tokens : ℕ
  pub context_window : ℕ

pub record DeploymentKey : Type 0 where
  pub company_id : String
  pub provider_release_id : String
  pub model_binding_id : String
  pub credential_ref : String

-- The fields of a `RoutingContext` that are read here. `context_pressure` is in whole hundredths, rounded down,
-- which keeps its comparisons with 0.75 and 0.90.
pub record RoutingContext : Type 0 where
  pub run_purpose : String
  pub message_char_count : ℕ
  pub context_pressure : ℕ
  pub contains_code : Bool
  pub contains_structured_schema : Bool
  pub contains_review_signal : Bool
  pub prior_tool_failures : ℕ
  pub tool_count : ℕ
  pub attachment_types : List String
  pub estimated_input_tokens : ℕ
  pub operator_forced_mode : Option String
  pub input_origin : String
  pub provider_failures : ℕ
  pub verification_failures : ℕ
  pub open_blocker_high_count : ℕ

-- A `TierDecision`; `required_tier` is the digit of its text, from 0 to 3.
pub record TierDecision : Type 0 where
  pub required_tier : ℕ
  pub confidence : ℕ
  pub rules : List String
  pub policy_trail : List (String × ℕ)

-- The fields of a `ValidatedRoutingPolicy` that are read here.
pub record RoutingPolicy : Type 0 where
  pub mode : RoutingMode
  pub anchor_candidate_id : String
  pub fallback_order : List String
  pub max_proposers : ℕ

-- The orders of the sort keys: by score for a tier, the one of the proposers, by diversity from an anchor,
-- by quality and by latency.
pub record Orders : Type 0 where
  pub by_score : ℕ → Candidate → Candidate → Bool
  pub by_quality_score : Candidate → Candidate → Bool
  pub by_diversity : Candidate → Candidate → Candidate → Bool
  pub by_quality : Candidate → Candidate → Bool
  pub by_latency : Candidate → Candidate → Bool

pub record PlannedDeployment : Type 0 where
  pub candidate : Candidate
  pub role : RouteRole

pub record RoutePlan : Type 0 where
  pub mode : RoutingMode
  pub selected_kind : String
  pub selected : List PlannedDeployment
  pub fallback : List PlannedDeployment
  pub aggregator : Option PlannedDeployment
  pub required_tier : ℕ
  pub confidence : ℕ

-- `sorted` by an order, which keeps what is equal in place.
unfoldable pub insert : (Candidate → Candidate → Bool) → Candidate → List Candidate → List Candidate
insert before c [] = c ∷ []
insert before c (d ∷ ds) =
    let later = insert before c ds in if before d c then d ∷ later else c ∷ d ∷ ds

unfoldable pub sorted : (Candidate → Candidate → Bool) → List Candidate → List Candidate
sorted before [] = []
sorted before (c ∷ cs) = insert before c (sorted before cs)
