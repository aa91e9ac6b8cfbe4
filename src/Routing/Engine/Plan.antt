-- ===== src/Routing/Engine/Plan.antt =====
-- `RoutingPolicyEngine.plan` of sidecar/ibreeze/routing/engine.py.
use i_breeze.Prelude.{
  ℕ, leb, String, str_eq, Bool, true, false, not, ◌&&◌, ◌||◌, Option, none, some, List, [], ◌∷◌,
  ◌++◌, map, keep_if, contains, lookup, put, length, if◌then◌else◌,
}
use i_breeze.Result.{Result, ok, err, ◌>>=◌}
use i_breeze.Routing.Engine.{
  RoutingMode, RouteRole, Candidate, RoutingContext, TierDecision, RoutingPolicy, Orders,
  PlannedDeployment, RoutePlan, sorted,
}
use i_breeze.Routing.Engine.Gate.{Health, capability_gate}
use i_breeze.Routing.Engine.Ensemble.{select_proposer_candidates, should_ensemble}

abbrev pub is_fixed : RoutingMode → Bool
is_fixed RoutingMode.fixed = true
is_fixed _ = false

abbrev pub is_selective : RoutingMode → Bool
is_selective RoutingMode.selective_ensemble = true
is_selective _ = false

-- `context.operator_forced_mode` and the mode of the policy
unfoldable pub effective_mode : Option String → RoutingMode → Result String RoutingMode
effective_mode none mode = ok mode
effective_mode (some forced) mode =
    if str_eq forced "force_ensemble"
    then if is_selective mode then ok mode else err "ROUTING_OVERRIDE_NOT_AVAILABLE"
    else if str_eq forced "force_fixed"
    then ok RoutingMode.fixed
    else if str_eq forced "force_single"
    then ok (if is_selective mode then RoutingMode.smart_single else mode)
    else ok RoutingMode.fixed

-- `next(c for c in candidates if ...)`
unfoldable pub find_id : String → List Candidate → Option Candidate
find_id i [] = none
find_id i (c ∷ cs) = if str_eq c.candidate_id i then some c else find_id i cs

-- `{c["candidate_id"]: c for c in candidates}`
unfoldable pub by_id : List (String × Candidate) → List Candidate → List (String × Candidate)
by_id d [] = d
by_id d (c ∷ cs) = by_id (put c.candidate_id c d) cs

unfoldable pub first_found : List String → List (String × Candidate) → Option Candidate
first_found [] d = none
first_found (i ∷ ids) d = elim (lookup i d) [ none ↦ first_found ids d | some c ↦ some c ]

-- The anchor of a fixed run: the one of the policy, or the first of its fallback chain.
unfoldable pub fixed_anchor : RoutingPolicy → List Candidate → List Candidate → Option Candidate
fixed_anchor policy singles fallbacks = elim (find_id policy.anchor_candidate_id singles) [
  | some c ↦ some c
  | none ↦ first_found policy.fallback_order (by_id [] fallbacks)
]

-- The single candidates in order of their scores; the first is the primary.
unfoldable pub ranked_singles :
    Orders → RoutingPolicy → Bool → ℕ → List Candidate → List Candidate → List Candidate
ranked_singles orders policy true tier singles fallbacks =
    elim (fixed_anchor policy singles fallbacks) [ none ↦ [] | some c ↦ c ∷ [] ]
ranked_singles orders policy false tier singles fallbacks = sorted (orders.by_score tier) singles

-- The fallbacks with these ids, less the primary.
unfoldable pub planned_fallback :
    String → List String → List (String × Candidate) → List PlannedDeployment
planned_fallback primary [] d = []
planned_fallback primary (i ∷ ids) d =
    let rest = planned_fallback primary ids d in
    elim (lookup i d) [
      | none ↦ rest
      | some c ↦
          if str_eq i primary
          then rest
          else record { candidate = c; role = RouteRole.fallback } ∷ rest
    ]

abbrev pub fallback_ids : RoutingPolicy → List Candidate → List String
fallback_ids policy ranked =
    policy.fallback_order
    ++ map Candidate.candidate_id
        (keep_if (λ c. not (contains c.candidate_id policy.fallback_order)) ranked)

abbrev pub propose : Candidate → PlannedDeployment
propose c = record { candidate = c; role = RouteRole.proposer }

-- `min(4, policy.ensemble.max_proposers, len(proposers))`
abbrev pub smaller : ℕ → ℕ → ℕ
smaller a b = if leb a b then a else b

abbrev pub head_of : List Candidate → Option Candidate
head_of [] = none
head_of (c ∷ _) = some c

abbrev pub is_forced : Option String → Bool
is_forced none = false
is_forced (some f) = str_eq f "force_ensemble"

-- The candidates of an ensemble and its aggregator, if there is to be one.
unfoldable pub ensemble_of :
    Orders
    → RoutingContext
    → TierDecision
    → RoutingPolicy
    → ℕ
    → List Candidate
    → List Candidate
    → Option (List Candidate × Candidate)
ensemble_of orders context tier policy required proposers aggregators =
    let scored = sorted (orders.by_score required) proposers in
    let best = head_of (sorted (orders.by_score required) aggregators) in
    let most = smaller 4 (smaller policy.max_proposers (length scored)) in
    let line = select_proposer_candidates orders scored most required in
    elim best [
      | none ↦ none
      | some a ↦
          if should_ensemble context tier.confidence required most
            (is_forced context.operator_forced_mode) line (some a)
          then some (line, a)
          else none
    ]

-- The gate for a role.
abbrev pub gate_of :
    RoutingContext → List Candidate → Health → ℕ → ℕ → RouteRole → Bool → List Candidate
gate_of context candidates health now required role allow_anchor_disabled =
    (capability_gate
      (record {
        context = context;
        role = role;
        required = required;
        allow_anchor_disabled = allow_anchor_disabled;
        health = health;
        now = now;
      })
      candidates).eligible

-- The plan with its primary, its fallbacks, and an ensemble or none.
abbrev pub route_plan :
    RoutingMode
    → ℕ
    → ℕ
    → Candidate
    → List PlannedDeployment
    → Option (List Candidate × Candidate)
    → RoutePlan
route_plan mode required confidence primary fallback none = record {
  mode = mode;
  selected_kind = "single";
  selected = record { candidate = primary; role = RouteRole.single } ∷ [];
  fallback = fallback;
  aggregator = none;
  required_tier = required;
  confidence = confidence;
}
route_plan mode required confidence primary fallback (some (line, a)) = record {
  mode = mode;
  selected_kind = "ensemble";
  selected = map propose line;
  fallback = fallback;
  aggregator = some (record { candidate = a; role = RouteRole.aggregator });
  required_tier = required;
  confidence = confidence;
}

-- The tier that the gates ask for, and the single candidates in their order.
abbrev pub required_of : RoutingMode → TierDecision → ℕ
required_of mode tier = if is_fixed mode then 0 else tier.required_tier

abbrev pub ranked_of :
    Orders
    → RoutingContext
    → TierDecision
    → List Candidate
    → Health
    → ℕ
    → RoutingPolicy
    → RoutingMode
    → List Candidate
ranked_of orders context tier candidates health now policy mode =
    let gate = gate_of context candidates health now (required_of mode tier) in
    ranked_singles orders policy (is_fixed mode) (required_of mode tier)
      (gate RouteRole.single (is_fixed mode)) (gate RouteRole.fallback false)

-- `plan`, once the mode and the primary are known.
unfoldable pub plan_primary :
    Orders
    → RoutingContext
    → TierDecision
    → List Candidate
    → Health
    → ℕ
    → RoutingPolicy
    → RoutingMode
    → List Candidate
    → Candidate
    → RoutePlan
plan_primary orders context tier candidates health now policy mode ranked primary =
    let required = required_of mode tier in
    let gate = gate_of context candidates health now required in
    route_plan mode required tier.confidence primary
      (planned_fallback primary.candidate_id (fallback_ids policy ranked)
        (by_id [] (gate RouteRole.fallback false)))
      (if is_selective mode
          && (str_eq context.input_origin "production" || str_eq context.input_origin "evaluation")
        then ensemble_of orders context tier policy required (gate RouteRole.proposer false)
            (gate RouteRole.aggregator false)
        else none)

-- `plan`, once the mode is known.
unfoldable pub plan_mode :
    Orders
    → RoutingContext
    → TierDecision
    → List Candidate
    → Health
    → ℕ
    → RoutingPolicy
    → RoutingMode
    → Result String RoutePlan
plan_mode orders context tier candidates health now policy mode =
    let ranked = ranked_of orders context tier candidates health now policy mode in
    elim (head_of ranked) [
      | none ↦ err "MODEL_CAPABILITY_UNAVAILABLE"
      | some primary ↦
          ok (plan_primary orders context tier candidates health now policy mode ranked primary)
    ]

-- `RoutingPolicyEngine.plan`
unfoldable pub plan :
    Orders
    → RoutingContext
    → TierDecision
    → List Candidate
    → Health
    → ℕ
    → RoutingPolicy
    → Result String RoutePlan
plan orders context tier candidates health now policy = do
  mode ← effective_mode context.operator_forced_mode policy.mode
  plan_mode orders context tier candidates health now policy mode
