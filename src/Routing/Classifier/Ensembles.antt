-- ===== src/Routing/Classifier/Ensembles.antt =====
-- When a plan of sidecar/ibreeze/routing/engine.py for a context that classifier.py has classified is an ensemble.
use i_breeze.Prelude.{
  ℕ, ltb, leb, ◌==◌, String, Bool, true, false, ◌||◌, ◌≡◌, refl, ap, ◌∙◌, Bool-cases, inl, inr,
  length, Option, none, some, List, if◌then◌else◌, arith,
}
use i_breeze.Result.{Result, ok, err, ok-injective, bind-Ran}
use i_breeze.Routing.Engine.{
  RoutingMode, Candidate, RoutingContext, TierDecision, RoutingPolicy, Orders, PlannedDeployment,
  RoutePlan, sorted,
}
use i_breeze.Routing.Engine.Gate.{Health}
use i_breeze.Routing.Engine.Ensemble.{select_proposer_candidates, should_ensemble}
use i_breeze.Routing.Engine.Plan.{
  is_selective, is_forced, smaller, effective_mode, head_of, ensemble_of, route_plan, ranked_of,
  plan_primary, plan_mode, plan,
}
use i_breeze.Routing.Classifier.{is_conflict, classify}
use i_breeze.Routing.Classifier.Confidence.{classify-low}

-- An operator who forces an ensemble, a failed verification, an open blocker, or two failures of a provider.
abbrev pub has_cause : RoutingContext → Bool
has_cause c =
    is_forced c.operator_forced_mode
    || (leb 1 c.verification_failures
        || (leb 1 c.open_blocker_high_count || leb 2 c.provider_failures))

effective_mode-known :
    (o : Option String) (mode m : RoutingMode)
    → effective_mode o mode ≡ ok m
    → is_selective m ≡ true
    → is_conflict o ≡ false
unfolding effective_mode is_conflict
effective_mode-known none mode m h s = refl
effective_mode-known (some forced) mode RoutingMode.fixed h s = ground arith
effective_mode-known (some forced) mode RoutingMode.smart_single h s = ground arith
effective_mode-known (some forced) mode RoutingMode.selective_ensemble h s = ground arith

should_ensemble-caused :
    (c : RoutingContext) (confidence tier most : ℕ) (line : List Candidate) (a : Candidate)
    → ltb confidence 70 ≡ (tier == 0)
    → should_ensemble c confidence tier most (is_forced c.operator_forced_mode) line (some a) ≡ true
    → has_cause c ≡ true
unfolding should_ensemble
should_ensemble-caused c confidence tier most line a l h = ground arith

ensemble_of-caused :
    (orders : Orders) (c : RoutingContext) (tier : TierDecision) (policy : RoutingPolicy)
    (required : ℕ) (proposers aggregators : List Candidate) (chosen : List Candidate × Candidate)
    → ltb tier.confidence 70 ≡ (required == 0)
    → ensemble_of orders c tier policy required proposers aggregators ≡ some chosen
    → has_cause c ≡ true
unfolding ensemble_of
ensemble_of-caused orders c tier policy required proposers aggregators chosen l h =
    go (head_of (sorted (orders.by_score required) aggregators)) h
  where
    scored : List Candidate
    scored = sorted (orders.by_score required) proposers

    most : ℕ
    most = smaller 4 (smaller policy.max_proposers (length scored))

    line : List Candidate
    line = select_proposer_candidates orders scored most required

    wanted : Candidate → Bool
    wanted a =
        should_ensemble c tier.confidence required most (is_forced c.operator_forced_mode) line
          (some a)

    go :
        (o : Option Candidate)
        → ◌≡◌ {A = Option (List Candidate × Candidate)}
            (elim o [ none ↦ none | some a ↦ if wanted a then some (line, a) else none ])
            (some chosen)
        → has_cause c ≡ true
    go none k = ground arith
    go (some a) k = elim (Bool-cases (wanted a)) [
      | inl e ↦ should_ensemble-caused c tier.confidence required most line a l e
      | inr e ↦ ground arith
    ]

-- An aggregator is only in a plan that was given an ensemble.
route_plan-given :
    (mode : RoutingMode) (required confidence : ℕ) (primary : Candidate)
    (fallback : List PlannedDeployment) (o : Option (List Candidate × Candidate))
    (d : PlannedDeployment)
    → (route_plan mode required confidence primary fallback o).aggregator ≡ some d
    → (chosen : List Candidate × Candidate) × (o ≡ some chosen)
route_plan-given mode required confidence primary fallback none d h = ground arith
route_plan-given mode required confidence primary fallback (some chosen) d h = (chosen, refl)

module _ (orders : Orders) (c : RoutingContext) (candidates : List Candidate) (health : Health)
    (now : ℕ) (policy : RoutingPolicy) where
  plan_primary-caused :
      (mode : RoutingMode) (ranked : List Candidate) (primary : Candidate) (d : PlannedDeployment)
      → (is_selective mode ≡ true → is_conflict c.operator_forced_mode ≡ false)
      → (plan_primary orders c
          (classify c)
          candidates
          health
          now
          policy
          mode
          ranked
          primary).aggregator
        ≡ some d
      → has_cause c ≡ true
  unfolding plan_primary
  plan_primary-caused RoutingMode.fixed ranked primary d k h = ground arith
  plan_primary-caused RoutingMode.smart_single ranked primary d k h = ground arith
  plan_primary-caused RoutingMode.selective_ensemble ranked primary d k h =
      team _ _ _ (route_plan-given RoutingMode.selective_ensemble _ _ primary _ _ d h)
    where
      low : ltb (classify c).confidence 70 ≡ ((classify c).required_tier == 0)
      low = classify-low c ∙ ap (λ b. b || (classify c).required_tier == 0) (k refl)

      team :
          (b : Bool) (proposers aggregators : List Candidate)
          → (chosen : List Candidate × Candidate) × ((if b
                then ensemble_of orders c
                    (classify c)
                    policy
                    (classify c).required_tier
                    proposers
                    aggregators
                else none)
              ≡ some chosen)
          → has_cause c ≡ true
      team true proposers aggregators r =
          ensemble_of-caused orders c (classify c) policy _ _ _ r.0 low r.1
      team false proposers aggregators r = let z = r.1 in ground arith

  plan_mode-caused :
      (mode : RoutingMode) (p : RoutePlan) (d : PlannedDeployment)
      → (is_selective mode ≡ true → is_conflict c.operator_forced_mode ≡ false)
      → plan_mode orders c (classify c) candidates health now policy mode ≡ ok p
      → p.aggregator ≡ some d
      → has_cause c ≡ true
  unfolding plan_mode
  plan_mode-caused mode p d k h e = go (head_of ranked) h
    where
      ranked : List Candidate
      ranked = ranked_of orders c (classify c) candidates health now policy mode

      go :
          (o : Option Candidate)
          → ◌≡◌ {A = Result String RoutePlan}
              (elim o [
                | none ↦ err "MODEL_CAPABILITY_UNAVAILABLE"
                | some primary ↦ ok (
                    plan_primary orders c
                      (classify c)
                      candidates
                      health
                      now
                      policy
                      mode
                      ranked
                      primary)
              ])
              (ok p)
          → has_cause c ≡ true
      go none q = ground arith
      go (some primary) q =
          plan_primary-caused mode ranked primary d k (ap RoutePlan.aggregator (ok-injective q) ∙ e)

  -- A plan for a classified context has an aggregator only if the operator forces an ensemble, a verification has failed, a blocker or high issue is open, or a provider has failed twice: what the classifier says of its confidence never starts one.
  pub plan-has_cause :
      (p : RoutePlan) (d : PlannedDeployment)
      → plan orders c (classify c) candidates health now policy ≡ ok p
      → p.aggregator ≡ some d
      → has_cause c ≡ true
  unfolding plan
  plan-has_cause p d h e =
      let r = bind-Ran (effective_mode c.operator_forced_mode policy.mode) _ h in
      plan_mode-caused r.value p d
        (effective_mode-known c.operator_forced_mode policy.mode r.value r.first) r.after e
