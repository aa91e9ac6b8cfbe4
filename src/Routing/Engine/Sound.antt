-- ===== src/Routing/Engine/Sound.antt =====
-- What a plan of sidecar/ibreeze/routing/engine.py guarantees.
use i_breeze.Prelude.{
  ℕ, ◌≤◌, String, str_eq, Bool, true, false, ◌&&◌, ◌≡◌, refl, subst, Option, none, some, List, [],
  ◌∷◌, map, length, Memᴰ, if◌then◌else◌, inl, inr, ◌⊎◌, arith,
}
use i_breeze.Result.{Result, ok, err, ok-injective, bind-Ran}
use i_breeze.Routing.Engine.{
  RoutingMode, RouteRole, Candidate, RoutingContext, TierDecision, RoutingPolicy, Orders,
  PlannedDeployment, RoutePlan,
}
use i_breeze.Routing.Engine.Gate.{Health, IsFit, capability_gate-IsFit}
use i_breeze.Routing.Engine.Plan.{
  is_fixed, is_selective, effective_mode, by_id, planned_fallback, propose, head_of, ensemble_of,
  gate_of, route_plan, required_of, ranked_of, plan_primary, plan_mode, plan,
}
use i_breeze.Routing.Engine.Choices.{ranked_singles-Mem, planned_fallback-Mem, ensemble_of-Mem}

module _ (context : RoutingContext) (tier : TierDecision) (candidates : List Candidate)
    (health : Health) (now : ℕ) where
  -- One of the candidates, and fit for a role under a mode.
  abbrev pub Fits : RoutingMode → RouteRole → Bool → Candidate → Type 0
  Fits mode role allow c =
      Memᴰ c candidates
      × IsFit
          (record {
            context = context;
            role = role;
            required = required_of mode tier;
            allow_anchor_disabled = allow;
            health = health;
            now = now;
          })
          c

  -- Who is selected: one candidate that is fit for the role single, or in a fixed run for the role
  -- fallback, and no other fallback has its id; or two to four proposers with an aggregator.
  pub data Selection (mode : RoutingMode) (p : RoutePlan) : Type 0 where
    alone :
        (c : Candidate)
        → p.selected ≡ record { candidate = c; role = RouteRole.single } ∷ []
        → p.aggregator ≡ none
        → Fits mode RouteRole.single (is_fixed mode) c
          ⊎ (Fits mode RouteRole.fallback false c × (is_fixed mode ≡ true))
        → ((d : PlannedDeployment)
            → Memᴰ d p.fallback
            → str_eq d.candidate.candidate_id c.candidate_id ≡ false)
        → Selection mode p
    together :
        (line : List Candidate) (a : Candidate)
        → p.selected ≡ map propose line
        → p.aggregator ≡ some (record { candidate = a; role = RouteRole.aggregator })
        → ((c : Candidate) → Memᴰ c line → Fits mode RouteRole.proposer false c)
        → Fits mode RouteRole.aggregator false a
        → 2 ≤ length line
        → length line ≤ 4
        → Selection mode p

  -- A plan: its selection, and fallbacks that are fit for that role.
  pub record IsSound (mode : RoutingMode) (p : RoutePlan) : Type 0 where
    pub mode_is : p.mode ≡ mode
    pub selection : Selection mode p
    pub fallbacks :
        (d : PlannedDeployment)
        → Memᴰ d p.fallback
        → Fits mode RouteRole.fallback false d.candidate × (d.role ≡ RouteRole.fallback)

  gated :
      (mode : RoutingMode) (role : RouteRole) (allow : Bool) (c : Candidate)
      → Memᴰ c (gate_of context candidates health now (required_of mode tier) role allow)
      → Fits mode role allow c
  gated mode role allow c i = capability_gate-IsFit _ candidates c i

  route_plan-IsSound :
      (mode : RoutingMode) (confidence : ℕ) (primary : Candidate)
      (fallback : List PlannedDeployment) (o : Option (List Candidate × Candidate))
      → (Fits mode RouteRole.single (is_fixed mode) primary
          ⊎ (Fits mode RouteRole.fallback false primary × (is_fixed mode ≡ true)))
      → ((d : PlannedDeployment)
          → Memᴰ d fallback
          → Fits mode RouteRole.fallback false d.candidate
            × (d.role ≡ RouteRole.fallback)
            × (str_eq d.candidate.candidate_id primary.candidate_id ≡ false))
      → ((line : List Candidate) (a : Candidate)
          → o ≡ some (line, a)
          → ((c : Candidate) → Memᴰ c line → Fits mode RouteRole.proposer false c)
            × Fits mode RouteRole.aggregator false a
            × (2 ≤ length line)
            × (length line ≤ 4))
      → IsSound mode (route_plan mode (required_of mode tier) confidence primary fallback o)
  route_plan-IsSound mode confidence primary fallback none f g h = record {
    mode_is = refl;
    selection = alone primary refl refl f (λ d i. (g d i).2);
    fallbacks = λ d i. ((g d i).0, (g d i).1);
  }
  route_plan-IsSound mode confidence primary fallback (some (line, a)) f g h = record {
    mode_is = refl;
    selection = let e = h line a refl in together line a refl refl e.0 e.1 e.2 e.3;
    fallbacks = λ d i. ((g d i).0, (g d i).1);
  }

  head_of-Mem : (cs : List Candidate) (c : Candidate) → head_of cs ≡ some c → Memᴰ c cs
  head_of-Mem [] c h = ground arith
  head_of-Mem (d ∷ cs) c h = Memᴰ.head (same h)
    where
      same : some d ≡ some c → c ≡ d
      same k = cc

  module _ (orders : Orders) (policy : RoutingPolicy) where
    primary-Fits :
        (mode : RoutingMode) (c : Candidate)
        → Memᴰ c (ranked_of orders context tier candidates health now policy mode)
        → Fits mode RouteRole.single (is_fixed mode) c
          ⊎ (Fits mode RouteRole.fallback false c × (is_fixed mode ≡ true))
    primary-Fits mode c i =
        elim (ranked_singles-Mem orders policy (is_fixed mode) (required_of mode tier) _ _ c i) [
          | inl m ↦ inl (gated mode RouteRole.single (is_fixed mode) c m)
          | inr (m, e) ↦ inr (gated mode RouteRole.fallback false c m, e)
        ]

    fallback-Fits :
        (mode : RoutingMode) (primary : String) (ids : List String) (d : PlannedDeployment)
        → Memᴰ d (
            planned_fallback primary ids (
              by_id [] (
                gate_of context candidates health now
                  (required_of mode tier)
                  RouteRole.fallback
                  false)))
        → Fits mode RouteRole.fallback false d.candidate
          × (d.role ≡ RouteRole.fallback)
          × (str_eq d.candidate.candidate_id primary ≡ false)
    fallback-Fits mode primary ids d i =
        let r = planned_fallback-Mem primary ids _ d i in
        (gated mode RouteRole.fallback false d.candidate r.0, r.1, r.2)

    plan_primary-IsSound :
        (mode : RoutingMode) (primary : Candidate)
        → Memᴰ primary (ranked_of orders context tier candidates health now policy mode)
        → IsSound mode (
            plan_primary orders context tier candidates health now policy mode
              (ranked_of orders context tier candidates health now policy mode)
              primary)
    unfolding plan_primary
    plan_primary-IsSound mode primary i =
        route_plan-IsSound mode tier.confidence primary _ _ (primary-Fits mode primary i)
          (λ d j. fallback-Fits mode primary.candidate_id _ d j) (team (is_selective mode && _))
      where
        proposers : List Candidate
        proposers =
            gate_of context candidates health now (required_of mode tier) RouteRole.proposer false

        aggregators : List Candidate
        aggregators =
            gate_of context candidates health now (required_of mode tier) RouteRole.aggregator false

        team :
            (b : Bool) (line : List Candidate) (a : Candidate)
            → (if b
                then ensemble_of orders context tier policy
                    (required_of mode tier)
                    proposers
                    aggregators
                else none)
              ≡ some (line, a)
            → ((c : Candidate) → Memᴰ c line → Fits mode RouteRole.proposer false c)
              × Fits mode RouteRole.aggregator false a
              × (2 ≤ length line)
              × (length line ≤ 4)
        team false line a h = ground arith
        team true line a h =
            let r =
              ensemble_of-Mem orders context tier policy (required_of mode tier) proposers
                aggregators line a h in
            (
              (λ c j. gated mode RouteRole.proposer false c (r.0 c j)),
              gated mode RouteRole.aggregator false a r.1,
              r.2,
              r.3,
            )

    -- A plan that is returned has the mode that the policy and the operator allow, and everyone in it is
    -- one of the candidates and passes every hard test for the role: enabled (but for the anchor of a
    -- fixed run), with that role, of the tier, with the tools, the vision, the streaming and the window
    -- that the request needs, on a healthy deployment. Either one candidate is selected, and no fallback
    -- has its id, or two to four proposers and an aggregator are.
    pub plan-IsSound :
        (p : RoutePlan)
        → plan orders context tier candidates health now policy ≡ ok p
        → (mode : RoutingMode) × (effective_mode context.operator_forced_mode policy.mode ≡ ok mode)
          × IsSound mode p
    unfolding plan plan_mode
    plan-IsSound p h =
        let x =
          bind-Ran (effective_mode context.operator_forced_mode policy.mode)
            (λ mode. plan_mode orders context tier candidates health now policy mode) h in
        (x.value, x.first, go x.value _ refl x.after)
      where
        go :
            (mode : RoutingMode) (o : Option Candidate)
            → head_of (ranked_of orders context tier candidates health now policy mode) ≡ o
            → (elim o as (λ _. Result String RoutePlan) [
              | none ↦ err "MODEL_CAPABILITY_UNAVAILABLE"
              | some primary ↦ ok (
                  plan_primary orders context tier candidates health now policy mode
                    (ranked_of orders context tier candidates health now policy mode)
                    primary)
            ])
              ≡ ok p
            → IsSound mode p
        go mode none e k = ground arith
        go mode (some primary) e k =
            subst (IsSound mode) (ok-injective k)
              (plan_primary-IsSound mode primary (head_of-Mem _ primary e))
