-- ===== src/Routing/Engine/Gate.antt =====
-- `capability_gate` of sidecar/ibreeze/routing/engine.py.
use i_breeze.Prelude.{
  ℕ, ◌+◌, ◌≤◌, ltb, ◌==◌, String, str_eq, Bool, true, false, not, ◌&&◌, ◌||◌, ◌≡◌, sym, ap, ◌∙◌,
  Option, none, some, List, [], ◌∷◌, contains, Memᴰ, if◌then◌else◌, Option-cases, inl, inr, arith,
}
use i_breeze.Routing.Health.{HealthState, new_health, is_eligible}
use i_breeze.Routing.Engine.{RouteRole, role_value, Candidate, DeploymentKey, RoutingContext}

abbrev pub Health : Type 0
Health = List (DeploymentKey × HealthState)

abbrev pub same_deployment : DeploymentKey → Candidate → Bool
same_deployment key c =
    str_eq key.company_id c.company_id
    && (str_eq key.provider_release_id c.provider_release_id
        && (str_eq key.model_binding_id c.model_binding_id
            && str_eq key.credential_ref c.credential_ref))

-- `_health_for`
unfoldable pub health_for : Candidate → Health → HealthState
health_for c [] = new_health
health_for c ((key, state) ∷ health) =
    let others = health_for c health in if same_deployment key c then state else others

-- What a gate is asked for: the role, the tier, and whether a candidate may be disabled.
pub record Asked : Type 0 where
  pub context : RoutingContext
  pub role : RouteRole
  pub required : ℕ
  pub allow_anchor_disabled : Bool
  pub health : Health
  pub now : ℕ

abbrev pub is_empty : List String → Bool
is_empty [] = true
is_empty (_ ∷ _) = false

-- The first reason against a candidate.
unfoldable pub rejection : Asked → Candidate → Option String
rejection q c =
    if not c.routing_enabled && not q.allow_anchor_disabled
    then some "routing_disabled"
    else if not (contains (role_value q.role) c.eligible_roles)
    then some "role_unavailable"
    else if ltb c.routing_tier q.required
    then some "tier_unavailable"
    else if not (q.context.tool_count == 0) && not c.supports_tools
    then some "tools_unavailable"
    else if not (is_empty q.context.attachment_types) && not c.supports_vision
    then some "vision_unavailable"
    else if not c.supports_streaming
    then some "streaming_unavailable"
    else if ltb c.context_window (q.context.estimated_input_tokens + c.max_output_tokens)
    then some "context_overflow"
    else if not (is_eligible (health_for c q.health) q.now)
    then some "deployment_unhealthy"
    else none

pub record GateResult : Type 0 where
  pub eligible : List Candidate
  pub rejected : List (String × String)

unfoldable pub capability_gate : Asked → List Candidate → GateResult
capability_gate q [] = record { eligible = []; rejected = [] }
capability_gate q (c ∷ cs) =
    let rest = capability_gate q cs in
    elim (rejection q c) [
      | none ↦ record { eligible = c ∷ rest.eligible; rejected = rest.rejected }
      | some reason ↦ record {
        eligible = rest.eligible;
        rejected = (c.candidate_id, reason) ∷ rest.rejected;
      }
    ]

-- What makes a candidate fit for what is asked.
pub record IsFit (q : Asked) (c : Candidate) : Type 0 where
  pub enabled : (c.routing_enabled || q.allow_anchor_disabled) ≡ true
  pub has_role : contains (role_value q.role) c.eligible_roles ≡ true
  pub tier_fits : q.required ≤ c.routing_tier
  pub tools : (q.context.tool_count == 0 || c.supports_tools) ≡ true
  pub vision : (is_empty q.context.attachment_types || c.supports_vision) ≡ true
  pub streaming : c.supports_streaming ≡ true
  pub window_fits : q.context.estimated_input_tokens + c.max_output_tokens ≤ c.context_window
  pub healthy : is_eligible (health_for c q.health) q.now ≡ true

pub rejection-IsFit : (q : Asked) (c : Candidate) → rejection q c ≡ none → IsFit q c
unfolding rejection
rejection-IsFit q c h = record {
  enabled = ground arith;
  has_role = ground arith;
  tier_fits = ground arith;
  tools = ground arith;
  vision = ground arith;
  streaming = ground arith;
  window_fits = ground arith;
  healthy = ground arith;
}

-- A candidate that the gate lets through is one of the candidates, and fit.
pub capability_gate-IsFit :
    (q : Asked) (cs : List Candidate) (c : Candidate)
    → Memᴰ c (capability_gate q cs).eligible
    → Memᴰ c cs × IsFit q c
unfolding capability_gate
capability_gate-IsFit q [] c i = elim i [ ]
capability_gate-IsFit q (d ∷ cs) c i = elim (Option-cases (rejection q d)) [
  | inl n ↦ here n (capability_gate-IsFit q cs c) (rw (n, capability_gate) at i)
  | inr (reason, e) ↦
      let r = capability_gate-IsFit q cs c (rw (e, capability_gate) at i) in (Memᴰ.tail r.0, r.1)
]
  where
    here :
        rejection q d ≡ none
        → (Memᴰ c (capability_gate q cs).eligible → Memᴰ c cs × IsFit q c)
        → Memᴰ c (d ∷ (capability_gate q cs).eligible)
        → Memᴰ c (d ∷ cs) × IsFit q c
    here n r (Memᴰ.head e) = (Memᴰ.head e, rejection-IsFit q c (ap (rejection q) e ∙ n))
    here n r (Memᴰ.tail j) = (Memᴰ.tail (r j).0, (r j).1)

pub IsFit-rejection : (q : Asked) (c : Candidate) → IsFit q c → rejection q c ≡ none
unfolding rejection
IsFit-rejection q c f = ground arith

-- And the gate lets every fit candidate through.
pub IsFit-capability_gate :
    (q : Asked) (cs : List Candidate) (c : Candidate)
    → Memᴰ c cs
    → IsFit q c
    → Memᴰ c (capability_gate q cs).eligible
unfolding capability_gate
IsFit-capability_gate q [] c i f = elim i [ ]
IsFit-capability_gate q (d ∷ cs) c (Memᴰ.head e) f =
    rw (ap (rejection q) (sym e) ∙ IsFit-rejection q c f, capability_gate) (Memᴰ.head e)
IsFit-capability_gate q (d ∷ cs) c (Memᴰ.tail i) f = elim (Option-cases (rejection q d)) [
  | inl n ↦ rw (n, capability_gate) (Memᴰ.tail (IsFit-capability_gate q cs c i f))
  | inr (reason, e) ↦ rw (e, capability_gate) (IsFit-capability_gate q cs c i f)
]
