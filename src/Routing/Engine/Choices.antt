-- ===== src/Routing/Engine/Choices.antt =====
-- The primary, the fallbacks and the ensemble of a plan of sidecar/ibreeze/routing/engine.py.
use i_breeze.Prelude.{
  ℕ, ◌≤◌, String, str_eq, eq_iff, Bool, true, false, ◌≡◌, refl, sym, ap, ◌∙◌, subst, Option, none,
  some, List, [], ◌∷◌, length, lookup, put, lookup-put, Memᴰ, if◌then◌else◌, Bool-cases,
  Option-cases, inl, inr, ◌⊎◌, arith,
}
use i_breeze.Routing.Engine.{
  RouteRole, Candidate, RoutingContext, TierDecision, RoutingPolicy, Orders, PlannedDeployment,
  sorted,
}
use i_breeze.Routing.Engine.Ensemble.{select_proposer_candidates, should_ensemble}
use i_breeze.Routing.Engine.Plan.{
  find_id, by_id, first_found, fixed_anchor, ranked_singles, planned_fallback, smaller, head_of,
  is_forced, ensemble_of,
}
use i_breeze.Routing.Engine.Members.{Within, sorted-Within, select_proposer_candidates-Within}

find_id-Mem : (i : String) (cs : List Candidate) (c : Candidate) → find_id i cs ≡ some c → Memᴰ c cs
unfolding find_id
find_id-Mem i [] c h = ground arith
find_id-Mem i (d ∷ cs) c h = elim (Bool-cases (str_eq d.candidate_id i)) [
  | inl e ↦ Memᴰ.head (same (rw e at h))
  | inr e ↦ Memᴰ.tail (find_id-Mem i cs c (rw e at h))
]
  where
    same : some d ≡ some c → c ≡ d
    same k = cc

by_id-lookup :
    (d : List (String × Candidate)) (cs : List Candidate) (i : String) (c : Candidate)
    → lookup i (by_id d cs) ≡ some c
    → (lookup i d ≡ some c) ⊎ (Memᴰ c cs × (c.candidate_id ≡ i))
unfolding by_id
by_id-lookup d [] i c h = inl h
by_id-lookup d (x ∷ cs) i c h = elim (by_id-lookup (put x.candidate_id x d) cs i c h) [
  | inr (m, e) ↦ inr (Memᴰ.tail m, e)
  | inl e ↦ elim (Bool-cases (str_eq x.candidate_id i)) [
    | inl s ↦ inr (found s (rw (s) at (sym (lookup-put x.candidate_id i x d) ∙ e)))
    | inr s ↦ inl (rw (s) at (sym (lookup-put x.candidate_id i x d) ∙ e))
  ]
]
  where
    found :
        str_eq x.candidate_id i ≡ true → some x ≡ some c → Memᴰ c (x ∷ cs) × (c.candidate_id ≡ i)
    found s k =
        let same : c ≡ x = cc in
        (Memᴰ.head same, ap Candidate.candidate_id same ∙ (eq_iff x.candidate_id i).0 s)

by_id-Mem :
    (cs : List Candidate) (i : String) (c : Candidate)
    → lookup i (by_id [] cs) ≡ some c
    → Memᴰ c cs × (c.candidate_id ≡ i)
unfolding lookup
by_id-Mem cs i c h = elim (by_id-lookup [] cs i c h) [ inl e ↦ ground arith | inr r ↦ r ]

first_found-Mem :
    (ids : List String) (cs : List Candidate) (c : Candidate)
    → first_found ids (by_id [] cs) ≡ some c
    → Memᴰ c cs
unfolding first_found
first_found-Mem [] cs c h = ground arith
first_found-Mem (i ∷ ids) cs c h = elim (Option-cases (lookup i (by_id [] cs))) [
  | inl n ↦ first_found-Mem ids cs c (rw (n, first_found) at h)
  | inr (x, e) ↦ (by_id-Mem cs i c (e ∙ (rw (e, first_found) at h))).0
]

fixed_anchor-Mem :
    (policy : RoutingPolicy) (singles fallbacks : List Candidate) (c : Candidate)
    → fixed_anchor policy singles fallbacks ≡ some c
    → Memᴰ c singles ⊎ Memᴰ c fallbacks
unfolding fixed_anchor
fixed_anchor-Mem policy singles fallbacks c h =
    elim (Option-cases (find_id policy.anchor_candidate_id singles)) [
      | inr (x, e) ↦
          inl (find_id-Mem policy.anchor_candidate_id singles c (e ∙ (rw (e, fixed_anchor) at h)))
      | inl n ↦ inr (first_found-Mem policy.fallback_order fallbacks c (rw (n, fixed_anchor) at h))
    ]

-- The singles of a plan are eligible, or in a fixed run the first of the fallback chain.
pub ranked_singles-Mem :
    (orders : Orders) (policy : RoutingPolicy) (is_fixed : Bool) (tier : ℕ)
    (singles fallbacks : List Candidate) (c : Candidate)
    → Memᴰ c (ranked_singles orders policy is_fixed tier singles fallbacks)
    → Memᴰ c singles ⊎ (Memᴰ c fallbacks × (is_fixed ≡ true))
unfolding ranked_singles
ranked_singles-Mem orders policy false tier singles fallbacks c i =
    inl (sorted-Within (orders.by_score tier) singles c i)
ranked_singles-Mem orders policy true tier singles fallbacks c i =
    go (fixed_anchor policy singles fallbacks) refl i
  where
    only : (x : Candidate) → Memᴰ c (x ∷ []) → x ≡ c
    only x (Memᴰ.head q) = sym q
    only x (Memᴰ.tail j) = elim j [ ]

    go :
        (o : Option Candidate)
        → fixed_anchor policy singles fallbacks ≡ o
        → Memᴰ c (elim o as (λ _. List Candidate) [ none ↦ [] | some x ↦ x ∷ [] ])
        → Memᴰ c singles ⊎ (Memᴰ c fallbacks × (true ≡ true))
    go none e j = elim j [ ]
    go (some x) e j = elim (fixed_anchor-Mem policy singles fallbacks c (e ∙ ap some (only x j))) [
      | inl m ↦ inl m
      | inr m ↦ inr (m, refl)
    ]

-- A planned fallback is one of the fallbacks, and not the primary.
pub planned_fallback-Mem :
    (primary : String) (ids : List String) (cs : List Candidate) (d : PlannedDeployment)
    → Memᴰ d (planned_fallback primary ids (by_id [] cs))
    → Memᴰ d.candidate cs
      × (d.role ≡ RouteRole.fallback)
      × (str_eq d.candidate.candidate_id primary ≡ false)
unfolding planned_fallback
planned_fallback-Mem primary [] cs d i = elim i [ ]
planned_fallback-Mem primary (k ∷ ids) cs d i = elim (Option-cases (lookup k (by_id [] cs))) [
  | inl n ↦ planned_fallback-Mem primary ids cs d (rw (n, planned_fallback) at i)
  | inr (c, e) ↦ elim (Bool-cases (str_eq k primary)) [
    | inl s ↦ planned_fallback-Mem primary ids cs d (rw (e, s, planned_fallback) at i)
    | inr s ↦
        chosen c (by_id-Mem cs k c e) s (planned_fallback-Mem primary ids cs d)
          (rw (e, s, planned_fallback) at i)
  ]
]
  where
    chosen :
        (c : Candidate)
        → Memᴰ c cs × (c.candidate_id ≡ k)
        → str_eq k primary ≡ false
        → (Memᴰ d (planned_fallback primary ids (by_id [] cs))
            → Memᴰ d.candidate cs
              × (d.role ≡ RouteRole.fallback)
              × (str_eq d.candidate.candidate_id primary ≡ false))
        → Memᴰ d (
            record { candidate = c; role = RouteRole.fallback }
            ∷ planned_fallback primary ids (by_id [] cs))
        → Memᴰ d.candidate cs
          × (d.role ≡ RouteRole.fallback)
          × (str_eq d.candidate.candidate_id primary ≡ false)
    chosen c m s r (Memᴰ.tail j) = r j
    chosen c m s r (Memᴰ.head q) = (
      subst (λ x. Memᴰ x cs) (sym (ap PlannedDeployment.candidate q)) m.0,
      ap PlannedDeployment.role q,
      subst (λ x. str_eq x primary ≡ false) (sym (ap (λ x. x.candidate.candidate_id) q ∙ m.1)) s,
    )

should_ensemble-two :
    (context : RoutingContext) (confidence tier most : ℕ) (forced : Bool) (line : List Candidate)
    (a : Candidate)
    → should_ensemble context confidence tier most forced line (some a) ≡ true
    → 2 ≤ length line
unfolding should_ensemble
should_ensemble-two context confidence tier most forced line a h = ground arith

-- The proposers and the aggregator of an ensemble are eligible, and there are two to four proposers.
pub ensemble_of-Mem :
    (orders : Orders) (context : RoutingContext) (tier : TierDecision) (policy : RoutingPolicy)
    (required : ℕ) (proposers aggregators line : List Candidate) (a : Candidate)
    → ensemble_of orders context tier policy required proposers aggregators ≡ some (line, a)
    → Within line proposers × Memᴰ a aggregators × (2 ≤ length line) × (length line ≤ 4)
unfolding ensemble_of
ensemble_of-Mem orders context tier policy required proposers aggregators line a h =
    go (sorted (orders.by_score required) aggregators)
      (sorted-Within (orders.by_score required) aggregators) h
  where
    scored : List Candidate
    scored = sorted (orders.by_score required) proposers

    most : ℕ
    most = smaller 4 (smaller policy.max_proposers (length scored))

    chosen : List Candidate
    chosen = select_proposer_candidates orders scored most required

    wanted : Candidate → Bool
    wanted b =
        should_ensemble context tier.confidence required most
          (is_forced context.operator_forced_mode) chosen (some b)

    at_most : most ≤ 4
    at_most = four (smaller policy.max_proposers (length scored))
      where
        four : (n : ℕ) → smaller 4 n ≤ 4
        four n = ground arith

    result : List Candidate → Option (List Candidate × Candidate)
    result cs = elim (head_of cs) [
      | none ↦ none
      | some b ↦ if wanted b then some (chosen, b) else none
    ]

    go :
        (cs : List Candidate)
        → Within cs aggregators
        → result cs ≡ some (line, a)
        → Within line proposers × Memᴰ a aggregators × (2 ≤ length line) × (length line ≤ 4)
    go [] w k = ground arith
    go (b ∷ cs) w k = elim (Bool-cases (wanted b)) [
      | inr e ↦ ground arith
      | inl e ↦ found e (rw e at k)
    ]
      where
        pair : {p q : List Candidate × Candidate} → some p ≡ some q → p ≡ q
        pair h = cc

        found :
            wanted b ≡ true
            → ◌≡◌ {A = Option (List Candidate × Candidate)} (some (chosen, b)) (some (line, a))
            → Within line proposers × Memᴰ a aggregators × (2 ≤ length line) × (length line ≤ 4)
        found e q =
            let few = select_proposer_candidates-Within orders scored most required in
            subst
              (λ p.
                Within p.0 proposers × Memᴰ p.1 aggregators × (2 ≤ length p.0) × (length p.0 ≤ 4))
              (pair q)
              (
                (λ x i. sorted-Within (orders.by_score required) proposers x (few.0 x i)),
                w b (Memᴰ.head refl),
                should_ensemble-two context tier.confidence required most
                    (is_forced context.operator_forced_mode) chosen b e,
                omega (arith, few.1, at_most),
              )
