-- ===== src/Routing/Engine/Ensemble.antt =====
-- The selection of sidecar/ibreeze/routing/ensemble.py: who proposes, and whether there is an ensemble at all.
use i_breeze.Prelude.{
  ℕ, zero, suc, ◌+◌, ◌*◌, ltb, leb, ◌==◌, String, Bool, false, not, ◌&&◌, ◌||◌, Option, none, some,
  List, [], ◌∷◌, ◌++◌, contains, length, if◌then◌else◌,
}
use i_breeze.Result.{Result, ok, err}
use i_breeze.Routing.Engine.{Candidate, RoutingContext, Orders, sorted}
use i_breeze.Routing.Engine.Gate.{is_empty}

-- The first element of `sorted`, and the others in their order.
unfoldable pub pick :
    (Candidate → Candidate → Bool) → Candidate → List Candidate → Candidate × List Candidate
pick before c [] = (c, [])
pick before c (d ∷ ds) =
    let r = pick before d ds in if before r.0 c then (r.0, c ∷ r.1) else (c, d ∷ ds)

-- One more proposer, if there may be one: those that were taken, and those that remain.
unfoldable pub pick_next :
    Bool → (Candidate → Candidate → Bool) → List Candidate → List Candidate × List Candidate
pick_next wanted before [] = ([], [])
pick_next wanted before (c ∷ cs) =
    if wanted then (let r = pick before c cs in (r.0 ∷ [], r.1)) else ([], c ∷ cs)

-- `selected[:n]`
unfoldable pub first_n : ℕ → List Candidate → List Candidate
first_n (zero) cs = []
first_n (suc n) [] = []
first_n (suc n) (c ∷ cs) = c ∷ first_n n cs

-- The anchor, the orthogonal reviewer, the strong critic and the fast sanity check.
unfoldable pub line_up : Orders → ℕ → ℕ → Candidate → List Candidate → List Candidate
line_up orders max_proposers required_tier anchor remaining =
    let reviewer = pick_next (leb 2 max_proposers) (orders.by_diversity anchor) remaining in
    let critic = pick_next (leb 3 max_proposers) orders.by_quality reviewer.1 in
    let sanity = pick_next (leb 4 max_proposers && required_tier == 3) orders.by_latency critic.1 in
    anchor ∷ (reviewer.0 ++ (critic.0 ++ sanity.0))

-- `select_proposer_candidates`
unfoldable pub select_proposer_candidates : Orders → List Candidate → ℕ → ℕ → List Candidate
select_proposer_candidates orders scored max_proposers required_tier =
    if max_proposers == 0 then [] else elim (sorted orders.by_quality_score scored) [
      | [] ↦ []
      | anchor ∷ remaining ↦
          first_n max_proposers (line_up orders max_proposers required_tier anchor remaining)
    ]

-- `default_quorum`
unfoldable pub default_quorum : ℕ → Result String ℕ
default_quorum n =
    if ltb n 2 || ltb 4 n
    then err "ROUTING_ENSEMBLE_PROPOSER_COUNT_INVALID"
    else ok (if n == 4 then 3 else 2)

-- The number of distinct providers, and of candidates that see.
unfoldable pub provider_count : List String → List Candidate → ℕ
provider_count seen [] = 0
provider_count seen (c ∷ cs) =
    let again = provider_count seen cs in
    let more = provider_count (c.provider_release_id ∷ seen) cs in
    if contains c.provider_release_id seen then again else suc more

unfoldable pub vision_count : List Candidate → ℕ
vision_count [] = 0
vision_count (c ∷ cs) = let rest = vision_count cs in if c.supports_vision then suc rest else rest

-- What speaks for an ensemble.
abbrev pub is_triggered : RoutingContext → ℕ → ℕ → ℕ → Bool → Bool
is_triggered context confidence required_tier providers force_ensemble =
    force_ensemble
    || (leb 1 context.verification_failures
        || (leb 1 context.open_blocker_high_count
            || ((leb 2 context.provider_failures && leb 2 providers)
                || ((required_tier == 3 && ltb confidence 70)
                    || (required_tier == 2 && ltb confidence 55)))))

-- `should_ensemble` as `plan` calls it: the proposers, and the aggregator if there is one. The window of the
-- aggregator is what its answer leaves of its context, which may be less than nothing.
unfoldable pub should_ensemble :
    RoutingContext → ℕ → ℕ → ℕ → Bool → List Candidate → Option Candidate → Bool
should_ensemble context confidence required_tier max_proposers force_ensemble proposers none = false
should_ensemble context confidence required_tier max_proposers force_ensemble proposers (some a) =
    let providers = provider_count [] proposers in
    if ltb (length proposers) 2
    then false
    else if not (is_empty context.attachment_types)
        && (not a.supports_vision || ltb (vision_count proposers) 2)
    then false
    else if leb 2 context.provider_failures && (ltb providers 2 && not force_ensemble)
    then false
    else if not (is_triggered context confidence required_tier providers force_ensemble)
    then false
    else leb (context.estimated_input_tokens + 2000 + max_proposers * 24000 + a.max_output_tokens)
        a.context_window
