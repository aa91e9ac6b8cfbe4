-- ===== src/Routing/Classifier.antt =====
-- sidecar/ibreeze/routing/classifier.py. A confidence is a number of hundredths.
pub mod Tiers
pub mod Confidence
pub mod Ensembles
mod Tests
use i_breeze.Prelude.{
  ℕ, ◌+◌, ltb, leb, ◌==◌, String, str_eq, Bool, true, false, not, ◌&&◌, ◌||◌, Option, none, some,
  List, [], ◌∷◌, ◌++◌, map, if◌then◌else◌,
}
use i_breeze.Routing.Engine.{RoutingContext, TierDecision}

-- The two variables of `classify`.
pub record Tally : Type 0 where
  pub tier : ℕ
  pub rules : List String

unfoldable pub raise_to : ℕ → String → Tally → Tally
raise_to level rule t = record {
  tier = if ltb t.tier level then level else t.tier;
  rules = t.rules ++ (rule ∷ []);
}

-- `if asked: raise_to(level, rule)`
unfoldable pub raise_if : Bool → ℕ → String → Tally → Tally
raise_if asked level rule t = if asked then raise_to level rule t else t

unfoldable pub note_failures : Bool → Tally → Tally
note_failures false t = t
note_failures true t =
    let raised = if leb 3 (t.tier + 1) then 3 else t.tier + 1 in
    record {
      tier = raised;
      rules =
          (t.rules ++ ("failure_history" ∷ []))
          ++ (if raised == t.tier then "failure_history_capped" ∷ [] else []);
    }

abbrev pub is_large : RoutingContext → Bool
is_large c = leb 4000 c.message_char_count || leb 8000 c.estimated_input_tokens

abbrev pub is_workflow : RoutingContext → Bool
is_workflow c =
    str_eq c.run_purpose "company_plan"
    || (str_eq c.run_purpose "review"
        || (str_eq c.run_purpose "verification" || str_eq c.run_purpose "summary"))

abbrev pub is_repair : RoutingContext → Bool
is_repair c = str_eq c.run_purpose "repair" || str_eq c.run_purpose "merge"

abbrev pub has_failed : RoutingContext → Bool
has_failed c = leb 1 c.prior_tool_failures || leb 2 c.provider_failures

-- `context.operator_forced_mode and context.operator_forced_mode not in {...}`
unfoldable pub is_conflict : Option String → Bool
is_conflict none = false
is_conflict (some m) =
    not (str_eq m "")
    && not (str_eq m "force_fixed" || (str_eq m "force_single" || str_eq m "force_ensemble"))

unfoldable pub asked_for : RoutingContext → Tally
asked_for c =
    let t0 = raise_if (is_large c) 1 "message_size" (record { tier = 0; rules = [] }) in
    let t1 =
      raise_if (c.contains_code && c.contains_review_signal) 2 "code_review_or_verification" t0 in
    let t2 = raise_if c.contains_structured_schema 2 "structured_schema" t1 in
    let t3 = raise_if (is_workflow c) 2 "workflow_review" t2 in
    let t4 = raise_if (is_repair c) 3 "repair_or_merge" t3 in
    let t5 = raise_if (leb 75 c.context_pressure) 2 "context_pressure" t4 in
    raise_if (leb 90 c.context_pressure) 3 "context_pressure_critical" t5

unfoldable pub tally : RoutingContext → Tally
tally c =
    let t = note_failures (has_failed c) (asked_for c) in
    let t1 = raise_if (leb 1 c.verification_failures) 3 "verification_failure" t in
    raise_if (leb 1 c.open_blocker_high_count) 3 "open_blocker_high" t1

unfoldable pub confidence_of : List String → ℕ
confidence_of [] = 60
confidence_of (rule ∷ []) = 70
confidence_of (rule ∷ more ∷ rules) = 85

unfoldable pub classify : RoutingContext → TierDecision
classify c =
    let t = tally c in
    let rules =
      if is_conflict c.operator_forced_mode
      then t.rules ++ ("operator_conflict" ∷ [])
      else t.rules in
    record {
      required_tier = t.tier;
      confidence = if is_conflict c.operator_forced_mode then 40 else confidence_of t.rules;
      rules = rules;
      policy_trail = map (λ rule. (rule, t.tier)) rules;
    }

-- The tier without the loop of raises.
unfoldable pub tier_of : RoutingContext → ℕ
tier_of c =
    let asked =
      if is_repair c || leb 90 c.context_pressure
      then 3
      else if (c.contains_code && c.contains_review_signal)
          || (c.contains_structured_schema || (is_workflow c || leb 75 c.context_pressure))
      then 2
      else if is_large c
      then 1
      else 0 in
    if leb 1 c.verification_failures || leb 1 c.open_blocker_high_count
    then 3
    else if has_failed c
    then (if asked == 3 then 3 else asked + 1)
    else asked
