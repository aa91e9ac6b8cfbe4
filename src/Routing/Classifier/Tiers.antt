-- ===== src/Routing/Classifier/Tiers.antt =====
-- The tier that sidecar/ibreeze/routing/classifier.py decides.
use i_breeze.Prelude.{ℕ, ◌+◌, leb, ◌==◌, Bool, true, ◌&&◌, ◌||◌, ◌≡◌, [], if◌then◌else◌, arith}
use i_breeze.Routing.Engine.{RoutingContext}
use i_breeze.Routing.Classifier.{
  Tally, raise_to, raise_if, note_failures, is_large, is_workflow, is_repair, has_failed, asked_for,
  tally, classify, tier_of,
}

raised-tier :
    (a b c d e f g : Bool)
    → (raise_if g 3 "context_pressure_critical" (
        raise_if f 2 "context_pressure" (
          raise_if e 3 "repair_or_merge" (
            raise_if d 2 "workflow_review" (
              raise_if c 2 "structured_schema" (
                raise_if b 2 "code_review_or_verification"
                  (raise_if a 1 "message_size" (record { tier = 0; rules = [] })))))))).tier
      ≡ (if e || g then 3 else if b || (c || (d || f)) then 2 else if a then 1 else 0)
unfolding raise_if raise_to
raised-tier a b c d e f g = ground arith

failed-tier :
    (v o r : Bool) (t : Tally) (n : ℕ)
    → t.tier ≡ n
    → leb n 3 ≡ true
    → (raise_if o 3 "open_blocker_high"
        (raise_if v 3 "verification_failure" (note_failures r t))).tier
      ≡ (if v || o then 3 else if r then (if n == 3 then 3 else n + 1) else n)
unfolding raise_if raise_to note_failures
failed-tier v o r t n e h = ground arith

module _ (c : RoutingContext) where
  abbrev asked : ℕ
  asked =
      if is_repair c || leb 90 c.context_pressure
      then 3
      else if (c.contains_code && c.contains_review_signal)
          || (c.contains_structured_schema || (is_workflow c || leb 75 c.context_pressure))
      then 2
      else if is_large c
      then 1
      else 0

  asked_for-tier : (asked_for c).tier ≡ asked
  unfolding asked_for
  asked_for-tier =
      raised-tier (is_large c) (c.contains_code && c.contains_review_signal) _ (is_workflow c)
        (is_repair c) _ _

  asked-Bounded : leb asked 3 ≡ true
  asked-Bounded = ground arith

  -- The tier that is required is the one `tier_of` reads off the context: three for a repair or a merge, for a pressure of nine tenths or after a failed verification or an open blocker, and one more than asked for, up to three, after failures of tools or providers.
  pub classify-tier_of : (classify c).required_tier ≡ tier_of c
  unfolding classify tally tier_of
  classify-tier_of =
      failed-tier (leb 1 c.verification_failures) (leb 1 c.open_blocker_high_count) (has_failed c)
        (asked_for c) asked asked_for-tier asked-Bounded
