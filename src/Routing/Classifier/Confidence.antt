-- ===== src/Routing/Classifier/Confidence.antt =====
-- The confidence that sidecar/ibreeze/routing/classifier.py states.
use i_breeze.Prelude.{
  ℕ, ltb, ◌==◌, String, Bool, true, false, ◌||◌, ◌≡◌, refl, List, [], ◌∷◌, ◌++◌, if◌then◌else◌,
  arith,
}
use i_breeze.Routing.Engine.{RoutingContext}
use i_breeze.Routing.Classifier.{
  Tally, raise_to, raise_if, note_failures, has_failed, is_conflict, asked_for, tally,
  confidence_of, classify,
}

abbrev has_none : List String → Bool
has_none [] = true
has_none (rule ∷ rules) = false

-- No rule stands exactly where the tier is zero.
abbrev IsCounted : Tally → Type 0
IsCounted t = has_none t.rules ≡ (t.tier == 0)

has_none-append : (rules : List String) (rule : String) → has_none (rules ++ (rule ∷ [])) ≡ false
has_none-append [] rule = refl
has_none-append (r ∷ rules) rule = refl

has_none-append_more :
    (rules more : List String) → has_none rules ≡ false → has_none (rules ++ more) ≡ false
has_none-append_more [] more h = ground arith
has_none-append_more (r ∷ rules) more h = refl

raise_if-IsCounted :
    (b : Bool) (level : ℕ) (rule : String) (t : Tally)
    → ltb 0 level ≡ true
    → IsCounted t
    → IsCounted (raise_if b level rule t)
unfolding raise_if raise_to
raise_if-IsCounted false level rule t l h = h
raise_if-IsCounted true level rule t l h = rw (has_none-append t.rules rule) (ground arith)

note_failures-IsCounted : (b : Bool) (t : Tally) → IsCounted t → IsCounted (note_failures b t)
unfolding note_failures
note_failures-IsCounted false t h = h
note_failures-IsCounted true t h =
    rw
      (has_none-append_more (t.rules ++ ("failure_history" ∷ [])) _
        (has_none-append t.rules "failure_history"))
      (ground arith)

asked_for-IsCounted : (c : RoutingContext) → IsCounted (asked_for c)
unfolding asked_for
asked_for-IsCounted c = raise_if-IsCounted _ 3 _ _ refl (
    raise_if-IsCounted _ 2 _ _ refl (
      raise_if-IsCounted _ 3 _ _ refl (
        raise_if-IsCounted _ 2 _ _ refl (
          raise_if-IsCounted _ 2 _ _ refl
            (raise_if-IsCounted _ 2 _ _ refl (raise_if-IsCounted _ 1 _ _ refl refl))))))

tally-IsCounted : (c : RoutingContext) → IsCounted (tally c)
unfolding tally
tally-IsCounted c = raise_if-IsCounted _ 3 _ _ refl (
    raise_if-IsCounted _ 3 _ _ refl
      (note_failures-IsCounted (has_failed c) _ (asked_for-IsCounted c)))

confidence_of-low : (rules : List String) → ltb (confidence_of rules) 70 ≡ has_none rules
unfolding confidence_of
confidence_of-low [] = refl
confidence_of-low (rule ∷ []) = refl
confidence_of-low (rule ∷ more ∷ rules) = refl

-- The confidence is below 0.70 just where the operator asks for an unknown mode or the tier is the lowest.
pub classify-low :
    (c : RoutingContext)
    → ltb (classify c).confidence 70
      ≡ (is_conflict c.operator_forced_mode || (classify c).required_tier == 0)
unfolding classify
classify-low c = low (is_conflict c.operator_forced_mode) (tally c) (tally-IsCounted c)
  where
    low :
        (b : Bool) (t : Tally)
        → IsCounted t
        → ltb (if b then 40 else confidence_of t.rules) 70 ≡ (b || t.tier == 0)
    low true t h = refl
    low false t h = rw (confidence_of-low t.rules) h
