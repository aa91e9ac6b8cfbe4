-- ===== src/StateMachine/Outcomes.antt =====
-- What `can_transition`, `transition` and `is_terminal` of sidecar/ibreeze/state_machine.py decide, for
-- each of the nine machines.
use mathlib.Core.Option
use i_breeze.Prelude.{
  String, ◌≡◌, refl, ap, ◌↔◌, inl, inr, ◌≢◌, Bool, true, false, ◌&&◌, map, Memᴰ, Option, none, some,
  arith, eq_iff, contains, Bool-cases, ◌∙◌, if◌then◌else◌,
}
use i_breeze.Result.{Result, ok, err}
use i_breeze.StateMachine.Registry.{
  TransitionError, state_transition_error, resume_state_required, is_waiting, is_resume,
  can_transition, transition, released,
}
use i_breeze.StateMachine.Machines.{
  Machine, State, name, value, targets, targets_of-value, value-injective, contains→Target,
  Target→contains,
}

abbrev pub Waits : (m : Machine) → State m → Type 0
Waits m s = is_waiting (value m s) ≡ true

-- The moves that the design allows from `s` when `r` was recorded on entry: an edge of the table, or
-- from a waiting state back to the recorded one.
pub data Allows (m : Machine) (s t : State m) (r : Option (State m)) : Type 0 where
  edge : Memᴰ t (targets m s) → Allows m s t r
  back : Waits m s → r ≡ some t → Allows m s t r

is_resume→eq :
    (m : Machine) (t : State m) (r : Option (State m))
    → is_resume (Option.map (value m) r) (value m t) ≡ true
    → r ≡ some t
is_resume→eq m t none h = ground arith
is_resume→eq m t (some u) h = ap some (value-injective m u t ((eq_iff _ _).0 h))

-- The test of `can_transition`, at states.
abbrev allows : (m : Machine) → State m → State m → Option (State m) → Bool
allows m s t r =
    if contains (value m t) (map (value m) (targets m s))
    then true
    else if is_waiting (value m s) && is_resume (Option.map (value m) r) (value m t)
    then true
    else false

can_transition-value :
    (m : Machine) (s t : State m) (r : Option (State m))
    → can_transition (name m) (value m s) (value m t) (Option.map (value m) r) ≡ ok (allows m s t r)
unfolding can_transition
can_transition-value m s t r = rw targets_of-value

allows→Allows :
    (m : Machine) (s t : State m) (r : Option (State m)) → allows m s t r ≡ true → Allows m s t r
allows→Allows m s t r h = elim (Bool-cases (contains (value m t) (map (value m) (targets m s)))) [
  | inl e ↦ edge (contains→Target m t (targets m s) e)
  | inr e ↦ back (ground arith) (is_resume→eq m t r (ground arith))
]

Allows→allows :
    (m : Machine) (s t : State m) (r : Option (State m)) → Allows m s t r → allows m s t r ≡ true
Allows→allows m s t r (edge h) = rw (Target→contains m t (targets m s) h)
Allows→allows m s t r (back w e) =
    rw (e, w) (ground (arith, (eq_iff (value m t) (value m t)).1 refl))

-- `can_transition` answers yes for exactly the moves that `Allows` describes, and raises for none of
-- the states of a machine.
pub can_transition_iff :
    (m : Machine) (s t : State m) (r : Option (State m))
    → (can_transition (name m) (value m s) (value m t) (Option.map (value m) r) ≡ ok true)
      ↔ Allows m s t r
can_transition_iff m s t r = (
  λ h. allows→Allows m s t r (cc (can_transition-value m s t r, h)),
  λ a. can_transition-value m s t r ∙ ap ok (Allows→allows m s t r a),
)

-- What `transition` returns or raises, with the circumstances of each.
pub data Outcome (m : Machine) (s t : State m) (r : Option (State m))
    : Result TransitionError (Option String) → Type 0 where
  refused :
      ¬ Allows m s t r
      → Outcome m s t r (err (state_transition_error (name m) (value m s) (value m t)))
  no_resume :
      Allows m s t r
      → Waits m t
      → r ≡ none
      → Outcome m s t r (err (resume_state_required (value m t)))
  entered : Allows m s t r → Waits m t → r ≢ none → Outcome m s t r (ok none)
  left : Allows m s t r → ¬ Waits m t → Waits m s → Outcome m s t r (ok (Option.map (value m) r))
  moved : Allows m s t r → ¬ Waits m t → ¬ Waits m s → Outcome m s t r (ok none)

waits_not : {b : Bool} → ¬ (b ≡ true) → b ≡ false
waits_not {b} n = elim (Bool-cases b) [ inl y ↦ absurd (n y) | inr e ↦ e ]

not_waits : {b : Bool} → b ≡ false → ¬ (b ≡ true)
not_waits n y = cc

released-Outcome :
    (m : Machine) (s t : State m) (r : Option (State m))
    → Allows m s t r
    → Outcome m s t r (released (value m s) (value m t) (Option.map (value m) r))
unfolding released
released-Outcome m s t none a = elim (Bool-cases (is_waiting (value m t))) [
  | inl wt ↦ rw wt (no_resume a wt refl)
  | inr nt ↦ rw nt (elim (Bool-cases (is_waiting (value m s))) [
    | inl ws ↦ left a (not_waits nt) ws
    | inr ns ↦ moved a (not_waits nt) (not_waits ns)
  ])
]
released-Outcome m s t (some u) a = elim (Bool-cases (is_waiting (value m t))) [
  | inl wt ↦ rw wt (entered a wt (λ e. cc))
  | inr nt ↦ rw nt (elim (Bool-cases (is_waiting (value m s))) [
    | inl ws ↦ rw ws (left a (not_waits nt) ws)
    | inr ns ↦ rw ns (moved a (not_waits nt) (not_waits ns))
  ])
]

-- `transition` between two states of a machine refuses exactly the moves that `Allows` rules out;
-- it raises for a missing resume state exactly when it would enter a waiting state without one; it
-- returns the resume state when it leaves a waiting state for good, and None otherwise.
pub transition-Outcome :
    (m : Machine) (s t : State m) (r : Option (State m))
    → Outcome m s t r (transition (name m) (value m s) (value m t) (Option.map (value m) r))
unfolding transition
transition-Outcome m s t r = elim (Bool-cases (allows m s t r)) [
  | inl y ↦ rw (can_transition-value, y) (released-Outcome m s t r (allows→Allows m s t r y))
  | inr n ↦ rw (can_transition-value, n) (refused λ a. not_waits n (Allows→allows m s t r a))
]

-- Entering a waiting state with the present state as `resume_state`, and leaving it again for the
-- recorded state, are both accepted, and the second step hands the recorded state back to be cleared.
pause-resume :
    (m : Machine) (s w : State m)
    → Memᴰ w (targets m s)
    → Waits m w
    → ¬ Waits m s
    → (transition (name m) (value m s) (value m w) (some (value m s)) ≡ ok none)
      × (transition (name m) (value m w) (value m s) (some (value m s)) ≡ ok (some (value m s)))
unfolding transition released
pause-resume m s w h ww ns = (
  rw (can_transition-value m s w (some s), Allows→allows m s w (some s) (edge h), ww),
  rw (
    can_transition-value m w s (some s),
    Allows→allows m w s (some s) (back ww refl),
    waits_not ns,
    ww,
  ),
)
