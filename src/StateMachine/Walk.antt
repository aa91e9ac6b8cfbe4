-- ===== src/StateMachine/Walk.antt =====
-- A row whose status moves by `transition` of sidecar/ibreeze/state_machine.py alone. The function takes
-- any resume state; in a walk it is the present status, or, while the row waits, what was recorded when
-- the wait began, and the row records it on entering a waiting state.
use mathlib.Core.Option
use i_breeze.Prelude.{
  String, ◌≡◌, refl, List, [], ◌∷◌, Memᴰ, false, Option, none, some, if◌then◌else◌,
}
use i_breeze.Result.{Result, ok, ◌>>=◌}
use i_breeze.StateMachine.Registry.{TransitionError, is_waiting, transition}
use i_breeze.StateMachine.Machines.{Machine, State, name, value, targets}
use i_breeze.StateMachine.Outcomes.{
  refused, no_resume, entered, left, moved, Allows, edge, Outcome, transition-Outcome,
}

pub record Row (m : Machine) : Type 0 where
  pub status : State m
  pub resume : Option (State m)

module _ {m : Machine} where
  -- The `resume_state` argument that the caller passes.
  abbrev pub offered : Row m → Option (State m)
  offered r = if is_waiting (value m r.status) then r.resume else some r.status

  abbrev pub landing : Row m → State m → Row m
  landing r t = record { status = t; resume = if is_waiting (value m t) then offered r else none }

  unfoldable pub advance : Row m → State m → Result TransitionError (Row m)
  advance r t = do
    _ ← transition (name m) (value m r.status) (value m t) (Option.map (value m) (offered r))
    ok (landing r t)

  unfoldable pub walk : Row m → List (State m) → Result TransitionError (Row m)
  walk r [] = ok r
  walk r (t ∷ ts) = do r' ← advance r t; walk r' ts

  -- What an accepted step tells.
  pub record Accepted (r : Row m) (t : State m) (r' : Row m) : Type 0 where
    pub lands : r' ≡ landing r t
    pub allowed : Allows m r.status t (offered r)

  after-Outcome :
      (r : Row m) (t : State m) (r' : Row m) {x : Result TransitionError (Option String)}
      → Outcome m r.status t (offered r) x
      → (x >>= λ _. ok (landing r t)) ≡ ok r'
      → Accepted r t r'
  after-Outcome r t r' (refused n) e = cc
  after-Outcome r t r' (no_resume a w n) e = cc
  after-Outcome r t r' (entered a w n) e = record { lands = cc; allowed = a }
  after-Outcome r t r' (left a n w) e = record { lands = cc; allowed = a }
  after-Outcome r t r' (moved a n w) e = record { lands = cc; allowed = a }

  pub advance-Accepted :
      (r : Row m) (t : State m) (r' : Row m) → advance r t ≡ ok r' → Accepted r t r'
  unfolding advance
  advance-Accepted r t r' h = after-Outcome r t r' (transition-Outcome m r.status t (offered r)) h

  after_edge :
      (r : Row m) (t : State m) {x : Result TransitionError _}
      → Memᴰ t (targets m r.status)
      → is_waiting (value m t) ≡ false
      → Outcome m r.status t (offered r) x
      → (x >>= λ _. ok (landing r t)) ≡ ok (landing r t)
  after_edge r t i n (refused h) = absurd (h (edge i))
  after_edge r t i n (no_resume a w e) = cc
  after_edge r t i n (entered a w e) = refl
  after_edge r t i n (left a w v) = refl
  after_edge r t i n (moved a w v) = refl

  -- An edge to a state in which nothing waits is taken whatever the row recorded.
  pub advance-edge :
      (r : Row m) (t : State m)
      → Memᴰ t (targets m r.status)
      → is_waiting (value m t) ≡ false
      → advance r t ≡ ok (landing r t)
  unfolding advance
  advance-edge r t i n = after_edge r t i n (transition-Outcome m r.status t (offered r))
