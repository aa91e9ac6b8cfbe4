-- ===== src/StateMachine/Gates/Histories.antt =====
-- Histories of calls of `transition` of sidecar/ibreeze/state_machine.py, each with its own `resume_state`.
use mathlib.Core.Option
use i_breeze.Prelude.{
  String, ◌≡◌, refl, sym, true, false, ◌||◌, List, [], ◌∷◌, map, Memᴰ, Option, inl, inr, Bool-cases,
  arith,
}
use i_breeze.Result.{Result, ok, ◌>>=◌, bind-Ran, ok-injective}
use i_breeze.StateMachine.Registry.{TransitionError, is_waiting, transition}
use i_breeze.StateMachine.Machines.{Machine, State, name, value, targets}
use i_breeze.StateMachine.Outcomes.{
  refused, no_resume, entered, left, moved, Allows, edge, back, Outcome, transition-Outcome,
}
use i_breeze.StateMachine.Walk.{Row, offered, landing, advance, walk, advance-edge}

-- The arguments of a call.
pub record Move (m : Machine) : Type 0 where
  pub target : State m
  pub resume_state : Option (State m)

module _ {m : Machine} where
  -- One call after the other, each from the state that the last one went to.
  unfoldable pub moves : State m → List (Move m) → Result TransitionError (State m)
  moves s [] = ok s
  moves s (v ∷ vs) = do
    _ ← transition (name m) (value m s) (value m v.target) (Option.map (value m) v.resume_state)
    moves v.target vs

  -- Where a waiting state is entered or left, the resume state that is passed is the state in which the
  -- wait began.
  abbrev pub IsHonest : Row m → List (Move m) → Type 0
  IsHonest r [] = Unit {0}
  IsHonest r (v ∷ vs) =
      ((is_waiting (value m r.status) || is_waiting (value m v.target)) ≡ true
        → v.resume_state ≡ offered r)
      × IsHonest (landing r v.target) vs

  accepted-Allows :
      (s t : State m) (p : Option (State m)) (y : Option String)
      {x : Result TransitionError (Option String)}
      → Outcome m s t p x
      → x ≡ ok y
      → Allows m s t p
  accepted-Allows s t p y (refused n) e = cc
  accepted-Allows s t p y (no_resume a w n) e = cc
  accepted-Allows s t p y (entered a w n) e = a
  accepted-Allows s t p y (left a n w) e = a
  accepted-Allows s t p y (moved a n w) e = a

  Allows-edge :
      (s t : State m) (p : Option (State m))
      → is_waiting (value m s) ≡ false
      → Allows m s t p
      → Memᴰ t (targets m s)
  Allows-edge s t p n (edge i) = i
  Allows-edge s t p n (back w e) = cc

  move-advance :
      (r : Row m) (v : Move m) (y : Option String)
      → ((is_waiting (value m r.status) || is_waiting (value m v.target)) ≡ true
          → v.resume_state ≡ offered r)
      → transition
          (name m)
          (value m r.status)
          (value m v.target)
          (Option.map (value m) v.resume_state)
        ≡ ok y
      → advance r v.target ≡ ok (landing r v.target)
  unfolding advance
  move-advance r v y h e =
      elim (Bool-cases (is_waiting (value m r.status) || is_waiting (value m v.target))) [
        | inl w ↦ rw (sym (h w), e) refl
        | inr n ↦
            advance-edge r v.target
              (Allows-edge r.status v.target v.resume_state (ground arith) (
                accepted-Allows r.status v.target v.resume_state y
                  (transition-Outcome m r.status v.target v.resume_state) e))
              (ground arith)
      ]

  -- Honest calls walk a row through their targets.
  pub moves-walk :
      (r : Row m) (vs : List (Move m)) (f : State m)
      → moves r.status vs ≡ ok f
      → IsHonest r vs
      → (r' : Row m) × (walk r (map Move.target vs) ≡ ok r') × (r'.status ≡ f)
  unfolding moves walk
  moves-walk r [] f e h = (r, refl, ok-injective e)
  moves-walk r (v ∷ vs) f e h =
      let x =
        bind-Ran
          (transition (name m) (value m r.status) (value m v.target)
            (Option.map (value m) v.resume_state))
          _ e in
      let (r', w, z) = moves-walk (landing r v.target) vs f x.after h.1 in
      (r', rw (move-advance r v x.value h.0 x.first) w, z)
