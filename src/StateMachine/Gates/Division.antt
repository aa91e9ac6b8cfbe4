-- ===== src/StateMachine/Gates/Division.antt =====
-- Rows of sidecar/ibreeze/state_machine.py that cannot go round a state: the argument for any machine.
use i_breeze.Prelude.{
  ◌≡◌, refl, sym, Bool, true, false, ◌&&◌, List, [], ◌∷◌, Memᴰ, some, inl, inr, ◌⊎◌, arith,
  Bool-cases, subst,
}
use i_breeze.Result.{ok, bind-Ran, ok-injective}
use i_breeze.StateMachine.Registry.{is_waiting}
use i_breeze.StateMachine.Machines.{Machine, State, value, targets}
use i_breeze.StateMachine.Outcomes.{Allows, edge, back}
use i_breeze.StateMachine.Walk.{Row, offered, landing, advance, walk, Accepted, advance-Accepted}

-- Where a state stands with regard to a state that must not be skipped.
pub data Phase : Type 0 where
  early gate late : Phase

abbrev pub not_late : Phase → Bool
not_late late = false
not_late _ = true

abbrev pub all {ℓ} : {A : Type ℓ} → (A → Bool) → List A → Bool
all p [] = true
all p (x ∷ xs) = p x && all p xs

all-mem {ℓ} :
    {A : Type ℓ} (p : A → Bool) (a : A) (xs : List A) → all p xs ≡ true → Memᴰ a xs → p a ≡ true
all-mem p a [] h i = elim i [ ]
all-mem p a (x ∷ xs) h (Memᴰ.head e) = rw e (ground arith)
all-mem p a (x ∷ xs) h (Memᴰ.tail i) = all-mem p a xs (ground arith) i

-- A division of the states into phases such that no edge leads from an early state to a late one.
pub record Division (m : Machine) (g : State m) : Type 0 where
  pub phase : State m → Phase
  pub at_gate : (t : State m) → phase t ≡ gate → t ≡ g
  pub edges : (s : State m) → phase s ≡ early → all (λ t. not_late (phase t)) (targets m s) ≡ true

module _ {m : Machine} {g : State m} (d : Division m g) where
  open d use {phase, at_gate, edges}

  -- The row and what it remembers are early.
  abbrev pub IsEarly : Row m → Type 0
  IsEarly r = (phase r.status ≡ early) × ((u : State m) → r.resume ≡ some u → phase u ≡ early)

  offered-early : (r : Row m) → IsEarly r → (u : State m) → offered r ≡ some u → phase u ≡ early
  offered-early r h u e = elim (Bool-cases (is_waiting (value m r.status))) [
    | inl w ↦ h.1 u (ground arith)
    | inr n ↦ ground arith
  ]

  Allows-early :
      (r : Row m) (t : State m)
      → IsEarly r
      → Allows m r.status t (offered r)
      → not_late (phase t) ≡ true
  Allows-early r t h (edge i) = all-mem _ t (targets m r.status) (edges r.status h.0) i
  Allows-early r t h (back w e) = rw (offered-early r h t e)

  advance-IsEarly :
      (r : Row m) (t : State m) (r' : Row m)
      → IsEarly r
      → advance r t ≡ ok r'
      → (g ≡ t) ⊎ IsEarly r'
  advance-IsEarly r t r' h e = go (phase t) refl
    where
      a : Accepted r t r'
      a = advance-Accepted r t r' e

      lands_early : phase t ≡ early → IsEarly (landing r t)
      lands_early p = (p, λ u f. offered-early r h u (ground arith))

      go : (p : Phase) → phase t ≡ p → (g ≡ t) ⊎ IsEarly r'
      go early p = inr (subst IsEarly (sym a.lands) (lands_early p))
      go gate p = inl (sym (at_gate t p))
      go late p = cc (Allows-early r t h a.allowed, p)

  pub walk-IsEarly :
      (r : Row m) (ts : List (State m)) (r' : Row m)
      → IsEarly r
      → walk r ts ≡ ok r'
      → Memᴰ g ts ⊎ IsEarly r'
  unfolding walk
  walk-IsEarly r [] r' h e = inr (subst IsEarly (ok-injective e) h)
  walk-IsEarly r (t ∷ ts) r' h e =
      let x = bind-Ran (advance r t) (λ u. walk u ts) e in
      elim (advance-IsEarly r t x.value h x.first) [
        | inl q ↦ inl (Memᴰ.head q)
        | inr h' ↦ elim (walk-IsEarly x.value ts r' h' x.after) [
          | inl i ↦ inl (Memᴰ.tail i)
          | inr k ↦ inr k
        ]
      ]
