-- ===== src/Asyncio.antt =====
-- The futures of asyncio that the sidecar's queues share with their callers. A future is a position in
-- the list of the futures that its event loop made.
pub mod Changes
use i_breeze.Prelude.{
  ℕ, zero, suc, ◌≡◌, ◌≢◌, Bool, true, false, Option, none, some, List, [], ◌∷◌, ◌++◌, length, refl,
  ap, sym, subst, arith, inl, inr, ◌⊎◌, Bool-cases, if◌then◌else◌,
}

-- A future with results in `V` and exceptions in `E`; its caller may cancel it.
pub data Future (V E : Type 0) : Type 0 where
  waiting : Future V E
  returned : V → Future V E
  raised : E → Future V E
  cancelled : Future V E

module _ {V E : Type 0} where
  abbrev pub done : Future V E → Bool
  done waiting = false
  done _ = true

  unfoldable pub future_at : ℕ → List (Future V E) → Option (Future V E)
  future_at i [] = none
  future_at zero (f ∷ fs) = some f
  future_at (suc i) (f ∷ fs) = future_at i fs

  -- `if not future.done(): future.set_...`
  unfoldable pub settle : ℕ → Future V E → List (Future V E) → List (Future V E)
  settle i new [] = []
  settle zero new (f ∷ fs) = (if done f then f else new) ∷ fs
  settle (suc i) new (f ∷ fs) = f ∷ settle i new fs

  -- `future.cancelled()` of what stands at a position
  abbrev pub is_cancelled : Option (Future V E) → Bool
  is_cancelled (some cancelled) = true
  is_cancelled _ = false

  -- The futures of `gs` are those of `fs`, and those of `fs` that were done are what they were.
  abbrev pub Keeps : List (Future V E) → List (Future V E) → Type 0
  Keeps fs gs =
      (i : ℕ) (f : Future V E) → future_at i fs ≡ some f → done f ≡ true → future_at i gs ≡ some f

  pub future-injective : {f g : Future V E} → some f ≡ some g → f ≡ g
  future-injective h = cc

  same_done : (g f : Future V E) → g ≡ f → done f ≡ true → done g ≡ true
  same_done g f e d = rw e d

  pub settle-Keeps :
      (i : ℕ) (new : Future V E) (fs : List (Future V E)) → Keeps fs (settle i new fs)
  unfolding settle future_at
  settle-Keeps i new [] j f h d = h
  settle-Keeps zero new (g ∷ fs) zero f h d = rw (same_done g f (future-injective h) d) h
  settle-Keeps zero new (g ∷ fs) (suc j) f h d = h
  settle-Keeps (suc i) new (g ∷ fs) zero f h d = h
  settle-Keeps (suc i) new (g ∷ fs) (suc j) f h d = settle-Keeps i new fs j f h d

  pub append-Keeps : (fs : List (Future V E)) (new : Future V E) → Keeps fs (fs ++ (new ∷ []))
  unfolding future_at
  append-Keeps [] new j f h d = ground arith
  append-Keeps (g ∷ fs) new zero f h d = h
  append-Keeps (g ∷ fs) new (suc j) f h d = append-Keeps fs new j f h d

  unsettled : (f new : Future V E) → done new ≡ true → (if done f then f else new) ≢ waiting
  unsettled f new d h = elim (Bool-cases (done f)) [
    | inl e ↦ clash f e (rw e at h)
    | inr e ↦ clash new d (rw e at h)
  ]
    where
      clash : (g : Future V E) → done g ≡ true → g ≢ waiting
      clash g d e = let x : done waiting ≡ true = subst (λ y. done y ≡ true) e d in ground arith

  -- `settle` leaves no future waiting at its position, and starts none.
  pub settle-waiting :
      (i j : ℕ) (new : Future V E) (fs : List (Future V E))
      → done new ≡ true
      → future_at j (settle i new fs) ≡ some waiting
      → (i ≢ j) × (future_at j fs ≡ some waiting)
  unfolding settle future_at
  settle-waiting i j new [] d h = ground arith
  settle-waiting zero zero new (f ∷ fs) d h = absurd (unsettled f new d (future-injective h))
  settle-waiting zero (suc j) new (f ∷ fs) d h = (λ e. omega (arith, e), h)
  settle-waiting (suc i) zero new (f ∷ fs) d h = (λ e. omega (arith, e), h)
  settle-waiting (suc i) (suc j) new (f ∷ fs) d h =
      let r = settle-waiting i j new fs d h in (λ e. r.0 (omega (arith, e)), r.1)

  pub future_at-append :
      (i : ℕ) (new : Future V E) (fs : List (Future V E))
      → future_at i (fs ++ (new ∷ [])) ≡ some waiting
      → (i ≡ length fs) ⊎ (future_at i fs ≡ some waiting)
  unfolding future_at
  future_at-append zero new [] h = inl refl
  future_at-append (suc i) new [] h = ground arith
  future_at-append zero new (f ∷ fs) h = inr h
  future_at-append (suc i) new (f ∷ fs) h = elim (future_at-append i new fs h) [
    | inl e ↦ inl (ap suc e)
    | inr e ↦ inr e
  ]

  -- The future at a position is done, whatever it holds.
  abbrev pub IsDone : ℕ → List (Future V E) → Type 0
  IsDone i fs = (f : Future V E) × (future_at i fs ≡ some f) × (done f ≡ true)

  pub settle-IsDone :
      (i : ℕ) (new f : Future V E) (fs : List (Future V E))
      → done new ≡ true
      → future_at i fs ≡ some f
      → IsDone i (settle i new fs)
  unfolding settle future_at
  settle-IsDone i new f [] d h = ground arith
  settle-IsDone zero new f (g ∷ fs) d h = elim (Bool-cases (done g)) [
    | inl e ↦ (g, rw e refl, e)
    | inr e ↦ (new, rw e refl, d)
  ]
  settle-IsDone (suc i) new f (g ∷ fs) d h = settle-IsDone i new f fs d h

  -- The positions of `fs` are positions of `gs`.
  abbrev pub Covers : List (Future V E) → List (Future V E) → Type 0
  Covers fs gs =
      (i : ℕ) (f : Future V E)
      → future_at i fs ≡ some f
      → (g : Future V E) × (future_at i gs ≡ some g)

  pub settle-Covers :
      (i : ℕ) (new : Future V E) (fs : List (Future V E)) → Covers fs (settle i new fs)
  unfolding settle future_at
  settle-Covers i new [] j f h = (f, h)
  settle-Covers zero new (g ∷ fs) zero f h = (if done g then g else new, refl)
  settle-Covers zero new (g ∷ fs) (suc j) f h = (f, h)
  settle-Covers (suc i) new (g ∷ fs) zero f h = (f, h)
  settle-Covers (suc i) new (g ∷ fs) (suc j) f h = settle-Covers i new fs j f h

  pub append-Covers : (fs : List (Future V E)) (new : Future V E) → Covers fs (fs ++ (new ∷ []))
  unfolding future_at
  append-Covers [] new j f h = ground arith
  append-Covers (g ∷ fs) new zero f h = (f, h)
  append-Covers (g ∷ fs) new (suc j) f h = append-Covers fs new j f h

  pub future_at-last :
      (fs : List (Future V E)) (new : Future V E)
      → future_at (length fs) (fs ++ (new ∷ [])) ≡ some new
  unfolding future_at
  future_at-last [] new = refl
  future_at-last (g ∷ fs) new = future_at-last fs new

  -- A future that waits is settled to what it is given.
  pub settle-future_at :
      (i : ℕ) (new : Future V E) (fs : List (Future V E))
      → future_at i fs ≡ some waiting
      → future_at i (settle i new fs) ≡ some new
  unfolding future_at settle
  settle-future_at i new [] h = ground arith
  settle-future_at zero new (f ∷ fs) h = rw (future-injective h) refl
  settle-future_at (suc i) new (f ∷ fs) h = settle-future_at i new fs h
