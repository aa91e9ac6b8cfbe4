-- ===== src/Asyncio/Changes.antt =====
-- Futures of asyncio over time: what is done stays done, what is there stays there.
use i_breeze.Prelude.{
  ℕ, ◌≡◌, Bool, true, false, some, List, [], ◌∷◌, ◌++◌, refl, arith, if◌then◌else◌,
}
use i_breeze.Asyncio.{
  Future, waiting, returned, cancelled, raised, done, settle, is_cancelled, Keeps, Covers,
  settle-Keeps, append-Keeps, append-Covers, IsDone, settle-Covers,
}

module _ {V E : Type 0} where
  -- What happens to the futures of a loop: some are settled, and new ones are made.
  pub data Settles (fs : List (Future V E)) : List (Future V E) → Type 0 where
    same : Settles fs fs
    then_settle :
        {gs : List (Future V E)} (i : ℕ) (new : Future V E)
        → Settles fs gs
        → Settles fs (settle i new gs)
    then_wait : {gs : List (Future V E)} → Settles fs gs → Settles fs (gs ++ (waiting ∷ []))

  pub Settles-Keeps : (fs gs : List (Future V E)) → Settles fs gs → Keeps fs gs
  Settles-Keeps fs _ same j f h d = h
  Settles-Keeps fs _ (then_settle i new s) j f h d =
      settle-Keeps i new _ j f (Settles-Keeps fs _ s j f h d) d
  Settles-Keeps fs _ (then_wait s) j f h d =
      append-Keeps _ waiting j f (Settles-Keeps fs _ s j f h d) d

  pub Settles-Covers : (fs gs : List (Future V E)) → Settles fs gs → Covers fs gs
  Settles-Covers fs _ same j f h = (f, h)
  Settles-Covers fs _ (then_settle i new s) j f h =
      let r = Settles-Covers fs _ s j f h in settle-Covers i new _ j r.0 r.1
  Settles-Covers fs _ (then_wait s) j f h =
      let r = Settles-Covers fs _ s j f h in append-Covers _ waiting j r.0 r.1

  pub Settles-IsDone :
      (i : ℕ) (fs gs : List (Future V E)) → Settles fs gs → IsDone i fs → IsDone i gs
  Settles-IsDone i fs gs s (f, h, d) = (f, Settles-Keeps fs gs s i f h d, d)

  abbrev pub given_up : Bool → ℕ → List (Future V E) → List (Future V E)
  given_up gives_up i fs = if gives_up then settle i cancelled fs else fs

  pub given_up-Settles : (g : Bool) (i : ℕ) (fs : List (Future V E)) → Settles fs (given_up g i fs)
  given_up-Settles true i fs = then_settle i cancelled same
  given_up-Settles false i fs = same

  pub cancelled-done : (f : Future V E) → is_cancelled (some f) ≡ true → done f ≡ true
  cancelled-done cancelled h = refl
  cancelled-done waiting h = ground arith
  cancelled-done (returned v) h = refl
  cancelled-done (raised x) h = refl
