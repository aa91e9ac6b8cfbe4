-- ===== src/Persistence/WriteQueue/Served.antt =====
-- Every caller of sidecar/ibreeze/persistence/write_queue.py is answered.
use i_breeze.Prelude.{
  ℕ, suc, ◌<◌, Bool, true, false, String, not, ◌&&◌, ◌≡◌, refl, sym, ◌∙◌, subst, some, List, [],
  ◌∷◌, ◌++◌, length, arith, Bool-cases, inl, inr, ◌⊎◌,
}
use i_breeze.Result.{Result, ok, err, ok-injective}
use i_breeze.Asyncio.{
  Future, waiting, cancelled, future_at, append-Covers, IsDone, future_at-last, settle-Covers,
}
use i_breeze.Asyncio.Changes.{Settles-Covers, Settles-IsDone}
use i_breeze.Persistence.Connection.{Faults}
use i_breeze.Persistence.WriteQueue.{
  WriteEnvelope, WriteQueue, full, submit, barrier, turn, put_envelope, depth, Event, submits,
  barriers, turns, cancels, stops, stopped, interrupts, or_same, step, steps,
}
use i_breeze.Persistence.WriteQueue.Cases.{submit-cases, turn-handle, handle-queue, handle-worker}
use i_breeze.Persistence.WriteQueue.Futures.{handle-Settles, handle-IsDone, step-Settles}

module _ {V D : Type 0} where
  -- `e` waits behind `n` others.
  data Behind (e : WriteEnvelope V D) : ℕ → List (WriteEnvelope V D) → Type 0 where
    first : {es : List (WriteEnvelope V D)} → Behind e 0 (e ∷ es)
    later :
        {n : ℕ} {x : WriteEnvelope V D} {es : List (WriteEnvelope V D)}
        → Behind e n es
        → Behind e (suc n) (x ∷ es)

  Behind-append :
      (e : WriteEnvelope V D) (n : ℕ) (es : List (WriteEnvelope V D)) (x : WriteEnvelope V D)
      → Behind e n es
      → Behind e n (es ++ (x ∷ []))
  Behind-append e _ _ x first = first
  Behind-append e _ _ x (later b) = later (Behind-append e _ _ x b)

  Behind-last :
      (e : WriteEnvelope V D) (es : List (WriteEnvelope V D))
      → Behind e (length es) (es ++ (e ∷ []))
  Behind-last e [] = first
  Behind-last e (x ∷ es) = later (Behind-last e es)

  -- The turns of the worker among the events.
  unfoldable pub turns_in : List (Event V D) → ℕ
  turns_in [] = 0
  turns_in (turns now faults gives_up ∷ es) = suc (turns_in es)
  turns_in (_ ∷ es) = turns_in es

  abbrev pub is_stopped : Event V D → Bool
  is_stopped stopped = true
  is_stopped (interrupts now writes) = true
  is_stopped _ = false

  -- A wait of `stop` for the queue does not end among the events.
  unfoldable pub runs_on : List (Event V D) → Bool
  runs_on [] = true
  runs_on (e ∷ es) = not (is_stopped e) && runs_on es

  -- The worker is there, and `e` waits behind `n` others, with a future of the loop.
  record Pending (e : WriteEnvelope V D) (n : ℕ) (q : WriteQueue V D) : Type 0 where
    worker : q.worker ≡ true
    behind : Behind e n q.queue
    future : Future V String
    known : future_at e.future q.futures ≡ some future

  -- The next turn serves `e`, or one fewer is before it.
  turn-Pending :
      (e : WriteEnvelope V D) (n : ℕ) (q : WriteQueue V D) (now : ℕ) (faults : Faults)
      (gives_up : Bool)
      → Pending e n q
      → ((n ≡ 0) × IsDone e.future (turn q now faults gives_up).futures)
        ⊎ ((m : ℕ) × (n ≡ suc m) × Pending e m (turn q now faults gives_up))
  turn-Pending e n q now faults gives_up p = go n q.queue refl p.behind
    where
      go :
          (n : ℕ) (es : List (WriteEnvelope V D))
          → q.queue ≡ es
          → Behind e n es
          → ((n ≡ 0) × IsDone e.future (turn q now faults gives_up).futures)
            ⊎ ((m : ℕ) × (n ≡ suc m) × Pending e m (turn q now faults gives_up))
      go _ [] h b = elim b [ ]
      go _ (x ∷ rest) h first = inl (
        refl,
        subst (λ r. IsDone e.future r.futures)
            (sym (turn-handle q e rest now faults gives_up p.worker h))
            (handle-IsDone (record q { queue = rest }) e p.future now faults gives_up p.known),
      )
      go _ (x ∷ rest) h (later {n = m} b) = inr (
        m,
        refl,
        subst (Pending e m) (sym (turn-handle q x rest now faults gives_up p.worker h)) (
            let kept =
              Settles-Covers q.futures _
                (handle-Settles (record q { queue = rest }) x now faults gives_up) e.future p.future
                p.known in
            record {
              worker = handle-worker (record q { queue = rest }) x now faults gives_up ∙ p.worker;
              behind =
                  subst (Behind e m)
                    (sym (handle-queue (record q { queue = rest }) x now faults gives_up)) b;
              future = kept.0;
              known = kept.1;
            }),
      )

  -- No other event moves `e`, as long as `stop` does not end.
  put_envelope-Pending :
      (e : WriteEnvelope V D) (n : ℕ) (q : WriteQueue V D) (name : String) (far : ℕ)
      (c : D → Result String V × D)
      → Pending e n q
      → Pending e n (put_envelope q name far c)
  put_envelope-Pending e n q name far c p =
      let kept = append-Covers q.futures waiting e.future p.future p.known in
      record {
        worker = p.worker;
        behind = Behind-append e n q.queue _ p.behind;
        future = kept.0;
        known = kept.1;
      }

  submit-Pending :
      (e : WriteEnvelope V D) (n : ℕ) (q : WriteQueue V D) (name : String) (deadline_at : ℕ)
      (c : D → Result String V × D)
      → Pending e n q
      → Pending e n (or_same q (submit q name deadline_at c))
  submit-Pending e n q name deadline_at c p = elim (submit-cases q name deadline_at c) [
    | inl (x, h) ↦ rw h p
    | inr h ↦ rw h (put_envelope-Pending e n q name deadline_at c p)
  ]

  step-Pending :
      (e : WriteEnvelope V D) (n : ℕ) (q : WriteQueue V D) (x : Event V D)
      → turns_in (x ∷ []) ≡ 0
      → is_stopped x ≡ false
      → Pending e n q
      → Pending e n (step q x)
  unfolding step barrier turns_in
  step-Pending e n q (submits name deadline_at c) t r p = submit-Pending e n q name deadline_at c p
  step-Pending e n q (barriers v far) t r p = elim (Bool-cases (full q)) [
    | inl f ↦ rw f p
    | inr f ↦ rw f (put_envelope-Pending e n q "__barrier__" far _ p)
  ]
  step-Pending e n q (turns now faults gives_up) t r p = ground arith
  step-Pending e n q (cancels i) t r p =
      let kept = settle-Covers i cancelled q.futures e.future p.future p.known in
      record { worker = p.worker; behind = p.behind; future = kept.0; known = kept.1 }
  step-Pending e n q stops t r p = record {
    worker = p.worker;
    behind = p.behind;
    future = p.future;
    known = p.known;
  }
  step-Pending e n q stopped t r p = ground arith
  step-Pending e n q (interrupts now writes) t r p = ground arith

  steps-IsDone :
      (i : ℕ) (q : WriteQueue V D) (es : List (Event V D))
      → IsDone i q.futures
      → IsDone i (steps q es).futures
  unfolding steps
  steps-IsDone i q [] d = d
  steps-IsDone i q (x ∷ es) d =
      steps-IsDone i (step q x) es
        (Settles-IsDone i q.futures (step q x).futures (step-Settles q x) d)

  steps-Pending :
      (e : WriteEnvelope V D) (n : ℕ) (q : WriteQueue V D) (es : List (Event V D))
      → runs_on es ≡ true
      → n < turns_in es
      → Pending e n q
      → IsDone e.future (steps q es).futures
  unfolding steps runs_on turns_in step
  steps-Pending e n q [] r t p = ground arith
  steps-Pending e n q (turns now faults gives_up ∷ es) r t p =
      elim (turn-Pending e n q now faults gives_up p) [
        | inl (z, d) ↦ steps-IsDone e.future (step q (turns now faults gives_up)) es d
        | inr (m, z, p') ↦
            steps-Pending e m (step q (turns now faults gives_up)) es r (omega (arith, z, t)) p'
      ]
  steps-Pending e n q (submits name deadline_at c ∷ es) r t p =
      steps-Pending e n (step q (submits name deadline_at c)) es r t
        (step-Pending e n q (submits name deadline_at c) refl refl p)
  steps-Pending e n q (barriers v far ∷ es) r t p =
      steps-Pending e n (step q (barriers v far)) es r t
        (step-Pending e n q (barriers v far) refl refl p)
  steps-Pending e n q (cancels i ∷ es) r t p =
      steps-Pending e n (step q (cancels i)) es r t (step-Pending e n q (cancels i) refl refl p)
  steps-Pending e n q (stops ∷ es) r t p =
      steps-Pending e n (step q stops) es r t (step-Pending e n q stops refl refl p)
  steps-Pending e n q (stopped ∷ es) r t p = ground arith
  steps-Pending e n q (interrupts now writes ∷ es) r t p = ground arith

  submit-Pending_last :
      (q q' : WriteQueue V D) (name : String) (deadline_at : ℕ) (c : D → Result String V × D)
      → q.worker ≡ true
      → submit q name deadline_at c ≡ ok q'
      → (e : WriteEnvelope V D) × (e.future ≡ length q.futures) × Pending e (length q.queue) q'
  submit-Pending_last q q' name deadline_at c w h = elim (submit-cases q name deadline_at c) [
    | inl (x, f) ↦
        let z : ◌≡◌ {A = Result String (WriteQueue V D)} (err x) (ok q') = sym f ∙ h in ground arith
    | inr f ↦ (
      _,
      refl,
      subst (Pending _ (length q.queue)) (ok-injective (sym f ∙ h)) (record {
        worker = w;
        behind = Behind-last _ q.queue;
        future = waiting;
        known = future_at-last q.futures waiting;
      }),
    )
  ]

  -- A write that the queue accepted while its worker is there is answered, with a result or an exception,
  -- once the worker has had as many turns as commands were waiting, and one more: whatever else happens in
  -- between, other writes, expiries, failures, cancelled callers and a `stop` that goes on waiting.
  pub submit-IsDone :
      (q q' : WriteQueue V D) (name : String) (deadline_at : ℕ) (c : D → Result String V × D)
      (es : List (Event V D))
      → q.worker ≡ true
      → submit q name deadline_at c ≡ ok q'
      → runs_on es ≡ true
      → depth q < turns_in es
      → IsDone (length q.futures) (steps q' es).futures
  submit-IsDone q q' name deadline_at c es w h r t =
      let (e, i, p) = submit-Pending_last q q' name deadline_at c w h in
      subst (λ j. IsDone j (steps q' es).futures) i (steps-Pending e (length q.queue) q' es r t p)
