-- ===== src/Persistence/WriteQueue/Cases.antt =====
-- What each part of sidecar/ibreeze/persistence/write_queue.py comes back with.
use i_breeze.Prelude.{
  ℕ, Bool, true, false, String, not, ◌≡◌, refl, sym, subst, Option, none, some, List, [], ◌∷◌,
  if◌then◌else◌, arith, inl, inr, ◌⊎◌,
}
use i_breeze.Result.{Result, ok, err}
use i_breeze.Asyncio.{Future, returned, raised, done}
use i_breeze.Persistence.Connection.{Connection, Faults}
use i_breeze.Persistence.WriteQueue.{
  WriteEnvelope, WriteQueue, full, submit, attempt, transact, handle, turn, put_envelope,
}

module _ {V D : Type 0} where
  -- A transaction that raised left what is committed as it was; one that returned committed what the command
  -- made of it.
  pub transact-cases :
      (faults : Faults) (c : D → Result String V × D) (k : Connection D)
      → ((x : String) × ((transact faults c k).0 ≡ raised x)
          × ((transact faults c k).1.database ≡ k.database))
        ⊎ ((v : V) × ((transact faults c k).0 ≡ returned v)
            × (c k.database ≡ (ok v, (transact faults c k).1.database)))
  unfolding transact attempt
  transact-cases faults c k =
      go faults.begin_raises faults.commit_raises faults.rollback_raises k.transaction
    where
      Case : Result String V × D → Future V String × Connection D → Type 0
      Case p t =
          ((x : String) × (t.0 ≡ raised x) × (t.1.database ≡ k.database))
          ⊎ ((v : V) × (t.0 ≡ returned v) × (p ≡ (ok v, t.1.database)))

      at :
          Option String
          → Option String
          → Option String
          → Option D
          → (D → Result String V × D)
          → Future V String × Connection D
      at b m r o command =
          transact (record { begin_raises = b; commit_raises = m; rollback_raises = r }) command
            (record { database = k.database; transaction = o })

      answered :
          (m r : Option String) (x : Result String V) (d : D)
          → Case (x, d) (at none m r none (λ _. (x, d)))
      answered m none (err e) d = inl (e, refl, refl)
      answered m (some x) (err e) d = inl (e, refl, refl)
      answered none r (ok v) d = inr (v, refl, refl)
      answered (some x) none (ok v) d = inl (x, refl, refl)
      answered (some x) (some y) (ok v) d = inl (x, refl, refl)

      go : (b m r : Option String) (o : Option D) → Case (c k.database) (at b m r o c)
      go (some x) m none o = inl (x, refl, refl)
      go (some x) m (some y) o = inl (x, refl, refl)
      go none m none (some w) = inl (_, refl, refl)
      go none m (some y) (some w) = inl (_, refl, refl)
      go none m r none = answered m r (c k.database).0 (c k.database).1

  pub transact-done :
      (faults : Faults) (c : D → Result String V × D) (k : Connection D)
      → done (transact faults c k).0 ≡ true
  transact-done faults c k = elim (transact-cases faults c k) [
    | inl (x, t, d) ↦ rw t refl
    | inr (v, t, d) ↦ rw t refl
  ]

  pub handle-queue :
      (q : WriteQueue V D) (e : WriteEnvelope V D) (now : ℕ) (faults : Faults) (gives_up : Bool)
      → (handle q e now faults gives_up).queue ≡ q.queue
  unfolding handle
  handle-queue q e now faults gives_up = ground arith

  pub handle-worker :
      (q : WriteQueue V D) (e : WriteEnvelope V D) (now : ℕ) (faults : Faults) (gives_up : Bool)
      → (handle q e now faults gives_up).worker ≡ q.worker
  unfolding handle
  handle-worker q e now faults gives_up = ground arith

  pub turn-handle :
      (q : WriteQueue V D) (e : WriteEnvelope V D) (rest : List (WriteEnvelope V D)) (now : ℕ)
      (faults : Faults) (gives_up : Bool)
      → q.worker ≡ true
      → q.queue ≡ e ∷ rest
      → turn q now faults gives_up ≡ handle (record q { queue = rest }) e now faults gives_up
  unfolding turn
  turn-handle q e rest now faults gives_up r h =
      subst (λ es. turned q.worker es ≡ head) (sym h)
        (subst (λ w. turned w (e ∷ rest) ≡ head) (sym r) refl)
    where
      head : WriteQueue V D
      head = handle (record q { queue = rest }) e now faults gives_up

      turned : Bool → List (WriteEnvelope V D) → WriteQueue V D
      turned w es = if not w then q else elim es [
        | [] ↦ record q { worker = q.running }
        | x ∷ xs ↦ handle (record q { queue = xs }) x now faults gives_up
      ]

  -- A `submit` that raises, or the queue with its envelope.
  pub submit-cases :
      (q : WriteQueue V D) (name : String) (deadline_at : ℕ) (c : D → Result String V × D)
      → ((x : String) × (submit q name deadline_at c ≡ err x))
        ⊎ (submit q name deadline_at c ≡ ok (put_envelope q name deadline_at c))
  unfolding submit
  submit-cases q name deadline_at c = go q.running (full q)
    where
      submitted : Bool → Bool → Result String (WriteQueue V D)
      submitted r f =
          if not r
          then err "LOCAL_WRITE_QUEUE_STOPPED"
          else if f
          then err "LOCAL_WRITE_BACKPRESSURE"
          else ok (put_envelope q name deadline_at c)

      go :
          (r f : Bool)
          → ((x : String) × (submitted r f ≡ err x))
            ⊎ (submitted r f ≡ ok (put_envelope q name deadline_at c))
      go false f = inl (_, refl)
      go true true = inl (_, refl)
      go true false = inr refl

  -- A turn that has no envelope to handle, and one that has.
  pub turn-cases :
      (q : WriteQueue V D) (now : ℕ) (faults : Faults) (gives_up : Bool)
      → ((w : Bool) × (turn q now faults gives_up ≡ record q { worker = w }))
        ⊎ ((e : WriteEnvelope V D) × (rest : List (WriteEnvelope V D)) × (q.queue ≡ e ∷ rest)
            × (turn q now faults gives_up
                ≡ handle (record q { queue = rest }) e now faults gives_up))
  unfolding turn
  turn-cases q now faults gives_up = go q.worker q.queue refl refl
    where
      turned : Bool → List (WriteEnvelope V D) → WriteQueue V D
      turned w es = if not w then q else elim es [
        | [] ↦ record q { worker = q.running }
        | e ∷ rest ↦ handle (record q { queue = rest }) e now faults gives_up
      ]

      go :
          (w : Bool) (es : List (WriteEnvelope V D))
          → q.worker ≡ w
          → q.queue ≡ es
          → ((v : Bool) × (turned w es ≡ record q { worker = v }))
            ⊎ ((e : WriteEnvelope V D) × (rest : List (WriteEnvelope V D)) × (q.queue ≡ e ∷ rest)
                × (turned w es ≡ handle (record q { queue = rest }) e now faults gives_up))
      go false es w h = inl (q.worker, refl)
      go true [] w h = inl (q.running, refl)
      go true (e ∷ rest) w h = inr (e, rest, h, refl)
