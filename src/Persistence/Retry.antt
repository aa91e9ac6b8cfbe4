-- ===== src/Persistence/Retry.antt =====
-- A repeated request at the write queue: sidecar/ibreeze/persistence/write_queue.py runs commands of
-- sidecar/ibreeze/persistence/unit_of_work.py.
use i_breeze.Prelude.{
  ℕ, String, str_eq, Bool, true, false, Option, some, List, ◌∷◌, ◌≡◌, sym, ap, ◌∙◌, subst, inl, inr,
  ◌⊎◌, arith,
}
use i_breeze.Result.{Result, ok, err, ok-injective}
use i_breeze.Asyncio.{Future, waiting, returned, raised, future_at, future-injective}
use i_breeze.Persistence.Connection.{Faults}
use i_breeze.Persistence.UnitOfWork.{Database, CommandResult, encoded, execute}
use i_breeze.Persistence.WriteQueue.{WriteEnvelope, WriteQueue, turn}
use i_breeze.Persistence.WriteQueue.Cases.{turn-handle, handle-queue, handle-worker}
use i_breeze.Persistence.WriteQueue.Settling.{turn-Outcome}
use i_breeze.Persistence.Replay.{execute-once}

module _ {V D : Type 0} where
  -- A queue after the turn that handled its first envelope.
  turn-queue :
      (q : WriteQueue V D) (e : WriteEnvelope V D) (rest : List (WriteEnvelope V D)) (now : ℕ)
      (faults : Faults)
      → q.worker ≡ true
      → q.queue ≡ e ∷ rest
      → ((turn q now faults false).worker ≡ true) × ((turn q now faults false).queue ≡ rest)
  turn-queue q e rest now faults w h =
      subst (λ q'. (q'.worker ≡ true) × (q'.queue ≡ rest))
        (sym (turn-handle q e rest now faults false w h))
        (
          handle-worker (record q { queue = rest }) e now faults false ∙ w,
          handle-queue (record q { queue = rest }) e now faults false,
        )

  -- An answered caller's command returned its answer with the database of the turn.
  turn-returned :
      (q : WriteQueue V D) (e : WriteEnvelope V D) (rest : List (WriteEnvelope V D)) (now : ℕ)
      (faults : Faults) (v : V)
      → q.worker ≡ true
      → q.queue ≡ e ∷ rest
      → future_at e.future q.futures ≡ some waiting
      → future_at e.future (turn q now faults false).futures ≡ some (returned v)
      → e.execute q.connection.database ≡ (ok v, (turn q now faults false).connection.database)
  turn-returned q e rest now faults v w h f a = elim (turn-Outcome q e rest now faults w h f) [
    | inl (x, r, d) ↦
        let z : ◌≡◌ {A = Future V String} (raised x) (returned v) = future-injective (sym r ∙ a) in
        ground arith
    | inr (u, r, c, t) ↦
        let z : ◌≡◌ {A = Future V String} (returned u) (returned v) =
          future-injective (sym r ∙ a) in
        subst
          (λ y.
            e.execute q.connection.database ≡ (ok y, (turn q now faults false).connection.database))
          (value z) c
  ]
    where
      value : {u v : V} → ◌≡◌ {A = Future V String} (returned u) (returned v) → u ≡ v
      value h = cc

-- A command of the unit of work at the queue: one that raises may have written something, `left`.
abbrev pub at_queue : {V D : Type 0} → D → Result String (V × D) → Result String V × D
at_queue left (err e) = (err e, left)
at_queue left (ok (v, d)) = (ok v, d)

at_queue-ok :
    {V D : Type 0} (left : D) (r : Result String (V × D)) (v : V) (d : D)
    → at_queue left r ≡ (ok v, d)
    → r ≡ ok (v, d)
at_queue-ok left (err e) v d h = ground arith
at_queue-ok left (ok (u, c)) v d h = cc

module _ {V E O D : Type 0} (is_digest : String → Bool) (as_text : V → Option String)
    (dumps : V → String) (loads : String → Result String V) (append_all : D → E → Result String D)
    (enqueue_all : D → O → Result String D) where
  -- Two callers wait at the head of the queue with the same request, and the first one is answered by `v`:
  -- the turn of the second leaves all that is committed as it is, and answers `v` or raises. The key is not
  -- empty, and `v` is an answer that json reads back from the text stored for it, which is not empty.
  -- Whatever a command that raises has written before is `left` and `left'`.
  pub turn-once :
      (q : WriteQueue V (Database D)) (e e' : WriteEnvelope V (Database D))
      (rest : List (WriteEnvelope V (Database D))) (key sha : String)
      (command again : D → Result String (CommandResult V E O × D)) (at days at' days' now now' : ℕ)
      (faults faults' : Faults) (left left' : Database D → Database D) (v : V)
      → str_eq key "" ≡ false
      → str_eq (encoded is_digest as_text dumps loads append_all enqueue_all v) "" ≡ false
      → loads (encoded is_digest as_text dumps loads append_all enqueue_all v) ≡ ok v
      → e.execute ≡ (λ db. at_queue (left db) (
          execute is_digest as_text dumps loads append_all enqueue_all true db
            (some key)
            sha
            command
            at
            days))
      → e'.execute ≡ (λ db. at_queue (left' db) (
          execute is_digest as_text dumps loads append_all enqueue_all true db
            (some key)
            sha
            again
            at'
            days'))
      → q.worker ≡ true
      → q.queue ≡ e ∷ e' ∷ rest
      → future_at e.future q.futures ≡ some waiting
      → future_at e'.future (turn q now faults false).futures ≡ some waiting
      → future_at e.future (turn q now faults false).futures ≡ some (returned v)
      → ((turn (turn q now faults false) now' faults' false).connection.database
          ≡ (turn q now faults false).connection.database)
        × ((future_at e'.future (turn (turn q now faults false) now' faults' false).futures
              ≡ some (returned v))
            ⊎ ((x : String) × (future_at e'.future
                    (turn (turn q now faults false) now' faults' false).futures
                  ≡ some (raised x))))
  turn-once q e e' rest key sha command again at days at' days' now now' faults faults' left left' v
        k n l c c' w h f f' a =
      let q1 = turn q now faults false in
      let after = turn-queue q e (e' ∷ rest) now faults w h in
      let first : execute is_digest as_text dumps loads append_all enqueue_all true
            q.connection.database (some key) sha command at days
          ≡ ok (v, q1.connection.database) =
        at_queue-ok (left q.connection.database) _ v q1.connection.database (
          sym (ap (λ g. g q.connection.database) c)
          ∙ turn-returned q e (e' ∷ rest) now faults v w h f a) in
      let again_is : e'.execute q1.connection.database ≡ (ok v, q1.connection.database) =
        ap (λ g. g q1.connection.database) c'
        ∙ ap (at_queue (left' q1.connection.database)) (
            execute-once is_digest as_text dumps loads append_all enqueue_all q.connection.database
              q1.connection.database key sha command again at days at' days' v k n l first) in
      elim (turn-Outcome q1 e' rest now' faults' after.0 after.1 f') [
        | inl (x, r, d) ↦ (d, inr (x, r))
        | inr (u, r, y, t) ↦
            let z = sym again_is ∙ y in
            (
              sym (ap (λ p. p.1) z),
              inl (
                  subst
                    (λ y.
                      future_at e'.future (turn q1 now' faults' false).futures ≡ some (returned y))
                    (sym (ok-injective (ap (λ p. p.0) z))) r),
            )
      ]
