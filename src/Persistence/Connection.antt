-- ===== src/Persistence/Connection.antt =====
-- The SQLite connection that sidecar/ibreeze/persistence/write_queue.py writes through, as far as SQLite
-- documents it: what a transaction writes is seen by it alone until COMMIT, and forgotten by ROLLBACK, and
-- BEGIN is refused inside a transaction. Each of the three may raise, and then does nothing.
use i_breeze.Prelude.{String, Bool, true, false, Option, none, some}
use i_breeze.Result.{Result, ok, err}

-- What is committed, and what an open transaction sees.
pub record Connection (D : Type 0) : Type 0 where
  pub database : D
  pub transaction : Option D

-- What BEGIN, COMMIT and ROLLBACK raise in a turn, if anything.
pub record Faults : Type 0 where
  pub begin_raises : Option String
  pub commit_raises : Option String
  pub rollback_raises : Option String

-- Nothing is raised.
abbrev pub sound : Faults
sound = record { begin_raises = none; commit_raises = none; rollback_raises = none }

abbrev pub is_some {ℓ} : {A : Type ℓ} → Option A → Bool
is_some none = false
is_some (some a) = true

module _ {D : Type 0} where
  abbrev pub begin_immediate : Option String → Connection D → Result String (Connection D)
  begin_immediate (some e) k = err e
  begin_immediate none k = elim k.transaction [
    | none ↦ ok (record k { transaction = some k.database })
    | some d ↦ err "cannot start a transaction within a transaction"
  ]

  -- A command answers or raises, and has written something either way; outside a transaction each write is
  -- committed at once.
  abbrev pub perform :
      {V : Type 0} → (D → Result String V × D) → Connection D → Result String V × Connection D
  perform command k = elim k.transaction [
    | none ↦ ((command k.database).0, record k { database = (command k.database).1 })
    | some d ↦ ((command d).0, record k { transaction = some (command d).1 })
  ]

  abbrev pub commit : Option String → Connection D → Result String (Connection D)
  commit (some e) k = err e
  commit none k =
      ok (elim k.transaction [ none ↦ k | some d ↦ record { database = d; transaction = none } ])

  abbrev pub rollback : Option String → Connection D → Connection D
  rollback (some e) k = k
  rollback none k = record k { transaction = none }
