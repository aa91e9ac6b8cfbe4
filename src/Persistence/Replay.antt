-- ===== src/Persistence/Replay.antt =====
-- A command runs once under an idempotency key: sidecar/ibreeze/persistence/unit_of_work.py.
use i_breeze.Prelude.{
  ℕ, ◌*◌, String, str_eq, eq_iff, Bool, true, false, Option, none, some, ◌≡◌, refl, sym, ap, ◌∙◌,
  subst, lookup, put, lookup-put, is_in, if◌then◌else◌, Bool-cases, inl, inr, arith,
}
use i_breeze.Result.{Result, ok, err, ◌>>=◌, bind-Ran, ok-injective}
use i_breeze.Persistence.Idempotency.{
  IdempotencyRow, IdempotencyTable, Cached, response, processing, lookup_row, look_up, claim,
  complete, update_key,
}
use i_breeze.Persistence.UnitOfWork.{
  Database, CommandResult, encoded, replayed, run_command, first_run, execute,
}

-- The row under a key, as a claim that is granted and then completed leaves it.
claim-lookup :
    (is_digest : String → Bool) (table : IdempotencyTable) (key sha : String) (now ttl : ℕ)
    (c : Bool × IdempotencyTable)
    → claim is_digest table key sha now ttl ≡ ok c
    → c.0 ≡ true
    → (row : IdempotencyRow) × (lookup key c.1 ≡ some row) × (row.request_sha256 ≡ sha)
unfolding claim
claim-lookup is_digest table key sha now ttl c h t = elim (Bool-cases (is_digest sha)) [
  | inl e ↦ elim (Bool-cases (is_in key table)) [
    | inl f ↦
        let x : (false, table) ≡ c = ok-injective (rw (e, f) at h) in
        let y : false ≡ true = ap (λ p. p.0) x ∙ t in ground arith
    | inr f ↦
        let x = ok-injective (rw (e, f) at h) in
        (
          processing sha now ttl,
          subst (λ p. lookup key p.1 ≡ some (processing sha now ttl)) x
              (lookup-put key key (processing sha now ttl) table
                ∙ rw ((eq_iff key key).1 refl) refl),
          refl,
        )
  ]
  | inr e ↦
      let x : ◌≡◌ {A = Result String (Bool × IdempotencyTable)} (err "IntegrityError") (ok c) =
        rw e at h in
      ground arith
]

abbrev finished : IdempotencyRow → String → IdempotencyRow
finished row text = record row { status = "completed"; response_json = some text }

complete-put :
    (table : IdempotencyTable) (key text : String) (row : IdempotencyRow)
    → lookup key table ≡ some row
    → complete table key (some text) none ≡ put key (finished row text) table
unfolding complete
complete-put table key text row f = rw (f, complete, update_key) refl

look_up-lookup_row :
    (table : IdempotencyTable) (key sha : String) (row : IdempotencyRow)
    → lookup key table ≡ some row
    → look_up table (some key) sha ≡ lookup_row row sha
unfolding look_up
look_up-lookup_row table key sha row f = rw (f, look_up) refl

finished-lookup_row :
    (row : IdempotencyRow) (sha text : String)
    → row.request_sha256 ≡ sha
    → str_eq text "" ≡ false
    → lookup_row (finished row text) sha ≡ ok (some (response text))
unfolding lookup_row
finished-lookup_row row sha text s n = rw ((eq_iff row.request_sha256 sha).1 s, n) refl

completed-look_up :
    (table : IdempotencyTable) (key sha text : String) (row : IdempotencyRow)
    → lookup key table ≡ some row
    → row.request_sha256 ≡ sha
    → str_eq text "" ≡ false
    → look_up (complete table key (some text) none) (some key) sha ≡ ok (some (response text))
completed-look_up table key sha text row f s n =
    ap (λ t. look_up t (some key) sha) (complete-put table key text row f)
    ∙ look_up-lookup_row (put key (finished row text) table) key sha (finished row text)
        (lookup-put key key (finished row text) table ∙ rw ((eq_iff key key).1 refl) refl)
    ∙ finished-lookup_row row sha text s n

module _ {V E O D : Type 0} (is_digest : String → Bool) (as_text : V → Option String)
    (dumps : V → String) (loads : String → Result String V) (append_all : D → E → Result String D)
    (enqueue_all : D → O → Result String D) where
  abbrev encode : V → String
  encode v = encoded is_digest as_text dumps loads append_all enqueue_all v

  -- The request is known, and answered by `v`.
  record Remembers (table : IdempotencyTable) (key sha : String) (v : V) : Type 0 where
    cached : Cached
    known : look_up table (some key) sha ≡ ok (some cached)
    answers : replayed is_digest as_text dumps loads append_all enqueue_all cached ≡ ok v

  first_run-Remembers :
      (db db' : Database D) (key sha : String)
      (command : D → Result String (CommandResult V E O × D)) (now days : ℕ) (v : V)
      → str_eq (encode v) "" ≡ false
      → loads (encode v) ≡ ok v
      → first_run is_digest as_text dumps loads append_all enqueue_all db key sha command now days
        ≡ ok (v, db')
      → Remembers db'.idempotency key sha v
  unfolding first_run replayed
  first_run-Remembers db db' key sha command now days v n l h =
      let c =
        bind-Ran (claim is_digest db.idempotency key sha now (days * 86400))
          (λ claimed.
            if claimed.0
            then (run_command is_digest as_text dumps loads append_all enqueue_all command db.tables
                >>= λ done. ok (
                  done.0,
                  record {
                    idempotency = complete claimed.1 key (some (encode done.0)) none;
                    tables = done.1;
                  },
                ))
            else err "IDEMPOTENCY_CLAIM_FAILED")
          h in
      elim (Bool-cases c.value.0) [
        | inl t ↦
            let r =
              bind-Ran
                (run_command is_digest as_text dumps loads append_all enqueue_all command db.tables)
                (λ done. ok (
                  done.0,
                  record {
                    idempotency = complete c.value.1 key (some (encode done.0)) none;
                    tables = done.1;
                  },
                ))
                (rw t at c.after) in
            let k =
              claim-lookup is_digest db.idempotency key sha now (days * 86400) c.value c.first t in
            let p = ok-injective r.after in
            let same : r.value.0 ≡ v = ap (λ x. x.0) p in
            let stored : complete c.value.1 key (some (encode v)) none ≡ db'.idempotency =
              ap (λ w. complete c.value.1 key (some (encode w)) none) (sym same)
              ∙ ap (λ x. x.1.idempotency) p in
            record {
              cached = response (encode v);
              known =
                  ap (λ x. look_up x (some key) sha) (sym stored)
                  ∙ completed-look_up c.value.1 key sha (encode v) k.0 k.1 k.2 n;
              answers = l;
            }
        | inr t ↦
            let x : ◌≡◌ {A = Result String (V × Database D)} (err "IDEMPOTENCY_CLAIM_FAILED")
                (ok (v, db')) =
              rw t at c.after in
            ground arith
      ]

  Remembers-execute :
      (db : Database D) (key sha : String) (v : V)
      (command : D → Result String (CommandResult V E O × D)) (now days : ℕ)
      → str_eq key "" ≡ false
      → Remembers db.idempotency key sha v
      → execute is_digest as_text dumps loads append_all enqueue_all true db
          (some key)
          sha
          command
          now
          days
        ≡ ok (v, db)
  unfolding execute
  Remembers-execute db key sha v command now days k m = rw k (rw m.known (rw m.answers refl))

  execute-Remembers :
      (db db' : Database D) (key sha : String)
      (command : D → Result String (CommandResult V E O × D)) (now days : ℕ) (v : V)
      → str_eq key "" ≡ false
      → str_eq (encode v) "" ≡ false
      → loads (encode v) ≡ ok v
      → execute is_digest as_text dumps loads append_all enqueue_all true db
          (some key)
          sha
          command
          now
          days
        ≡ ok (v, db')
      → Remembers db'.idempotency key sha v
  unfolding execute
  execute-Remembers db db' key sha command now days v k n l h =
      let r = bind-Ran (look_up db.idempotency (some key) sha) after_look_up (rw k at h) in
      go r.value r.first r.after
    where
      after_look_up : Option Cached → Result String (V × Database D)
      after_look_up none =
          first_run is_digest as_text dumps loads append_all enqueue_all db key sha command now days
      after_look_up (some c) =
          replayed is_digest as_text dumps loads append_all enqueue_all c >>= λ v. ok (v, db)

      go :
          (o : Option Cached)
          → look_up db.idempotency (some key) sha ≡ ok o
          → after_look_up o ≡ ok (v, db')
          → Remembers db'.idempotency key sha v
      go none f a = first_run-Remembers db db' key sha command now days v n l a
      go (some c) f a =
          let r =
            bind-Ran (replayed is_digest as_text dumps loads append_all enqueue_all c)
              (λ v. ok (v, db)) a in
          let p = ok-injective r.after in
          record {
            cached = c;
            known = ap (λ d. look_up d.idempotency (some key) sha) (sym (ap (λ x. x.1) p)) ∙ f;
            answers = r.first ∙ ap ok (ap (λ x. x.0) p);
          }

  -- Inside transactions, a command that returned under a key is not run again: the same request under this key, whatever
  -- command and time come with it, answers what the first run answered and leaves the whole database as
  -- it is. The key is not empty, and the answer is one that json reads back from the text that was
  -- stored for it, which is not empty.
  pub execute-once :
      (db db' : Database D) (key sha : String)
      (command again : D → Result String (CommandResult V E O × D)) (now days later days' : ℕ)
      (v : V)
      → str_eq key "" ≡ false
      → str_eq (encoded is_digest as_text dumps loads append_all enqueue_all v) "" ≡ false
      → loads (encoded is_digest as_text dumps loads append_all enqueue_all v) ≡ ok v
      → execute is_digest as_text dumps loads append_all enqueue_all true db
          (some key)
          sha
          command
          now
          days
        ≡ ok (v, db')
      → execute is_digest as_text dumps loads append_all enqueue_all true db'
          (some key)
          sha
          again
          later
          days'
        ≡ ok (v, db')
  execute-once db db' key sha command again now days later days' v k n l h =
      Remembers-execute db' key sha v again later days' k
        (execute-Remembers db db' key sha command now days v k n l h)
