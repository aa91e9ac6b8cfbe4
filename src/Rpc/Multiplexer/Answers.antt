-- ===== src/Rpc/Multiplexer/Answers.antt =====
-- The pending requests of sidecar/ibreeze/rpc/multiplexer.py account for the futures that wait.
use i_breeze.Prelude.{
  ℕ, Bool, true, false, String, str_eq, eq_iff, ◌≡◌, ◌≢◌, refl, sym, ap, ◌∙◌, Option, none, some,
  List, [], ◌∷◌, length, lookup, keys, pop, if◌then◌else◌, arith, Option-cases, Bool-cases, inl,
  inr, leb, contains, ◌||◌, lookup-put, lookup-pop, subst,
}
use i_breeze.Asyncio.{waiting, done, future_at, settle, settle-waiting, future_at-append}
use i_breeze.Rpc.Multiplexer.{
  max_pending_per_direction, Hub, PendingRequest, or_same, answer, register_pending,
  resolve_pending, resolve_each,
}

request-injective : {r s : PendingRequest} → some r ≡ some s → r ≡ s
request-injective h = cc

still_pending :
    (k j : String) (r s : PendingRequest) (d : List (String × PendingRequest))
    → lookup k d ≡ some r
    → lookup j d ≡ some s
    → r.response_future ≢ s.response_future
    → lookup j (pop k d) ≡ some s
still_pending k j r s d a b n = elim (Bool-cases (str_eq k j)) [
  | inl e ↦ absurd (
      n (
        ap PendingRequest.response_future
          (request-injective (sym a ∙ ap (λ x. lookup x d) ((eq_iff k j).0 e) ∙ b))))
  | inr e ↦ lookup-pop k j d ∙ rw e b
]

module _ {V : Type 0} where
  -- Each future that still waits is the future of a pending request.
  abbrev pub NoLeak : Hub V → Type 0
  NoLeak h =
      (i : ℕ)
      → future_at i h.futures ≡ some waiting
      → (k : String) × (r : PendingRequest) × (lookup k h.pending ≡ some r)
        × (r.response_future ≡ i)

  answer-done : (result : Option V) (error : Option String) → done (answer result error) ≡ true
  answer-done result none = refl
  answer-done result (some e) = ground arith

  pub resolve_pending-NoLeak :
      (h : Hub V) (rpc_id : String) (result : Option V) (error : Option String)
      → NoLeak h
      → NoLeak (resolve_pending h rpc_id result error)
  unfolding resolve_pending
  resolve_pending-NoLeak h k result error w i = elim (Option-cases (lookup k h.pending)) [
    | inl n ↦ rw (n, resolve_pending) (w i)
    | inr (r, p) ↦
        rw (p, resolve_pending)
          (λ e.
            let s =
              settle-waiting r.response_future i (answer result error) h.futures
                (answer-done result error) e in
            let q = w i s.1 in
            (q.0, q.1, still_pending k q.0 r q.1 h.pending p q.2 (λ x. s.0 (x ∙ q.3)), q.3))
  ]

  pub resolve_each-NoLeak :
      (ids : List String) (error : Option String) (h : Hub V)
      → NoLeak h
      → NoLeak (resolve_each ids error h)
  unfolding resolve_each
  resolve_each-NoLeak [] error h w = w
  resolve_each-NoLeak (k ∷ ids) error h w =
      resolve_each-NoLeak ids error (resolve_pending h k none error)
        (resolve_pending-NoLeak h k none error w)

  -- Whichever entries are resolved in turn, none of them is pending afterwards, and none is new.
  resolve_pending-lookup :
      (h : Hub V) (k j : String) (result : Option V) (error : Option String)
      → lookup j (resolve_pending h k result error).pending
        ≡ (if str_eq k j then none else lookup j h.pending)
  unfolding resolve_pending
  resolve_pending-lookup h k j result error = elim (Option-cases (lookup k h.pending)) [
    | inl n ↦ rw (n, resolve_pending) (absent k j h.pending n)
    | inr (r, p) ↦ rw (p, resolve_pending) (lookup-pop k j h.pending)
  ]
    where
      absent :
          (k j : String) (d : List (String × PendingRequest))
          → lookup k d ≡ none
          → lookup j d ≡ (if str_eq k j then none else lookup j d)
      absent k j d n = elim (Bool-cases (str_eq k j)) [
        | inl e ↦ rw e (ap (λ x. lookup x d) (sym ((eq_iff k j).0 e)) ∙ n)
        | inr e ↦ rw e refl
      ]

  resolve_each-lookup :
      (ids : List String) (error : Option String) (h : Hub V) (j : String)
      → lookup j (resolve_each ids error h).pending
        ≡ (if contains j ids then none else lookup j h.pending)
  unfolding resolve_each
  resolve_each-lookup [] error h j = refl
  resolve_each-lookup (k ∷ ids) error h j =
      resolve_each-lookup ids error (resolve_pending h k none error) j
      ∙ rw (resolve_pending-lookup h k j none error)
          (nested (str_eq k j) (contains j ids) (lookup j h.pending))
    where
      nested :
          (a b : Bool) (o : Option PendingRequest)
          → (if b then none else if a then none else o) ≡ (if a || b then none else o)
      nested a b o = ground arith

keys-lookup {ℓ} :
    {V : Type ℓ} (j : String) (d : List (String × V))
    → contains j (keys d) ≡ false
    → lookup j d ≡ none
unfolding lookup
keys-lookup j [] h = refl
keys-lookup j ((k, v) ∷ d) h = ground (arith, keys-lookup j d)

no_keys {ℓ} : {V : Type ℓ} (d : List (String × V)) → ((j : String) → lookup j d ≡ none) → d ≡ []
unfolding lookup
no_keys [] h = refl
no_keys ((k, v) ∷ d) h = let found = h k in ground (arith, eq_iff k k)

module _ {V : Type 0} where
  pub none_pending :
      (h : Hub V) (error : Option String) → (resolve_each (keys h.pending) error h).pending ≡ []
  none_pending h error = no_keys _ (λ j. resolve_each-lookup (keys h.pending) error h j ∙ missing j)
    where
      missing :
          (j : String) → (if contains j (keys h.pending) then none else lookup j h.pending) ≡ none
      missing j = elim (Bool-cases (contains j (keys h.pending))) [
        | inl e ↦ rw e refl
        | inr e ↦ rw e (keys-lookup j h.pending e)
      ]

  pub resolve_each-generation :
      (ids : List String) (error : Option String) (h : Hub V)
      → (resolve_each ids error h).generation ≡ h.generation
  unfolding resolve_each resolve_pending
  resolve_each-generation [] error h = refl
  resolve_each-generation (k ∷ ids) error h =
      resolve_each-generation ids error (resolve_pending h k none error) ∙ one (lookup k h.pending)
    where
      one :
          (o : Option PendingRequest)
          → (elim o as (λ _. Hub V) [
            | none ↦ h
            | some r ↦ record h {
              pending = pop k h.pending;
              futures = settle r.response_future (answer none error) h.futures;
            }
          ]).generation
            ≡ h.generation
      one none = refl
      one (some r) = refl

  pub register_pending-NoLeak :
      (h : Hub V) (rpc_id : String) (deadline : ℕ)
      → lookup rpc_id h.pending ≡ none
      → NoLeak h
      → NoLeak (or_same h (register_pending h rpc_id deadline))
  unfolding register_pending
  register_pending-NoLeak h k deadline n w i =
      elim (Bool-cases (leb max_pending_per_direction (length h.pending))) [
        | inl e ↦ rw e (w i)
        | inr e ↦ rw e (λ x. elim (future_at-append i waiting h.futures x) [
          | inl l ↦ (
            k,
            record { deadline = deadline; response_future = length h.futures },
            lookup-put k k _ h.pending ∙ rw ((eq_iff k k).1 refl) refl,
            sym l,
          )
          | inr l ↦
              let q = w i l in (q.0, q.1, lookup-put k q.0 _ h.pending ∙ other q.0 q.1 _ q.2, q.3)
        ])
      ]
    where
      other :
          (j : String) (r v : PendingRequest)
          → lookup j h.pending ≡ some r
          → (if str_eq k j then some v else lookup j h.pending) ≡ some r
      other j r v l = elim (Bool-cases (str_eq k j)) [
        | inl e ↦
            let x : lookup j h.pending ≡ none =
              subst (λ y. lookup y h.pending ≡ none) ((eq_iff k j).0 e) n in
            ground arith
        | inr e ↦ rw e l
      ]
