-- ===== src/Approvals/Steps.antt =====
-- Sequences of calls of sidecar/ibreeze/approvals/service.py.
use i_breeze.Prelude.{
  ℕ, String, Bool, true, Option, none, ◌≡◌, refl, subst, arith, lookup, is_in, Bool-cases, inl, inr,
}
use i_breeze.Result.{Result, ok, err, ◌>>=◌, ok-injective}
use i_breeze.StateMachine.Registry.{
  can_transition, targets_of, transition_tables, is_waiting, waiting_states,
}
use i_breeze.StateMachine.HumanApproval.{
  human_approval_value, human_approval_states, human_approval_transitions,
}
use i_breeze.Approvals.Service.{
  Target, Approval, Approvals, request_external_write_approval, request_uncertain_recovery_approval,
  inserted, resolve_approval, expire_stale_approvals,
}
use i_breeze.Approvals.History.{
  Decides, allows, denies, expires, Kept-refl, Kept-trans, Stays, new-Stays, expire-Stays,
}
use i_breeze.Approvals.Decisions.{resolve_approval-Stays}

-- A test that was passed.
passed :
    (x : Result String (Unit {0})) (y : Result String Approvals) (db : Approvals)
    → (x >>= λ _. y) ≡ ok db
    → y ≡ ok db
passed (ok tt) y db h = h
passed (err e) y db h = ground arith

module _ (dumps_sha256 : Target → String) (is_sha256 is_uuid is_timestamp : String → Bool)
    (references : String → String → Bool) where
  -- A call that returned; one that raises changes nothing.
  pub data Call (db db' : Approvals) : Type 0 where
    requests_write :
        (c i : String) (now : ℕ) (run grant path operation : String) (old source : Option String)
        (ttl : ℕ)
        → request_external_write_approval dumps_sha256 is_sha256 is_uuid is_timestamp references db
            c i now run grant path operation old source ttl
          ≡ ok db'
        → Call db db'
    requests_retry :
        (c i : String) (now : ℕ) (run tool input started : String) (ttl : ℕ)
        → request_uncertain_recovery_approval dumps_sha256 is_sha256 is_uuid is_timestamp references
            db c i now run tool input started ttl
          ≡ ok db'
        → Call db db'
    resolves :
        (c i decision : String) (now : ℕ) (new : String)
        → resolve_approval db c i decision now ≡ ok (new, db')
        → Call db db'
    expires_stale : (c : String) (now : ℕ) → (expire_stale_approvals db c now).1 ≡ db' → Call db db'

  pub data Calls (db : Approvals) : Approvals → Type 0 where
    none_yet : Calls db db
    then_call : (mid : Approvals) {last : Approvals} → Calls db mid → Call mid last → Calls db last

  inserted-Stays :
      (db db' : Approvals) (i : String) (row : Approval)
      → inserted dumps_sha256 is_sha256 is_uuid is_timestamp references db i row ≡ ok db'
      → Stays db db'
  inserted-Stays db db' i row h = elim (Bool-cases (is_in i db)) [
    | inl e ↦
        let x : ◌≡◌ {A = Result String Approvals} (err "IntegrityError") (ok db') = rw e at h in
        ground arith
    | inr e ↦ elim (Bool-cases (references row.run_id row.company_id)) [
      | inl f ↦ subst (λ x. Stays db x) (ok-injective (rw (e, f) at h)) (new-Stays db i row e)
      | inr f ↦
          let x : ◌≡◌ {A = Result String Approvals} (err "IntegrityError") (ok db') =
            rw (e, f) at h in
          ground arith
    ]
  ]

  Call-Stays : (db db' : Approvals) → Call db db' → Stays db db'
  unfolding request_external_write_approval request_uncertain_recovery_approval
      expire_stale_approvals
  Call-Stays db db' (requests_write c i now run grant path operation old source ttl h) =
      inserted-Stays db db' i _ (passed _ _ db' h)
  Call-Stays db db' (requests_retry c i now run tool input started ttl h) =
      inserted-Stays db db' i _ (passed _ _ db' h)
  Call-Stays db db' (resolves c i decision now new h) =
      resolve_approval-Stays db db' c i decision now new h
  Call-Stays db db' (expires_stale c now h) = subst (λ x. Stays db x) h (expire-Stays db c now)

  -- Through any calls of the service an approval stays, with its company, run, type, target, hash and
  -- expiry; its status changes once at most, from pending to allowed, denied or expired.
  pub Calls-Kept : (db db' : Approvals) → Calls db db' → Stays db db'
  Calls-Kept db db' none_yet i r e = (r, e, Kept-refl r)
  Calls-Kept db db' (then_call mid before call) i r e =
      let x = Calls-Kept db mid before i r e in
      let y = Call-Stays mid db' call i x.0 x.1 in (y.0, y.1, Kept-trans r x.0 y.0 x.2 y.2)

-- Each decision that the service records is a transition that the state machine of HumanApproval allows.
Decides-can_transition :
    (s t : String) → Decides s t → can_transition "HumanApproval" s t none ≡ ok true
unfolding can_transition targets_of transition_tables is_waiting waiting_states lookup
    human_approval_value human_approval_states human_approval_transitions
Decides-can_transition s t allows = refl
Decides-can_transition s t denies = refl
Decides-can_transition s t expires = refl
