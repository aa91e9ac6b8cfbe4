-- ===== src/Approvals/Decisions.antt =====
-- `resolve_approval` of sidecar/ibreeze/approvals/service.py.
use i_breeze.Prelude.{
  ℕ, String, str_eq, eq_iff, none, some, [], ◌∷◌, ◌≡◌, sym, ap, ◌∙◌, subst, ◌⊎◌, inl, inr, arith,
  lookup, put, if◌then◌else◌, Bool-cases, Option-cases, contains,
}
use i_breeze.Result.{Result, ok, err, bind-Ran, ok-injective}
use i_breeze.Approvals.Service.{
  Approval, Approvals, decided, select_approval, resolve_row, resolve_approval,
}
use i_breeze.Approvals.History.{Decides, allows, denies, closed_row, Stays, put-Stays}

decided-cases :
    (decision new : String) → decided decision ≡ ok new → (new ≡ "allowed") ⊎ (new ≡ "denied")
unfolding decided
decided-cases decision new h =
    elim (Bool-cases (contains decision ("approve" ∷ "approved" ∷ "allow" ∷ "allowed" ∷ []))) [
      | inl e ↦ inl (sym (ok-injective (rw e at h)))
      | inr e ↦
          elim (Bool-cases (contains decision ("deny" ∷ "denied" ∷ "reject" ∷ "rejected" ∷ []))) [
            | inl f ↦ inr (sym (ok-injective (rw f at (rw e at h))))
            | inr f ↦ absurd (failed (rw f at (rw e at h)))
          ]
    ]
  where
    failed : {x y : String} → ◌≡◌ {A = Result String String} (err x) (ok y) → ⊥
    failed h = ground arith

resolve_row-Stays :
    (db db' : Approvals) (k : String) (q : Approval) (decision : String) (now : ℕ) (new : String)
    → lookup k db ≡ some q
    → resolve_row db k q decision now ≡ ok (new, db')
    → Stays db db'
unfolding resolve_row
resolve_row-Stays db db' k q decision now new f h = elim (Bool-cases (str_eq q.status "pending")) [
  | inl e ↦
      let ran =
        bind-Ran (decided decision)
          (λ new_status.
            ok (new_status, put k (record q { status = new_status; resolved_at = some now }) db))
          (rw e at h) in
      let same : put k (record q { status = ran.value; resolved_at = some now }) db ≡ db' =
        ap (λ x. x.1) (ok-injective ran.after) in
      let pending = (eq_iff q.status "pending").0 e in
      subst (λ x. Stays db x) same
        (put-Stays db k q _ f (
          closed_row q ran.value now (
            subst (λ x. Decides x ran.value) (sym pending)
              (verdict_of ran.value (decided-cases decision ran.value ran.first)))))
  | inr e ↦ absurd (failed (rw e at h))
]
  where
    verdict_of : (v : String) → (v ≡ "allowed") ⊎ (v ≡ "denied") → Decides "pending" v
    verdict_of v (inl e) = subst (λ x. Decides "pending" x) (sym e) allows
    verdict_of v (inr e) = subst (λ x. Decides "pending" x) (sym e) denies

    failed :
        {x : String} {y : String × Approvals}
        → ◌≡◌ {A = Result String (String × Approvals)} (err x) (ok y)
        → ⊥
    failed h = ground arith

select_approval-lookup :
    (db : Approvals) (c k : String) (q : Approval)
    → select_approval db c k ≡ some q
    → lookup k db ≡ some q
unfolding select_approval
select_approval-lookup db c k q h = elim (Option-cases (lookup k db)) [
  | inl e ↦ let x : none ≡ some q = rw (e, select_approval) at h in ground arith
  | inr (p, e) ↦ e ∙ found p (rw (e, select_approval) at h)
]
  where
    found :
        (p : Approval) → (if str_eq p.company_id c then some p else none) ≡ some q → some p ≡ some q
    found p h = elim (Bool-cases (str_eq p.company_id c)) [
      | inl e ↦ rw e at h
      | inr e ↦ let x : none ≡ some q = rw e at h in ground arith
    ]

pub resolve_approval-Stays :
    (db db' : Approvals) (c k decision : String) (now : ℕ) (new : String)
    → resolve_approval db c k decision now ≡ ok (new, db')
    → Stays db db'
unfolding resolve_approval
resolve_approval-Stays db db' c k decision now new h =
    elim (Option-cases (select_approval db c k)) [
      | inl e ↦ absurd (failed (rw (e, resolve_approval) at h))
      | inr (q, e) ↦
          resolve_row-Stays db db' k q decision now new (select_approval-lookup db c k q e)
            (rw (e, resolve_approval) at h)
    ]
  where
    failed :
        {x : String} {y : String × Approvals}
        → ◌≡◌ {A = Result String (String × Approvals)} (err x) (ok y)
        → ⊥
    failed h = ground arith
