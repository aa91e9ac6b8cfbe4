-- ===== src/Approvals/History.antt =====
-- What becomes of an approval under sidecar/ibreeze/approvals/service.py.
use i_breeze.Prelude.{
  ℕ, String, str_eq, eq_iff, true, false, some, [], ◌∷◌, ◌≡◌, refl, sym, ap, ◌∙◌, subst, ◌⊎◌, inl,
  inr, arith, lookup, put, is_in, lookup-put, if◌then◌else◌, Bool-cases,
}
use i_breeze.Approvals.Service.{Approval, Approvals, is_stale, expire_rows}

-- The decisions that the service records.
pub data Decides : String → String → Type 0 where
  allows : Decides "pending" "allowed"
  denies : Decides "pending" "denied"
  expires : Decides "pending" "expired"

-- What stays and what may change, from `r` to `r'`.
pub record Kept (r r' : Approval) : Type 0 where
  pub same_company : r'.company_id ≡ r.company_id
  pub same_run : r'.run_id ≡ r.run_id
  pub same_type : r'.approval_type ≡ r.approval_type
  pub same_target : r'.target ≡ r.target
  pub same_hash : r'.target_sha256 ≡ r.target_sha256
  pub same_expiry : r'.expires_at ≡ r.expires_at
  pub verdict :
      ((r'.status ≡ r.status) × (r'.resolved_at ≡ r.resolved_at)) ⊎ Decides r.status r'.status

pub Kept-refl : (r : Approval) → Kept r r
Kept-refl r = record {
  same_company = refl;
  same_run = refl;
  same_type = refl;
  same_target = refl;
  same_hash = refl;
  same_expiry = refl;
  verdict = inl (refl, refl);
}

before_decision : {s t : String} → Decides s t → str_eq s "pending" ≡ true
before_decision allows = refl
before_decision denies = refl
before_decision expires = refl

after_decision : {s t : String} → Decides s t → str_eq t "pending" ≡ false
after_decision allows = refl
after_decision denies = refl
after_decision expires = refl

final_verdict : {s t u : String} → Decides s t → Decides t u → ⊥
final_verdict a b = let x = after_decision a in let y = before_decision b in ground arith

then_verdict :
    (r q p : Approval)
    → Kept r q
    → Kept q p
    → ((p.status ≡ r.status) × (p.resolved_at ≡ r.resolved_at)) ⊎ Decides r.status p.status
then_verdict r q p a b = elim a.verdict [
  | inl x ↦ elim b.verdict [
    | inl y ↦ inl (y.0 ∙ x.0, y.1 ∙ x.1)
    | inr d ↦ inr (subst (λ s. Decides s p.status) x.0 d)
  ]
  | inr d ↦ elim b.verdict [
    | inl y ↦ inr (subst (λ s. Decides r.status s) (sym y.0) d)
    | inr e ↦ absurd (final_verdict d e)
  ]
]

pub Kept-trans : (r q p : Approval) → Kept r q → Kept q p → Kept r p
Kept-trans r q p a b = record {
  same_company = b.same_company ∙ a.same_company;
  same_run = b.same_run ∙ a.same_run;
  same_type = b.same_type ∙ a.same_type;
  same_target = b.same_target ∙ a.same_target;
  same_hash = b.same_hash ∙ a.same_hash;
  same_expiry = b.same_expiry ∙ a.same_expiry;
  verdict = then_verdict r q p a b;
}

-- The approval under `i` is still there, and kept.
abbrev pub Stays : Approvals → Approvals → Type 0
Stays db db' =
    (i : String) (r : Approval)
    → lookup i db ≡ some r
    → (r' : Approval) × (lookup i db' ≡ some r') × Kept r r'

-- The decision recorded in a row leaves the rest as it was.
pub closed_row :
    (r : Approval) (new : String) (now : ℕ)
    → Decides r.status new
    → Kept r (record r { status = new; resolved_at = some now })
closed_row r new now d = record {
  same_company = refl;
  same_run = refl;
  same_type = refl;
  same_target = refl;
  same_hash = refl;
  same_expiry = refl;
  verdict = inr d;
}

pub put-Stays :
    (db : Approvals) (k : String) (q p : Approval)
    → lookup k db ≡ some q
    → Kept q p
    → Stays db (put k p db)
put-Stays db k q p f a i r e = elim (Bool-cases (str_eq k i)) [
  | inl t ↦ (
    p,
    lookup-put k i p db ∙ rw t refl,
    subst (λ x. Kept x p) (row-injective (sym f ∙ ap (λ x. lookup x db) ((eq_iff k i).0 t) ∙ e)) a,
  )
  | inr n ↦ (r, lookup-put k i p db ∙ rw n e, Kept-refl r)
]
  where
    row-injective : {a b : Approval} → some a ≡ some b → a ≡ b
    row-injective h = cc

pub new-Stays :
    (db : Approvals) (k : String) (p : Approval) → is_in k db ≡ false → Stays db (put k p db)
new-Stays db k p n i r e = elim (Bool-cases (str_eq k i)) [
  | inl t ↦
      let x : lookup k db ≡ some r = ap (λ x. lookup x db) ((eq_iff k i).0 t) ∙ e in
      absurd (clash x)
  | inr f ↦ (r, lookup-put k i p db ∙ rw f e, Kept-refl r)
]
  where
    clash : lookup k db ≡ some r → ⊥
    clash x = let y : false ≡ true = sym n ∙ rw (x, is_in) refl in ground arith

pub expire-Stays :
    (db : Approvals) (company_id : String) (now : ℕ) → Stays db (expire_rows db company_id now)
unfolding expire_rows lookup
expire-Stays [] c now i r e = ground arith
expire-Stays ((k, q) ∷ db) c now i r e = elim (Bool-cases (str_eq k i)) [
  | inl t ↦
      rw (t, lookup) (expired (Bool-cases (is_stale c now q)) (row-injective (rw (t, lookup) at e)))
  | inr n ↦ rw (n, lookup) (expire-Stays db c now i r (rw (n, lookup) at e))
]
  where
    row-injective : {a b : Approval} → some a ≡ some b → a ≡ b
    row-injective h = cc

    expired :
        (is_stale c now q ≡ true) ⊎ (is_stale c now q ≡ false)
        → q ≡ r
        → (r' : Approval) × (some (
              if is_stale c now q
              then record q { status = "expired"; resolved_at = some now }
              else q)
            ≡ some r')
          × Kept r r'
    expired (inl s) e =
        let pending : q.status ≡ "pending" = (eq_iff q.status "pending").0 (ground arith) in
        rw s (
          record q { status = "expired"; resolved_at = some now },
          refl,
          subst (λ x. Kept x (record q { status = "expired"; resolved_at = some now })) e
              (closed_row q "expired" now (subst (λ x. Decides x "expired") (sym pending) expires)),
        )
    expired (inr s) e = rw s (q, refl, subst (λ x. Kept x q) e (Kept-refl q))
