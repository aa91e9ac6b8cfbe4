-- ===== src/Review/Locking.antt =====
-- Optimistic locking of issues in sidecar/ibreeze/domain/review/repository.py.
use i_breeze.Prelude.{
  ℕ, ◌+◌, ◌==◌, String, str_eq, eq_iff, Bool, true, false, not, ◌&&◌, ◌||◌, Option, none, some, ◌≡◌,
  ◌≢◌, refl, sym, ap, ◌∙◌, contains, lookup, put, lookup-put, if◌then◌else◌, Bool-cases,
  Option-cases, inl, inr, arith, ◌⊎◌,
}
use i_breeze.Result.{guard, Result, ok, err, ◌>>=◌, bind-Ran, ok-injective}
use i_breeze.Review.Repository.{
  ReviewIssue, Issues, allowed_from, issue_transitions, check_verifier, reason_ok, check_issue,
  moved, update_issue, transition_issue,
}

issue-injective : {a b : ReviewIssue} → some a ≡ some b → a ≡ b
issue-injective h = cc

module _ (active : String → String → Bool) (strip : String → String) (len : String → ℕ) where
  -- What a successful UPDATE tells.
  record Updated (db : Issues) (issue : ReviewIssue) (t : String) (v r : Option String)
      (db' : Issues) : Type 0 where
    row : ReviewIssue
    found : lookup issue.id db ≡ some row
    same_version : row.version ≡ issue.version
    written : db' ≡ put issue.id (moved active strip len t v r (row.version + 1) row) db

  update_issue-Updated :
      (db : Issues) (issue : ReviewIssue) (t : String) (v r : Option String) (db' : Issues)
      → update_issue active strip len db issue t v r ≡ some db'
      → Updated db issue t v r db'
  unfolding update_issue
  update_issue-Updated db issue t v r db' h = elim (Option-cases (lookup issue.id db)) [
    | inl e ↦ let x : none ≡ some db' = rw (e, update_issue) at h in ground arith
    | inr (q, e) ↦
        matched q e
          (Bool-cases (str_eq q.company_id issue.company_id && q.version == issue.version))
          (rw (e, update_issue) at h)
  ]
    where
      matched :
          (q : ReviewIssue)
          → lookup issue.id db ≡ some q
          → let b = str_eq q.company_id issue.company_id && q.version == issue.version in
            (b ≡ true) ⊎ (b ≡ false)
            → (if b
                then some (put issue.id (moved active strip len t v r (q.version + 1) q) db)
                else none)
              ≡ some db'
            → Updated db issue t v r db'
      matched q e (inl b) h = record {
        row = q;
        found = e;
        same_version = ground arith;
        written = sym (some-injective (rw b at h));
      }
        where
          some-injective : {x y : Issues} → some x ≡ some y → x ≡ y
          some-injective h = cc
      matched q e (inr b) h = let x : none ≡ some db' = rw b at h in ground arith

  -- What `transition_issue` did when it returned.
  record Ended (db : Issues) (issue : ReviewIssue) (t : String) (v r : Option String)
      (i' : ReviewIssue) (db' : Issues) : Type 0 where
    passed : check_issue active strip len issue t v r ≡ ok tt
    result : i' ≡ moved active strip len t v r (issue.version + 1) issue
    updated : Updated db issue t v r db'

  transition_issue-Ended :
      (db : Issues) (issue : ReviewIssue) (t : String) (v r : Option String) (i' : ReviewIssue)
      (db' : Issues)
      → transition_issue active strip len db issue t v r ≡ ok (i', db')
      → Ended db issue t v r i' db'
  unfolding transition_issue
  transition_issue-Ended db issue t v r i' db' h =
      let ran =
        bind-Ran (check_issue active strip len issue t v r)
          (λ _. written (update_issue active strip len db issue t v r)) h in
      go ran.first (update_issue active strip len db issue t v r) refl ran.after
    where
      written : Option Issues → Result String (ReviewIssue × Issues)
      written none = err "OPTIMISTIC_LOCK_CONFLICT"
      written (some d) = ok (moved active strip len t v r (issue.version + 1) issue, d)

      go :
          check_issue active strip len issue t v r ≡ ok tt
          → (o : Option Issues) → update_issue active strip len db issue t v r ≡ o
          → written o ≡ ok (i', db')
          → Ended db issue t v r i' db'
      go c none e w =
          let x : ◌≡◌ {A = Result String (ReviewIssue × Issues)} (err "OPTIMISTIC_LOCK_CONFLICT")
              (ok (i', db')) =
            w in
          ground arith
      go c (some d) e w = record {
        passed = c;
        result = sym (ap (λ x. x.0) (ok-injective w));
        updated = update_issue-Updated db issue t v r db' (e ∙ ap (λ x. some x.1) (ok-injective w));
      }

  -- Once a transition of an issue was written, no other transition from the same reading of that issue
  -- is: whoever holds the old version is turned away, whatever the target.
  pub transition_issue-once :
      (db db' : Issues) (issue i' : ReviewIssue) (t t' : String) (v v' r r' : Option String)
      (x : ReviewIssue × Issues)
      → transition_issue active strip len db issue t v r ≡ ok (i', db')
      → transition_issue active strip len db' issue t' v' r' ≢ ok x
  unfolding moved
  transition_issue-once db db' issue i' t t' v v' r r' x h again =
      let a = (transition_issue-Ended db issue t v r i' db' h).updated in
      let b = (transition_issue-Ended db' issue t' v' r' x.0 x.1 again).updated in
      let there : lookup issue.id db'
          ≡ some (moved active strip len t v r (a.row.version + 1) a.row) =
        ap (λ d. lookup issue.id d) a.written
        ∙ lookup-put issue.id issue.id (moved active strip len t v r (a.row.version + 1) a.row) db
        ∙ rw ((eq_iff issue.id issue.id).1 refl) refl in
      let same : moved active strip len t v r (a.row.version + 1) a.row ≡ b.row =
        issue-injective (sym there ∙ b.found) in
      let next : a.row.version + 1 ≡ b.row.version = ap ReviewIssue.version same in
      omega (arith, a.same_version, b.same_version, next)

  -- A test that was passed, and what follows it.
  guarded :
      (b : Bool) (m : String) (rest : Result String (Unit {0}))
      → (guard b m >>= λ _. rest) ≡ ok tt
      → (b ≡ true) × (rest ≡ ok tt)
  guarded true m rest h = (refl, h)
  guarded false m rest h = ground arith

  record Passed (issue : ReviewIssue) (t : String) (v r : Option String) : Type 0 where
    edge : contains t (allowed_from issue_transitions issue.state) ≡ true
    mild :
        not
          (str_eq t "rejected" && (str_eq issue.severity "blocker" || str_eq issue.severity "high"))
        ≡ true
    verifier : check_verifier active strip len issue t v ≡ ok tt

  check_issue-Passed :
      (issue : ReviewIssue) (t : String) (v r : Option String)
      → check_issue active strip len issue t v r ≡ ok tt
      → Passed issue t v r
  unfolding check_issue
  check_issue-Passed issue t v r h =
      let mild = not (
        str_eq t "rejected" && (str_eq issue.severity "blocker" || str_eq issue.severity "high")) in
      let reasoned = not (str_eq t "rejected") || reason_ok active strip len r in
      let last = check_verifier active strip len issue t v in
      let third = guard reasoned "REJECTION_REASON_REQUIRED" >>= λ _. last in
      let second = guard mild "BLOCKER_HIGH_CANNOT_BE_REJECTED" >>= λ _. third in
      let a =
        guarded (contains t (allowed_from issue_transitions issue.state)) "STATE_TRANSITION_INVALID"
          second h in
      let b = guarded mild "BLOCKER_HIGH_CANNOT_BE_REJECTED" third a.1 in
      let c = guarded reasoned "REJECTION_REASON_REQUIRED" last b.1 in
      record { edge = a.0; mild = b.0; verifier = c.1 }

  verified_by :
      (issue : ReviewIssue) (t : String) (v : Option String)
      → check_verifier active strip len issue t v ≡ ok tt
      → t ≡ "verified"
      → (e : String) × (v ≡ some e) × (active e issue.company_id ≡ true)
  unfolding check_verifier
  verified_by issue t none h e =
      let x : ◌≡◌ {A = Result String (Unit {0})} (err "VERIFIER_REQUIRED") (ok tt) =
        rw ((eq_iff t "verified").1 e) at h in
      ground arith
  verified_by issue t (some w) h e =
      let x : guard {E = String} (active w issue.company_id) "VERIFIER_NOT_AVAILABLE" ≡ ok tt =
        rw ((eq_iff t "verified").1 e) at h in
      (w, refl, holds (active w issue.company_id) x)
    where
      holds : (b : Bool) → guard {E = String} b "VERIFIER_NOT_AVAILABLE" ≡ ok tt → b ≡ true
      holds true h = refl
      holds false h = ground arith

  -- What a transition that returned guarantees.
  pub record Sound (db : Issues) (issue : ReviewIssue) (t : String) (v : Option String)
      (i' : ReviewIssue) (db' : Issues) : Type 0 where
    pub edge : contains t (allowed_from issue_transitions issue.state) ≡ true
    pub severe :
        t ≡ "rejected"
        → (str_eq issue.severity "blocker" ≡ false) × (str_eq issue.severity "high" ≡ false)
    pub verifier_works :
        t ≡ "verified" → (e : String) × (v ≡ some e) × (active e issue.company_id ≡ true)
    pub reached : i'.state ≡ t
    pub newer : i'.version ≡ issue.version + 1
    pub mirrored : lookup issue.id db ≡ some issue → lookup issue.id db' ≡ some i'

  -- A transition that returns follows an edge of ISSUE_TRANSITIONS; it never rejects an issue of
  -- severity blocker or high, and verifies one only by an active employee of the company. It answers the
  -- issue in the new state with the next version, and if it was given the row as stored, what it
  -- answers is the row as stored afterwards.
  pub transition_issue-Sound :
      (db db' : Issues) (issue i' : ReviewIssue) (t : String) (v r : Option String)
      → transition_issue active strip len db issue t v r ≡ ok (i', db')
      → Sound db issue t v i' db'
  unfolding moved
  transition_issue-Sound db db' issue i' t v r h =
      let e = transition_issue-Ended db issue t v r i' db' h in
      let p = check_issue-Passed issue t v r e.passed in
      record {
        edge = p.edge;
        severe = λ q.
            let x = (eq_iff t "rejected").1 q in let y = p.mild in (ground arith, ground arith);
        verifier_works = verified_by issue t v p.verifier;
        reached = ap ReviewIssue.state e.result;
        newer = ap ReviewIssue.version e.result;
        mirrored = λ q.
            let u = e.updated in
            let same : u.row ≡ issue = issue-injective (sym u.found ∙ q) in
            ap (λ d. lookup issue.id d) u.written
            ∙ lookup-put issue.id issue.id (moved active strip len t v r (u.row.version + 1) u.row)
                db
            ∙ rw ((eq_iff issue.id issue.id).1 refl) (
                ap (λ w. some (moved active strip len t v r (w.version + 1) w)) same
                ∙ ap some (sym e.result));
      }
