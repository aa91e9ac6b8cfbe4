-- ===== src/Plan/Cycle/Fuel.antt =====
-- `visit` of sidecar/ibreeze/orchestration/plan_validator.py comes back: a nested call has one more node on
-- the stack, and the stack holds keys of the graph only once each.
use i_breeze.Prelude.{
  ℕ, zero, suc, ◌≤◌, ◌<◌, String, ◌≡◌, refl, ap, Bool, true, false, List, [], ◌∷◌, some, eq_iff,
  contains, contains-cons, contains-cons_self, keys, lookup, is_in, length, arith, Bool-cases, inl,
  inr, if◌then◌else◌,
}
use i_breeze.Plan.Graph.{Graph, Marks, Visit, successors, visit_any, visit, or_next, leave}

-- How many of the keys are not on the stack.
abbrev pub fresh : List String → List String → ℕ
fresh stack [] = 0
fresh stack (k ∷ ks) = let rest = fresh stack ks in if contains k stack then rest else suc rest

fresh-le : (n : String) (stack ks : List String) → fresh (n ∷ stack) ks ≤ fresh stack ks
fresh-le n stack [] = omega arith
fresh-le n stack (k ∷ ks) = ground (arith, fresh-le n stack ks)

fresh-lt :
    (n : String) (stack ks : List String)
    → contains n ks ≡ true
    → contains n stack ≡ false
    → fresh (n ∷ stack) ks < fresh stack ks
fresh-lt n stack (k ∷ ks) i f =
    ground (arith, fresh-le n stack ks, fresh-lt n stack ks, eq_iff k n, eq_iff n k, eq_iff n n)
fresh-lt n stack [] i f = ground arith

pub fresh-nil : (ks : List String) → fresh [] ks ≤ length ks
fresh-nil [] = omega arith
fresh-nil (k ∷ ks) = omega (arith, fresh-nil ks)

pub contains-keys :
    {V : Type 0} (n : String) (g : List (String × V))
    → is_in n g ≡ true
    → contains n (keys g) ≡ true
unfolding lookup
contains-keys n [] h = ground arith
contains-keys n ((k, v) ∷ g) h = ground (arith, contains-keys n g)

-- An answer, with the stack as it was if no cycle was found.
pub data Answers (s : Marks) : Visit → Type 0 where
  found : (t : Marks) → Answers s (some (true, t))
  clean : (t : Marks) → t.visiting ≡ s.visiting → Answers s (some (false, t))

or_next-Answers :
    (s : Marks) (next : Marks → Visit) {v : Visit}
    → Answers s v
    → ((t : Marks) → t.visiting ≡ s.visiting → Answers s (next t))
    → Answers s (or_next v next)
or_next-Answers s next (found t) k = found t
or_next-Answers s next (clean t e) k = k t e

pub visit_any-Answers :
    (admitted : String → Bool) (call : String → Marks → Visit) (ns : List String) (s t : Marks)
    → t.visiting ≡ s.visiting
    → ((n : String) (u : Marks)
        → contains n ns ≡ true
        → admitted n ≡ true
        → u.visiting ≡ s.visiting
        → Answers s (call n u))
    → Answers s (visit_any admitted call ns t)
unfolding visit_any
visit_any-Answers admitted call [] s t e k = clean t e
visit_any-Answers admitted call (n ∷ ns) s t e k = elim (Bool-cases (admitted n)) [
  | inl y ↦
      rw (y, visit_any)
        (or_next-Answers s _ (k n t (contains-cons_self n ns) y e) (λ u f.
          visit_any-Answers admitted call ns s u f (λ m w i. k m w (contains-cons m n ns i))))
  | inr f ↦
      rw (f, visit_any)
        (visit_any-Answers admitted call ns s t e (λ m w i. k m w (contains-cons m n ns i)))
]

leave-Answers :
    (n : String) (s u : Marks) {v : Visit}
    → u.visiting ≡ s.visiting
    → Answers (record { visiting = n ∷ u.visiting; visited = u.visited }) v
    → Answers s (leave n v)
leave-Answers n s u e (found t) = found t
leave-Answers n s u e (clean t f) = clean _ (rw f (rw ((eq_iff n n).1 refl) e))

pub visit-Answers :
    (fuel : ℕ) (g : Graph) (n : String) (s u : Marks)
    → is_in n g ≡ true
    → u.visiting ≡ s.visiting
    → fresh s.visiting (keys g) < fuel
    → Answers s (visit fuel g n u)
unfolding visit
visit-Answers zero g n s u i e h = elim h [ ]
visit-Answers (suc fuel) g n s u i e h = elim (Bool-cases (contains n u.visiting)) [
  | inl on ↦ rw (on, visit) (found u)
  | inr off ↦ elim (Bool-cases (contains n u.visited)) [
    | inl seen ↦ rw (off, seen, visit) (clean u e)
    | inr unseen ↦
        rw (off, unseen, visit)
          (leave-Answers n s u e (
            visit_any-Answers (λ d. is_in d g) (visit fuel g) (successors g n) _ _ refl
              (λ d w j a f. visit-Answers fuel g d _ w a f (
                omega (
                  arith,
                  fresh-lt n u.visiting (keys g) (contains-keys n g i) off,
                  ap (λ v. fresh v (keys g)) e,
                )))))
  ]
]
