-- ===== src/Plan/Cycle/Search.antt =====
-- What one call of `visit` of sidecar/ibreeze/orchestration/plan_validator.py leaves behind.
use mathlib.Core.WellFounded.{Acc}
use i_breeze.Prelude.{
  ℕ, zero, suc, String, ◌≡◌, refl, ap, ◌∙◌, subst, Bool, true, false, List, [], ◌∷◌, none, some,
  str_eq, eq_iff, contains, contains-cons, contains-cons_self, contains-cases, is_in, Bool-cases,
  inl, inr,
}
use i_breeze.Plan.Graph.{Graph, Marks, Visit, successors, visit_any, visit, or_next, leave, remove}
use i_breeze.Plan.Cycle.Relation.{Leads, one, more, Grounded}

abbrev pub Good : Graph → Marks → Type 0
Good g s = (x : String) → contains x s.visited ≡ true → Grounded g x

-- All nodes on the stack lead to `n`.
abbrev pub Trail : Graph → Marks → String → Type 0
Trail g s n = (v : String) → contains v s.visiting ≡ true → Leads g v n

abbrev pub Grows : Marks → Marks → Type 0
Grows s s' = (x : String) → contains x s.visited ≡ true → contains x s'.visited ≡ true

-- Either the fuel ran out, or a cycle was found, or the stack is as before, the visited nodes are
-- grounded and `P` holds.
pub data After (g : Graph) (s : Marks) (P : Marks → Type 0) : Visit → Type 0 where
  out : After g s P none
  found : (s' : Marks) (x : String) → Leads g x x → After g s P (some (true, s'))
  clean :
      (s' : Marks)
      → s'.visiting ≡ s.visiting
      → Good g s'
      → Grows s s'
      → P s'
      → After g s P (some (false, s'))

abbrev pub Done : String → Marks → Type 0
Done n s = contains n s.visited ≡ true

abbrev pub AllDone : (String → Bool) → List String → Marks → Type 0
AllDone admitted ns s = (n : String) → contains n ns ≡ true → admitted n ≡ true → Done n s

abbrev pub Correct : Graph → (String → Marks → Visit) → Type 0
Correct g call = (n : String) (s : Marks) → Good g s → Trail g s n → After g s (Done n) (call n s)

-- The same, seen from the marks before an earlier call.
After-earlier :
    (g : Graph) (s t : Marks) (P Q : Marks → Type 0) {v : Visit}
    → t.visiting ≡ s.visiting
    → Grows s t
    → ((u : Marks) → Grows t u → P u → Q u)
    → After g t P v
    → After g s Q v
After-earlier g s t P Q e w k out = out
After-earlier g s t P Q e w k (found u x c) = found u x c
After-earlier g s t P Q e w k (clean u f h w' p) =
    clean u (f ∙ e) h (λ x i. w' x (w x i)) (k u w' p)

module _ (g : Graph) (admitted : String → Bool) (call : String → Marks → Visit)
    (correct : Correct g call) where
  -- The rest of the list, after a call for `n`.
  next-After :
      (n : String) (ns : List String) (s : Marks) {v : Visit}
      → After g s (Done n) v
      → ((t : Marks)
          → t.visiting ≡ s.visiting
          → Good g t
          → After g t (AllDone admitted ns) (visit_any admitted call ns t))
      → After g s (AllDone admitted (n ∷ ns)) (or_next v (λ t. visit_any admitted call ns t))
  next-After n ns s out k = out
  next-After n ns s (found t x c) k = found t x c
  next-After n ns s (clean t e h w d) k =
      After-earlier g s t (AllDone admitted ns) _ e w
        (λ u grows all x i a. elim (Bool-cases (str_eq n x)) [
          | inl q ↦ grows x (rw (← (eq_iff n x).0 q) d)
          | inr q ↦ all x (rw q at i) a
        ])
        (k t e h)

  pub visit_any-After :
      (ns : List String) (s : Marks)
      → Good g s
      → ((n : String) → contains n ns ≡ true → admitted n ≡ true → Trail g s n)
      → After g s (AllDone admitted ns) (visit_any admitted call ns s)
  unfolding visit_any
  visit_any-After [] s h leads = clean s refl h (λ x i. i) (λ n i a. cc)
  visit_any-After (n ∷ ns) s h leads = elim (Bool-cases (admitted n)) [
    | inl y ↦
        rw (y, visit_any)
          (next-After n ns s (correct n s h (leads n (contains-cons_self n ns) y)) (λ t e k.
            visit_any-After ns t k (λ m i a v j. leads m (contains-cons m n ns i) a v (rw e at j))))
    | inr f ↦
        rw (f, visit_any)
          (After-earlier g s s (AllDone admitted ns) _ refl (λ x i. i)
            (λ u w all x i a. elim (contains-cases x n ns i) [
              | inl q ↦ cc (f, a, ap admitted q)
              | inr j ↦ all x j a
            ])
            (visit_any-After ns s h (λ m i a. leads m (contains-cons m n ns i) a)))
  ]

-- A node whose dependencies in the plan are all grounded is grounded.
Grounded-node :
    (g : Graph) (n : String) (s : Marks)
    → Good g s
    → AllDone (λ d. is_in d g) (successors g n) s
    → Grounded g n
Grounded-node g n s h all = Acc.intro n λ d e. h d (all d e.listed e.known)

remove_self : (n : String) (xs : List String) → remove n (n ∷ xs) ≡ xs
remove_self n xs = rw ((eq_iff n n).1 refl)

leave-After :
    (g : Graph) (n : String) (s : Marks) {v : Visit}
    → After g
        (record { visiting = n ∷ s.visiting; visited = s.visited })
        (AllDone (λ d. is_in d g) (successors g n))
        v
    → After g s (Done n) (leave n v)
leave-After g n s out = out
leave-After g n s (found t x c) = found t x c
leave-After g n s (clean t e h w all) =
    clean _ (rw e (remove_self n s.visiting))
      (λ x i. elim (contains-cases x n t.visited i) [
        | inl q ↦ subst (Grounded g) q (Grounded-node g n t h all)
        | inr j ↦ h x j
      ])
      (λ x i. contains-cons x n t.visited (w x i)) (contains-cons_self n t.visited)

-- `visit` is correct whatever its fuel.
pub visit-Correct : (fuel : ℕ) (g : Graph) → Correct g (visit fuel g)
unfolding visit
visit-Correct zero g n s h leads = out
visit-Correct (suc fuel) g n s h leads = elim (Bool-cases (contains n s.visiting)) [
  | inl on ↦ rw (on, visit) (found s n (leads n on))
  | inr off ↦ elim (Bool-cases (contains n s.visited)) [
    | inl seen ↦ rw (off, seen, visit) (clean s refl h (λ x i. i) seen)
    | inr unseen ↦
        rw (off, unseen, visit)
          (leave-After g n s (
            visit_any-After g (λ d. is_in d g) (visit fuel g) (visit-Correct fuel g)
              (successors g n) _ h
              (λ d i a v j. elim (contains-cases v n s.visiting j) [
                | inl q ↦ subst (λ x. Leads g x d) q (one (record { listed = i; known = a }))
                | inr k ↦ more (leads v k) (record { listed = i; known = a })
              ])))
  ]
]
