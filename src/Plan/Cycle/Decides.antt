-- ===== src/Plan/Cycle/Decides.antt =====
-- `_has_cycle` of sidecar/ibreeze/orchestration/plan_validator.py decides whether a graph has a cycle.
use i_breeze.Prelude.{
  ℕ, suc, String, ◌≡◌, refl, ◌↔◌, Bool, true, false, List, [], ◌∷◌, some, contains, keys, lookup,
  is_in, length, arith,
}
use i_breeze.Plan.Graph.{Graph, Visit, visit_any, visit, no_marks, answer, graph_has_cycle}
use i_breeze.Plan.Cycle.Relation.{Edge, Leads, begin_walk, Grounded-no_cycle}
use i_breeze.Plan.Cycle.Search.{After, out, found, clean, AllDone, visit_any-After, visit-Correct}
use i_breeze.Plan.Cycle.Fuel.{Answers, contains-keys, fresh-nil, visit_any-Answers, visit-Answers}

keys-contains :
    {V : Type 0} (n : String) (g : List (String × V))
    → contains n (keys g) ≡ true
    → is_in n g ≡ true
unfolding lookup
keys-contains n [] h = ground arith
keys-contains n ((k, v) ∷ g) h = ground (arith, keys-contains n g)

-- A node with a dependency is a key.
key_of_Edge : (g : Graph) (a b : String) → Edge g a b → is_in a g ≡ true
key_of_Edge g a b e = ground (arith, e.listed)

-- What `graph_has_cycle` is to answer.
pub record Decides (g : Graph) (v : Visit) : Type 0 where
  pub found_cycle : Bool
  pub answers : answer v ≡ some found_cycle
  pub exact : (found_cycle ≡ true) ↔ ((x : String) × Leads g x x)

abbrev fuel_for : Graph → ℕ
fuel_for g = suc (length (keys g))

search_Decides :
    (g : Graph) {v : Visit}
    → After g no_marks (AllDone (λ _. true) (keys g)) v
    → Answers no_marks v
    → Decides g v
search_Decides g out a = elim a [ ]
search_Decides g (found t x c) a = record {
  found_cycle = true;
  answers = refl;
  exact = (λ _. (x, c), λ _. refl);
}
search_Decides g (clean t e h w all) a = record {
  found_cycle = false;
  answers = refl;
  exact = (
    λ q. cc,
    λ c.
        let f = begin_walk c.1 in
        let i = contains-keys c.0 g (key_of_Edge g c.0 f.next f.step) in
        absurd (Grounded-no_cycle c.0 (h c.0 (all c.0 i refl)) c.1),
  );
}

-- For every graph the search of `_has_cycle`, with fuel for one call more than there are keys, comes back
-- with an answer, and the answer is yes exactly if some reference leads back to itself by dependencies
-- that are references of the graph.
pub graph_has_cycle-Decides :
    (g : Graph)
    → (b : Bool) × (graph_has_cycle g ≡ some b) × ((b ≡ true) ↔ ((x : String) × Leads g x x))
unfolding graph_has_cycle
graph_has_cycle-Decides g = (d.found_cycle, d.answers, d.exact)
  where
    fuel : ℕ
    fuel = fuel_for g

    d : Decides g (visit_any (λ _. true) (visit fuel g) (keys g) no_marks)
    d =
        search_Decides g
          (visit_any-After g (λ _. true) (visit fuel g) (visit-Correct fuel g) (keys g) no_marks
            (λ x i. cc) (λ n i a v j. cc))
          (visit_any-Answers (λ _. true) (visit fuel g) (keys g) no_marks no_marks refl
            (λ n u i a e.
              visit-Answers fuel g n no_marks u (keys-contains n g i) e
                (omega (arith, fresh-nil (keys g)))))
