-- ===== src/Plan/Graph.antt =====
-- sidecar/ibreeze/orchestration/plan_validator.py: the depth-first search of `_has_cycle`.
use i_breeze.Prelude.{
  ℕ, zero, suc, String, Bool, true, false, List, [], ◌∷◌, Option, none, some, str_eq, contains,
  length, lookup, keys, is_in, if◌then◌else◌,
}

-- `graph`: the references and their dependencies
abbrev pub Graph : Type 0
Graph = List (String × List String)

-- `graph[node]`; `visit` is called for keys alone
abbrev pub successors : Graph → String → List String
successors g n = elim (lookup n g) [ none ↦ [] | some ds ↦ ds ]

-- the two sets that `visit` shares with its calls
pub record Marks : Type 0 where
  pub visiting : List String
  pub visited : List String

-- What `visit` returns, with the sets as it leaves them. `none`: the fuel is used up.
abbrev pub Visit : Type 0
Visit = Option (Bool × Marks)

-- `any` stops at the first True
abbrev pub or_next : Visit → (Marks → Visit) → Visit
or_next none next = none
or_next (some (true, s)) next = some (true, s)
or_next (some (false, s)) next = next s

-- `any(admitted(node) and visit(node) for node in nodes)`
unfoldable pub visit_any : (String → Bool) → (String → Marks → Visit) → List String → Marks → Visit
visit_any admitted visit [] s = some (false, s)
visit_any admitted visit (n ∷ ns) s = elim (admitted n) [
  | false ↦ visit_any admitted visit ns s
  | true ↦ or_next (visit n s) (λ s'. visit_any admitted visit ns s')
]

-- `visiting.remove(node)`
abbrev pub remove : String → List String → List String
remove n [] = []
remove n (x ∷ xs) = if str_eq x n then xs else x ∷ remove n xs

abbrev pub leave : String → Visit → Visit
leave n none = none
leave n (some (true, s)) = some (true, s)
leave n (some (false, s)) =
    some (false, record { visiting = remove n s.visiting; visited = n ∷ s.visited })

unfoldable pub visit : ℕ → Graph → String → Marks → Visit
unfolding visit_any
visit zero g n s = none
visit (suc fuel) g n s = elim (contains n s.visiting) [
  | true ↦ some (true, s)
  | false ↦ elim (contains n s.visited) [
    | true ↦ some (false, s)
    | false ↦ leave n (
        visit_any (λ d. is_in d g) (visit fuel g) (successors g n)
          (record s { visiting = n ∷ s.visiting }))
  ]
]

abbrev pub answer : Visit → Option Bool
answer none = none
answer (some (found, _)) = some found

abbrev pub no_marks : Marks
no_marks = record { visiting = []; visited = [] }

-- `any(visit(node) for node in graph)`, with fuel for one call more than there are keys
unfoldable pub graph_has_cycle : Graph → Option Bool
unfolding visit
graph_has_cycle g =
    answer (visit_any (λ _. true) (visit (suc (length (keys g))) g) (keys g) no_marks)
