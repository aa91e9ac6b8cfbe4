-- ===== src/StateMachine/Entity.antt =====
-- The shape of a transition table of sidecar/ibreeze/state_machine.py: a StrEnum with its values, and
-- for each key of the dict the set of its targets.
use i_breeze.Prelude.{String, List, [], ◌∷◌, map, Option, none, some, str_eq, if◌then◌else◌}

pub record Entity (S : Type 0) : Type 0 where
  pub states : List S
  pub value : S → String
  pub targets : S → List S

-- The table as the functions read it: the values of the keys and of their targets.
abbrev pub Table : Type 0
Table = List (String × List String)

unfoldable pub first_with : {S : Type 0} → (S → String) → String → List S → Option S
first_with value v [] = none
first_with value v (s ∷ rest) = if str_eq (value s) v then some s else first_with value v rest

-- The member with a given value: `State(v)`.
unfoldable pub of_value : {S : Type 0} → Entity S → String → Option S
unfolding first_with
of_value e v = first_with e.value v e.states

abbrev pub rows : {S : Type 0} → Entity S → List S → Table
rows e [] = []
rows e (s ∷ rest) = (e.value s, map e.value (e.targets s)) ∷ rows e rest

abbrev pub table : {S : Type 0} → Entity S → Table
table e = rows e e.states
