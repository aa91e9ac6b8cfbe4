-- ===== src/StateMachine/TaskWorkspace.antt =====
-- sidecar/ibreeze/state_machine.py: `TaskWorkspaceState` and `_TASK_WORKSPACE_TRANSITIONS`.
use i_breeze.Prelude.{String, List, [], ◌∷◌, ◌≡◌, refl, some}
use i_breeze.StateMachine.Entity.{Entity, of_value}

pub data TaskWorkspaceState : Type 0 where
  preparing active ready_to_apply applied abandoned : TaskWorkspaceState

-- `.value` of the StrEnum members
unfoldable pub task_workspace_value : TaskWorkspaceState → String
task_workspace_value preparing = "preparing"
task_workspace_value active = "active"
task_workspace_value ready_to_apply = "ready_to_apply"
task_workspace_value applied = "applied"
task_workspace_value abandoned = "abandoned"

-- the keys of the table, in the order of the dict
unfoldable pub task_workspace_states : List TaskWorkspaceState
task_workspace_states = preparing ∷ active ∷ ready_to_apply ∷ applied ∷ abandoned ∷ []

unfoldable pub task_workspace_transitions : TaskWorkspaceState → List TaskWorkspaceState
task_workspace_transitions preparing = active ∷ abandoned ∷ []
task_workspace_transitions active = ready_to_apply ∷ abandoned ∷ []
task_workspace_transitions ready_to_apply = applied ∷ abandoned ∷ []
task_workspace_transitions applied = []
task_workspace_transitions abandoned = []

abbrev pub task_workspace_entity : Entity TaskWorkspaceState
task_workspace_entity = record {
  states = task_workspace_states;
  value = task_workspace_value;
  targets = task_workspace_transitions;
}

-- Every state is a key of the table, under its own value.
pub task_workspace-of_value :
    (s : TaskWorkspaceState) → of_value task_workspace_entity (task_workspace_value s) ≡ some s
unfolding of_value task_workspace_states task_workspace_value
task_workspace-of_value preparing = refl
task_workspace-of_value _ = refl
