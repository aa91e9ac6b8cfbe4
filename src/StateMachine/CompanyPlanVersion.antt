-- ===== src/StateMachine/CompanyPlanVersion.antt =====
-- sidecar/ibreeze/state_machine.py: `CompanyPlanVersionState` and `_COMPANY_PLAN_VERSION_TRANSITIONS`.
use i_breeze.Prelude.{String, List, [], ◌∷◌, ◌≡◌, refl, some}
use i_breeze.StateMachine.Entity.{Entity, of_value}

pub data CompanyPlanVersionState : Type 0 where
  draft awaiting_user_confirmation approved superseded rejected : CompanyPlanVersionState

-- `.value` of the StrEnum members
unfoldable pub company_plan_version_value : CompanyPlanVersionState → String
company_plan_version_value draft = "draft"
company_plan_version_value awaiting_user_confirmation = "awaiting_user_confirmation"
company_plan_version_value approved = "approved"
company_plan_version_value superseded = "superseded"
company_plan_version_value rejected = "rejected"

-- the keys of the table, in the order of the dict
unfoldable pub company_plan_version_states : List CompanyPlanVersionState
company_plan_version_states =
    draft ∷ awaiting_user_confirmation ∷ approved ∷ superseded ∷ rejected ∷ []

unfoldable pub company_plan_version_transitions :
    CompanyPlanVersionState → List CompanyPlanVersionState
company_plan_version_transitions draft = awaiting_user_confirmation ∷ rejected ∷ []
company_plan_version_transitions awaiting_user_confirmation = approved ∷ superseded ∷ rejected ∷ []
company_plan_version_transitions approved = []
company_plan_version_transitions superseded = []
company_plan_version_transitions rejected = []

abbrev pub company_plan_version_entity : Entity CompanyPlanVersionState
company_plan_version_entity = record {
  states = company_plan_version_states;
  value = company_plan_version_value;
  targets = company_plan_version_transitions;
}

-- Every state is a key of the table, under its own value.
pub company_plan_version-of_value :
    (s : CompanyPlanVersionState)
    → of_value company_plan_version_entity (company_plan_version_value s) ≡ some s
unfolding of_value company_plan_version_states company_plan_version_value
company_plan_version-of_value draft = refl
company_plan_version-of_value _ = refl
