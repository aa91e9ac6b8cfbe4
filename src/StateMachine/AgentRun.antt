-- ===== src/StateMachine/AgentRun.antt =====
-- sidecar/ibreeze/state_machine.py: `AgentRunState` and `_AGENT_RUN_TRANSITIONS`.
use i_breeze.Prelude.{String, List, [], ◌∷◌, ◌≡◌, refl, some}
use i_breeze.StateMachine.Entity.{Entity, of_value}

pub data AgentRunState : Type 0 where
  queued probing starting running waiting_approval verifying retrying succeeded waiting_resource
        cancelled timed_out failed lost :
      AgentRunState

-- `.value` of the StrEnum members
unfoldable pub agent_run_value : AgentRunState → String
agent_run_value queued = "queued"
agent_run_value probing = "probing"
agent_run_value starting = "starting"
agent_run_value running = "running"
agent_run_value waiting_approval = "waiting_approval"
agent_run_value verifying = "verifying"
agent_run_value retrying = "retrying"
agent_run_value succeeded = "succeeded"
agent_run_value waiting_resource = "waiting_resource"
agent_run_value cancelled = "cancelled"
agent_run_value timed_out = "timed_out"
agent_run_value failed = "failed"
agent_run_value lost = "lost"

-- the keys of the table, in the order of the dict
unfoldable pub agent_run_states : List AgentRunState
agent_run_states =
    queued ∷ probing ∷ starting ∷ running ∷ waiting_approval ∷ waiting_resource ∷ verifying
    ∷ retrying ∷ lost ∷ succeeded ∷ cancelled ∷ timed_out ∷ failed ∷ []

unfoldable pub agent_run_transitions : AgentRunState → List AgentRunState
agent_run_transitions queued = probing ∷ cancelled ∷ []
agent_run_transitions probing = starting ∷ waiting_resource ∷ cancelled ∷ failed ∷ []
agent_run_transitions starting =
    running ∷ retrying ∷ waiting_resource ∷ cancelled ∷ timed_out ∷ failed ∷ []
agent_run_transitions running =
    waiting_approval ∷ verifying ∷ retrying ∷ waiting_resource ∷ cancelled ∷ timed_out ∷ failed
    ∷ lost ∷ []
agent_run_transitions waiting_approval = running ∷ cancelled ∷ timed_out ∷ failed ∷ []
agent_run_transitions waiting_resource = running ∷ cancelled ∷ timed_out ∷ failed ∷ []
agent_run_transitions verifying =
    succeeded ∷ retrying ∷ waiting_approval ∷ waiting_resource ∷ cancelled ∷ timed_out ∷ failed ∷ []
agent_run_transitions retrying = starting ∷ cancelled ∷ timed_out ∷ failed ∷ []
agent_run_transitions lost = retrying ∷ waiting_approval ∷ cancelled ∷ failed ∷ []
agent_run_transitions succeeded = []
agent_run_transitions cancelled = []
agent_run_transitions timed_out = []
agent_run_transitions failed = []

abbrev pub agent_run_entity : Entity AgentRunState
agent_run_entity = record {
  states = agent_run_states;
  value = agent_run_value;
  targets = agent_run_transitions;
}

-- Every state is a key of the table, under its own value.
pub agent_run-of_value :
    (s : AgentRunState) → of_value agent_run_entity (agent_run_value s) ≡ some s
unfolding of_value agent_run_states agent_run_value
agent_run-of_value queued = refl
agent_run-of_value _ = refl
