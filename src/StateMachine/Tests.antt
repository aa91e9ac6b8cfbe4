-- ===== src/StateMachine/Tests.antt =====
-- Runs of the functions of sidecar/ibreeze/state_machine.py, and instances of their theorems.
use i_breeze.Prelude.{
  lookup, ◌≡◌, ◌↔◌, refl, true, List, [], ◌∷◌, map, Memᴰ, none, some, ◌≤◌, length,
}
use i_breeze.Result.{ok, err}
use i_breeze.StateMachine.Registry.{
  unknown_entity, unknown_state, state_transition_error, resume_state_required,
  resume_state_missing, is_terminal, is_waiting, can_transition, targets_of, transition,
  transition_tables, validate_resume_state,
}
use i_breeze.StateMachine.Machines.{company_task, value, State}
use i_breeze.StateMachine.Outcomes.{Allows, Outcome, can_transition_iff, transition-Outcome}
use i_breeze.StateMachine.Terminal.{terminal_absorbs}
use i_breeze.StateMachine.Walk.{Row, walk}
use i_breeze.StateMachine.Gates.{confirmed, moves-Gate}
use i_breeze.StateMachine.Gates.Start.{new_row}
use i_breeze.StateMachine.Gates.Histories.{Move, moves, IsHonest}
use i_breeze.StateMachine.Finish.{walk-escape}
use i_breeze.StateMachine.Finish.Escape.{escape}
use i_breeze.StateMachine.CompanyTask.{
  CompanyTaskState, company_task_states, company_task_value, company_task_transitions,
}

abbrev draft : State company_task
draft = CompanyTaskState.draft

abbrev executing : State company_task
executing = CompanyTaskState.executing

abbrev paused : State company_task
paused = CompanyTaskState.paused

transition_runs :
    (transition "CompanyTask" "draft" "analyzing" none ≡ ok none)
    × (transition "CompanyTask" "executing" "paused" none ≡ err (resume_state_required "paused"))
    × (transition "CompanyTask" "paused" "executing" (some "executing") ≡ ok (some "executing"))
    × (transition "CompanyTask" "draft" "completed" none
        ≡ err (state_transition_error "CompanyTask" "draft" "completed"))
    × (transition "Invoice" "draft" "paid" none ≡ err (unknown_entity "Invoice"))
    × (transition "CompanyTask" "paid" "draft" none ≡ err (unknown_state "CompanyTask" "paid"))
unfolding transition can_transition targets_of transition_tables lookup is_waiting
    company_task_states company_task_value company_task_transitions
transition_runs = (refl, refl, refl, refl, refl, refl)

validate_runs :
    (validate_resume_state "CompanyTask" "paused" none
      ≡ err (resume_state_missing "CompanyTask" "paused"))
    × (validate_resume_state "CompanyTask" "draft" none ≡ ok tt)
unfolding validate_resume_state is_waiting
validate_runs = (refl, refl)

can_transition_iff_example :
    (can_transition "CompanyTask"
        (value company_task paused)
        (value company_task executing)
        (some (value company_task executing))
      ≡ ok true)
    ↔ Allows company_task paused executing (some executing)
can_transition_iff_example = can_transition_iff company_task paused executing (some executing)

transition-Outcome_example : Outcome company_task paused executing (some executing) (
    transition "CompanyTask"
      (value company_task paused)
      (value company_task executing)
      (some (value company_task executing)))
transition-Outcome_example = transition-Outcome company_task paused executing (some executing)

terminal_absorbs_example :
    transition "CompanyTask"
      (value company_task CompanyTaskState.completed)
      "executing"
      (some "executing")
    ≡ err (
        state_transition_error "CompanyTask"
          (value company_task CompanyTaskState.completed)
          "executing")
unfolding is_terminal targets_of transition_tables lookup company_task_states company_task_value
    company_task_transitions
terminal_absorbs_example =
    terminal_absorbs company_task CompanyTaskState.completed "executing" (some "executing") refl

-- Calls without a resume state, and with one.
abbrev plain : State company_task → Move company_task
plain t = record { target = t; resume_state = none }

abbrev passing : State company_task → State company_task → Move company_task
passing t u = record { target = t; resume_state = some u }

-- A task that is paused while it executes, and completed.
abbrev life : List (Move company_task)
life =
    plain CompanyTaskState.analyzing
    ∷ plain CompanyTaskState.awaiting_user_confirmation
    ∷ plain CompanyTaskState.approved
    ∷ plain CompanyTaskState.dispatching
    ∷ plain CompanyTaskState.checking_resources
    ∷ plain CompanyTaskState.executing
    ∷ passing CompanyTaskState.paused CompanyTaskState.executing
    ∷ passing CompanyTaskState.executing CompanyTaskState.executing
    ∷ plain CompanyTaskState.reviewing
    ∷ plain CompanyTaskState.final_review
    ∷ plain CompanyTaskState.completed
    ∷ []

life_run : moves draft life ≡ ok CompanyTaskState.completed
unfolding moves transition can_transition targets_of transition_tables lookup is_waiting
    company_task_states company_task_value company_task_transitions
life_run = refl

life-IsHonest : IsHonest (new_row company_task) life
unfolding is_waiting company_task_value
life-IsHonest = (
  λ h. cc,
  (
    λ h. cc,
    (
      λ h. cc,
      (
        λ h. cc,
        (λ h. cc, (λ h. cc, (λ h. refl, (λ h. refl, (λ h. cc, (λ h. cc, (λ h. cc, tt))))))),
      ),
    ),
  ),
)

moves-Gate_example : Memᴰ CompanyTaskState.approved (map Move.target life)
moves-Gate_example = moves-Gate confirmed life life_run life-IsHonest

-- A wait that begins while the task is analysed, with another resume state: `transition` accepts it, and the
-- task is completed without an approval.
abbrev detour : List (Move company_task)
detour =
    plain CompanyTaskState.analyzing
    ∷ passing CompanyTaskState.waiting_resource CompanyTaskState.executing
    ∷ passing CompanyTaskState.executing CompanyTaskState.executing
    ∷ plain CompanyTaskState.reviewing
    ∷ plain CompanyTaskState.final_review
    ∷ plain CompanyTaskState.completed
    ∷ []

detour_run : moves draft detour ≡ ok CompanyTaskState.completed
unfolding moves transition can_transition targets_of transition_tables lookup is_waiting
    company_task_states company_task_value company_task_transitions
detour_run = refl

walk-escape_example :
    (r' : Row company_task) × (walk
        (record { status = paused; resume = some executing })
        (escape company_task paused)
      ≡ ok r')
    × (is_terminal "CompanyTask" (value company_task r'.status) ≡ ok true)
    × (length (escape company_task paused) ≤ 3)
walk-escape_example = walk-escape company_task (record { status = paused; resume = some executing })
