-- ===== src/Orchestration/Contracts/Decisions.antt =====
-- restscope/orchestration/contracts.py: the validator of an Orchestrator decision, and what
-- `_run_orchestrator` of restscope/orchestration/runtime.py offers to it. The texts of the errors are
-- left out. The number of the revision alias is read from ASCII digits, as an f-string writes it.
pub mod Offered
pub mod Completing
pub mod Dispatching
pub mod Borrowing
use Prim.Native.String.{count}
use restscope.Prelude.{
  ℕ, ◌+◌, ◌-◌, String, Bool, true, false, not, ◌||◌, Option, none, some, List, [], ◌∷◌, ◌++◌, keep,
  unique, same_set, subset, contains, length, ltb, eqb, numbered,
}
use restscope.Prelude.Identities.{strip_prefix, starts_with, parse_digits}
use restscope.Orchestration.Models.{
  MilestoneProposal, TaskCriterion, TaskProposal, OrchestratorDecision, replan, dispatch_task,
  complete, is_pending, ReplanDecision, DispatchTaskDecision, CompleteDecision, AttemptRecord,
}
use restscope.Orchestration.Ledger.{
  TaskLedger, milestone_ids, attempt_ids, goal_ids, goal_verdict_ids,
}
use restscope.Orchestration.Contracts.{text_chars}

pub data DecisionError : Type 0 where
  no_revision invalid_revision wrong_revision unknown_completed replan_too_long unknown_milestone
        unknown_attempts task_too_long goal_not_once :
      DecisionError

-- `_text_chars` of an optional text, of Milestone proposals, of Task criteria, and of a Task proposal.
unfoldable pub option_chars : Option String → ℕ
option_chars none = 0
option_chars (some s) = count s

unfoldable pub milestone_chars : List MilestoneProposal → ℕ
unfolding text_chars option_chars
milestone_chars [] = 0
milestone_chars (m ∷ ms) =
    text_chars (m.title ∷ m.purpose ∷ m.success_criteria)
    + option_chars m.supersedes_milestone_id
    + milestone_chars ms

unfoldable pub criterion_chars : List TaskCriterion → ℕ
criterion_chars [] = 0
criterion_chars (c ∷ cs) = count c.criterion_id + count c.description + criterion_chars cs

unfoldable pub task_chars : TaskProposal → ℕ
unfolding text_chars option_chars criterion_chars
task_chars p =
    text_chars (p.milestone_id ∷ p.objective ∷ p.purpose ∷ p.related_attempt_ids)
    + criterion_chars p.success_criteria
    + option_chars p.retry_reason

abbrev pub refusal_if : Bool → DecisionError → List DecisionError
refusal_if true e = e ∷ []
refusal_if false e = []

abbrev pub expected_plan_revision : OrchestratorDecision → ℕ
expected_plan_revision (replan d) = d.expected_plan_revision
expected_plan_revision (dispatch_task d) = d.expected_plan_revision
expected_plan_revision (complete d) = d.expected_plan_revision

-- `expected_revision`, if the first alias declares one
unfoldable pub declared_revision : String → Option ℕ
unfolding strip_prefix parse_digits
declared_revision alias = elim (strip_prefix "revision_" alias) [
  | none ↦ none
  | some revision_value ↦ parse_digits revision_value
]

-- The errors of one kind of decision, on the aliases behind the revision.
unfoldable pub decision_errors : List String → OrchestratorDecision → List DecisionError
unfolding milestone_chars task_chars starts_with
decision_errors aliases (replan d) =
    refusal_if (not (subset d.completed_milestone_ids aliases)) unknown_completed
    ++ refusal_if (ltb 4000 (milestone_chars d.milestones)) replan_too_long
decision_errors aliases (dispatch_task d) =
    refusal_if (not (contains d.task.milestone_id aliases)) unknown_milestone
    ++ refusal_if (not (subset d.task.related_attempt_ids aliases)) unknown_attempts
    ++ refusal_if (ltb 4000 (task_chars d.task)) task_too_long
decision_errors aliases (complete d) =
    let returned_goal_ids = goal_verdict_ids d.goal_criteria in
    refusal_if
      (not (unique returned_goal_ids)
        || not (same_set returned_goal_ids (keep (starts_with "goal_") aliases)))
      goal_not_once

-- `validate_orchestrator_output`, on `allowed_result_aliases`
unfoldable pub validate_orchestrator_output :
    List String → OrchestratorDecision → List DecisionError
unfolding declared_revision decision_errors
validate_orchestrator_output [] decision = no_revision ∷ []
validate_orchestrator_output (revision_alias ∷ aliases) decision =
    elim (declared_revision revision_alias) [
      | none ↦ invalid_revision ∷ []
      | some expected_revision ↦
          refusal_if (not (eqb (expected_plan_revision decision) expected_revision)) wrong_revision
          ++ decision_errors aliases decision
    ]

-- `xs[-n:]`
unfoldable pub last_items {ℓ} : {A : Type ℓ} → ℕ → List A → List A
last_items n [] = []
last_items n (x ∷ xs) =
    let rest = last_items n xs in elim (ltb (length xs) n) [ true ↦ x ∷ xs | false ↦ rest ]

-- The aliases that `_run_orchestrator` declares, behind the revision and all of them.
unfoldable pub offered_ids : TaskLedger → List String
unfolding last_items
offered_ids s =
    goal_ids s.goal.success_criteria
    ++ (milestone_ids (keep (λ m. is_pending m.status) s.milestones)
        ++ attempt_ids (last_items 20 s.attempts))

unfoldable pub orchestrator_aliases : TaskLedger → List String
unfolding offered_ids numbered
orchestrator_aliases s = numbered "revision_" s.plan_revision ∷ offered_ids s
