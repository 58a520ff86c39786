-- ===== src/Orchestration/Models.antt =====
-- orchestration/models.py (restscope/orchestration/models.py), and `AgentFinding` of
-- restscope/agent/contracts.py: the frozen values of the long-task loop. A `Literal` field is a data
-- type, a `str | None` is an `Option`, a tuple a list; the discriminator `kind` of a decision is the
-- constructor of `OrchestratorDecision`. Length and pattern limits of single fields are not in the
-- types; the validators that relate several values are functions.
use restscope.Prelude.{
  ℕ, String, Bool, true, false, ◌||◌, not, Option, List, map, is_none, is_some, unique,
  if◌then◌else◌,
}

pub data Confidence : Type 0 where
  low medium high : Confidence

pub record AgentFinding : Type 0 where
  pub title : String
  pub detail : String
  pub confidence : Confidence
  pub evidence_refs : List String

pub record GoalCriterion : Type 0 where
  pub criterion_id : String
  pub description : String

pub record GoalContract : Type 0 where
  pub mission : String
  pub focus : Option String
  pub success_criteria : List GoalCriterion

pub record MilestoneProposal : Type 0 where
  pub title : String
  pub purpose : String
  pub success_criteria : List String
  pub supersedes_milestone_id : Option String

pub record ReplanDecision : Type 0 where
  pub expected_plan_revision : ℕ
  pub reason : String
  pub completed_milestone_ids : List String
  pub milestones : List MilestoneProposal

pub record TaskCriterion : Type 0 where
  pub criterion_id : String
  pub description : String

pub record TaskProposal : Type 0 where
  pub milestone_id : String
  pub objective : String
  pub purpose : String
  pub success_criteria : List TaskCriterion
  pub related_attempt_ids : List String
  pub retry_reason : Option String

pub record DispatchTaskDecision : Type 0 where
  pub expected_plan_revision : ℕ
  pub task : TaskProposal

-- `Literal["met", "not_met", "unknown"]`
pub data Verdict : Type 0 where
  met not_met unknown : Verdict

abbrev pub is_met : Verdict → Bool
is_met met = true
is_met _ = false

pub record GoalCriterionVerdict : Type 0 where
  pub criterion_id : String
  pub status : Verdict
  pub explanation : String

pub record CompleteDecision : Type 0 where
  pub expected_plan_revision : ℕ
  pub goal_criteria : List GoalCriterionVerdict
  pub summary : String
  pub unresolved : List String

pub data OrchestratorDecision : Type 0 where
  replan : ReplanDecision → OrchestratorDecision
  dispatch_task : DispatchTaskDecision → OrchestratorDecision
  complete : CompleteDecision → OrchestratorDecision

pub record CriterionVerdict : Type 0 where
  pub criterion_id : String
  pub status : Verdict
  pub explanation : String
  pub evidence_refs : List String

-- `Literal["completed", "partial", "blocked"]`
pub data ExecutionOutcome : Type 0 where
  completed partial blocked : ExecutionOutcome

pub record TaskExecutionResult : Type 0 where
  pub task_id : String
  pub outcome : ExecutionOutcome
  pub criteria : List CriterionVerdict
  pub findings : List AgentFinding
  pub unresolved_issues : List String
  pub target_state_changes : List String

pub record PlanRevisionRecord : Type 0 where
  pub plan_revision : ℕ
  pub reason : String
  pub completed_milestone_ids : List String
  pub superseded_milestone_ids : List String
  pub created_milestone_ids : List String

pub data MilestoneStatus : Type 0 where
  pending completed superseded : MilestoneStatus

pub record MilestoneRecord : Type 0 where
  pub milestone_id : String
  pub plan_revision : ℕ
  pub title : String
  pub purpose : String
  pub success_criteria : List String
  pub status : MilestoneStatus
  pub supersedes_milestone_id : Option String

pub data TaskStatus : Type 0 where
  running completed partial blocked failed : TaskStatus

-- `Literal["completed", "partial", "blocked", "failed"]`
pub data AttemptOutcome : Type 0 where
  completed partial blocked failed : AttemptOutcome

-- The outcome of a Task execution as that of its Attempt, and an outcome as a Task status: in the
-- source these are the same strings.
abbrev pub to_attempt_outcome : ExecutionOutcome → AttemptOutcome
to_attempt_outcome ExecutionOutcome.completed = AttemptOutcome.completed
to_attempt_outcome ExecutionOutcome.partial = AttemptOutcome.partial
to_attempt_outcome ExecutionOutcome.blocked = AttemptOutcome.blocked

abbrev pub to_task_status : AttemptOutcome → TaskStatus
to_task_status AttemptOutcome.completed = TaskStatus.completed
to_task_status AttemptOutcome.partial = TaskStatus.partial
to_task_status AttemptOutcome.blocked = TaskStatus.blocked
to_task_status AttemptOutcome.failed = TaskStatus.failed

pub record TaskRecord : Type 0 where
  pub task_id : String
  pub milestone_id : String
  pub plan_revision : ℕ
  pub objective : String
  pub purpose : String
  pub success_criteria : List TaskCriterion
  pub related_attempt_ids : List String
  pub retry_reason : Option String
  pub status : TaskStatus

pub record AttemptRecord : Type 0 where
  pub attempt_id : String
  pub task_id : String
  pub plan_revision : ℕ
  pub outcome : AttemptOutcome
  pub result : Option TaskExecutionResult
  pub failure_code : Option String
  pub failure_message : Option String

pub data RunStatus : Type 0 where
  planning running completed : RunStatus

pub record TaskLedgerSnapshot : Type 0 where
  pub plan_revision : ℕ
  pub run_status : RunStatus
  pub plan_revisions : List PlanRevisionRecord
  pub milestones : List MilestoneRecord
  pub tasks : List TaskRecord
  pub attempts : List AttemptRecord

pub record OrchestrationResult : Type 0 where
  pub summary : String
  pub unresolved : List String
  pub goal : GoalContract
  pub ledger : TaskLedgerSnapshot

abbrev pub is_failed : AttemptOutcome → Bool
is_failed AttemptOutcome.failed = true
is_failed _ = false

abbrev pub is_failed_task : TaskStatus → Bool
is_failed_task TaskStatus.failed = true
is_failed_task _ = false

abbrev pub is_pending : MilestoneStatus → Bool
is_pending MilestoneStatus.pending = true
is_pending _ = false

abbrev pub is_completed : ExecutionOutcome → Bool
is_completed ExecutionOutcome.completed = true
is_completed _ = false

-- `ReplanDecision.require_unique_completed_milestone_ids`
unfoldable pub require_unique_completed_milestone_ids : ReplanDecision → Bool
require_unique_completed_milestone_ids d = unique d.completed_milestone_ids

-- `TaskProposal.require_unique_criterion_ids`
unfoldable pub require_unique_criterion_ids : List TaskCriterion → Bool
require_unique_criterion_ids values = unique (map (λ (c : TaskCriterion). c.criterion_id) values)

-- `AttemptRecord.require_result_or_failure_payload`: whether the record is accepted.
unfoldable pub require_result_or_failure_payload : AttemptRecord → Bool
require_result_or_failure_payload a =
    if is_failed a.outcome
    then not (is_some a.result || is_none a.failure_code || is_none a.failure_message)
    else not (is_none a.result || is_some a.failure_code || is_some a.failure_message)
