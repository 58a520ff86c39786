-- ===== src/Orchestration/Contracts.antt =====
-- restscope/orchestration/contracts.py: the validator of a Task execution result, and what
-- restscope/orchestration/runtime.py offers to it. The texts of the errors are left out.
pub mod Acceptance
pub mod Decisions
mod Tests
use Prim.Native.String.{count}
use restscope.Prelude.{
  ℕ, ◌+◌, String, Bool, true, false, not, ◌&&◌, ◌||◌, List, [], ◌∷◌, ◌++◌, any, unique, same_set,
  ltb, ◌==◌,
}
use restscope.Orchestration.Models.{
  Confidence, AgentFinding, Verdict, is_met, CriterionVerdict, ExecutionOutcome, is_completed,
  TaskExecutionResult, TaskRecord,
}
use restscope.Orchestration.Ledger.{criterion_ids, verdict_ids}

pub data ContractError : Type 0 where
  no_identity wrong_task criteria_not_once criterion_not_met text_too_long : ContractError

-- The literals that `model_dump` gives.
abbrev pub verdict_text : Verdict → String
verdict_text Verdict.met = "met"
verdict_text Verdict.not_met = "not_met"
verdict_text Verdict.unknown = "unknown"

abbrev pub outcome_text : ExecutionOutcome → String
outcome_text ExecutionOutcome.completed = "completed"
outcome_text ExecutionOutcome.partial = "partial"
outcome_text ExecutionOutcome.blocked = "blocked"

abbrev pub confidence_text : Confidence → String
confidence_text Confidence.low = "low"
confidence_text Confidence.medium = "medium"
confidence_text Confidence.high = "high"

-- `_text_chars` of a sequence of texts, of a Criterion verdict, of a finding, and of the result.
unfoldable pub text_chars : List String → ℕ
text_chars [] = 0
text_chars (s ∷ ss) = count s + text_chars ss

unfoldable pub verdict_chars : List CriterionVerdict → ℕ
unfolding text_chars
verdict_chars [] = 0
verdict_chars (c ∷ cs) =
    text_chars (c.criterion_id ∷ verdict_text c.status ∷ c.explanation ∷ c.evidence_refs)
    + verdict_chars cs

unfoldable pub finding_chars : List AgentFinding → ℕ
unfolding text_chars
finding_chars [] = 0
finding_chars (f ∷ fs) =
    text_chars (f.title ∷ f.detail ∷ confidence_text f.confidence ∷ f.evidence_refs)
    + finding_chars fs

unfoldable pub result_chars : TaskExecutionResult → ℕ
unfolding text_chars verdict_chars finding_chars
result_chars r =
    text_chars (r.task_id ∷ outcome_text r.outcome ∷ [])
    + verdict_chars r.criteria
    + finding_chars r.findings
    + text_chars r.unresolved_issues
    + text_chars r.target_state_changes

abbrev pub error_if : Bool → ContractError → List ContractError
error_if true e = e ∷ []
error_if false e = []

-- `validate_task_execution_output`, on `allowed_result_aliases`
unfoldable pub validate_task_execution_output :
    List String → TaskExecutionResult → List ContractError
unfolding result_chars
validate_task_execution_output [] result = no_identity ∷ []
validate_task_execution_output (expected_task_id ∷ expected_criterion_ids) result =
    let actual_ids = verdict_ids result.criteria in
    error_if (not (result.task_id == expected_task_id)) wrong_task
    ++ error_if (not (unique actual_ids) || not (same_set actual_ids expected_criterion_ids))
        criteria_not_once
    ++ error_if (is_completed result.outcome && any (λ c. not (is_met c.status)) result.criteria)
        criterion_not_met
    ++ error_if (ltb 6000 (result_chars result)) text_too_long

-- The aliases that `_run_task_executor` declares.
abbrev pub task_aliases : TaskRecord → List String
task_aliases task = task.task_id ∷ criterion_ids task.success_criteria
