-- ===== src/Orchestration/Tests.antt =====
-- Runs of the Ledger and of the loop on small inputs.
use restscope.Prelude.{
  clip, or_else, strip, ◌↔◌, ◌≡◌, refl, String, none, some, List, [], ◌∷◌, keep, numbered, is_blank,
}
use restscope.Orchestration.Models.{
  GoalContract, GoalCriterionVerdict, Verdict, MilestoneProposal, ReplanDecision, TaskProposal,
  CompleteDecision, ExecutionOutcome, TaskExecutionResult, OrchestratorDecision, replan,
  dispatch_task, AttemptOutcome, require_result_or_failure_payload, is_pending, RunStatus,
  AttemptRecord, MilestoneStatus, TaskStatus,
}
use restscope.Orchestration.Ledger.{ok, TaskLedger, init, apply_replan, replanned}
use restscope.Orchestration.Ledger.Execution.{
  dispatch, new_task, append_attempt, append_failure, require_active_task, exactly_once,
  record_attempt, replace_task,
}
use restscope.Orchestration.Contracts.{validate_task_execution_output, result_chars}
use restscope.Orchestration.Contracts.Acceptance.{validated-Records}
use restscope.Orchestration.Runtime.{record_execution, build_goal, Execution, Turn, decided, run}
use restscope.Orchestration.Runtime.Recovery.{runtime_error-Records}
use restscope.Orchestration.Runtime.Soundness.{IsSound, run-IsSound, init-IsValid}
use restscope.Orchestration.Ledger.Invariant.{IsValid}
use restscope.Orchestration.Ledger.Replanning.{
  IsReplan, apply_replan_exact, apply_replan-IsValid, apply_replan-pending,
}
use restscope.Orchestration.Ledger.Replans.{AreProposed}
use restscope.Orchestration.Ledger.Dispatching.{IsDispatch, dispatch_exact, dispatch-IsValid}
use restscope.Orchestration.Ledger.Attempts.{Records, append_attempt-Records}
use restscope.Orchestration.Ledger.Attempts.Failing.{append_failure-Records}

abbrev goal : GoalContract
goal = record { mission = "explore"; focus = none; success_criteria = [] }

abbrev proposal : MilestoneProposal
proposal = record {
  title = "Users";
  purpose = "Cover users";
  success_criteria = "happy path" ∷ [];
  supersedes_milestone_id = none;
}

abbrev plan : ReplanDecision
plan = record {
  expected_plan_revision = 0;
  reason = "start";
  completed_milestone_ids = [];
  milestones = proposal ∷ [];
}

abbrev task : TaskProposal
task = record {
  milestone_id = "milestone_1";
  objective = "List the users";
  purpose = "Evidence";
  success_criteria = record { criterion_id = "criterion_1"; description = "2xx" } ∷ [];
  related_attempt_ids = [];
  retry_reason = none;
}

abbrev report : TaskExecutionResult
report = record {
  task_id = "task_1";
  outcome = ExecutionOutcome.completed;
  criteria =
      record {
        criterion_id = "criterion_1";
        status = Verdict.met;
        explanation = "200";
        evidence_refs = [];
      }
      ∷ [];
  findings = [];
  unresolved_issues = [];
  target_state_changes = [];
}

abbrev verdict : String → GoalCriterionVerdict
verdict id = record { criterion_id = id; status = Verdict.met; explanation = "seen" }

abbrev finish : CompleteDecision
finish = record {
  expected_plan_revision = 1;
  goal_criteria = verdict "goal_2" ∷ verdict "goal_1" ∷ verdict "goal_3" ∷ [];
  summary = "done";
  unresolved = [];
}

abbrev script : List Turn
script =
    decided (replan plan) Execution.uncaught
    ∷ decided (dispatch_task (record { expected_plan_revision = 1; task = task }))
        (Execution.result report)
    ∷ decided (OrchestratorDecision.complete finish) Execution.uncaught
    ∷ []

run-IsSound_example : IsSound (build_goal none) (run none script)
run-IsSound_example = run-IsSound none script

abbrev planned : TaskLedger
planned = record (init goal) {
  plan_revision = 1;
  milestones =
      record {
        milestone_id = "milestone_1";
        plan_revision = 1;
        title = "Users";
        purpose = "Cover users";
        success_criteria = "happy path" ∷ [];
        status = MilestoneStatus.pending;
        supersedes_milestone_id = none;
      }
      ∷ [];
  plan_revisions =
      record {
        plan_revision = 1;
        reason = "start";
        completed_milestone_ids = [];
        superseded_milestone_ids = [];
        created_milestone_ids = "milestone_1" ∷ [];
      }
      ∷ [];
  run_status = RunStatus.running;
}

accepts_plan : apply_replan plan (init goal) ≡ ok planned
unfolding apply_replan replanned numbered
accepts_plan = refl

planned-IsValid : IsValid planned
planned-IsValid = apply_replan-IsValid plan (init goal) planned (init-IsValid goal) accepts_plan

-- The second plan completes the first Milestone.
abbrev second : ReplanDecision
second = record plan { expected_plan_revision = 1; completed_milestone_ids = "milestone_1" ∷ [] }

abbrev replanned_once : TaskLedger
replanned_once = replanned second planned

accepts_second : apply_replan second planned ≡ ok replanned_once
unfolding apply_replan replanned
accepts_second = refl

apply_replan-IsValid_example : IsValid replanned_once
apply_replan-IsValid_example =
    apply_replan-IsValid second planned replanned_once planned-IsValid accepts_second

apply_replan-pending_example :
    AreProposed 2 2 (proposal ∷ []) (keep (λ m. is_pending m.status) replanned_once.milestones)
apply_replan-pending_example = apply_replan-pending second planned replanned_once accepts_second

abbrev dispatched : TaskLedger
dispatched = record planned { tasks = new_task task planned ∷ []; active_task_id = some "task_1" }

accepts_task : dispatch task 1 planned ≡ ok (dispatched, new_task task planned)
unfolding dispatch new_task numbered
accepts_task = refl

dispatched-IsValid : IsValid dispatched
dispatched-IsValid =
    dispatch-IsValid task 1 planned dispatched (new_task task planned) planned-IsValid accepts_task

dispatch-IsValid_example : IsValid dispatched
dispatch-IsValid_example =
    dispatch-IsValid task 1 planned dispatched (new_task task planned) planned-IsValid accepts_task

abbrev attempt : AttemptRecord
attempt = record {
  attempt_id = "attempt_1";
  task_id = "task_1";
  plan_revision = 1;
  outcome = AttemptOutcome.completed;
  result = some report;
  failure_code = none;
  failure_message = none;
}

abbrev attempted : TaskLedger
attempted = record dispatched {
  tasks = record (new_task task planned) { status = TaskStatus.completed } ∷ [];
  attempts = attempt ∷ [];
  active_task_id = none;
}

accepts_report : append_attempt report dispatched ≡ ok (attempted, attempt)
unfolding append_attempt new_task require_active_task numbered exactly_once record_attempt
    require_result_or_failure_payload replace_task
accepts_report = refl

append_attempt-Records_example :
    Records dispatched attempt attempted
    × (some report ≡ some report)
    × (AttemptOutcome.completed ≡ AttemptOutcome.completed)
append_attempt-Records_example =
    append_attempt-Records report dispatched attempted attempt dispatched-IsValid accepts_report

append_failure-Records_example :
    (t : TaskLedger) × (a : AttemptRecord) × (append_failure "task_1" "timeout" "no answer"
        dispatched
      ≡ ok (t, a))
    × Records dispatched a t
    × (a.outcome ≡ AttemptOutcome.failed)
    × (a.failure_code ≡ some "timeout")
    × (a.failure_message ≡ some "no answer")
unfolding is_blank
append_failure-Records_example =
    append_failure-Records "task_1" "timeout" "no answer" dispatched dispatched-IsValid refl refl
      refl

apply_replan_exact_example :
    (apply_replan second planned ≡ ok replanned_once) ↔ IsReplan second planned replanned_once
apply_replan_exact_example = apply_replan_exact second planned replanned_once

dispatch_exact_example :
    (dispatch task 1 planned ≡ ok (dispatched, new_task task planned))
    ↔ IsDispatch task 1 planned dispatched (new_task task planned)
dispatch_exact_example = dispatch_exact task 1 planned dispatched (new_task task planned)

validated-Records_example :
    (t : TaskLedger) × (append_attempt report dispatched ≡ ok (t, attempt))
    × Records dispatched attempt t
unfolding require_active_task validate_task_execution_output numbered new_task result_chars
validated-Records_example =
    validated-Records report dispatched (new_task task planned) dispatched-IsValid refl refl

-- An exception without a text is recorded under the name of its class.
runtime_error-Records_example :
    (t : TaskLedger) × (a : AttemptRecord) × (record_execution
        (new_task task planned)
        (Execution.runtime_error "  " "TimeoutError")
        dispatched
      ≡ some t)
    × Records dispatched a t
    × (a.failure_message ≡ some (clip 2000 (or_else (strip "  ") "TimeoutError")))
unfolding is_blank clip new_task numbered
runtime_error-Records_example =
    runtime_error-Records (new_task task planned) "  " "TimeoutError" dispatched dispatched-IsValid
      refl refl
