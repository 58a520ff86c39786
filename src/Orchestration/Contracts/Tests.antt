-- ===== src/Orchestration/Contracts/Tests.antt =====
-- Decisions that the contract accepts, on a small Ledger.
use restscope.Prelude.{◌≡◌, ◌≢◌, refl, none, some, [], ◌∷◌, ◌++◌, numbered, arith}
use restscope.Prelude.Identities.{starts_with}
use restscope.Orchestration.Models.{
  GoalContract, Verdict, ReplanDecision, TaskProposal, CompleteDecision, OrchestratorDecision,
  RunStatus,
}
use restscope.Orchestration.Ledger.{ok, TaskLedger, init, apply_replan, replanned}
use restscope.Orchestration.Ledger.Execution.{snapshot, complete, dispatch, new_task}
use restscope.Orchestration.Runtime.Soundness.{init-IsValid}
use restscope.Orchestration.Ledger.Invariant.{IsValid}
use restscope.Orchestration.Ledger.Replanning.{apply_replan-IsValid}
use restscope.Orchestration.Contracts.Decisions.{
  validate_orchestrator_output, orchestrator_aliases, milestone_chars, DecisionError,
}
use restscope.Orchestration.Contracts.Decisions.Completing.{validated-completes}
use restscope.Orchestration.Contracts.Decisions.Dispatching.{validated-dispatches}
use restscope.Orchestration.Contracts.Decisions.Borrowing.{validated-borrows}

abbrev goal : GoalContract
goal = record {
  mission = "explore";
  focus = none;
  success_criteria = record { criterion_id = "goal_1"; description = "evidence" } ∷ [];
}

abbrev plan : ReplanDecision
plan = record {
  expected_plan_revision = 0;
  reason = "start";
  completed_milestone_ids = [];
  milestones =
      record {
        title = "Users";
        purpose = "Cover users";
        success_criteria = "happy path" ∷ [];
        supersedes_milestone_id = none;
      }
      ∷ [];
}

abbrev planned : TaskLedger
planned = replanned plan (init goal)

planned-IsValid : IsValid planned
unfolding apply_replan
planned-IsValid = apply_replan-IsValid plan (init goal) planned (init-IsValid goal) refl

abbrev finish : CompleteDecision
finish = record {
  expected_plan_revision = 1;
  goal_criteria =
      record { criterion_id = "goal_1"; status = Verdict.met; explanation = "seen" } ∷ [];
  summary = "done";
  unresolved = [];
}

validated-completes_example :
    complete finish planned
    ≡ ok (
      record planned { run_status = RunStatus.completed },
      snapshot (record planned { run_status = RunStatus.completed }),
    )
unfolding validate_orchestrator_output orchestrator_aliases replanned starts_with numbered
validated-completes_example =
    validated-completes finish planned planned-IsValid refl (refl, tt) (omega arith) refl

abbrev task : TaskProposal
task = record {
  milestone_id = "milestone_1";
  objective = "List the users";
  purpose = "Evidence";
  success_criteria = record { criterion_id = "criterion_1"; description = "2xx" } ∷ [];
  related_attempt_ids = [];
  retry_reason = none;
}

validated-dispatches_example :
    dispatch task 1 planned
    ≡ ok (
      record planned {
        tasks = planned.tasks ++ new_task task planned ∷ [];
        active_task_id = some (new_task task planned).task_id;
      },
      new_task task planned,
    )
unfolding validate_orchestrator_output orchestrator_aliases replanned starts_with numbered
validated-dispatches_example =
    validated-dispatches (record { expected_plan_revision = 1; task = task }) planned
      planned-IsValid refl (refl, tt) refl tt refl refl

abbrev premature : ReplanDecision
premature = record plan { expected_plan_revision = 1; completed_milestone_ids = "goal_1" ∷ [] }

validated-borrows_example :
    (validate_orchestrator_output
        (orchestrator_aliases planned)
        (OrchestratorDecision.replan premature)
      ≡ [])
    × ((t : TaskLedger) → apply_replan premature planned ≢ ok t)
unfolding replanned orchestrator_aliases starts_with milestone_chars numbered
validated-borrows_example =
    validated-borrows premature "goal_1" planned planned-IsValid (refl, tt) refl refl refl refl
      (omega arith)

a_stale_decision :
    validate_orchestrator_output
      ("revision_2" ∷ "goal_1" ∷ [])
      (OrchestratorDecision.complete finish)
    ≡ DecisionError.wrong_revision ∷ []
unfolding validate_orchestrator_output
a_stale_decision = refl

a_malformed_revision :
    validate_orchestrator_output
      ("revision_x" ∷ "goal_1" ∷ [])
      (OrchestratorDecision.complete finish)
    ≡ DecisionError.invalid_revision ∷ []
unfolding validate_orchestrator_output
a_malformed_revision = refl
