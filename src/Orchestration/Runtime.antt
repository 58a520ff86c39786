-- ===== src/Orchestration/Runtime.antt =====
-- restscope/orchestration/runtime.py: `_build_goal` and the loop of `OrchestrationRuntime.run`. What
-- the System Agents return is the environment's: a list of turns, each an Orchestrator decision and
-- what its Task Executor root would answer. The list may end before the loop does, so an unfinished
-- run is an outcome of its own. The observer callbacks and the rendered prompts are not modelled: the
-- source lets neither change the Ledger.
pub mod Soundness
pub mod Recovery
use restscope.Prelude.{
  String, Bool, true, false, ◌&&◌, not, Option, none, some, List, [], ◌∷◌, clip, strip, or_else,
  if◌then◌else◌,
}
use restscope.Orchestration.Models.{
  GoalContract, OrchestratorDecision, replan, dispatch_task, TaskExecutionResult, CompleteDecision,
  TaskLedgerSnapshot, TaskRecord, OrchestrationResult,
}
use restscope.Orchestration.Ledger.{Result, ok, err, TaskLedger, init, apply_replan}
use restscope.Orchestration.Ledger.Execution.{dispatch, append_attempt, append_failure, complete}

abbrev pub mission : String
mission =
    "Explore the target REST API dynamically, confirm useful happy paths, perform worthwhile exceptional testing, and report only replay-confirmed Bug Oracle findings. Preserve evidence and adapt future work as each result is learned."

-- `_build_goal`
unfoldable pub build_goal : Option String → GoalContract
build_goal focus = record {
  mission = mission;
  focus = focus;
  success_criteria =
      record {
        criterion_id = "goal_1";
        description = "Relevant testable operations have reproducible happy-path evidence.";
      }
      ∷ record {
        criterion_id = "goal_2";
        description = "Worthwhile exceptional behavior has been tested or left explicit.";
      }
      ∷ record {
        criterion_id = "goal_3";
        description = "Only replay-confirmed unexpected responses are reported as Bugs.";
      }
      ∷ [];
}

-- How one Task Executor root ends: with a structured result, as a lifecycle failure of its root, with
-- another `RuntimeError` (its text and the name of its class), or with an exception that no handler
-- of the loop takes.
pub data Execution : Type 0 where
  result : TaskExecutionResult → Execution
  lifecycle_error : String → String → Execution
  runtime_error : String → String → Execution
  uncaught : Execution

-- One round: `_run_orchestrator` fails, or returns a decision.
pub data Turn : Type 0 where
  orchestrator_failed : Turn
  decided : OrchestratorDecision → Execution → Turn

pub data RunOutcome : Type 0 where
  finished : OrchestrationResult → RunOutcome
  raised : RunOutcome
  unfinished : TaskLedger → RunOutcome

-- The Ledger after a terminal method, or `none` where it raised.
abbrev pub written : {A : Type 0} → Result (TaskLedger × A) → Option TaskLedger
written (ok (s, a)) = some s
written (err e) = none

-- The `try` block of the loop: the Attempt or the failure that ends the dispatched Task. The
-- lifecycle error has clipped its texts in its own `__init__`.
unfoldable pub record_execution : TaskRecord → Execution → TaskLedger → Option TaskLedger
record_execution task (result r) s = written (append_attempt r s)
record_execution task (lifecycle_error code message) s =
    written (append_failure task.task_id (clip 120 code) (clip 2000 message) s)
record_execution task (runtime_error text name) s = written (
    append_failure task.task_id "task_executor_lifecycle_error"
      (clip 2000 (or_else (strip text) name)) s)
record_execution task uncaught s = none

-- What one decision does to the Ledger: go on, return, or raise.
pub data Step : Type 0 where
  continue : TaskLedger → Step
  return : OrchestrationResult → Step
  raise : Step

abbrev pub returned :
    CompleteDecision → GoalContract → Result (TaskLedger × TaskLedgerSnapshot) → Step
returned d goal (err x) = raise
returned d goal (ok (s, view)) =
    return (record { summary = d.summary; unresolved = d.unresolved; goal = goal; ledger = view })

unfoldable pub run_decision : OrchestratorDecision → Execution → TaskLedger → Step
unfolding record_execution
run_decision (replan d) e s = elim (apply_replan d s) [ ok s' ↦ continue s' | err x ↦ raise ]
run_decision (dispatch_task d) e s = elim (dispatch d.task d.expected_plan_revision s) [
  | ok (s', task) ↦ elim (record_execution task e s') [ some s'' ↦ continue s'' | none ↦ raise ]
  | err x ↦ raise
]
run_decision (OrchestratorDecision.complete d) e s = returned d s.goal (complete d s)

abbrev pub is_replan : OrchestratorDecision → Bool
is_replan (replan d) = true
is_replan _ = false

abbrev pub after : Step → (TaskLedger → RunOutcome) → RunOutcome
after (continue s) rest = rest s
after (return r) rest = finished r
after raise rest = raised

-- The `while True` loop; `first` is `first_decision`.
unfoldable pub run_loop : Bool → List Turn → TaskLedger → RunOutcome
unfolding run_decision
run_loop first [] s = unfinished s
run_loop first (orchestrator_failed ∷ turns) s = raised
run_loop first (decided d e ∷ turns) s =
    if first && not (is_replan d) then raised else after (run_decision d e s) (run_loop false turns)

unfoldable pub run : Option String → List Turn → RunOutcome
unfolding build_goal run_loop
run focus turns = run_loop true turns (init (build_goal focus))
