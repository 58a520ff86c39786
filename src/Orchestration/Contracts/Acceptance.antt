-- ===== src/Orchestration/Contracts/Acceptance.antt =====
-- A Task execution result that its contract accepts is accepted by the Ledger too.
use restscope.Prelude.{◌≡◌, [], arith, eq_iff, subst, sym}
use restscope.Orchestration.Models.{TaskExecutionResult, TaskRecord}
use restscope.Orchestration.Ledger.{ok, TaskLedger}
use restscope.Orchestration.Ledger.Execution.{require_active_task, append_attempt, exactly_once}
use restscope.Orchestration.Ledger.Invariant.{IsValid}
use restscope.Orchestration.Ledger.Attempts.{
  Records, IsReported, result_attempt, append_attempt-accepted,
}
use restscope.Orchestration.Contracts.{validate_task_execution_output, task_aliases}

-- What the contract has established of a result without an error.
accepted-IsReported :
    (result : TaskExecutionResult) (s : TaskLedger) (task : TaskRecord)
    → require_active_task task.task_id s ≡ ok task
    → validate_task_execution_output (task_aliases task) result ≡ []
    → IsReported result s task
unfolding validate_task_execution_output exactly_once
accepted-IsReported result s task active h =
    let same : result.task_id ≡ task.task_id = ground (arith, eq_iff result.task_id task.task_id) in
    record {
      active = subst (λ id. require_active_task id s ≡ ok task) (sym same) active;
      once = ground arith;
      met = ground arith;
    }

-- A result that the contract of the active Task accepts never makes a valid Ledger raise: it is
-- recorded as the next Attempt, and the Ledger stays valid and becomes idle.
pub validated-Records :
    (result : TaskExecutionResult) (s : TaskLedger) (task : TaskRecord)
    → IsValid s
    → require_active_task task.task_id s ≡ ok task
    → validate_task_execution_output (task_aliases task) result ≡ []
    → (t : TaskLedger) × (append_attempt result s ≡ ok (t, result_attempt result s task))
      × Records s (result_attempt result s task) t
validated-Records result s task v active h =
    append_attempt-accepted result s task v (accepted-IsReported result s task active h)
