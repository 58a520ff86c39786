-- ===== src/Orchestration/Runtime/Recovery.antt =====
-- A failed Task Executor does not end the run.

use restscope.Prelude.{
  ℕ, ◌≡◌, refl, String, true, false, some, arith, is_blank, clip, strip, or_else, is_blank-clip,
  count-clip,
}
use restscope.Orchestration.Models.{TaskRecord, AttemptRecord}
use restscope.Orchestration.Ledger.{TaskLedger}
use restscope.Orchestration.Ledger.Invariant.{IsValid}
use restscope.Orchestration.Ledger.Attempts.{Records}
use restscope.Orchestration.Ledger.Attempts.Failing.{is_text, append_failure-Records}
use restscope.Orchestration.Runtime.{Execution, record_execution}

-- A text that is cut to its limit passes the test of the Ledger unless it is blank.
clip-is_text : (n : ℕ) (s : String) → is_blank (clip n s) ≡ false → is_text n (clip n s) ≡ true
clip-is_text n s h = ground (arith, count-clip n s)

-- While its Task is active in a valid Ledger, any `RuntimeError` of a Task Executor is recorded as a
-- failed Attempt, whatever its text, and the loop goes on; it is enough that the first 2000 characters of
-- the name of its class are not blank.
pub runtime_error-Records :
    (task : TaskRecord) (text name : String) (s : TaskLedger)
    → IsValid s
    → s.active_task_id ≡ some task.task_id
    → is_blank (clip 2000 name) ≡ false
    → (t : TaskLedger) × (a : AttemptRecord) × (record_execution task
          (Execution.runtime_error text name)
          s
        ≡ some t)
      × Records s a t
      × (a.failure_message ≡ some (clip 2000 (or_else (strip text) name)))
unfolding record_execution is_blank
runtime_error-Records task text name s v active visible =
    let (t, a, e, done, _, _, message) =
      append_failure-Records task.task_id "task_executor_lifecycle_error"
        (clip 2000 (or_else (strip text) name)) s v active refl
        (clip-is_text 2000 _ (is_blank-clip 1999 text name visible)) in
    (t, a, rw e refl, done, message)
