-- ===== src/Orchestration/Ledger/Attempts/Failing.antt =====
-- `append_failure`: what a failure of a Task records, and when it is accepted.
use Prim.Native.String.{count}
use restscope.Prelude.{
  ℕ, ◌+◌, ◌≡◌, refl, subst, String, Bool, true, not, ◌||◌, none, some, length, is_blank, ltb,
  numbered, arith, inl, inr,
}
use restscope.Orchestration.Models.{
  TaskRecord, AttemptRecord, AttemptOutcome, require_result_or_failure_payload,
}
use restscope.Orchestration.Ledger.{Result-cases, ok, TaskLedger}
use restscope.Orchestration.Ledger.Execution.{require_active_task, append_failure}
use restscope.Orchestration.Ledger.Invariant.{IsValid}
use restscope.Orchestration.Ledger.Attempts.{
  Records, Fits, require_active_task-eq-ok, record_attempt-Records, active-of_required,
}

abbrev failure_attempt : String → String → TaskLedger → TaskRecord → AttemptRecord
failure_attempt code message s task = record {
  attempt_id = numbered "attempt_" (length s.attempts + 1);
  task_id = task.task_id;
  plan_revision = task.plan_revision;
  outcome = AttemptOutcome.failed;
  result = none;
  failure_code = some code;
  failure_message = some message;
}

failure_attempt-Fits :
    (code message : String) (s : TaskLedger) (task : TaskRecord)
    → Fits s task (failure_attempt code message s task)
unfolding require_result_or_failure_payload
failure_attempt-Fits code message s task = record {
  attempt = refl;
  names = refl;
  revision = refl;
  payload = refl;
}

-- The test of the failure texts: visible, and at most so many characters.
abbrev pub is_text : ℕ → String → Bool
is_text limit x = not (is_blank x || ltb limit (count x))

-- While a Task is active, a failure with a visible code of at most 120 and a visible message of at most
-- 2000 characters is always recorded: as the next Attempt, failed, with that code and message. The
-- Ledger stays valid and no Task is active any more.
pub append_failure-Records :
    (id code message : String) (s : TaskLedger)
    → IsValid s
    → s.active_task_id ≡ some id
    → is_text 120 code ≡ true
    → is_text 2000 message ≡ true
    → (t : TaskLedger) × (a : AttemptRecord) × (append_failure id code message s ≡ ok (t, a))
      × Records s a t
      × (a.outcome ≡ AttemptOutcome.failed)
      × (a.failure_code ≡ some code)
      × (a.failure_message ≡ some message)
unfolding append_failure
append_failure-Records id code message s v active good_code good_message =
    let (task, required) = require_active_task-eq-ok s id v active in
    let (t, e, done) =
      record_attempt-Records s id v active task (failure_attempt code message s task) required
        (failure_attempt-Fits code message s task) in
    (t, failure_attempt code message s task, ground (arith, required, e), done, refl, refl, refl)

-- What the guards of an accepted `append_failure` have established.
append_failure-accepted :
    (id code message : String) (s t : TaskLedger) (a : AttemptRecord)
    → append_failure id code message s ≡ ok (t, a)
    → (s.active_task_id ≡ some id) × (is_text 120 code ≡ true) × (is_text 2000 message ≡ true)
unfolding append_failure
append_failure-accepted id code message s t a h = elim (Result-cases (require_active_task id s)) [
  | inl (task, e) ↦ (active-of_required id s task e, ground arith, ground arith)
  | inr (x, e) ↦ absurd (ground arith)
]

-- Whenever a failure is accepted it is recorded as above.
pub append_failure-accepted-Records :
    (id code message : String) (s t : TaskLedger) (a : AttemptRecord)
    → IsValid s
    → append_failure id code message s ≡ ok (t, a)
    → Records s a t
append_failure-accepted-Records id code message s t a v h =
    let (active, c, m) = append_failure-accepted id code message s t a h in
    let (t', a', e, done, _, _, _) = append_failure-Records id code message s v active c m in
    let same : t' ≡ t = ground arith in
    let made : a' ≡ a = ground arith in
    subst (λ x. Records s a x) same (subst (λ x. Records s x t') made done)
