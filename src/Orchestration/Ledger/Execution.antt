-- ===== src/Orchestration/Ledger/Execution.antt =====
-- The methods of `TaskLedger` that dispatch a Task, record its Attempt and complete the run.
use Prim.Native.String.{count}
use restscope.Prelude.{
  ℕ, ◌+◌, String, Bool, true, false, ◌&&◌, ◌||◌, not, none, some, List, [], ◌∷◌, ◌++◌, any, keep,
  find, length, is_none, is_some, unique, subset, same_set, contains, numbered, is_blank, list_eq,
  option_eq, eqb, ltb, ◌==◌, if◌then◌else◌,
}
use restscope.Orchestration.Models.{
  MilestoneRecord, TaskCriterion, TaskProposal, CompleteDecision, TaskExecutionResult, TaskStatus,
  TaskRecord, AttemptOutcome, AttemptRecord, RunStatus, TaskLedgerSnapshot, is_met, is_failed,
  is_failed_task, is_pending, is_completed, to_attempt_outcome, to_task_status,
  require_result_or_failure_payload,
}
use restscope.Orchestration.Ledger.{
  Result, ok, err, ◌>>=◌, ◌>>◌, raise_if, or_raise, executor_active, not_pending_milestone,
  unknown_attempt, criteria_mismatch, criterion_not_met, bad_failure_code, bad_failure_message,
  no_plan, not_active_task, stop_iteration, unknown_milestone, not_in_list, unchanged_retry,
  invalid_attempt, TaskLedger, attempt_ids, criterion_ids, verdict_ids, goal_ids, goal_verdict_ids,
  require_current_revision,
}

-- `_find_milestone`
unfoldable pub find_milestone : String → TaskLedger → Result MilestoneRecord
find_milestone id s = or_raise (find (λ m. m.milestone_id == id) s.milestones) unknown_milestone

unfoldable pub criterion_eq : TaskCriterion → TaskCriterion → Bool
criterion_eq a b = a.criterion_id == b.criterion_id && a.description == b.description

-- `same_work`
unfoldable pub same_work : TaskRecord → TaskProposal → Bool
unfolding criterion_eq
same_work t p =
    t.objective == p.objective
    && t.purpose == p.purpose
    && list_eq criterion_eq t.success_criteria p.success_criteria

-- `failed_attempt_ids`
unfoldable pub failed_attempt_ids : TaskRecord → List AttemptRecord → List String
failed_attempt_ids t attempts =
    attempt_ids (keep (λ a. a.task_id == t.task_id && is_failed a.outcome) attempts)

-- Whether one failed Task forbids the proposal.
unfoldable pub is_unchanged_retry : TaskProposal → List AttemptRecord → TaskRecord → Bool
unfolding same_work failed_attempt_ids
is_unchanged_retry p attempts t =
    same_work t p
    && (is_none p.retry_reason
        || not (any (λ id. contains id p.related_attempt_ids) (failed_attempt_ids t attempts)))

-- `_reject_unchanged_failed_retry`
unfoldable pub reject_unchanged_failed_retry : TaskProposal → TaskLedger → Result (Unit {0})
unfolding is_unchanged_retry
reject_unchanged_failed_retry p s =
    raise_if (any (is_unchanged_retry p s.attempts) (keep (λ t. is_failed_task t.status) s.tasks))
      unchanged_retry

-- The Task that `dispatch` creates.
unfoldable pub new_task : TaskProposal → TaskLedger → TaskRecord
new_task p s = record {
  task_id = numbered "task_" (length s.tasks + 1);
  milestone_id = p.milestone_id;
  plan_revision = s.plan_revision;
  objective = p.objective;
  purpose = p.purpose;
  success_criteria = p.success_criteria;
  related_attempt_ids = p.related_attempt_ids;
  retry_reason = p.retry_reason;
  status = TaskStatus.running;
}

unfoldable pub dispatch : TaskProposal → ℕ → TaskLedger → Result (TaskLedger × TaskRecord)
unfolding require_current_revision find_milestone reject_unchanged_failed_retry new_task
dispatch p expected_revision s = do
  require_current_revision expected_revision s
  raise_if (is_some s.active_task_id) executor_active
  milestone ← find_milestone p.milestone_id s
  raise_if (not (is_pending milestone.status) || not (eqb milestone.plan_revision s.plan_revision))
      not_pending_milestone
  raise_if (not (subset p.related_attempt_ids (attempt_ids s.attempts))) unknown_attempt
  reject_unchanged_failed_retry p s
  let task = new_task p s
  ok (record s { tasks = s.tasks ++ task ∷ []; active_task_id = some task.task_id }, task)

-- `_require_active_task`
unfoldable pub require_active_task : String → TaskLedger → Result TaskRecord
require_active_task id s = do
  raise_if (not (option_eq ◌==◌ s.active_task_id (some id))) not_active_task
  or_raise (find (λ t. t.task_id == id) s.tasks) stop_iteration

unfoldable pub status_eq : TaskStatus → TaskStatus → Bool
status_eq TaskStatus.running TaskStatus.running = true
status_eq TaskStatus.completed TaskStatus.completed = true
status_eq TaskStatus.partial TaskStatus.partial = true
status_eq TaskStatus.blocked TaskStatus.blocked = true
status_eq TaskStatus.failed TaskStatus.failed = true
status_eq _ _ = false

-- `==` of two frozen Tasks, field by field.
unfoldable pub task_eq : TaskRecord → TaskRecord → Bool
unfolding criterion_eq status_eq
task_eq a b =
    a.task_id == b.task_id
    && a.milestone_id == b.milestone_id
    && eqb a.plan_revision b.plan_revision
    && a.objective == b.objective
    && a.purpose == b.purpose
    && list_eq criterion_eq a.success_criteria b.success_criteria
    && list_eq ◌==◌ a.related_attempt_ids b.related_attempt_ids
    && option_eq ◌==◌ a.retry_reason b.retry_reason
    && status_eq a.status b.status

-- `_replace_task`, on the list: the first equal Task gets the new status.
unfoldable pub replace_task : TaskRecord → TaskStatus → List TaskRecord → Result (List TaskRecord)
unfolding task_eq
replace_task task status [] = err not_in_list
replace_task task status (t ∷ ts) =
    let rest = replace_task task status ts in
    if task_eq t task
    then ok (record task { status = status } ∷ ts)
    else (do later ← rest; ok (t ∷ later))

-- The end that both terminal methods share: the validated Attempt is appended, the Task gets its
-- outcome as status, and no Task is active any more.
unfoldable pub record_attempt :
    TaskRecord → AttemptRecord → TaskLedger → Result (TaskLedger × AttemptRecord)
record_attempt task attempt s = do
  raise_if (not (require_result_or_failure_payload attempt)) invalid_attempt
  tasks ← replace_task task (to_task_status attempt.outcome) s.tasks
  ok (
    record s { attempts = s.attempts ++ attempt ∷ []; tasks = tasks; active_task_id = none },
    attempt,
  )

-- Every expected identity is reported exactly once.
unfoldable pub exactly_once : List String → List String → Bool
exactly_once expected actual = unique actual && same_set actual expected

unfoldable pub append_attempt :
    TaskExecutionResult → TaskLedger → Result (TaskLedger × AttemptRecord)
append_attempt result s = do
  task ← require_active_task result.task_id s
  raise_if (not (exactly_once (criterion_ids task.success_criteria) (verdict_ids result.criteria)))
      criteria_mismatch
  raise_if (is_completed result.outcome && any (λ c. not (is_met c.status)) result.criteria)
      criterion_not_met
  record_attempt task
      (record {
        attempt_id = numbered "attempt_" (length s.attempts + 1);
        task_id = task.task_id;
        plan_revision = task.plan_revision;
        outcome = to_attempt_outcome result.outcome;
        result = some result;
        failure_code = none;
        failure_message = none;
      })
      s

unfoldable pub append_failure :
    String → String → String → TaskLedger → Result (TaskLedger × AttemptRecord)
append_failure task_id failure_code failure_message s = do
  task ← require_active_task task_id s
  raise_if (is_blank failure_code || ltb 120 (count failure_code)) bad_failure_code
  raise_if (is_blank failure_message || ltb 2000 (count failure_message)) bad_failure_message
  record_attempt task
      (record {
        attempt_id = numbered "attempt_" (length s.attempts + 1);
        task_id = task.task_id;
        plan_revision = task.plan_revision;
        outcome = AttemptOutcome.failed;
        result = none;
        failure_code = some failure_code;
        failure_message = some failure_message;
      })
      s

unfoldable pub snapshot : TaskLedger → TaskLedgerSnapshot
snapshot s = record {
  plan_revision = s.plan_revision;
  run_status = s.run_status;
  plan_revisions = s.plan_revisions;
  milestones = s.milestones;
  tasks = s.tasks;
  attempts = s.attempts;
}

unfoldable pub complete : CompleteDecision → TaskLedger → Result (TaskLedger × TaskLedgerSnapshot)
unfolding require_current_revision exactly_once snapshot
complete d s = do
  require_current_revision d.expected_plan_revision s
  raise_if (eqb s.plan_revision 0) no_plan
  raise_if (is_some s.active_task_id) executor_active
  raise_if
      (not (exactly_once (goal_ids s.goal.success_criteria) (goal_verdict_ids d.goal_criteria)))
      criteria_mismatch
  let finished = record s { run_status = RunStatus.completed }
  ok (finished, snapshot finished)

-- `related_attempts`
unfoldable pub related_attempts : TaskRecord → TaskLedger → List AttemptRecord
related_attempts t s = keep (λ a. contains a.attempt_id t.related_attempt_ids) s.attempts
