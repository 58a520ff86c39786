-- ===== src/Orchestration/Ledger/Completion.antt =====
-- `complete`: when it is accepted, and that it keeps the invariant.
use restscope.Prelude.{◌≡◌, ◌<◌, ◌↔◌, true, none, arith}
use restscope.Orchestration.Models.{CompleteDecision, RunStatus, TaskLedgerSnapshot}
use restscope.Orchestration.Ledger.{ok, TaskLedger, goal_ids, goal_verdict_ids}
use restscope.Orchestration.Ledger.Execution.{exactly_once, complete, snapshot}
use restscope.Orchestration.Ledger.Invariant.{IsValid}

-- What the guards of an accepted completion have established, and what it returns.
pub record IsComplete (d : CompleteDecision) (s t : TaskLedger) (seen : TaskLedgerSnapshot)
    : Type 0 where
  pub current : d.expected_plan_revision ≡ s.plan_revision
  pub planned : 0 < s.plan_revision
  pub idle : s.active_task_id ≡ none
  pub assessed :
      exactly_once (goal_ids s.goal.success_criteria) (goal_verdict_ids d.goal_criteria) ≡ true
  pub result : t ≡ record s { run_status = RunStatus.completed }
  pub view : seen ≡ snapshot t

pub complete-IsComplete :
    (d : CompleteDecision) (s t : TaskLedger) (seen : TaskLedgerSnapshot)
    → complete d s ≡ ok (t, seen)
    → IsComplete d s t seen
unfolding complete
complete-IsComplete d s t seen h = ground arith

-- A completion is accepted exactly when it names the current revision of a plan that exists, no Task is
-- active, and every Goal criterion is assessed exactly once; it returns the completed Ledger's view.
pub complete_exact :
    (d : CompleteDecision) (s t : TaskLedger) (seen : TaskLedgerSnapshot)
    → (complete d s ≡ ok (t, seen)) ↔ IsComplete d s t seen
unfolding complete
complete_exact d s t seen = (
  complete-IsComplete d s t seen,
  λ c. ground (arith, c.current, c.planned, c.idle, c.assessed, c.result, c.view),
)

pub complete-IsValid :
    (d : CompleteDecision) (s t : TaskLedger) (seen : TaskLedgerSnapshot)
    → IsValid s
    → complete d s ≡ ok (t, seen)
    → IsValid t
complete-IsValid d s t seen v h =
    let c = complete-IsComplete d s t seen h in
    rw c.result (record {
      milestones = v.milestones;
      pending = v.pending;
      revisions = v.revisions;
      planning = ground (arith, c.planned);
      aligned = v.aligned;
      planned = v.planned;
    })
