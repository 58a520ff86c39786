-- ===== src/Orchestration/Ledger/Dispatching.antt =====
-- `dispatch`: when it is accepted, and that it keeps the invariant.
use restscope.Prelude.{
  sym, ◌↔◌, ℕ, suc, ◌+◌, ◌≤◌, ◌≡◌, refl, ap, subst, String, true, false, none, some, List, [], ◌∷◌,
  ◌++◌, keep, find, All, All-append, any, length, subset, numbered, arith, ◌==◌, eq_iff, contains,
}
use restscope.Orchestration.Models.{
  TaskProposal, MilestoneRecord, MilestoneStatus, TaskStatus, TaskRecord, AttemptRecord, is_pending,
  is_failed_task,
}
use restscope.Orchestration.Ledger.{ok, TaskLedger, milestone_ids, attempt_ids}
use restscope.Orchestration.Ledger.Execution.{
  find_milestone, new_task, dispatch, is_unchanged_retry,
}
use restscope.Orchestration.Ledger.Replans.{is_pending_iff}
use restscope.Orchestration.Ledger.Replans.Guards.{subset_iff}
use restscope.Orchestration.Ledger.Dispatches.{
  IsChanged, IsTaskOf, IsChanged-iff, new_task-IsTaskOf, IsTaskOf-new_task,
}
use native.Mathlib.Nat.{le_refl}
use restscope.Orchestration.Ledger.Invariant.{IsAligned, IsCurrent, IsValid}

-- A new last Task, with the next number, becomes the active one.
dispatch-IsAligned :
    (n : ℕ) (ts : List TaskRecord) (as' : List AttemptRecord) (t : TaskRecord)
    → IsAligned n none ts as'
    → t.task_id ≡ numbered "task_" (n + length ts)
    → t.status ≡ TaskStatus.running
    → IsAligned n (some t.task_id) (ts ++ t ∷ []) as'
dispatch-IsAligned n [] [] t h e r =
    (subst (λ k. t.task_id ≡ numbered "task_" k) (omega arith) e, refl, r)
dispatch-IsAligned n [] (a ∷ as') t h e r = absurd h
dispatch-IsAligned n (u ∷ ts) [] t h e r = absurd h
dispatch-IsAligned n (u ∷ ts) (a ∷ as') t h e r = (
  h.0,
  dispatch-IsAligned (suc n) ts as' t h.1
      (subst (λ k. t.task_id ≡ numbered "task_" k) (omega arith) e) r,
)

find-milestone_id :
    (id : String) (ms : List MilestoneRecord) (m : MilestoneRecord) (r : ℕ)
    → All (IsCurrent r) ms
    → find (λ x. x.milestone_id == id) ms ≡ some m
    → (contains id (milestone_ids ms) ≡ true) × (1 ≤ m.plan_revision)
find-milestone_id id [] m r h e = cc
find-milestone_id id (x ∷ ms) m r h e =
    ground
      (arith, find-milestone_id id ms m r h.1, eq_iff x.milestone_id id, eq_iff id x.milestone_id)

-- What the guards of an accepted dispatch have established.
pub record IsDispatched (p : TaskProposal) (revision : ℕ) (s t : TaskLedger) (task : TaskRecord)
    : Type 0 where
  pub current : revision ≡ s.plan_revision
  pub idle : s.active_task_id ≡ none
  pub milestone :
      (m : MilestoneRecord) × (find_milestone p.milestone_id s ≡ ok m)
      × (is_pending m.status ≡ true)
      × (m.plan_revision ≡ s.plan_revision)
  pub related : subset p.related_attempt_ids (attempt_ids s.attempts) ≡ true
  pub changed :
      any (is_unchanged_retry p s.attempts) (keep (λ u. is_failed_task u.status) s.tasks) ≡ false
  pub created : task ≡ new_task p s
  pub result : t ≡ record s { tasks = s.tasks ++ task ∷ []; active_task_id = some task.task_id }

pub dispatch-IsDispatched :
    (p : TaskProposal) (revision : ℕ) (s t : TaskLedger) (task : TaskRecord)
    → dispatch p revision s ≡ ok (t, task)
    → IsDispatched p revision s t task
unfolding dispatch
dispatch-IsDispatched p revision s t task h = ground arith

pub IsDispatched-dispatch :
    (p : TaskProposal) (revision : ℕ) (s t : TaskLedger) (task : TaskRecord)
    → IsDispatched p revision s t task
    → dispatch p revision s ≡ ok (t, task)
unfolding dispatch
IsDispatched-dispatch p revision s t task d =
    let (m, found, pending, here) = d.milestone in
    ground
      (arith, d.current, d.idle, found, pending, here, d.related, d.changed, d.created, d.result)

-- What a dispatch needs of the Ledger, and the Ledger and the Task that it leaves.
pub record IsDispatch (p : TaskProposal) (revision : ℕ) (s t : TaskLedger) (task : TaskRecord)
    : Type 0 where
  pub current : revision ≡ s.plan_revision
  pub idle : s.active_task_id ≡ none
  pub milestone :
      (m : MilestoneRecord) × (find (λ x. x.milestone_id == p.milestone_id) s.milestones ≡ some m)
      × (m.status ≡ MilestoneStatus.pending)
      × (m.plan_revision ≡ s.plan_revision)
  pub related : All (λ id. contains id (attempt_ids s.attempts) ≡ true) p.related_attempt_ids
  pub changed : All (IsChanged p s.attempts) s.tasks
  pub created : IsTaskOf p s task
  pub tasks : t.tasks ≡ s.tasks ++ task ∷ []
  pub active : t.active_task_id ≡ some task.task_id
  pub goal : t.goal ≡ s.goal
  pub plan : t.plan_revision ≡ s.plan_revision
  pub status : t.run_status ≡ s.run_status
  pub revisions : t.plan_revisions ≡ s.plan_revisions
  pub milestones : t.milestones ≡ s.milestones
  pub attempts : t.attempts ≡ s.attempts

IsDispatched-IsDispatch :
    (p : TaskProposal) (revision : ℕ) (s t : TaskLedger) (task : TaskRecord)
    → IsDispatched p revision s t task
    → IsDispatch p revision s t task
unfolding find_milestone
IsDispatched-IsDispatch p revision s t task d =
    let (m, found, pending, here) = d.milestone in
    record {
      current = d.current;
      idle = d.idle;
      milestone = (m, ground (arith, found), (is_pending_iff m.status).0 pending, here);
      related = (subset_iff p.related_attempt_ids (attempt_ids s.attempts)).0 d.related;
      changed = (IsChanged-iff p s.attempts s.tasks).0 d.changed;
      created = subst (IsTaskOf p s) (sym d.created) (new_task-IsTaskOf p s);
      tasks = rw d.result refl;
      active = rw d.result refl;
      goal = rw d.result refl;
      plan = rw d.result refl;
      status = rw d.result refl;
      revisions = rw d.result refl;
      milestones = rw d.result refl;
      attempts = rw d.result refl;
    }

IsDispatch-IsDispatched :
    (p : TaskProposal) (revision : ℕ) (s t : TaskLedger) (task : TaskRecord)
    → IsDispatch p revision s t task
    → IsDispatched p revision s t task
unfolding find_milestone
IsDispatch-IsDispatched p revision s t task d =
    let (m, found, pending, here) = d.milestone in
    record {
      current = d.current;
      idle = d.idle;
      milestone = (m, ground (arith, found), (is_pending_iff m.status).1 pending, here);
      related = (subset_iff p.related_attempt_ids (attempt_ids s.attempts)).1 d.related;
      changed = (IsChanged-iff p s.attempts s.tasks).1 d.changed;
      created = IsTaskOf-new_task p s task d.created;
      result = ground (
        arith, d.tasks, d.active, d.goal, d.plan, d.status, d.revisions, d.milestones, d.attempts,
      );
    }

-- A Task is dispatched exactly when the proposal is for the current revision, no Task is active, the
-- first Milestone with its identity is pending in the current plan, the related Attempts exist, and for
-- every failed Task with the same objective, purpose and criteria the proposal gives a reason and
-- relates one of its failed Attempts. The new Task has the next number, the current revision and what
-- the proposal says, and it runs; it is the last Task and the active one, and nothing else changes.
pub dispatch_exact :
    (p : TaskProposal) (revision : ℕ) (s t : TaskLedger) (task : TaskRecord)
    → (dispatch p revision s ≡ ok (t, task)) ↔ IsDispatch p revision s t task
dispatch_exact p revision s t task = (
  λ h. IsDispatched-IsDispatch p revision s t task (dispatch-IsDispatched p revision s t task h),
  λ d. IsDispatched-dispatch p revision s t task (IsDispatch-IsDispatched p revision s t task d),
)

dispatched-IsValid :
    (p : TaskProposal) (revision : ℕ) (s : TaskLedger) (task : TaskRecord)
    → IsValid s
    → s.active_task_id ≡ none
    → task ≡ new_task p s
    → (contains p.milestone_id (milestone_ids s.milestones) ≡ true) × (1 ≤ s.plan_revision)
    → IsValid (record s { tasks = s.tasks ++ task ∷ []; active_task_id = some task.task_id })
unfolding new_task
dispatched-IsValid p revision s task v idle e known = record {
  milestones = v.milestones;
  pending = v.pending;
  revisions = v.revisions;
  planning = v.planning;
  aligned =
      dispatch-IsAligned 1 s.tasks s.attempts task
        (subst (λ o. IsAligned 1 o s.tasks s.attempts) idle v.aligned)
        (rw e (ap (numbered "task_") (omega arith))) (rw e);
  planned = All-append _ s.tasks (task ∷ []) v.planned (rw e ((known.1, le_refl _, known.0), tt));
}

-- An accepted dispatch keeps the invariant.
pub dispatch-IsValid :
    (p : TaskProposal) (revision : ℕ) (s t : TaskLedger) (task : TaskRecord)
    → IsValid s
    → dispatch p revision s ≡ ok (t, task)
    → IsValid t
unfolding find_milestone
dispatch-IsValid p revision s t task v h =
    let d = dispatch-IsDispatched p revision s t task h in
    let (m, found, _, here) = d.milestone in
    let known : (contains p.milestone_id (milestone_ids s.milestones) ≡ true)
        × (1 ≤ m.plan_revision) =
      find-milestone_id p.milestone_id s.milestones m s.plan_revision v.pending (ground arith) in
    rw d.result (dispatched-IsValid p revision s task v d.idle d.created (known.0, omega arith))
