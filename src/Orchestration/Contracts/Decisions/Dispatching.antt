-- ===== src/Orchestration/Contracts/Decisions/Dispatching.antt =====
-- A dispatch that the contract of an Orchestrator decision accepts is accepted by the Ledger too, but
-- for an unchanged retry.
use restscope.Prelude.{
  ℕ, suc, ◌≤◌, ◌≡◌, refl, sym, String, true, false, some, none, List, [], ◌∷◌, ◌++◌, keep, arith,
  ◌∙◌, ◌||◌, All, any, find, contains, subset, numbered, numbered-injective, Bool-cases, inl, inr,
  ◌==◌, eq_iff,
}
use restscope.Prelude.Identities.{starts_with, starts_with-apart}
use restscope.Orchestration.Models.{
  DispatchTaskDecision, OrchestratorDecision, MilestoneRecord, AttemptRecord, is_pending,
  is_failed_task,
}
use restscope.Orchestration.Ledger.{ok, TaskLedger, goal_ids, milestone_ids, attempt_ids}
use restscope.Orchestration.Ledger.Execution.{
  dispatch, new_task, find_milestone, is_unchanged_retry,
}
use restscope.Orchestration.Ledger.Invariant.{IsValid, IsNumbered, IsCurrent}
use restscope.Orchestration.Ledger.Dispatching.{IsDispatched-dispatch}
use restscope.Orchestration.Contracts.Decisions.{
  validate_orchestrator_output, decision_errors, orchestrator_aliases, offered_ids, last_items,
}
use restscope.Orchestration.Contracts.Decisions.Offered.{
  HasPrefix, contains-LacksPrefix, All-implied, pending-HasPrefix, recent-HasPrefix,
}
use restscope.Orchestration.Contracts.Decisions.Completing.{validated-current}

contains-or :
    (id : String) (xs ys : List String) → contains id (xs ++ ys) ≡ contains id xs || contains id ys
contains-or id [] ys = refl
contains-or id (x ∷ xs) ys = ground (arith, contains-or id xs ys)

-- A pending Milestone's number is one of those that are given.
pending-later :
    (n : ℕ) (id : String) (ms : List MilestoneRecord)
    → IsNumbered "milestone_" n (milestone_ids ms)
    → contains id (milestone_ids (keep (λ m. is_pending m.status) ms)) ≡ true
    → (k : ℕ) × (n ≤ k) × (id ≡ numbered "milestone_" k)
pending-later n id [] h e = absurd (ground arith)
pending-later n id (m ∷ ms) h e = elim (Bool-cases (id == m.milestone_id)) [
  | inl same ↦ (n, omega arith, (eq_iff id m.milestone_id).0 same ∙ h.0)
  | inr other ↦
      let (k, above, is) = pending-later (suc n) id ms h.1 (ground arith) in (k, omega arith, is)
]

-- The Milestone that is found under the identity of a pending one is pending, in the current plan.
find-pending :
    (n revision : ℕ) (id : String) (ms : List MilestoneRecord)
    → IsNumbered "milestone_" n (milestone_ids ms)
    → All (IsCurrent revision) ms
    → contains id (milestone_ids (keep (λ m. is_pending m.status) ms)) ≡ true
    → (m : MilestoneRecord) × (find (λ x. x.milestone_id == id) ms ≡ some m)
      × (is_pending m.status ≡ true)
      × (m.plan_revision ≡ revision)
find-pending n revision id [] h c e = absurd (ground arith)
find-pending n revision id (m ∷ ms) h c e = elim (Bool-cases (m.milestone_id == id)) [
  | inl same ↦ elim (Bool-cases (is_pending m.status)) [
    | inl pending ↦ (m, ground arith, pending, c.0.1 pending)
    | inr done ↦
        let (k, above, is) = pending-later (suc n) id ms h.1 (ground arith) in
        let equal : n ≡ k =
          numbered-injective "milestone_" n k (sym h.0 ∙ (eq_iff m.milestone_id id).0 same ∙ is) in
        absurd (omega arith)
  ]
  | inr other ↦
      let (found, is, pending, current) =
        find-pending (suc n) revision id ms h.1 c.1
          (ground (arith, eq_iff m.milestone_id id, eq_iff id m.milestone_id)) in
      (found, ground arith, pending, current)
]

contains-last_items :
    (n : ℕ) (id : String) (as' : List AttemptRecord)
    → contains id (attempt_ids (last_items n as')) ≡ true
    → contains id (attempt_ids as') ≡ true
unfolding last_items
contains-last_items n id [] e = e
contains-last_items n id (a ∷ as') e = ground (arith, contains-last_items n id as')

-- A Milestone's identity that is offered is that of a pending Milestone.
offered-pending :
    (id : String) (s : TaskLedger)
    → IsValid s
    → HasPrefix "goal_" (goal_ids s.goal.success_criteria)
    → starts_with "milestone_" id ≡ true
    → contains id (offered_ids s) ≡ true
    → contains id (milestone_ids (keep (λ m. is_pending m.status) s.milestones)) ≡ true
unfolding offered_ids
offered-pending id s v goals is offered =
    let pending = milestone_ids (keep (λ m. is_pending m.status) s.milestones) in
    let recent = attempt_ids (last_items 20 s.attempts) in
    let no_goal =
      contains-LacksPrefix "milestone_" id (goal_ids s.goal.success_criteria) is
        (All-implied (λ x h. starts_with-apart "m" "g" "ilestone_" "oal_" x refl h) _ goals) in
    let no_attempt = contains-LacksPrefix "milestone_" id recent is (
      All-implied (λ x h. starts_with-apart "m" "a" "ilestone_" "ttempt_" x refl h) _
        (recent-HasPrefix s v)) in
    ground (
      arith,
      no_goal,
      no_attempt,
      contains-or id (goal_ids s.goal.success_criteria) (pending ++ recent),
      contains-or id pending recent,
      offered,
    )

-- An Attempt's identity that is offered is that of an Attempt.
offered-attempt :
    (id : String) (s : TaskLedger)
    → IsValid s
    → HasPrefix "goal_" (goal_ids s.goal.success_criteria)
    → starts_with "attempt_" id ≡ true
    → contains id (offered_ids s) ≡ true
    → contains id (attempt_ids s.attempts) ≡ true
unfolding offered_ids
offered-attempt id s v goals is offered =
    let pending = milestone_ids (keep (λ m. is_pending m.status) s.milestones) in
    let recent = attempt_ids (last_items 20 s.attempts) in
    let no_goal =
      contains-LacksPrefix "attempt_" id (goal_ids s.goal.success_criteria) is
        (All-implied (λ x h. starts_with-apart "a" "g" "ttempt_" "oal_" x refl h) _ goals) in
    let no_milestone = contains-LacksPrefix "attempt_" id pending is (
      All-implied (λ x h. starts_with-apart "a" "m" "ttempt_" "ilestone_" x refl h) _
        (pending-HasPrefix s v)) in
    contains-last_items 20 id s.attempts (
      ground (
        arith,
        no_goal,
        no_milestone,
        contains-or id (goal_ids s.goal.success_criteria) (pending ++ recent),
        contains-or id pending recent,
        offered,
      ))

offered-attempts :
    (ids : List String) (s : TaskLedger)
    → IsValid s
    → HasPrefix "goal_" (goal_ids s.goal.success_criteria)
    → HasPrefix "attempt_" ids
    → subset ids (offered_ids s) ≡ true
    → subset ids (attempt_ids s.attempts) ≡ true
offered-attempts [] s v goals are offered = refl
offered-attempts (x ∷ xs) s v goals are offered =
    let first = offered-attempt x s v goals are.0 (ground arith) in
    let later = offered-attempts xs s v goals are.1 (ground arith) in ground (arith, first, later)

-- A dispatch that the contract accepts on what a valid Ledger without an active Task offers never
-- makes the Ledger raise, if the identities of Goal criteria, of its Milestone and of its related
-- Attempts have their prefixes, and it is no unchanged retry: its Task becomes the active one.
pub validated-dispatches :
    (d : DispatchTaskDecision) (s : TaskLedger)
    → IsValid s
    → s.active_task_id ≡ none
    → HasPrefix "goal_" (goal_ids s.goal.success_criteria)
    → starts_with "milestone_" d.task.milestone_id ≡ true
    → HasPrefix "attempt_" d.task.related_attempt_ids
    → any (is_unchanged_retry d.task s.attempts) (keep (λ u. is_failed_task u.status) s.tasks)
      ≡ false
    → validate_orchestrator_output (orchestrator_aliases s) (OrchestratorDecision.dispatch_task d)
      ≡ []
    → dispatch d.task d.expected_plan_revision s
      ≡ ok (
        record s {
          tasks = s.tasks ++ new_task d.task s ∷ [];
          active_task_id = some (new_task d.task s).task_id;
        },
        new_task d.task s,
      )
unfolding decision_errors find_milestone
validated-dispatches d s v idle goals is are changed h =
    let (current, errors) = validated-current s (OrchestratorDecision.dispatch_task d) h in
    let pending = offered-pending d.task.milestone_id s v goals is (ground (arith, errors)) in
    let (m, found, open', here) =
      find-pending 1 s.plan_revision d.task.milestone_id s.milestones v.milestones v.pending
        pending in
    IsDispatched-dispatch d.task d.expected_plan_revision s _ _ (record {
      current = current;
      idle = idle;
      milestone = (m, ground (arith, found), open', here);
      related = offered-attempts d.task.related_attempt_ids s v goals are (ground (arith, errors));
      changed = changed;
      created = refl;
      result = refl;
    })
