-- ===== src/Orchestration/Ledger/Dispatches.antt =====
-- What a dispatch asks for, in words of its own: `dispatch` and `_reject_unchanged_failed_retry` of
-- restscope/orchestration/ledger.py are held against these relations.
use restscope.Prelude.{
  ◌+◌, ◌≡◌, ◌≢◌, ◌↔◌, ◌⊎◌, inl, inr, refl, String, true, false, ◌&&◌, Option, none, some, List, [],
  ◌∷◌, keep, All, any, contains, length, numbered, arith, ◌==◌, eq_iff, Bool-cases, is_none,
  list_eq,
}
use restscope.Orchestration.Models.{
  TaskProposal, TaskCriterion, TaskRecord, TaskStatus, AttemptRecord, AttemptOutcome,
  is_failed_task, is_failed,
}
use restscope.Orchestration.Ledger.{TaskLedger}
use restscope.Orchestration.Ledger.Execution.{
  is_unchanged_retry, same_work, criterion_eq, failed_attempt_ids, new_task,
}

-- The Task that a proposal becomes.
pub record IsTaskOf (p : TaskProposal) (s : TaskLedger) (t : TaskRecord) : Type 0 where
  pub identity : t.task_id ≡ numbered "task_" (length s.tasks + 1)
  pub milestone : t.milestone_id ≡ p.milestone_id
  pub plan : t.plan_revision ≡ s.plan_revision
  pub objective : t.objective ≡ p.objective
  pub purpose : t.purpose ≡ p.purpose
  pub criteria : t.success_criteria ≡ p.success_criteria
  pub related : t.related_attempt_ids ≡ p.related_attempt_ids
  pub reason : t.retry_reason ≡ p.retry_reason
  pub status : t.status ≡ TaskStatus.running

pub new_task-IsTaskOf : (p : TaskProposal) (s : TaskLedger) → IsTaskOf p s (new_task p s)
unfolding new_task
new_task-IsTaskOf p s = record {
  identity = refl;
  milestone = refl;
  plan = refl;
  objective = refl;
  purpose = refl;
  criteria = refl;
  related = refl;
  reason = refl;
  status = refl;
}

pub IsTaskOf-new_task :
    (p : TaskProposal) (s : TaskLedger) (t : TaskRecord) → IsTaskOf p s t → t ≡ new_task p s
unfolding new_task
IsTaskOf-new_task p s t h = ground (
  arith, h.identity, h.milestone, h.plan, h.objective, h.purpose, h.criteria, h.related, h.reason,
  h.status,
)

-- The Task has the work of the proposal.
abbrev pub IsWorkOf : TaskProposal → TaskRecord → Type 0
IsWorkOf p t =
    (t.objective ≡ p.objective)
    × (t.purpose ≡ p.purpose)
    × (t.success_criteria ≡ p.success_criteria)

-- A failed Attempt of the Task is among the related ones.
abbrev pub IsRelated : List AttemptRecord → TaskRecord → List String → Type 0
IsRelated [] t related = ⊥
IsRelated (a ∷ as') t related =
    ((a.task_id ≡ t.task_id)
      × (a.outcome ≡ AttemptOutcome.failed)
      × (contains a.attempt_id related ≡ true))
    ⊎ IsRelated as' t related

-- If the Task failed at the work of the proposal, there is a reason for another try, and a failed Attempt
-- is related.
abbrev pub IsChanged : TaskProposal → List AttemptRecord → TaskRecord → Type 0
IsChanged p attempts t =
    t.status ≡ TaskStatus.failed
    → IsWorkOf p t
    → (p.retry_reason ≢ none) × IsRelated attempts t p.related_attempt_ids

criteria_iff : (xs ys : List TaskCriterion) → (list_eq criterion_eq xs ys ≡ true) ↔ (xs ≡ ys)
unfolding criterion_eq
criteria_iff [] [] = (λ h. refl, λ h. refl)
criteria_iff [] (y ∷ ys) = (λ h. absurd (ground arith), λ h. absurd (ground arith))
criteria_iff (x ∷ xs) [] = (λ h. absurd (ground arith), λ h. absurd (ground arith))
criteria_iff (x ∷ xs) (y ∷ ys) =
    let id = eq_iff x.criterion_id y.criterion_id in
    let description = eq_iff x.description y.description in
    (
      λ h. ground (arith, id, description, criteria_iff xs ys),
      λ h. ground (arith, id, description, criteria_iff xs ys),
    )

work_iff : (t : TaskRecord) (p : TaskProposal) → (same_work t p ≡ true) ↔ IsWorkOf p t
unfolding same_work
work_iff t p =
    let objective = eq_iff t.objective p.objective in
    let purpose = eq_iff t.purpose p.purpose in
    let criteria = criteria_iff t.success_criteria p.success_criteria in
    (
      λ h. (objective.0 (ground arith), purpose.0 (ground arith), criteria.0 (ground arith)),
      λ (a, b, c). ground (arith, objective.1 a, purpose.1 b, criteria.1 c),
    )

failed_iff : (o : AttemptOutcome) → (is_failed o ≡ true) ↔ (o ≡ AttemptOutcome.failed)
failed_iff o = (λ h. ground arith, λ h. ground arith)

failed_task_iff : (x : TaskStatus) → (is_failed_task x ≡ true) ↔ (x ≡ TaskStatus.failed)
failed_task_iff x = (λ h. ground arith, λ h. ground arith)

none_iff : (o : Option String) → (is_none o ≡ true) ↔ (o ≡ none)
none_iff none = (λ h. refl, λ h. refl)
none_iff (some x) = (λ h. absurd (ground arith), λ h. absurd (ground arith))

IsRelated-iff :
    (as' : List AttemptRecord) (t : TaskRecord) (related : List String)
    → (any (λ id. contains id related) (failed_attempt_ids t as') ≡ true) ↔ IsRelated as' t related
unfolding failed_attempt_ids
IsRelated-iff [] t related = (λ h. absurd (ground arith), λ h. absurd h)
IsRelated-iff (a ∷ as') t related =
    let rest = IsRelated-iff as' t related in
    let names = eq_iff a.task_id t.task_id in
    let failed = failed_iff a.outcome in
    elim (Bool-cases (a.task_id == t.task_id && is_failed a.outcome)) [
      | inr other ↦ (
        λ h. inr (rest.0 (ground arith)),
        λ h. elim h [
          | inl (is, f, r) ↦ absurd (ground (arith, names.1 is, failed.1 f))
          | inr later ↦ ground (arith, rest.1 later)
        ],
      )
      | inl kept ↦ (
        λ h. elim (Bool-cases (contains a.attempt_id related)) [
          | inl e ↦ inl (names.0 (ground arith), failed.0 (ground arith), e)
          | inr e ↦ inr (rest.0 (ground arith))
        ],
        λ h. elim h [
          | inl (is, f, r) ↦ ground (arith, r)
          | inr later ↦ ground (arith, rest.1 later)
        ],
      )
    ]

unchanged_iff :
    (p : TaskProposal) (as' : List AttemptRecord) (t : TaskRecord)
    → t.status ≡ TaskStatus.failed
    → (is_unchanged_retry p as' t ≡ false) ↔ IsChanged p as' t
unfolding is_unchanged_retry
unchanged_iff p as' t failed =
    let work = work_iff t p in
    let reason = none_iff p.retry_reason in
    let related = IsRelated-iff as' t p.related_attempt_ids in
    (
      λ h f w.
          (λ e. ground (arith, work.1 w, reason.1 e, h), related.0 (ground (arith, work.1 w, h))),
      λ c. elim (Bool-cases (same_work t p)) [
        | inr other ↦ ground arith
        | inl same ↦
            let (given, is_related) = c failed (work.0 same) in
            elim (Bool-cases (is_none p.retry_reason)) [
              | inl missing ↦ absurd (given (reason.0 missing))
              | inr there ↦ ground (arith, related.1 is_related)
            ]
      ],
    )

pub IsChanged-iff :
    (p : TaskProposal) (as' : List AttemptRecord) (ts : List TaskRecord)
    → (any (is_unchanged_retry p as') (keep (λ u. is_failed_task u.status) ts) ≡ false)
      ↔ All (IsChanged p as') ts
IsChanged-iff p as' [] = (λ h. tt, λ h. refl)
IsChanged-iff p as' (t ∷ ts) =
    let rest = IsChanged-iff p as' ts in
    let failed = failed_task_iff t.status in
    elim (Bool-cases (is_failed_task t.status)) [
      | inl f ↦
          let one = unchanged_iff p as' t (failed.0 f) in
          (
            λ h. (one.0 (ground arith), rest.0 (ground arith)),
            λ (first, later). ground (arith, one.1 first, rest.1 later),
          )
      | inr other ↦ (
        λ h. (λ e. absurd (ground (arith, failed.1 e)), rest.0 (ground arith)),
        λ (first, later). ground (arith, rest.1 later),
      )
    ]
