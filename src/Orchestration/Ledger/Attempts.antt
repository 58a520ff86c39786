-- ===== src/Orchestration/Ledger/Attempts.antt =====
-- `append_attempt` and `append_failure`: when they are accepted, and what they write.
pub mod Failing
use Prim.Native.String.{count}
use restscope.Prelude.{
  ℕ, ◌+◌, ◌≡◌, refl, ap, sym, ◌∙◌, subst, String, Bool, true, false, not, ◌||◌, none, some, [], ◌∷◌,
  ◌++◌, any, length, is_blank, ltb, numbered, arith, eq_iff, eq_refl, inl, inr, Option-cases,
}
use restscope.Orchestration.Models.{
  TaskExecutionResult, is_completed, is_met, TaskStatus, TaskRecord, AttemptRecord, to_task_status,
  AttemptOutcome, require_result_or_failure_payload, to_attempt_outcome,
}
use restscope.Orchestration.Ledger.{Result-cases, ok, TaskLedger, criterion_ids, verdict_ids}
use restscope.Orchestration.Ledger.Execution.{
  require_active_task, exactly_once, record_attempt, append_attempt, append_failure,
}
use restscope.Orchestration.Ledger.Invariant.{IsRecorded, IsAligned, IsValid}
use restscope.Orchestration.Ledger.Recording.{IsFinished, active-IsFinished}

-- What recording the Attempt `a` has done to the Ledger `s`.
pub record Records (s : TaskLedger) (a : AttemptRecord) (t : TaskLedger) : Type 0 where
  pub valid : IsValid t
  pub idle : t.active_task_id ≡ none
  pub attempts : t.attempts ≡ s.attempts ++ a ∷ []
  pub milestones : t.milestones ≡ s.milestones
  pub revision : t.plan_revision ≡ s.plan_revision
  pub goal : t.goal ≡ s.goal
  pub number : a.attempt_id ≡ numbered "attempt_" (length s.attempts + 1)

-- The Attempt that the source builds for the active Task.
pub record Fits (s : TaskLedger) (task : TaskRecord) (a : AttemptRecord) : Type 0 where
  pub attempt : a.attempt_id ≡ numbered "attempt_" (length s.attempts + 1)
  pub names : a.task_id ≡ task.task_id
  pub revision : a.plan_revision ≡ task.plan_revision
  pub payload : require_result_or_failure_payload a ≡ true

module _ (s : TaskLedger) (id : String) (v : IsValid s) (active : s.active_task_id ≡ some id) where
  finished : (x : TaskStatus) → IsFinished 1 id s.tasks s.attempts x
  finished x =
      active-IsFinished 1 id s.tasks s.attempts x
        (subst (λ o. IsAligned 1 o s.tasks s.attempts) active v.aligned)

  -- In a valid Ledger the identity of the active Task is always resolved.
  pub require_active_task-eq-ok : (task : TaskRecord) × (require_active_task id s ≡ ok task)
  unfolding require_active_task
  require_active_task-eq-ok =
      let f = finished TaskStatus.running in (f.task, rw (active, eq_refl id, f.found))

  Fits-IsRecorded :
      (task u : TaskRecord) (a : AttemptRecord)
      → u ≡ task
      → u.task_id ≡ numbered "task_" (1 + length s.attempts)
      → Fits s task a
      → IsRecorded (1 + length s.attempts) (record u { status = to_task_status a.outcome }) a
  Fits-IsRecorded task u a e number fits = record {
    task = number;
    attempt = fits.attempt ∙ ap (numbered "attempt_") (omega arith);
    names = fits.names ∙ ap (λ (x : TaskRecord). x.task_id) (sym e);
    revision = fits.revision ∙ ap (λ (x : TaskRecord). x.plan_revision) (sym e);
    outcome = refl;
    payload = fits.payload;
  }

  pub record_attempt-Records :
      (task : TaskRecord) (a : AttemptRecord)
      → require_active_task id s ≡ ok task
      → Fits s task a
      → (t : TaskLedger) × (record_attempt task a s ≡ ok (t, a)) × Records s a t
  unfolding record_attempt require_active_task
  record_attempt-Records task a h fits =
      let f = finished (to_task_status a.outcome) in
      let same : f.task ≡ task = ground (arith, f.found, eq_refl id) in
      let t : TaskLedger = record s {
        attempts = s.attempts ++ a ∷ [];
        tasks = f.tasks;
        active_task_id = none;
      } in
      (
        t,
        rw (← same, fits.payload, f.replaced),
        record {
          valid = record {
            milestones = v.milestones;
            pending = v.pending;
            revisions = v.revisions;
            planning = v.planning;
            aligned = f.aligned a (Fits-IsRecorded task f.task a same f.number fits);
            planned = f.planned _ _ v.planned;
          };
          idle = refl;
          attempts = refl;
          milestones = refl;
          revision = refl;
          goal = refl;
          number = fits.attempt;
        },
      )

-- What the guards of an accepted `append_attempt` have established.
pub record IsReported (result : TaskExecutionResult) (s : TaskLedger) (task : TaskRecord)
    : Type 0 where
  pub active : require_active_task result.task_id s ≡ ok task
  pub once : exactly_once (criterion_ids task.success_criteria) (verdict_ids result.criteria) ≡ true
  pub met :
      is_completed result.outcome ≡ true → any (λ c. not (is_met c.status)) result.criteria ≡ false

-- The Attempt of a Task execution result.
abbrev pub result_attempt : TaskExecutionResult → TaskLedger → TaskRecord → AttemptRecord
result_attempt result s task = record {
  attempt_id = numbered "attempt_" (length s.attempts + 1);
  task_id = task.task_id;
  plan_revision = task.plan_revision;
  outcome = to_attempt_outcome result.outcome;
  result = some result;
  failure_code = none;
  failure_message = none;
}

append_attempt-IsReported :
    (result : TaskExecutionResult) (s t : TaskLedger) (a : AttemptRecord)
    → append_attempt result s ≡ ok (t, a)
    → (task : TaskRecord) × IsReported result s task
      × (record_attempt task (result_attempt result s task) s ≡ ok (t, a))
unfolding append_attempt
append_attempt-IsReported result s t a h =
    elim (Result-cases (require_active_task result.task_id s)) [
      | inl (task, e) ↦ (task, ground arith, ground arith)
      | inr (e, x) ↦ absurd (ground arith)
    ]

-- Only the active Task can be reported on.
pub active-of_required :
    (id : String) (s : TaskLedger) (task : TaskRecord)
    → require_active_task id s ≡ ok task
    → s.active_task_id ≡ some id
unfolding require_active_task
active-of_required id s task h = elim (Option-cases s.active_task_id) [
  | inl none_active ↦ absurd (ground arith)
  | inr (x, e) ↦ ground (arith, eq_iff x id)
]

result_attempt-Fits :
    (result : TaskExecutionResult) (s : TaskLedger) (task : TaskRecord)
    → Fits s task (result_attempt result s task)
unfolding require_result_or_failure_payload
result_attempt-Fits result s task = record {
  attempt = refl;
  names = refl;
  revision = refl;
  payload = ground arith;
}

-- An accepted Task execution result is recorded as the next Attempt, with its outcome; the Ledger
-- stays valid and no Task is active any more.
pub append_attempt-Records :
    (result : TaskExecutionResult) (s t : TaskLedger) (a : AttemptRecord)
    → IsValid s
    → append_attempt result s ≡ ok (t, a)
    → Records s a t × (a.result ≡ some result) × (a.outcome ≡ to_attempt_outcome result.outcome)
append_attempt-Records result s t a v h =
    let (task, reported, written) = append_attempt-IsReported result s t a h in
    let active = active-of_required result.task_id s task reported.active in
    let (t', e, done) =
      record_attempt-Records s result.task_id v active task (result_attempt result s task)
        reported.active (result_attempt-Fits result s task) in
    let same : t' ≡ t = ground (arith, e, written) in
    let made : result_attempt result s task ≡ a = ground (arith, e, written) in
    (
      subst (λ x. Records s a x) same (subst (λ x. Records s x t') made done),
      rw (← made),
      rw (← made),
    )

-- While a Task is active, a Task execution result that names it, reports each of its criteria exactly
-- once and is completed only with all of them met is always recorded.
pub append_attempt-accepted :
    (result : TaskExecutionResult) (s : TaskLedger) (task : TaskRecord)
    → IsValid s
    → IsReported result s task
    → (t : TaskLedger) × (append_attempt result s ≡ ok (t, result_attempt result s task))
      × Records s (result_attempt result s task) t
unfolding append_attempt
append_attempt-accepted result s task v reported =
    let active = active-of_required result.task_id s task reported.active in
    let (t, e, done) =
      record_attempt-Records s result.task_id v active task (result_attempt result s task)
        reported.active (result_attempt-Fits result s task) in
    (t, ground (arith, reported.active, reported.once, reported.met, e), done)
