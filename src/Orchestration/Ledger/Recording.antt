-- ===== src/Orchestration/Ledger/Recording.antt =====
-- `_require_active_task` and `_replace_task` at the active Task of a valid Ledger: they find it, and
-- change no other.
use restscope.Prelude.{
  ℕ, suc, ◌+◌, ◌≡◌, ◌≢◌, ap, sym, ◌∙◌, subst, String, true, none, some, List, [], ◌∷◌, ◌++◌, find,
  All, length, numbered, numbered-injective, arith, inl, inr, list_eq_refl, option_eq_refl, ◌==◌,
  eq_iff, eq_refl, Bool-cases,
}
use restscope.Orchestration.Models.{TaskCriterion, TaskStatus, TaskRecord, AttemptRecord}
use restscope.Orchestration.Ledger.{ok}
use restscope.Orchestration.Ledger.Execution.{criterion_eq, status_eq, task_eq, replace_task}
use restscope.Orchestration.Ledger.Invariant.{IsRecorded, IsAligned, IsPlanned}

-- Behind the recorded Tasks stands the active one, and its identity finds it.
active-find :
    (n : ℕ) (id : String) (ts : List TaskRecord) (as' : List AttemptRecord)
    → IsAligned n (some id) ts as'
    → id ≡ numbered "task_" (n + length as')
active-find n id [] [] h = absurd h
active-find n id (t ∷ []) [] h = rw (← h.1) (h.0 ∙ ap (numbered "task_") (omega arith))
active-find n id (t ∷ u ∷ ts) [] h = absurd h
active-find n id [] (a ∷ as') h = absurd h
active-find n id (t ∷ ts) (a ∷ as') h =
    active-find (suc n) id ts as' h.1 ∙ ap (numbered "task_") (omega arith)

-- The identity of a recorded Task is not that of the active one.
recorded-ne-active :
    (n : ℕ) (id : String) (t : TaskRecord) (ts : List TaskRecord) (as' : List AttemptRecord)
    → t.task_id ≡ numbered "task_" n
    → IsAligned (suc n) (some id) ts as'
    → t.task_id ≢ id
recorded-ne-active n id t ts as' e h same =
    let k : n ≡ suc n + length as' =
      numbered-injective "task_" _ _ (sym e ∙ same ∙ active-find (suc n) id ts as' h) in
    absurd (omega arith)

criterion_eq_refl : (c : TaskCriterion) → criterion_eq c c ≡ true
unfolding criterion_eq
criterion_eq_refl c = rw (eq_refl c.criterion_id, eq_refl c.description)

status_eq_refl : (x : TaskStatus) → status_eq x x ≡ true
unfolding status_eq
status_eq_refl x = ground arith

task_eq_refl : (t : TaskRecord) → task_eq t t ≡ true
unfolding task_eq
task_eq_refl t = ground (
  arith,
  eq_refl t.task_id,
  eq_refl t.milestone_id,
  eq_refl t.objective,
  eq_refl t.purpose,
  list_eq_refl criterion_eq criterion_eq_refl t.success_criteria,
  list_eq_refl ◌==◌ eq_refl t.related_attempt_ids,
  option_eq_refl ◌==◌ eq_refl t.retry_reason,
  status_eq_refl t.status,
)

task_id-of_eq : (a b : TaskRecord) → task_eq a b ≡ true → a.task_id ≡ b.task_id
unfolding task_eq
task_id-of_eq a b h = ground (arith, eq_iff a.task_id b.task_id)

-- The active Task is found by its identity, and giving it a status touches no other Task.
pub record IsFinished (n : ℕ) (id : String) (ts : List TaskRecord) (as' : List AttemptRecord)
    (x : TaskStatus) : Type 0 where
  pub task : TaskRecord
  pub found : find (λ t. t.task_id == id) ts ≡ some task
  pub identity : task.task_id ≡ id
  pub number : task.task_id ≡ numbered "task_" (n + length as')
  pub tasks : List TaskRecord
  pub replaced : replace_task task x ts ≡ ok tasks
  pub aligned :
      (a : AttemptRecord)
      → IsRecorded (n + length as') (record task { status = x }) a
      → IsAligned n none tasks (as' ++ a ∷ [])
  pub planned :
      (known : List String) (r : ℕ) → All (IsPlanned known r) ts → All (IsPlanned known r) tasks

found-here :
    (id : String) (t : TaskRecord) (ts : List TaskRecord)
    → t.task_id ≡ id
    → find (λ x. x.task_id == id) (t ∷ ts) ≡ some t
found-here id t ts h = ground (arith, eq_iff t.task_id id)

found-later :
    (id : String) (t u : TaskRecord) (ts : List TaskRecord)
    → t.task_id ≢ id
    → find (λ x. x.task_id == id) ts ≡ some u
    → find (λ x. x.task_id == id) (t ∷ ts) ≡ some u
found-later id t u ts ne h = ground (arith, eq_iff t.task_id id)

replaced-here :
    (t : TaskRecord) (x : TaskStatus)
    → replace_task t x (t ∷ []) ≡ ok (record t { status = x } ∷ [])
unfolding replace_task
replaced-here t x = rw (task_eq_refl t)

replaced-later :
    (t u : TaskRecord) (x : TaskStatus) (ts us : List TaskRecord)
    → t.task_id ≢ u.task_id
    → replace_task u x ts ≡ ok us
    → replace_task u x (t ∷ ts) ≡ ok (t ∷ us)
unfolding replace_task
replaced-later t u x ts us ne h = elim (Bool-cases (task_eq t u)) [
  | inl same ↦ absurd (ne (task_id-of_eq t u same))
  | inr differ ↦ rw (differ, h)
]

IsFinished-here :
    (n : ℕ) (id : String) (t : TaskRecord) (x : TaskStatus)
    → IsAligned n (some id) (t ∷ []) []
    → IsFinished n id (t ∷ []) [] x
IsFinished-here n id t x h = record {
  task = t;
  found = found-here id t [] h.1;
  identity = h.1;
  number = h.0 ∙ ap (numbered "task_") (omega arith);
  tasks = record t { status = x } ∷ [];
  replaced = replaced-here t x;
  aligned = λ a r. (subst (λ k. IsRecorded k (record t { status = x }) a) (omega arith) r, tt);
  planned = λ known r p. p;
}

IsFinished-later :
    (n : ℕ) (id : String) (t : TaskRecord) (ts : List TaskRecord) (a : AttemptRecord)
    (as' : List AttemptRecord) (x : TaskStatus)
    → IsRecorded n t a
    → t.task_id ≢ id
    → IsFinished (suc n) id ts as' x
    → IsFinished n id (t ∷ ts) (a ∷ as') x
IsFinished-later n id t ts a as' x first other rest = record {
  task = rest.task;
  found = found-later id t rest.task ts other rest.found;
  identity = rest.identity;
  number = rest.number ∙ ap (numbered "task_") (omega arith);
  tasks = t ∷ rest.tasks;
  replaced =
      replaced-later t rest.task x ts rest.tasks (λ e. other (e ∙ rest.identity)) rest.replaced;
  aligned = λ b r. (
    first,
    rest.aligned b (subst (λ k. IsRecorded k (record rest.task { status = x }) b) (omega arith) r),
  );
  planned = λ known r p. (p.0, rest.planned known r p.1);
}

pub active-IsFinished :
    (n : ℕ) (id : String) (ts : List TaskRecord) (as' : List AttemptRecord) (x : TaskStatus)
    → IsAligned n (some id) ts as'
    → IsFinished n id ts as' x
active-IsFinished n id [] [] x h = absurd h
active-IsFinished n id (t ∷ []) [] x h = IsFinished-here n id t x h
active-IsFinished n id (t ∷ u ∷ ts) [] x h = absurd h
active-IsFinished n id [] (a ∷ as') x h = absurd h
active-IsFinished n id (t ∷ ts) (a ∷ as') x h =
    IsFinished-later n id t ts a as' x h.0 (recorded-ne-active n id t ts as' h.0.task h.1)
      (active-IsFinished (suc n) id ts as' x h.1)
