-- ===== src/Orchestration/Ledger/Invariant.antt =====
-- The invariant of `TaskLedger`, and the lemmas on its lists.
use restscope.Prelude.{
  ℕ, suc, ◌+◌, ◌≤◌, ◌≡◌, refl, ap, subst, String, Bool, true, false, Option, none, some, List, [],
  ◌∷◌, ◌++◌, map, All, length, contains, numbered, eqb, arith,
}
use restscope.Orchestration.Models.{
  PlanRevisionRecord, MilestoneRecord, TaskStatus, TaskRecord, AttemptRecord, RunStatus, is_pending,
  to_task_status, require_result_or_failure_payload,
}
use restscope.Orchestration.Ledger.{TaskLedger, milestone_ids}

-- The identities are those that an f-string gives the numbers from `n` on.
abbrev pub IsNumbered : String → ℕ → List String → Type 0
IsNumbered p n [] = Unit
IsNumbered p n (x ∷ xs) = (x ≡ numbered p n) × IsNumbered p (suc n) xs

-- The revisions are numbered from `n` on, up to `last`.
abbrev pub HasRevisions : ℕ → ℕ → List PlanRevisionRecord → Type 0
HasRevisions n last [] = n ≡ suc last
HasRevisions n last (r ∷ rs) = (r.plan_revision ≡ n) × HasRevisions (suc n) last rs

-- Task and Attempt number `n` belong together: the Attempt names the Task, has a result or a failure
-- but not both, and its outcome is the status of the Task.
pub record IsRecorded (n : ℕ) (t : TaskRecord) (a : AttemptRecord) : Type 0 where
  pub task : t.task_id ≡ numbered "task_" n
  pub attempt : a.attempt_id ≡ numbered "attempt_" n
  pub names : a.task_id ≡ t.task_id
  pub revision : a.plan_revision ≡ t.plan_revision
  pub outcome : t.status ≡ to_task_status a.outcome
  pub payload : require_result_or_failure_payload a ≡ true

-- What is left of the Tasks behind the last Attempt: the active one, or none.
abbrev pub IsActive : ℕ → Option String → List TaskRecord → Type 0
IsActive n none [] = Unit
IsActive n (some id) (t ∷ []) =
    (t.task_id ≡ numbered "task_" n) × (t.task_id ≡ id) × (t.status ≡ TaskStatus.running)
IsActive n active ts = ⊥

-- Every Task has its Attempt, but for the active one, which is the last and the only one that runs.
abbrev pub IsAligned : ℕ → Option String → List TaskRecord → List AttemptRecord → Type 0
IsAligned n active ts [] = IsActive n active ts
IsAligned n active [] (a ∷ as') = ⊥
IsAligned n active (t ∷ ts) (a ∷ as') = IsRecorded n t a × IsAligned (suc n) active ts as'

abbrev pub is_planning : RunStatus → Bool
is_planning RunStatus.planning = true
is_planning _ = false

-- A Task was made for a known Milestone under an accepted plan.
abbrev pub IsPlanned : List String → ℕ → TaskRecord → Type 0
IsPlanned known revision t =
    (1 ≤ t.plan_revision) × (t.plan_revision ≤ revision) × (contains t.milestone_id known ≡ true)

-- A Milestone belongs to an accepted plan, and to the current one if it is pending.
abbrev pub IsCurrent : ℕ → MilestoneRecord → Type 0
IsCurrent revision m =
    (1 ≤ m.plan_revision) × (is_pending m.status ≡ true → m.plan_revision ≡ revision)

pub record IsValid (s : TaskLedger) : Type 0 where
  pub milestones : IsNumbered "milestone_" 1 (milestone_ids s.milestones)
  pub pending : All (IsCurrent s.plan_revision) s.milestones
  pub revisions : HasRevisions 1 s.plan_revision s.plan_revisions
  pub planning : is_planning s.run_status ≡ eqb s.plan_revision 0
  pub aligned : IsAligned 1 s.active_task_id s.tasks s.attempts
  pub planned : All (IsPlanned (milestone_ids s.milestones) s.plan_revision) s.tasks

pub IsNumbered-append :
    (p : String) (n : ℕ) (xs ys : List String)
    → IsNumbered p n xs
    → IsNumbered p (n + length xs) ys
    → IsNumbered p n (xs ++ ys)
IsNumbered-append p n [] ys h k = subst (λ j. IsNumbered p j ys) (omega arith) k
IsNumbered-append p n (x ∷ xs) ys h k =
    (h.0, IsNumbered-append p (suc n) xs ys h.1 (subst (λ j. IsNumbered p j ys) (omega arith) k))

pub HasRevisions-append :
    (n last : ℕ) (rs : List PlanRevisionRecord) (r : PlanRevisionRecord)
    → HasRevisions n last rs
    → r.plan_revision ≡ last + 1
    → HasRevisions n (last + 1) (rs ++ r ∷ [])
HasRevisions-append n last [] r h e = (omega arith, omega arith)
HasRevisions-append n last (x ∷ xs) r h e = (h.0, HasRevisions-append (suc n) last xs r h.1 e)

pub length-map {ℓ κ} :
    {A : Type ℓ} {B : Type κ} (f : A → B) (xs : List A) → length (map f xs) ≡ length xs
length-map f [] = refl
length-map f (x ∷ xs) = ap suc (length-map f xs)

pub contains-append :
    (k : String) (xs ys : List String) → contains k xs ≡ true → contains k (xs ++ ys) ≡ true
contains-append k [] ys h = cc
contains-append k (x ∷ xs) ys h = ground (arith, contains-append k xs ys)

-- An older Task stays planned when the plan is revised and Milestones are added.
pub IsPlanned-mono :
    (known more : List String) (revision next : ℕ) (ts : List TaskRecord)
    → revision ≤ next
    → All (IsPlanned known revision) ts
    → All (IsPlanned (known ++ more) next) ts
IsPlanned-mono known more revision next [] le h = tt
IsPlanned-mono known more revision next (t ∷ ts) le ((low, high, there), h) = (
  (low, omega arith, contains-append t.milestone_id known more there),
  IsPlanned-mono known more revision next ts le h,
)
