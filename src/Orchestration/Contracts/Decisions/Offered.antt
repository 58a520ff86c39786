-- ===== src/Orchestration/Contracts/Decisions/Offered.antt =====
-- The identities that an Orchestrator is offered: which of them start with which prefix.
use restscope.Prelude.{
  ◌==◌, eq_iff, arith, contains, ◌++◌, ℕ, suc, ◌≡◌, refl, ap, String, Bool, true, false, Option,
  List, [], ◌∷◌, map, keep, All, length, ltb, Bool-cases, inl, inr,
}
use restscope.Prelude.Identities.{starts_with, starts_with-numbered}
use restscope.Orchestration.Models.{MilestoneRecord, TaskRecord, AttemptRecord, is_pending}
use restscope.Orchestration.Ledger.{TaskLedger, milestone_ids, attempt_ids}
use restscope.Orchestration.Ledger.Invariant.{IsNumbered, IsAligned, IsValid}
use restscope.Orchestration.Contracts.Decisions.{last_items}

-- The identities have the prefix.
abbrev pub HasPrefix : String → List String → Type 0
HasPrefix p ids = All (λ id. starts_with p id ≡ true) ids

-- No identity has the prefix.
abbrev pub LacksPrefix : String → List String → Type 0
LacksPrefix p ids = All (λ id. starts_with p id ≡ false) ids

pub All-keep {ℓ} :
    {A : Type ℓ} (P : A → Type 0) (f : A → Bool) (xs : List A) → All P xs → All P (keep f xs)
All-keep P f [] h = tt
All-keep P f (x ∷ xs) h = elim (Bool-cases (f x)) [
  | inl kept ↦ rw kept (h.0, All-keep P f xs h.1)
  | inr left ↦ rw left (All-keep P f xs h.1)
]

pub All-last_items {ℓ} :
    {A : Type ℓ} (P : A → Type 0) (n : ℕ) (xs : List A) → All P xs → All P (last_items n xs)
unfolding last_items
All-last_items P n [] h = tt
All-last_items P n (x ∷ xs) h =
    elim (ltb (length xs) n) as (λ b. All P (elim b [ true ↦ x ∷ xs | false ↦ last_items n xs ])) [
      | true ↦ h
      | false ↦ All-last_items P n xs h.1
    ]

pub milestone-HasPrefix :
    (n : ℕ) (ms : List MilestoneRecord)
    → IsNumbered "milestone_" n (milestone_ids ms)
    → All (λ m. starts_with "milestone_" m.milestone_id ≡ true) ms
milestone-HasPrefix n [] h = tt
milestone-HasPrefix n (m ∷ ms) h =
    (rw h.0 (starts_with-numbered "milestone_" n), milestone-HasPrefix (suc n) ms h.1)

attempt-HasPrefix :
    (n : ℕ) (active : Option String) (ts : List TaskRecord) (as' : List AttemptRecord)
    → IsAligned n active ts as'
    → All (λ a. starts_with "attempt_" a.attempt_id ≡ true) as'
attempt-HasPrefix n active ts [] h = tt
attempt-HasPrefix n active [] (a ∷ as') h = absurd h
attempt-HasPrefix n active (t ∷ ts) (a ∷ as') h = (
  rw h.0.attempt (starts_with-numbered "attempt_" n),
  attempt-HasPrefix (suc n) active ts as' h.1,
)

pub All-map {ℓ κ} :
    {A : Type ℓ} {B : Type κ} (P : B → Type 0) (f : A → B) (xs : List A)
    → All (λ x. P (f x)) xs
    → All P (map f xs)
All-map P f [] h = tt
All-map P f (x ∷ xs) h = (h.0, All-map P f xs h.1)

pub All-implied :
    {P Q : String → Type 0} (f : (x : String) → P x → Q x) (xs : List String) → All P xs → All Q xs
All-implied f [] h = tt
All-implied f (x ∷ xs) h = (f x h.0, All-implied f xs h.1)

-- What is offered of a valid Ledger: Milestones and Attempts have their prefixes.

pub pending-HasPrefix :
    (s : TaskLedger)
    → IsValid s
    → HasPrefix "milestone_" (milestone_ids (keep (λ m. is_pending m.status) s.milestones))
pending-HasPrefix s v =
    All-map _ _ _ (All-keep _ _ s.milestones (milestone-HasPrefix 1 s.milestones v.milestones))

pub recent-HasPrefix :
    (s : TaskLedger) → IsValid s → HasPrefix "attempt_" (attempt_ids (last_items 20 s.attempts))
recent-HasPrefix s v = All-map _ _ _ (
    All-last_items _ 20 s.attempts
      (attempt-HasPrefix 1 s.active_task_id s.tasks s.attempts v.aligned))

keep-LacksPrefix :
    (p : String) (ids : List String) → LacksPrefix p ids → keep (starts_with p) ids ≡ []
keep-LacksPrefix p [] h = refl
keep-LacksPrefix p (x ∷ xs) h = rw h.0 (keep-LacksPrefix p xs h.1)

-- The identities with a prefix are the first ones, if these have it and the others lack it.
pub keep-first :
    (p : String) (ids rest : List String)
    → HasPrefix p ids
    → LacksPrefix p rest
    → keep (starts_with p) (ids ++ rest) ≡ ids
keep-first p [] rest h k = keep-LacksPrefix p rest k
keep-first p (x ∷ xs) rest h k = rw h.0 (ap (λ l. x ∷ l) (keep-first p xs rest h.1 k))

-- An identity with a prefix is not among those that lack it.
pub contains-LacksPrefix :
    (p id : String) (xs : List String)
    → starts_with p id ≡ true
    → LacksPrefix p xs
    → contains id xs ≡ false
contains-LacksPrefix p id [] h k = refl
contains-LacksPrefix p id (x ∷ xs) h k = elim (Bool-cases (id == x)) [
  | inl same ↦ absurd (ground (arith, ap (starts_with p) ((eq_iff id x).0 same), h, k.0))
  | inr other ↦ ground (arith, contains-LacksPrefix p id xs h k.1)
]
