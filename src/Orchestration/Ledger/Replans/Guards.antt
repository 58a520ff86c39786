-- ===== src/Orchestration/Ledger/Replans/Guards.antt =====
-- When `apply_replan` of restscope/orchestration/ledger.py accepts a replan, in words of its own.
use restscope.Prelude.{
  Option, ℕ, ◌≡◌, ◌↔◌, ◌⊎◌, inl, inr, refl, String, true, false, ◌&&◌, none, some, List, [], ◌∷◌,
  map, keep, All, any, contains, subset, arith, list_eq, option_eq, ◌==◌, eq_iff, eqb, Bool-cases,
}
use restscope.Orchestration.Models.{
  MilestoneProposal, ReplanDecision, MilestoneRecord, MilestoneStatus, is_pending,
}
use restscope.Orchestration.Ledger.{
  TaskLedger, milestone_ids, current_pending_ids, reopens_unknown, same_shape, shape_eq,
  proposal_shape, milestone_shape,
}
use restscope.Orchestration.Ledger.Replans.{is_pending_iff}

-- The proposals are the pending Milestones again, in title, purpose, criteria and superseded Milestone.
abbrev pub IsSameWork : List MilestoneProposal → List MilestoneRecord → Type 0
IsSameWork [] [] = Unit
IsSameWork (p ∷ ps) (m ∷ ms) =
    (p.title ≡ m.title)
    × (p.purpose ≡ m.purpose)
    × (p.success_criteria ≡ m.success_criteria)
    × (p.supersedes_milestone_id ≡ m.supersedes_milestone_id)
    × IsSameWork ps ms
IsSameWork _ _ = ⊥

texts_iff : (xs ys : List String) → (list_eq ◌==◌ xs ys ≡ true) ↔ (xs ≡ ys)
texts_iff [] [] = (λ h. refl, λ h. refl)
texts_iff [] (y ∷ ys) = (λ h. absurd (ground arith), λ h. absurd (ground arith))
texts_iff (x ∷ xs) [] = (λ h. absurd (ground arith), λ h. absurd (ground arith))
texts_iff (x ∷ xs) (y ∷ ys) = (
  λ h. ground (arith, eq_iff x y, texts_iff xs ys),
  λ h. ground (arith, eq_iff x y, texts_iff xs ys),
)

option_iff : (a b : Option String) → (option_eq ◌==◌ a b ≡ true) ↔ (a ≡ b)
option_iff none none = (λ h. refl, λ h. refl)
option_iff none (some y) = (λ h. absurd (ground arith), λ h. absurd (ground arith))
option_iff (some x) none = (λ h. absurd (ground arith), λ h. absurd (ground arith))
option_iff (some x) (some y) = (λ h. ground (arith, eq_iff x y), λ h. ground (arith, eq_iff x y))

shapes_iff :
    (ps : List MilestoneProposal) (ms : List MilestoneRecord)
    → (list_eq shape_eq (map proposal_shape ps) (map milestone_shape ms) ≡ true) ↔ IsSameWork ps ms
unfolding shape_eq
shapes_iff [] [] = (λ h. tt, λ h. refl)
shapes_iff [] (m ∷ ms) = (λ h. absurd (ground arith), λ h. absurd h)
shapes_iff (p ∷ ps) [] = (λ h. absurd (ground arith), λ h. absurd h)
shapes_iff (p ∷ ps) (m ∷ ms) =
    let title = eq_iff p.title m.title in
    let purpose = eq_iff p.purpose m.purpose in
    let criteria = texts_iff p.success_criteria m.success_criteria in
    let superseded = option_iff p.supersedes_milestone_id m.supersedes_milestone_id in
    let rest = shapes_iff ps ms in
    (
      λ h. (
        title.0 (ground arith),
        purpose.0 (ground arith),
        criteria.0 (ground arith),
        superseded.0 (ground arith),
        rest.0 (ground arith),
      ),
      λ (a, b, c, e, r).
          ground (arith, title.1 a, purpose.1 b, criteria.1 c, superseded.1 e, rest.1 r),
    )

-- A pending Milestone of the revision has the identity.
abbrev pub IsPendingIn : ℕ → List MilestoneRecord → String → Type 0
IsPendingIn revision [] id = ⊥
IsPendingIn revision (m ∷ ms) id =
    ((id ≡ m.milestone_id) × (m.status ≡ MilestoneStatus.pending) × (m.plan_revision ≡ revision))
    ⊎ IsPendingIn revision ms id

pending_iff :
    (revision : ℕ) (ms : List MilestoneRecord) (id : String)
    → (contains id
          (milestone_ids (keep (λ m. is_pending m.status && eqb m.plan_revision revision) ms))
        ≡ true)
      ↔ IsPendingIn revision ms id
pending_iff revision [] id = (λ h. absurd (ground arith), λ h. absurd h)
pending_iff revision (m ∷ ms) id =
    let rest = pending_iff revision ms id in
    let same = eq_iff id m.milestone_id in
    let pending = is_pending_iff m.status in
    elim (Bool-cases (is_pending m.status && eqb m.plan_revision revision)) [
      | inr other ↦ (
        λ h. inr (rest.0 (ground arith)),
        λ h. elim h [
          | inl (is, p, r) ↦ absurd (ground (arith, pending.1 p, r))
          | inr later ↦ ground (arith, rest.1 later)
        ],
      )
      | inl kept ↦ (
        λ h. elim (Bool-cases (id == m.milestone_id)) [
          | inl e ↦ inl (same.0 e, pending.0 (ground arith), ground arith)
          | inr e ↦ inr (rest.0 (ground arith))
        ],
        λ h. elim h [
          | inl (is, p, r) ↦ ground (arith, same.1 is)
          | inr later ↦ ground (arith, rest.1 later)
        ],
      )
    ]

pub subset_iff : (xs ys : List String) → (subset xs ys ≡ true) ↔ All (λ x. contains x ys ≡ true) xs
subset_iff [] ys = (λ h. tt, λ h. refl)
subset_iff (x ∷ xs) ys =
    let rest = subset_iff xs ys in
    (
      λ h. (ground arith, rest.0 (ground arith)),
      λ (first, later). ground (arith, first, rest.1 later),
    )

All-iff {ℓ} :
    {A : Type ℓ} {P Q : A → Type 0} (both : (x : A) → P x ↔ Q x) (xs : List A) → All P xs ↔ All Q xs
All-iff both [] = (λ h. tt, λ h. tt)
All-iff both (x ∷ xs) =
    let rest = All-iff both xs in
    (λ (a, b). ((both x).0 a, rest.0 b), λ (a, b). ((both x).1 a, rest.1 b))

pub completed_iff :
    (ids : List String) (s : TaskLedger)
    → (subset ids (current_pending_ids s) ≡ true)
      ↔ All (IsPendingIn s.plan_revision s.milestones) ids
unfolding current_pending_ids
completed_iff ids s =
    let subsets = subset_iff ids (current_pending_ids s) in
    let members = All-iff (pending_iff s.plan_revision s.milestones) ids in
    (λ h. members.0 (subsets.0 h), λ h. subsets.1 (members.1 h))

-- What a proposal supersedes is a Milestone of the Ledger.
abbrev pub IsReopening : TaskLedger → MilestoneProposal → Type 0
IsReopening s p =
    (id : String)
    → p.supersedes_milestone_id ≡ some id
    → contains id (milestone_ids s.milestones) ≡ true

pub IsReopening-iff :
    (s : TaskLedger) (ps : List MilestoneProposal)
    → (any (reopens_unknown s) ps ≡ false) ↔ All (IsReopening s) ps
unfolding reopens_unknown
IsReopening-iff s [] = (λ h. tt, λ h. refl)
IsReopening-iff s (p ∷ ps) =
    let rest = IsReopening-iff s ps in
    (
      λ h. (λ id e. ground arith, rest.0 (ground arith)),
      λ (first, later). of_reopened p.supersedes_milestone_id refl first (rest.1 later),
    )
  where
    of_reopened :
        (o : Option String)
        → p.supersedes_milestone_id ≡ o
        → IsReopening s p
        → any (reopens_unknown s) ps ≡ false
        → any (reopens_unknown s) (p ∷ ps) ≡ false
    of_reopened none e first later = ground (arith, e, later)
    of_reopened (some id) e first later = ground (arith, e, first id e, later)

pub IsSameWork-iff :
    (d : ReplanDecision) (s : TaskLedger)
    → ((same_shape d s && list_eq ◌==◌ d.completed_milestone_ids []) ≡ true) ↔ (
        IsSameWork d.milestones (keep (λ m. is_pending m.status) s.milestones)
        × (d.completed_milestone_ids ≡ []))
unfolding same_shape
IsSameWork-iff d s =
    let shapes = shapes_iff d.milestones (keep (λ m. is_pending m.status) s.milestones) in
    let completed = texts_iff d.completed_milestone_ids [] in
    (
      λ h. (shapes.0 (ground arith), completed.0 (ground arith)),
      λ (same, named). ground (arith, shapes.1 same, completed.1 named),
    )
