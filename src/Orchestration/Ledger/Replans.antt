-- ===== src/Orchestration/Ledger/Replans.antt =====
-- What a replan asks for and leaves, in words of its own: `apply_replan` of
-- restscope/orchestration/ledger.py is held against these relations.
pub mod Guards
use restscope.Prelude.{
  Option, ℕ, suc, ◌≡◌, ◌≢◌, ◌↔◌, ◌⊎◌, inl, inr, refl, String, true, false, not, ◌&&◌, none, some,
  List, [], ◌∷◌, map, keep, All, any, contains, subset, numbered, arith, list_eq, option_eq, ◌==◌,
  eq_iff, eqb, Bool-cases,
}
use restscope.Orchestration.Models.{
  MilestoneProposal, ReplanDecision, MilestoneRecord, MilestoneStatus, is_pending,
}
use restscope.Orchestration.Ledger.{
  TaskLedger, milestone_ids, current_pending_ids, reopens_unknown, same_shape, shape_eq,
  proposal_shape, milestone_shape, update_milestone, new_milestones,
}

-- The Milestone with the number `n` that a proposal becomes under a plan revision.
pub record IsProposed (n revision : ℕ) (p : MilestoneProposal) (m : MilestoneRecord) : Type 0 where
  pub identity : m.milestone_id ≡ numbered "milestone_" n
  pub plan : m.plan_revision ≡ revision
  pub title : m.title ≡ p.title
  pub purpose : m.purpose ≡ p.purpose
  pub criteria : m.success_criteria ≡ p.success_criteria
  pub status : m.status ≡ MilestoneStatus.pending
  pub supersedes : m.supersedes_milestone_id ≡ p.supersedes_milestone_id

-- The Milestones are those of the proposals, in their order, with the numbers from `n` on.
abbrev pub AreProposed : ℕ → ℕ → List MilestoneProposal → List MilestoneRecord → Type 0
AreProposed n revision [] [] = Unit
AreProposed n revision (p ∷ ps) (m ∷ ms) =
    IsProposed n revision p m × AreProposed (suc n) revision ps ms
AreProposed n revision _ _ = ⊥

pub new_milestones-AreProposed :
    (n revision : ℕ) (ps : List MilestoneProposal)
    → AreProposed n revision ps (new_milestones n revision ps)
unfolding new_milestones
new_milestones-AreProposed n revision [] = tt
new_milestones-AreProposed n revision (p ∷ ps) = (
  record {
    identity = refl;
    plan = refl;
    title = refl;
    purpose = refl;
    criteria = refl;
    status = refl;
    supersedes = refl;
  },
  new_milestones-AreProposed (suc n) revision ps,
)

-- Nothing else is proposed.
pub AreProposed-new_milestones :
    (n revision : ℕ) (ps : List MilestoneProposal) (ms : List MilestoneRecord)
    → AreProposed n revision ps ms
    → ms ≡ new_milestones n revision ps
unfolding new_milestones
AreProposed-new_milestones n revision [] [] h = refl
AreProposed-new_milestones n revision [] (m ∷ ms) h = absurd h
AreProposed-new_milestones n revision (p ∷ ps) [] h = absurd h
AreProposed-new_milestones n revision (p ∷ ps) (m ∷ ms) (h, hs) = ground (
  arith,
  h.identity,
  h.plan,
  h.title,
  h.purpose,
  h.criteria,
  h.status,
  h.supersedes,
  AreProposed-new_milestones (suc n) revision ps ms hs,
)

-- What becomes of the Milestones: a pending one is completed if it is named, and superseded if not, with
-- the identities of the superseded ones.
pub data Settles (completed : List String)
    : List MilestoneRecord → List MilestoneRecord → List String → Type 0 where
  no_milestone : Settles completed [] [] []
  settled_before :
      {m : MilestoneRecord} {ms ns : List MilestoneRecord} {ids : List String}
      → m.status ≢ MilestoneStatus.pending
      → Settles completed ms ns ids
      → Settles completed (m ∷ ms) (m ∷ ns) ids
  completes :
      {m : MilestoneRecord} {ms ns : List MilestoneRecord} {ids : List String}
      → m.status ≡ MilestoneStatus.pending
      → contains m.milestone_id completed ≡ true
      → Settles completed ms ns ids
      → Settles completed (m ∷ ms) (record m { status = MilestoneStatus.completed } ∷ ns) ids
  supersedes :
      {m : MilestoneRecord} {ms ns : List MilestoneRecord} {ids : List String}
      → m.status ≡ MilestoneStatus.pending
      → contains m.milestone_id completed ≡ false
      → Settles completed ms ns ids
      → Settles completed
          (m ∷ ms)
          (record m { status = MilestoneStatus.superseded } ∷ ns)
          (m.milestone_id ∷ ids)

abbrev pub superseded_ids : List String → List MilestoneRecord → List String
superseded_ids completed ms =
    milestone_ids (keep (λ m. is_pending m.status && not (contains m.milestone_id completed)) ms)

pub is_pending_iff : (x : MilestoneStatus) → (is_pending x ≡ true) ↔ (x ≡ MilestoneStatus.pending)
is_pending_iff x = (λ h. ground arith, λ h. ground arith)

pub update_milestone-Settles :
    (completed : List String) (ms : List MilestoneRecord)
    → Settles completed ms (map (update_milestone completed) ms) (superseded_ids completed ms)
unfolding update_milestone
update_milestone-Settles completed [] = Settles.no_milestone
update_milestone-Settles completed (m ∷ ms) =
    let rest = update_milestone-Settles completed ms in
    elim (Bool-cases (is_pending m.status)) [
      | inr settled ↦ rw settled (Settles.settled_before (λ e. ground arith) rest)
      | inl pending ↦ elim (Bool-cases (contains m.milestone_id completed)) [
        | inl named ↦
            rw (pending, named) (Settles.completes ((is_pending_iff m.status).0 pending) named rest)
        | inr other ↦
            rw (pending, other)
              (Settles.supersedes ((is_pending_iff m.status).0 pending) other rest)
      ]
    ]

pub Settles-update_milestone :
    {completed : List String} {ms ns : List MilestoneRecord} {ids : List String}
    → Settles completed ms ns ids
    → (ns ≡ map (update_milestone completed) ms) × (ids ≡ superseded_ids completed ms)
unfolding update_milestone
Settles-update_milestone Settles.no_milestone = (refl, refl)
Settles-update_milestone (Settles.settled_before h rest) =
    let (same, ids_same) = Settles-update_milestone rest in (ground arith, ground arith)
Settles-update_milestone (Settles.completes h named rest) =
    let (same, ids_same) = Settles-update_milestone rest in (ground arith, ground arith)
Settles-update_milestone (Settles.supersedes h other rest) =
    let (same, ids_same) = Settles-update_milestone rest in (ground arith, ground arith)
