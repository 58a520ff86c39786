-- ===== src/Orchestration/Ledger/Replanning.antt =====
-- `apply_replan`: when it is accepted, what it leaves pending, and that it keeps the invariant.
use restscope.Prelude.{
  Bool-cases, inl, inr, ◌∙◌, ◌↔◌, list_eq, ◌==◌, ◌&&◌, ℕ, suc, ◌+◌, ◌≤◌, ◌≡◌, refl, ap, subst,
  String, Bool, true, false, none, List, [], ◌∷◌, ◌++◌, map, keep, keep-append, All, All-append,
  any, length, unique, subset, arith,
}
use restscope.Orchestration.Models.{
  MilestoneProposal, ReplanDecision, MilestoneRecord, RunStatus, is_pending,
}
use restscope.Orchestration.Ledger.{
  ok, TaskLedger, milestone_ids, current_pending_ids, reopens_unknown, same_shape, update_milestone,
  new_milestones, replanned, apply_replan, require_current_revision,
}
use restscope.Orchestration.Ledger.Replans.{
  AreProposed, Settles, superseded_ids, update_milestone-Settles, Settles-update_milestone,
  new_milestones-AreProposed, AreProposed-new_milestones,
}
use restscope.Orchestration.Ledger.Replans.Guards.{
  IsSameWork, IsPendingIn, IsReopening, IsSameWork-iff, completed_iff, IsReopening-iff,
}
use restscope.Orchestration.Ledger.Invariant.{
  IsNumbered, IsCurrent, IsValid, IsNumbered-append, HasRevisions-append, length-map,
  IsPlanned-mono,
}

abbrev is_pending_record : MilestoneRecord → Bool
is_pending_record m = is_pending m.status

milestone_id-update_milestone :
    (c : List String) (m : MilestoneRecord) → (update_milestone c m).milestone_id ≡ m.milestone_id
unfolding update_milestone
milestone_id-update_milestone c m = ground arith

milestone_ids-update :
    (c : List String) (ms : List MilestoneRecord)
    → milestone_ids (map (update_milestone c) ms) ≡ milestone_ids ms
milestone_ids-update c [] = refl
milestone_ids-update c (m ∷ ms) = cc (milestone_id-update_milestone c m, milestone_ids-update c ms)

-- Nothing that a replan rewrites stays pending.
update_milestone-settles :
    (c : List String) (m : MilestoneRecord) → is_pending (update_milestone c m).status ≡ false
unfolding update_milestone
update_milestone-settles c m = ground arith

keep-update :
    (c : List String) (ms : List MilestoneRecord)
    → keep is_pending_record (map (update_milestone c) ms) ≡ []
keep-update c [] = refl
keep-update c (m ∷ ms) = ground (arith, update_milestone-settles c m, keep-update c ms)

keep-new_milestones :
    (n r : ℕ) (ps : List MilestoneProposal)
    → keep is_pending_record (new_milestones n r ps) ≡ new_milestones n r ps
unfolding new_milestones
keep-new_milestones n r [] = refl
keep-new_milestones n r (p ∷ ps) = rw (keep-new_milestones (suc n) r ps)

new_milestones-IsNumbered :
    (n r : ℕ) (ps : List MilestoneProposal)
    → IsNumbered "milestone_" n (milestone_ids (new_milestones n r ps))
unfolding new_milestones
new_milestones-IsNumbered n r [] = tt
new_milestones-IsNumbered n r (p ∷ ps) = (refl, new_milestones-IsNumbered (suc n) r ps)

new_milestones-IsCurrent :
    (n r : ℕ) (ps : List MilestoneProposal) → 1 ≤ r → All (IsCurrent r) (new_milestones n r ps)
unfolding new_milestones
new_milestones-IsCurrent n r [] h = tt
new_milestones-IsCurrent n r (p ∷ ps) h = ((h, λ _. refl), new_milestones-IsCurrent (suc n) r ps h)

plan_revision-update_milestone :
    (c : List String) (m : MilestoneRecord) → (update_milestone c m).plan_revision ≡ m.plan_revision
unfolding update_milestone
plan_revision-update_milestone c m = ground arith

update-IsCurrent :
    (c : List String) (q r : ℕ) (ms : List MilestoneRecord)
    → All (IsCurrent q) ms
    → All (IsCurrent r) (map (update_milestone c) ms)
update-IsCurrent c q r [] h = tt
update-IsCurrent c q r (m ∷ ms) h = (
  (rw (plan_revision-update_milestone c m) h.0.0, λ e. absurd (cc (update_milestone-settles c m))),
  update-IsCurrent c q r ms h.1,
)

map-append {ℓ κ} :
    {A : Type ℓ} {B : Type κ} (f : A → B) (xs ys : List A) → map f (xs ++ ys) ≡ map f xs ++ map f ys
map-append f [] ys = refl
map-append f (x ∷ xs) ys = ap (λ l. f x ∷ l) (map-append f xs ys)

milestone_ids-replanned :
    (d : ReplanDecision) (s : TaskLedger)
    → milestone_ids (replanned d s).milestones
      ≡ milestone_ids s.milestones
        ++ milestone_ids
            (new_milestones (length s.milestones + 1) (s.plan_revision + 1) d.milestones)
unfolding replanned
milestone_ids-replanned d s = rw (map-append, milestone_ids-update)

replanned-IsValid : (d : ReplanDecision) (s : TaskLedger) → IsValid s → IsValid (replanned d s)
unfolding replanned
replanned-IsValid d s v = record {
  milestones = rw (milestone_ids-replanned d s) (
      IsNumbered-append "milestone_" 1 (milestone_ids s.milestones) _ v.milestones (
        subst
          (λ n. IsNumbered "milestone_" n (
            milestone_ids
              (new_milestones (length s.milestones + 1) (s.plan_revision + 1) d.milestones)))
          (omega (arith, length-map (λ (m : MilestoneRecord). m.milestone_id) s.milestones))
          (new_milestones-IsNumbered _ _ d.milestones)));
  pending =
      All-append _ (map (update_milestone d.completed_milestone_ids) s.milestones) _
        (update-IsCurrent _ s.plan_revision _ s.milestones v.pending)
        (new_milestones-IsCurrent _ _ d.milestones (omega arith));
  revisions = HasRevisions-append 1 s.plan_revision s.plan_revisions _ v.revisions refl;
  planning = ground arith;
  aligned = v.aligned;
  planned = rw (milestone_ids-replanned d s) (
      IsPlanned-mono (milestone_ids s.milestones) _ s.plan_revision _ s.tasks (omega arith)
        v.planned);
}

-- What the guards of an accepted replan have established.
pub record IsAccepted (d : ReplanDecision) (s t : TaskLedger) : Type 0 where
  current : d.expected_plan_revision ≡ s.plan_revision
  idle : s.active_task_id ≡ none
  changed : (same_shape d s && list_eq ◌==◌ d.completed_milestone_ids []) ≡ false
  distinct : unique d.completed_milestone_ids ≡ true
  pub were_pending : subset d.completed_milestone_ids (current_pending_ids s) ≡ true
  known : any (reopens_unknown s) d.milestones ≡ false
  result : t ≡ replanned d s

pub apply_replan-IsAccepted :
    (d : ReplanDecision) (s t : TaskLedger) → apply_replan d s ≡ ok t → IsAccepted d s t
unfolding apply_replan require_current_revision
apply_replan-IsAccepted d s t h = ground arith

IsAccepted-apply_replan :
    (d : ReplanDecision) (s t : TaskLedger) → IsAccepted d s t → apply_replan d s ≡ ok t
unfolding apply_replan require_current_revision
IsAccepted-apply_replan d s t a =
    ground (arith, a.current, a.idle, a.changed, a.distinct, a.were_pending, a.known, a.result)

-- What a replan needs of the Ledger, and the Ledger that it leaves.
pub record IsReplan (d : ReplanDecision) (s t : TaskLedger) : Type 0 where
  pub current : d.expected_plan_revision ≡ s.plan_revision
  pub idle : s.active_task_id ≡ none
  pub changed : ¬ (
      IsSameWork d.milestones (keep (λ m. is_pending m.status) s.milestones)
      × (d.completed_milestone_ids ≡ []))
  pub distinct : unique d.completed_milestone_ids ≡ true
  pub were_pending : All (IsPendingIn s.plan_revision s.milestones) d.completed_milestone_ids
  pub known : All (IsReopening s) d.milestones
  pub settled : List MilestoneRecord
  pub created : List MilestoneRecord
  pub superseded : List String
  pub settles : Settles d.completed_milestone_ids s.milestones settled superseded
  pub proposed : AreProposed (length s.milestones + 1) (s.plan_revision + 1) d.milestones created
  pub milestones : t.milestones ≡ settled ++ created
  pub revisions :
      t.plan_revisions
      ≡ s.plan_revisions
        ++ record {
          plan_revision = s.plan_revision + 1;
          reason = d.reason;
          completed_milestone_ids = d.completed_milestone_ids;
          superseded_milestone_ids = superseded;
          created_milestone_ids = milestone_ids created;
        }
          ∷ []
  pub revision : t.plan_revision ≡ s.plan_revision + 1
  pub running : t.run_status ≡ RunStatus.running
  pub goal : t.goal ≡ s.goal
  pub tasks : t.tasks ≡ s.tasks
  pub attempts : t.attempts ≡ s.attempts
  pub none_active : t.active_task_id ≡ none

IsAccepted-IsReplan : (d : ReplanDecision) (s t : TaskLedger) → IsAccepted d s t → IsReplan d s t
unfolding replanned
IsAccepted-IsReplan d s t a = record {
  current = a.current;
  idle = a.idle;
  changed = λ same. ground (arith, (IsSameWork-iff d s).1 same, a.changed);
  distinct = a.distinct;
  were_pending = (completed_iff d.completed_milestone_ids s).0 a.were_pending;
  known = (IsReopening-iff s d.milestones).0 a.known;
  settled = map (update_milestone d.completed_milestone_ids) s.milestones;
  created = new_milestones (length s.milestones + 1) (s.plan_revision + 1) d.milestones;
  superseded = superseded_ids d.completed_milestone_ids s.milestones;
  settles = update_milestone-Settles d.completed_milestone_ids s.milestones;
  proposed = new_milestones-AreProposed _ _ d.milestones;
  milestones = rw a.result refl;
  revisions = rw a.result refl;
  revision = rw a.result refl;
  running = rw a.result refl;
  goal = rw a.result refl;
  tasks = rw a.result refl;
  attempts = rw a.result refl;
  none_active = rw a.result a.idle;
}

-- The parts of the new Ledger are those of the replanned one.
IsReplan-replanned : (d : ReplanDecision) (s t : TaskLedger) → IsReplan d s t → t ≡ replanned d s
unfolding replanned
IsReplan-replanned d s t r =
    let (settled, superseded) = Settles-update_milestone r.settles in
    let created = AreProposed-new_milestones _ _ d.milestones r.created r.proposed in
    let milestones : t.milestones ≡ (replanned d s).milestones =
      r.milestones ∙ rw (settled, created) refl in
    let revisions : t.plan_revisions ≡ (replanned d s).plan_revisions =
      r.revisions ∙ rw (superseded, created) refl in
    ground (
      arith, milestones, revisions, r.revision, r.running, r.goal, r.tasks, r.attempts,
      r.none_active, r.idle,
    )

IsReplan-IsAccepted : (d : ReplanDecision) (s t : TaskLedger) → IsReplan d s t → IsAccepted d s t
IsReplan-IsAccepted d s t r = record {
  current = r.current;
  idle = r.idle;
  changed = elim (Bool-cases (same_shape d s && list_eq ◌==◌ d.completed_milestone_ids [])) [
    | inl same ↦ absurd (r.changed ((IsSameWork-iff d s).0 same))
    | inr other ↦ other
  ];
  distinct = r.distinct;
  were_pending = (completed_iff d.completed_milestone_ids s).1 r.were_pending;
  known = (IsReopening-iff s d.milestones).1 r.known;
  result = IsReplan-replanned d s t r;
}

-- A replan is accepted exactly when it names the current revision, no Task is active, it is not the
-- pending work again without a completed Milestone, the completed identities are distinct and those of
-- pending Milestones of the current revision, and every superseded Milestone is known. In the new
-- Ledger every pending Milestone is completed if it is named and superseded if not, the others stay,
-- the proposed ones follow as pending, with the next numbers and the next revision, the revision
-- is recorded with its reason and the three lists of identities, the run is running, and goal, Tasks,
-- Attempts and the lack of an active Task are kept.
pub apply_replan_exact :
    (d : ReplanDecision) (s t : TaskLedger) → (apply_replan d s ≡ ok t) ↔ IsReplan d s t
apply_replan_exact d s t = (
  λ h. IsAccepted-IsReplan d s t (apply_replan-IsAccepted d s t h),
  λ r. IsAccepted-apply_replan d s t (IsReplan-IsAccepted d s t r),
)

-- An accepted replan keeps the invariant.
pub apply_replan-IsValid :
    (d : ReplanDecision) (s t : TaskLedger) → IsValid s → apply_replan d s ≡ ok t → IsValid t
apply_replan-IsValid d s t v h =
    rw (apply_replan-IsAccepted d s t h).result (replanned-IsValid d s v)

-- After an accepted replan the pending Milestones are the proposed ones and no others: in the proposed
-- order, with the next free numbers, under the next revision, and with title, purpose, criteria and
-- superseded Milestone of their proposals.
pub apply_replan-pending :
    (d : ReplanDecision) (s t : TaskLedger)
    → apply_replan d s ≡ ok t
    → AreProposed
        (length s.milestones + 1)
        (s.plan_revision + 1)
        d.milestones
        (keep (λ m. is_pending m.status) t.milestones)
unfolding replanned
apply_replan-pending d s t h = rw (apply_replan-IsAccepted d s t h).result (
    rw (keep-append, keep-update, keep-new_milestones)
      (new_milestones-AreProposed _ _ d.milestones))

pub apply_replan-keeps :
    (d : ReplanDecision) (s t : TaskLedger)
    → apply_replan d s ≡ ok t
    → (t.tasks ≡ s.tasks)
      × (t.attempts ≡ s.attempts)
      × (t.goal ≡ s.goal)
      × (t.active_task_id ≡ none)
      × (t.plan_revision ≡ s.plan_revision + 1)
unfolding replanned
apply_replan-keeps d s t h =
    let a = apply_replan-IsAccepted d s t h in rw a.result (refl, refl, refl, a.idle, refl)
