-- ===== src/Constraints/Association/Closure.antt =====
-- The traversal ends within its fuel, and what it returns is the linked component.
use restscope.Prelude.{
  ℕ, suc, zero, ◌≤◌, ◌<◌, ◌≡◌, refl, String, Bool, true, false, ◌||◌, some, List, [], ◌∷◌, All,
  length, contains, arith, Bool-cases, inl, inr, eq_iff, if◌then◌else◌,
}
use restscope.Constraints.Association.{
  OperationConstraintRecord, Component, joins, join, join_if, visit, traverse, from_input,
}

-- How many of the constraints have not joined.
missing : List OperationConstraintRecord → List String → ℕ
missing [] done = 0
missing (c ∷ cs) done = let rest = missing cs done in if contains c.id done then rest else suc rest

abbrev ids : List OperationConstraintRecord → List String
ids [] = []
ids (c ∷ cs) = c.id ∷ ids cs

missing-cons-le :
    (cs : List OperationConstraintRecord) (k : String) (done : List String)
    → missing cs (k ∷ done) ≤ missing cs done
unfolding missing
missing-cons-le [] k done = omega arith
missing-cons-le (c ∷ cs) k done = ground (arith, missing-cons-le cs k done)

missing-cons-lt :
    (cs : List OperationConstraintRecord) (k : String) (done : List String)
    → contains k (ids cs) ≡ true
    → contains k done ≡ false
    → missing cs (k ∷ done) < missing cs done
unfolding missing
missing-cons-lt [] k done h n = absurd (ground arith)
missing-cons-lt (c ∷ cs) k done h n =
    ground
      (arith, missing-cons-le cs k done, missing-cons-lt cs k done, eq_iff k c.id, eq_iff c.id k)

missing-le-length :
    (cs : List OperationConstraintRecord) (done : List String) → missing cs done ≤ length cs
unfolding missing
missing-le-length [] done = omega arith
missing-le-length (c ∷ cs) done = ground (arith, missing-le-length cs done)

ids-All :
    (whole cs : List OperationConstraintRecord)
    → ((k : String) → contains k (ids cs) ≡ true → contains k (ids whole) ≡ true)
    → All (λ c. contains c.id (ids whole) ≡ true) cs
ids-All whole [] h = tt
ids-All whole (c ∷ cs) h =
    (h c.id (ground (arith, eq_iff c.id c.id)), ids-All whole cs (λ k e. h k (ground arith)))

-- What one round does: the `changed` of a round that began changed, the constraints still missing, and
-- the end of a round without a change.
visit-true : (cs : List OperationConstraintRecord) (s : Component) → (visit cs true s).0 ≡ true
unfolding visit
visit-true [] s = refl
visit-true (c ∷ cs) s = visit-true cs (join_if (joins c s) c s)

visit-le :
    (whole cs : List OperationConstraintRecord) (b : Bool) (s : Component)
    → missing whole (visit cs b s).1.connected_constraints ≤ missing whole s.connected_constraints
unfolding visit
visit-le whole [] b s = omega arith
visit-le whole (c ∷ cs) b s = elim (Bool-cases (joins c s)) [
  | inl e ↦
      rw (e, visit)
        (omega (
          arith,
          visit-le whole cs (b || true) (join c s),
          missing-cons-le whole c.id s.connected_constraints,
        ))
  | inr e ↦ rw (e, visit) (visit-le whole cs (b || false) s)
]

visit-less :
    (whole cs : List OperationConstraintRecord) (s : Component)
    → All (λ c. contains c.id (ids whole) ≡ true) cs
    → (visit cs false s).0 ≡ true
    → missing whole (visit cs false s).1.connected_constraints
      < missing whole s.connected_constraints
unfolding visit
visit-less whole [] s known h = absurd (ground arith)
visit-less whole (c ∷ cs) s known h = elim (Bool-cases (joins c s)) [
  | inl e ↦
      rw (e, visit)
        (omega (
          arith,
          visit-le whole cs true (join c s),
          missing-cons-lt whole c.id s.connected_constraints known.0 (ground arith),
        ))
  | inr e ↦ rw (e, visit) (visit-less whole cs s known.1 (rw (e, visit) at h))
]

visit-still :
    (cs : List OperationConstraintRecord) (s : Component)
    → (visit cs false s).0 ≡ false
    → ((visit cs false s).1 ≡ s) × All (λ c. joins c s ≡ false) cs
unfolding visit
visit-still [] s h = (refl, tt)
visit-still (c ∷ cs) s h = elim (Bool-cases (joins c s)) [
  | inl e ↦ absurd (ground (arith, rw (e, visit) at h, visit-true cs (join c s)))
  | inr e ↦
      let (same, still) = visit-still cs s (rw (e, visit) at h) in (rw (e, visit) same, (e, still))
]

-- With fuel for more rounds than constraints are missing, the loop ends where no constraint joins.
traverse-ends :
    (fuel : ℕ) (cs : List OperationConstraintRecord) (s : Component)
    → missing cs s.connected_constraints < fuel
    → (t : Component) × (traverse fuel cs s ≡ some t) × All (λ c. joins c t ≡ false) cs
unfolding traverse
traverse-ends zero cs s h = absurd (omega arith)
traverse-ends (suc fuel) cs s h = elim (Bool-cases (visit cs false s).0) [
  | inl more ↦
      let less = visit-less cs cs s (ids-All cs cs (λ k e. e)) more in
      let (t, e, still) = traverse-ends fuel cs (visit cs false s).1 (omega arith) in
      (t, ground (arith, more, e), still)
  | inr done ↦ let (same, still) = visit-still cs s done in (s, ground (arith, done, same), still)
]

-- The fuel of `associated_constraint_ids` is enough.
pub traverse-enough :
    (cs : List OperationConstraintRecord) (input : String)
    → (t : Component) × (traverse (suc (length cs)) cs (from_input input) ≡ some t)
      × All (λ c. joins c t ≡ false) cs
traverse-enough cs input =
    traverse-ends (suc (length cs)) cs (from_input input) (omega (arith, missing-le-length cs []))
