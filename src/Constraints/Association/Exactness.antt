-- ===== src/Constraints/Association/Exactness.antt =====
-- `associated_constraint_ids` returns the least component of the input that is closed.
use restscope.Prelude.{
  ℕ, suc, zero, ◌≡◌, refl, sym, subst, String, Bool, true, false, ◌&&◌, ◌||◌, some, List, [], ◌∷◌,
  ◌++◌, map, any, all, All, keep, length, contains, arith, Bool-cases, inl, inr, eq_iff, ◌==◌,
}
use restscope.Constraints.Association.{
  OperationConstraintRecord, Component, meets, joins, join, visit, traverse, from_input,
  associated_constraint_ids,
}
use restscope.Constraints.Association.Closure.{traverse-enough}

-- A constraint that meets the set `p` of inputs lies in it.
abbrev pub IsLinking : (String → Bool) → OperationConstraintRecord → Type 0
IsLinking p c = any p c.owner_input_node_ids ≡ true → all p c.owner_input_node_ids ≡ true

-- Some constraint of this identity meets `p`.
abbrev pub touches : (String → Bool) → List OperationConstraintRecord → String → Bool
touches p cs k = any (λ c. c.id == k && any p c.owner_input_node_ids) cs

all-append :
    (p : String → Bool) (xs ys : List String)
    → all p xs ≡ true
    → all p ys ≡ true
    → all p (xs ++ ys) ≡ true
all-append p [] ys h k = k
all-append p (x ∷ xs) ys h k = ground (arith, all-append p xs ys)

all-contains :
    (p : String → Bool) (x : String) (xs : List String)
    → all p xs ≡ true
    → contains x xs ≡ true
    → p x ≡ true
all-contains p x [] h e = absurd (ground arith)
all-contains p x (y ∷ ys) h e = elim (Bool-cases (x == y)) [
  | inl same ↦ subst (λ z. p z ≡ true) (sym ((eq_iff x y).0 same)) (ground arith)
  | inr other ↦ all-contains p x ys (ground arith) (ground arith)
]

any-meets :
    (p : String → Bool) (xs inputs : List String)
    → all p inputs ≡ true
    → meets xs inputs ≡ true
    → any p xs ≡ true
any-meets p [] inputs h m = m
any-meets p (x ∷ xs) inputs h m = elim (Bool-cases (contains x inputs)) [
  | inl e ↦ rw (all-contains p x inputs h e) refl
  | inr e ↦ ground (arith, any-meets p xs inputs h (ground arith))
]

module _ (p : String → Bool) (whole : List OperationConstraintRecord) where
  -- The inputs lie in `p`, and every joined constraint touches it.
  abbrev IsWithin : Component → Type 0
  IsWithin s =
      (all p s.connected_inputs ≡ true) × (all (touches p whole) s.connected_constraints ≡ true)

  join-IsWithin :
      (c : OperationConstraintRecord) (s : Component)
      → IsLinking p c
      → (any p c.owner_input_node_ids ≡ true → touches p whole c.id ≡ true)
      → joins c s ≡ true
      → IsWithin s
      → IsWithin (join c s)
  join-IsWithin c s linking known e (h, k) =
      let met = any-meets p c.owner_input_node_ids s.connected_inputs h (ground arith) in
      (all-append p c.owner_input_node_ids s.connected_inputs (linking met) h, rw (known met) k)

  visit-IsWithin :
      (cs : List OperationConstraintRecord) (b : Bool) (s : Component)
      → All (IsLinking p) cs
      → All (λ c. any p c.owner_input_node_ids ≡ true → touches p whole c.id ≡ true) cs
      → IsWithin s
      → IsWithin (visit cs b s).1
  unfolding visit
  visit-IsWithin [] b s l k w = w
  visit-IsWithin (c ∷ cs) b s l k w = elim (Bool-cases (joins c s)) [
    | inl e ↦
        rw (e, visit)
          (visit-IsWithin cs (b || true) (join c s) l.1 k.1 (join-IsWithin c s l.0 k.0 e w))
    | inr e ↦ rw (e, visit) (visit-IsWithin cs (b || false) s l.1 k.1 w)
  ]

  touches-All :
      (cs : List OperationConstraintRecord)
      → ((k : String) → touches p cs k ≡ true → touches p whole k ≡ true)
      → All (λ c. any p c.owner_input_node_ids ≡ true → touches p whole c.id ≡ true) cs
  touches-All [] h = tt
  touches-All (c ∷ cs) h = (
    λ e. h c.id (ground (arith, eq_iff c.id c.id, e)),
    touches-All cs (λ k e. h k (ground arith)),
  )

  traverse-IsWithin :
      (fuel : ℕ) (s t : Component)
      → All (IsLinking p) whole
      → traverse fuel whole s ≡ some t
      → IsWithin s
      → IsWithin t
  unfolding traverse
  traverse-IsWithin zero s t l h w = absurd (ground arith)
  traverse-IsWithin (suc fuel) s t l h w =
      let next = visit-IsWithin whole false s l (touches-All whole (λ k e. e)) w in
      elim (Bool-cases (visit whole false s).0) [
        | inl more ↦ traverse-IsWithin fuel (visit whole false s).1 t l (ground arith) next
        | inr done ↦ subst IsWithin (ground arith) next
      ]

contains-append_right :
    (k : String) (xs ys : List String) → contains k ys ≡ true → contains k (xs ++ ys) ≡ true
contains-append_right k [] ys h = h
contains-append_right k (x ∷ xs) ys h = ground (arith, contains-append_right k xs ys h)

visit-contains :
    (k : String) (cs : List OperationConstraintRecord) (b : Bool) (s : Component)
    → contains k s.connected_inputs ≡ true
    → contains k (visit cs b s).1.connected_inputs ≡ true
unfolding visit
visit-contains k [] b s h = h
visit-contains k (c ∷ cs) b s h = elim (Bool-cases (joins c s)) [
  | inl e ↦
      rw (e, visit)
        (visit-contains k cs (b || true) (join c s)
          (contains-append_right k c.owner_input_node_ids s.connected_inputs h))
  | inr e ↦ rw (e, visit) (visit-contains k cs (b || false) s h)
]

traverse-contains :
    (k : String) (fuel : ℕ) (cs : List OperationConstraintRecord) (s t : Component)
    → traverse fuel cs s ≡ some t
    → contains k s.connected_inputs ≡ true
    → contains k t.connected_inputs ≡ true
unfolding traverse
traverse-contains k zero cs s t h e = absurd (ground arith)
traverse-contains k (suc fuel) cs s t h e =
    let next = visit-contains k cs false s e in
    elim (Bool-cases (visit cs false s).0) [
      | inl more ↦ traverse-contains k fuel cs (visit cs false s).1 t (ground arith) next
      | inr done ↦
          let same : (visit cs false s).1 ≡ t = ground arith in
          subst (λ (u : Component). contains k u.connected_inputs ≡ true) same next
    ]

-- The component of an input: it has the input, no other constraint joins it, and it lies in every set
-- of inputs that has the input and that each constraint lies in once it meets it.
pub record IsComponent (cs : List OperationConstraintRecord) (input : String) (t : Component)
    : Type 0 where
  pub started : contains input t.connected_inputs ≡ true
  pub closed : All (λ c. joins c t ≡ false) cs
  pub least :
      (p : String → Bool)
      → p input ≡ true
      → All (IsLinking p) cs
      → (all p t.connected_inputs ≡ true) × (all (touches p cs) t.connected_constraints ≡ true)

-- The result is, in the order of the list, the constraints of the component of the input: the loop ends
-- within its fuel with a set that has the input, that no further constraint joins, and that lies in every
-- set of inputs closed under the links.
pub associated_constraint_ids_exact :
    (cs : List OperationConstraintRecord) (input : String)
    → (t : Component) × IsComponent cs input t
      × (associated_constraint_ids cs input
          ≡ map (λ c. c.id) (keep (λ c. contains c.id t.connected_constraints) cs))
unfolding associated_constraint_ids
associated_constraint_ids_exact cs input =
    let (t, e, closed) = traverse-enough cs input in
    (
      t,
      record {
        started =
            traverse-contains input (suc (length cs)) cs (from_input input) t e
              (ground (arith, eq_iff input input));
        closed = closed;
        least = λ p start linking.
            traverse-IsWithin p cs (suc (length cs)) (from_input input) t linking e
              (ground (arith, start), refl);
      },
      rw e refl,
    )
