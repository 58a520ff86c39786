-- ===== src/ConstraintSolver/Units/Counting.antt =====
-- How often an input occurs among the units and the groups.
use restscope.Prelude.{
  ℕ, suc, ◌+◌, ◌≤◌, ◌≡◌, refl, String, true, false, List, [], ◌∷◌, ◌++◌, All, contains, unique,
  ◌==◌, if◌then◌else◌, arith, Bool-cases, inl, inr, eq_iff,
}
use restscope.Prelude.Dicts.{IsFresh, keys}
use restscope.Constraints.Values.{Host}
use restscope.ConstraintSolver.Candidates.{Overrides}
use restscope.ConstraintSolver.Search.{SearchUnit}
use restscope.ConstraintSolver.Solving.{unit_node_ids}
use restscope.ConstraintSolver.Exactness.{AreUnits}
use restscope.ConstraintSolver.Units.{unit_gt, insert_unit, order_units}

abbrev pub occurrences : String → List String → ℕ
occurrences id [] = 0
occurrences id (x ∷ xs) = let rest = occurrences id xs in if id == x then suc rest else rest

pub occurrences-append :
    (id : String) (xs ys : List String)
    → occurrences id (xs ++ ys) ≡ occurrences id xs + occurrences id ys
occurrences-append id [] ys = omega arith
occurrences-append id (x ∷ xs) ys = ground (arith, occurrences-append id xs ys)

pub occurrences-contains :
    (id : String) (xs : List String) → contains id xs ≡ true → 1 ≤ occurrences id xs
occurrences-contains id [] has = absurd (ground arith)
occurrences-contains id (x ∷ xs) has = ground (arith, occurrences-contains id xs)

pub contains-occurrences :
    (id : String) (xs : List String) → 1 ≤ occurrences id xs → contains id xs ≡ true
contains-occurrences id [] some_there = absurd (omega arith)
contains-occurrences id (x ∷ xs) some_there = ground (arith, contains-occurrences id xs)

absent : (id : String) (xs : List String) → occurrences id xs ≡ 0 → contains id xs ≡ false
absent id xs is_zero = elim (Bool-cases (contains id xs)) [
  | inl has ↦ absurd (omega (arith, occurrences-contains id xs has))
  | inr missing ↦ missing
]

pub unique-occurrences : (id : String) (xs : List String) → unique xs ≡ true → occurrences id xs ≤ 1
unique-occurrences id [] once = omega arith
unique-occurrences id (x ∷ xs) once = elim (Bool-cases (id == x)) [
  | inr other ↦ ground (arith, unique-occurrences id xs)
  | inl same ↦
      let there_not : contains id xs ≡ false = rw ((eq_iff id x).0 same) (ground arith) in
      ground (arith, contains-occurrences id xs)
]

-- Among all, no input occurs twice.
pub occurrences-IsFresh :
    (ids used : List String)
    → ((id : String) → occurrences id used + occurrences id ids ≤ 1)
    → IsFresh ids used
occurrences-IsFresh [] used once = tt
occurrences-IsFresh (x ∷ xs) used once =
    let self : (x == x) ≡ true = (eq_iff x x).1 refl in
    let here = once x in
    (
      absent x used (ground (arith, here, self)),
      absent x xs (ground (arith, here, self)),
      occurrences-IsFresh xs used (λ id. ground (arith, once id)),
    )

module _ {h : Host} (Good : Overrides h → Type 0) where
  -- The candidates assign the inputs of the unit.
  abbrev pub IsUnit : SearchUnit h → Type 0
  IsUnit unit = All (λ c. keys c ≡ unit.node_ids) unit.candidates × All Good unit.candidates

  pub occurrences-AreUnits :
      (units : List (SearchUnit h)) (used : List String)
      → All IsUnit units
      → ((id : String) → occurrences id used + occurrences id (unit_node_ids units) ≤ 1)
      → AreUnits Good units used
  occurrences-AreUnits [] used are once = tt
  occurrences-AreUnits (unit ∷ units) used (is, are) once = (
    occurrences-IsFresh unit.node_ids used
        (λ id. omega (arith, once id, occurrences-append id unit.node_ids (unit_node_ids units))),
    is.0,
    is.1,
    occurrences-AreUnits units (used ++ unit.node_ids) are (λ id. omega (
      arith,
      once id,
      occurrences-append id unit.node_ids (unit_node_ids units),
      occurrences-append id used unit.node_ids,
    )),
  )

  module _ (reference_counts : String → ℕ) where
    insert_unit-All :
        (unit : SearchUnit h) (units : List (SearchUnit h))
        → IsUnit unit
        → All IsUnit units
        → All IsUnit (insert_unit reference_counts unit units)
    insert_unit-All unit [] is are = (is, tt)
    insert_unit-All unit (u ∷ us) is (this, are) =
        elim (Bool-cases (unit_gt reference_counts unit u)) [
          | inl more ↦ rw more (this, insert_unit-All unit us is are)
          | inr other ↦ rw other (is, (this, are))
        ]

    pub order_units-All :
        (units : List (SearchUnit h))
        → All IsUnit units
        → All IsUnit (order_units reference_counts units)
    unfolding order_units
    order_units-All [] are = tt
    order_units-All (unit ∷ units) (is, are) =
        insert_unit-All unit (order_units reference_counts units) is (order_units-All units are)

module _ {h : Host} (reference_counts : String → ℕ) (id : String) where
  occurrences-insert_unit :
      (unit : SearchUnit h) (units : List (SearchUnit h))
      → occurrences id (unit_node_ids (insert_unit reference_counts unit units))
        ≡ occurrences id unit.node_ids + occurrences id (unit_node_ids units)
  occurrences-insert_unit unit [] = occurrences-append id unit.node_ids []
  occurrences-insert_unit unit (u ∷ us) = elim (Bool-cases (unit_gt reference_counts unit u)) [
    | inl more ↦ rw more (
        omega (
          arith,
          occurrences-append id u.node_ids (unit_node_ids (insert_unit reference_counts unit us)),
          occurrences-append id u.node_ids (unit_node_ids us),
          occurrences-insert_unit unit us,
        ))
    | inr other ↦ rw other (occurrences-append id unit.node_ids (unit_node_ids (u ∷ us)))
  ]

  pub occurrences-order_units :
      (units : List (SearchUnit h))
      → occurrences id (unit_node_ids (order_units reference_counts units))
        ≡ occurrences id (unit_node_ids units)
  unfolding order_units
  occurrences-order_units [] = refl
  occurrences-order_units (unit ∷ units) = omega (
    arith,
    occurrences-insert_unit unit (order_units reference_counts units),
    occurrences-order_units units,
    occurrences-append id unit.node_ids (unit_node_ids units),
  )
