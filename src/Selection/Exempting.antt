-- ===== src/Selection/Exempting.antt =====
-- The constraints that are left when those associated with one input are taken away.
use mathlib.Core.List.{Memᴰ}
use mathlib.Core.List.Memᴰ
use restscope.Prelude.{
  ◌≡◌, refl, sym, ap, subst, ◌∙◌, String, Bool, true, false, not, List, [], ◌∷◌, map, keep, All,
  contains, arith, Bool-cases, inl, inr, eq_iff, eq_refl, ◌==◌,
}
use restscope.Constraints.Association.{
  OperationConstraintRecord, meets, joins, associated_constraint_ids,
}
use restscope.Constraints.Association.Exactness.{associated_constraint_ids_exact}
use restscope.Selection.Members.{keep-Mem}

ids-kept :
    (p : String → Bool) (c : OperationConstraintRecord) (cs : List OperationConstraintRecord)
    → p c.id ≡ true
    → Memᴰ c cs
    → contains c.id (map (λ k. k.id) (keep (λ k. p k.id) cs)) ≡ true
ids-kept p c [] holds m = absurd (Memᴰ.not-nil m)
ids-kept p c (x ∷ xs) holds m = elim (Memᴰ.cases_cons m) [
  | inl same ↦
      let kept : p x.id ≡ true = subst (λ k. p k.id ≡ true) same holds in
      let equal : (c.id == x.id) ≡ true = ap (λ k. c.id == k.id) (sym same) ∙ eq_refl c.id in
      rw kept (rw equal refl)
  | inr n ↦ ground (arith, ids-kept p c xs holds n)
]

contains-meets :
    (k : String) (owners inputs : List String)
    → contains k owners ≡ true
    → contains k inputs ≡ true
    → meets owners inputs ≡ true
contains-meets k [] inputs has started = absurd (ground arith)
contains-meets k (x ∷ xs) inputs has started = elim (Bool-cases (k == x)) [
  | inl same ↦
      let found : contains x inputs ≡ true =
        subst (λ z. contains z inputs ≡ true) ((eq_iff k x).0 same) started in
      rw found refl
  | inr other ↦ ground (arith, contains-meets k xs inputs (ground arith) started)
]

All-Mem :
    (P : OperationConstraintRecord → Type 0) (c : OperationConstraintRecord)
    (cs : List OperationConstraintRecord)
    → All P cs
    → Memᴰ c cs
    → P c
All-Mem P c [] holds m = absurd (Memᴰ.not-nil m)
All-Mem P c (x ∷ xs) (p, ps) m = elim (Memᴰ.cases_cons m) [
  | inl same ↦ subst P (sym same) p
  | inr n ↦ All-Mem P c xs ps n
]

pub associated_constraint_ids-exempt :
    (cs : List OperationConstraintRecord) (input : String) (c : OperationConstraintRecord)
    → Memᴰ c (keep (λ item. not (contains item.id (associated_constraint_ids cs input))) cs)
    → contains input c.owner_input_node_ids ≡ false
associated_constraint_ids-exempt cs input c m =
    let (t, component, is) = associated_constraint_ids_exact cs input in
    let (in_list, left) =
      keep-Mem (λ item. not (contains item.id (associated_constraint_ids cs input))) c cs m in
    let apart : joins c t ≡ false =
      All-Mem (λ k. joins k t ≡ false) c cs component.closed in_list in
    elim (Bool-cases (contains input c.owner_input_node_ids)) [
      | inr none ↦ none
      | inl has ↦
          let met =
            contains-meets input c.owner_input_node_ids t.connected_inputs has component.started in
          let joined : contains c.id t.connected_constraints ≡ true = ground arith in
          let found = ids-kept (λ id. contains id t.connected_constraints) c cs joined in_list in
          absurd (ground (arith, is, found, left))
    ]
