-- ===== src/Selection/Purposes.antt =====
-- The purpose of a request, and a positive candidate for each input: when they are drawn, and how.
use Prim.Native.String.{◌++◌}
use mathlib.Core.List.{Memᴰ}
use mathlib.Core.List.Memᴰ
use restscope.Prelude.{
  ◌≡◌, refl, sym, ap, subst, ◌∙◌, String, Bool, true, false, not, ◌⊎◌, Option, none, some, List, [],
  ◌∷◌, map, keep, All, contains, Bool-cases, inl, inr, eq_iff, eq_refl, ◌==◌, if◌then◌else◌,
}
use restscope.Prelude.{◌++◌ as append}
use restscope.Prelude.Dicts.{Dict, keys}
use restscope.Constraints.Expressions.{collect}
use restscope.Constraints.Association.{OperationConstraintRecord, associated_constraint_ids}
use restscope.Selection.{
  SelectionHost, InputGeneratorConfig, NegativeInputGeneratorConfig, OperationGeneratorConfig,
  TestMode, happy_path, exceptional, positive, negative, Statistics, take_negative_generator,
  take_ignored_constraint, choice, sort_by,
}
use restscope.Selection.Members.{
  FillsUnless, IsInRange, Fills, choice-Fills, Mem-sort_by, sort_by-Mem, keep-Mem, Mem-keep,
}
use restscope.Selection.Bandit.{IsFloatOrder, epsilon_greedy-IsBest}
use restscope.Selection.Grouping.{append_one-Mem, AreGroups, members_of-IsGroup}
use restscope.Selection.Choosing.{
  Purpose, sorted_set, positive_input, negative_input, inherited_of, members_of, is_negative_input,
  negative_purpose, ignored_purpose, choose_purpose, choose_positives,
}

collect-Mem :
    (a : String) (result ids : List String)
    → Memᴰ a (collect result ids)
    → Memᴰ a result ⊎ Memᴰ a ids
unfolding collect
collect-Mem a result [] m = inl m
collect-Mem a result (id ∷ ids) m =
    elim (collect-Mem a (if contains id result then result else append result (id ∷ [])) ids m) [
      | inr later ↦ inr (Memᴰ.tail later)
      | inl here ↦ elim (Bool-cases (contains id result)) [
        | inl old ↦ inl (subst (λ t. Memᴰ a t) (rw old refl) here)
        | inr new ↦
            elim (Memᴰ.cases_cons
              (append_one-Mem a id result (subst (λ t. Memᴰ a t) (rw new refl) here))) [
                | inl last ↦ inr (Memᴰ.head last)
                | inr n ↦ inl n
              ]
      ]
    ]

Mem-collect : (a : String) (result ids : List String) → Memᴰ a result → Memᴰ a (collect result ids)
unfolding collect
Mem-collect a result [] m = m
Mem-collect a result (id ∷ ids) m =
    Mem-collect a (if contains id result then result else append result (id ∷ [])) ids
      (elim (Bool-cases (contains id result)) [
        | inl old ↦ rw old m
        | inr new ↦ rw new (Memᴰ.append_left (id ∷ []) m)
      ])

map-Mem :
    {A : Type 0} (f : A → String) (b : String) (xs : List A)
    → Memᴰ b (map f xs)
    → (x : A) × Memᴰ x xs × (b ≡ f x)
map-Mem f b [] m = absurd (Memᴰ.not-nil m)
map-Mem f b (x ∷ xs) m = elim (Memᴰ.cases_cons m) [
  | inl same ↦ (x, Memᴰ.head refl, same)
  | inr n ↦ let (y, k, e) = map-Mem f b xs n in (y, Memᴰ.tail k, e)
]

-- A chosen input of a sorted set is that of a candidate.
choice-sorted_set :
    (h : SelectionHost) {A : Type 0} (f : A → String) (x : A) (xs : List A) (scope : String)
    → IsInRange h
    → Fills
        (λ id. (y : A) × Memᴰ y (x ∷ xs) × (id ≡ f y))
        (choice h (sorted_set (map f (x ∷ xs))) scope)
unfolding sorted_set collect
choice-sorted_set h f x xs scope in_range =
    let ids = collect [] (map f (x ∷ xs)) in
    let (id, is, m) =
      choice-Fills h (sort_by (λ i. i) ids) (f x) scope in_range (
        Mem-sort_by (λ i. i) (f x) ids
          (Mem-collect (f x) (f x ∷ []) (map f xs) (Memᴰ.head refl))) in
    (
      id,
      is,
      elim (collect-Mem id [] (map f (x ∷ xs)) (sort_by-Mem (λ i. i) id ids m)) [
        | inl n ↦ absurd (Memᴰ.not-nil n)
        | inr n ↦ map-Mem f id (x ∷ xs) n
      ],
    )

abbrev is_empty : {A : Type 0} → List A → Bool
is_empty [] = true
is_empty (x ∷ xs) = false

-- Whether there is no candidate for the purpose that is drawn.
abbrev pub has_no_candidate :
    {h : SelectionHost}
    → OperationGeneratorConfig h
    → List OperationConstraintRecord
    → TestMode
    → String
    → Bool
has_no_candidate config constraints happy_path scope = false
has_no_candidate {h} config constraints exceptional scope =
    if h.coin (scope ++ ":exceptional-action")
    then is_empty config.negative_generators
    else is_empty constraints

-- A negative candidate is one of the operation, and the constraints of its input are ignored.
abbrev pub IsNegative :
    {h : SelectionHost}
    → OperationGeneratorConfig h
    → List OperationConstraintRecord
    → Option (NegativeInputGeneratorConfig h)
    → List String
    → Type 0
IsNegative config constraints none ignored_ids = Unit
IsNegative config constraints (some candidate) ignored_ids =
    Memᴰ candidate config.negative_generators
    × (ignored_ids ≡ associated_constraint_ids constraints candidate.inherited.input_node_id)

abbrev pub IsPurpose :
    {h : SelectionHost}
    → OperationGeneratorConfig h
    → List OperationConstraintRecord
    → Purpose h
    → Type 0
IsPurpose config constraints purpose =
    IsNegative config constraints purpose.negative_candidate purpose.ignored_ids

module _ (h : SelectionHost) (statistics : Statistics) (in_range : IsInRange h)
    (ordered : IsFloatOrder h) where
  pub choose_positives-Fills :
      (source : List (InputGeneratorConfig h)) (groups : Dict (List (InputGeneratorConfig h)))
      (candidate : Option (NegativeInputGeneratorConfig h)) (scope : String) (ids : List String)
      → AreGroups source groups
      → All (λ id. contains id (keys groups) ≡ true) ids
      → Fills
          (λ chosen.
            (map (positive_input h) chosen
              ≡ keep (λ id. not (is_negative_input h candidate id)) ids)
            × All (λ c. Memᴰ c source) chosen)
          (choose_positives h statistics groups candidate scope ids)
  unfolding choose_positives
  choose_positives-Fills source groups candidate scope [] are known = ([], refl, (refl, tt))
  choose_positives-Fills source groups candidate scope (id ∷ ids) are (has, known) =
      let (later, is, (inputs, within)) =
        choose_positives-Fills source groups candidate scope ids are known in
      elim (Bool-cases (is_negative_input h candidate id)) [
        | inl left_out ↦ (later, rw (left_out, choose_positives) is, (rw left_out inputs, within))
        | inr taken ↦
            let group = members_of-IsGroup source id groups are has in
            let (c, chosen, (member, best)) =
              epsilon_greedy-IsBest h statistics (λ item. item) positive in_range ordered
                (members_of h groups id) group.0.0 (scope ++ (":positive-candidate:" ++ id))
                group.0.1 in
            let (in_source, of_input) = group.1 c member in
            (
              c ∷ later,
              rw (taken, choose_positives, chosen, is) refl,
              (rw taken (cc (of_input, inputs)), (in_source, within)),
            )
      ]

  negative_purpose-Fills :
      (config : OperationGeneratorConfig h) (constraints : List OperationConstraintRecord)
      (scope : String)
      → FillsUnless
          (is_empty config.negative_generators)
          (IsPurpose config constraints)
          (negative_purpose h statistics config.negative_generators constraints scope)
  unfolding negative_purpose
  negative_purpose-Fills config constraints scope = by_list config.negative_generators refl
    where
      by_list :
          (negatives : List (NegativeInputGeneratorConfig h))
          → config.negative_generators ≡ negatives
          → FillsUnless
              (is_empty negatives)
              (IsPurpose config constraints)
              (negative_purpose h statistics negatives constraints scope)
      by_list [] e = inl (refl, refl)
      by_list (x ∷ xs) e =
          let (id, chosen, (y, in_list, of_input)) =
            choice-sorted_set h (negative_input h) x xs (scope ++ ":negative-input") in_range in
          let p : NegativeInputGeneratorConfig h → Bool = λ item. negative_input h item == id in
          let (c, is, (member, best)) =
            epsilon_greedy-IsBest h statistics (inherited_of h) negative in_range ordered
              (keep p (x ∷ xs)) y (scope ++ (":negative-candidate:" ++ id))
              (Mem-keep p y (x ∷ xs) (ap (λ i. negative_input h y == i) of_input ∙ eq_refl _)
                in_list) in
          let (in_negatives, equal) = keep-Mem p c (x ∷ xs) member in
          inr (
            (
              record {
                action = take_negative_generator;
                negative_candidate = some c;
                ignored_ids = associated_constraint_ids constraints id;
              },
              rw (chosen, negative_purpose, is) refl,
              (
                subst (λ l. Memᴰ c l) (sym e) in_negatives,
                ap (associated_constraint_ids constraints) (sym ((eq_iff _ id).0 equal)),
              ),
            ),
            refl,
          )

  pub choose_purpose-Fills :
      (config : OperationGeneratorConfig h) (constraints : List OperationConstraintRecord)
      (test_mode : TestMode) (scope : String)
      → FillsUnless
          (has_no_candidate config constraints test_mode scope)
          (IsPurpose config constraints)
          (choose_purpose h statistics config constraints test_mode scope)
  unfolding choose_purpose ignored_purpose
  choose_purpose-Fills config constraints happy_path scope = inr ((_, refl, tt), refl)
  choose_purpose-Fills config constraints exceptional scope =
      elim (Bool-cases (h.coin (scope ++ ":exceptional-action"))) [
        | inl e ↦ rw (choose_purpose, e) (negative_purpose-Fills config constraints scope)
        | inr e ↦ rw (choose_purpose, e) (by_constraints constraints)
      ]
    where
      by_constraints :
          (cs : List OperationConstraintRecord)
          → FillsUnless
              (is_empty cs)
              (IsPurpose config constraints)
              (ignored_purpose h statistics cs scope)
      by_constraints [] = inl (refl, refl)
      by_constraints (x ∷ xs) =
          let (c, is, m) =
            choice-Fills h (x ∷ xs) x (scope ++ ":ignored-constraint") in_range (Memᴰ.head refl) in
          inr (
            (
              record {
                action = take_ignored_constraint;
                negative_candidate = none;
                ignored_ids = c.id ∷ [];
              },
              rw (ignored_purpose, is) refl,
              tt,
            ),
            refl,
          )
