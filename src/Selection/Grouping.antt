-- ===== src/Selection/Grouping.antt =====
-- `positives_by_input`, whose keys are sorted.
use mathlib.Core.List.{Memᴰ}
use mathlib.Core.List.Memᴰ
use restscope.Prelude.{
  ◌≡◌, refl, sym, ap, subst, ◌∙◌, String, true, false, ◌||◌, none, some, List, [], ◌∷◌, map, All,
  contains, unique, text_gt, arith, Bool-cases, Option-cases, inl, inr, eq_iff, ◌==◌,
}
use restscope.Prelude.{◌++◌ as append}
use restscope.Prelude.Dicts.{Dict, get, put, keys}
use restscope.Selection.{SelectionHost, InputGeneratorConfig, insert_by, sort_by, add_positive}
use restscope.Selection.Choosing.{positive_input, group_positives, members_of}

contains-insert_by :
    (k x : String) (xs : List String)
    → contains k (insert_by (λ id. id) x xs) ≡ (k == x || contains k xs)
contains-insert_by k x [] = refl
contains-insert_by k x (y ∷ ys) = ground (arith, contains-insert_by k x ys)

pub contains-sort_by :
    (k : String) (xs : List String) → contains k (sort_by (λ id. id) xs) ≡ contains k xs
unfolding sort_by
contains-sort_by k [] = refl
contains-sort_by k (x ∷ xs) =
    contains-insert_by k x (sort_by (λ id. id) xs) ∙ rw (contains-sort_by k xs) refl

unique-insert_by :
    (x : String) (xs : List String)
    → contains x xs ≡ false
    → unique xs ≡ true
    → unique (insert_by (λ id. id) x xs) ≡ true
unique-insert_by x [] new once = refl
unique-insert_by x (y ∷ ys) new once = elim (Bool-cases (text_gt x y)) [
  | inl more ↦
      rw (more, contains-insert_by y x ys)
        (ground (arith, unique-insert_by x ys, eq_iff x y, eq_iff y x))
  | inr other ↦ ground arith
]

pub unique-sort_by : (xs : List String) → unique xs ≡ true → unique (sort_by (λ id. id) xs) ≡ true
unfolding sort_by
unique-sort_by [] once = refl
unique-sort_by (x ∷ xs) once =
    unique-insert_by x (sort_by (λ id. id) xs) (contains-sort_by x xs ∙ ground arith)
      (unique-sort_by xs (ground arith))

module _ {A : Type 0} where
  contains-keys-put :
      (j k : String) (v : A) (d : Dict A)
      → contains j (keys (put k v d)) ≡ (j == k || contains j (keys d))
  contains-keys-put j k v [] = refl
  contains-keys-put j k v ((i, w) ∷ d) = elim (Bool-cases (k == i)) [
    | inl same ↦ rw same (ground (arith, ap (λ x. j == x) ((eq_iff k i).0 same)))
    | inr other ↦ rw other (ground (arith, contains-keys-put j k v d))
  ]

  unique-keys-put :
      (k : String) (v : A) (d : Dict A) → unique (keys d) ≡ true → unique (keys (put k v d)) ≡ true
  unique-keys-put k v [] once = refl
  unique-keys-put k v ((i, w) ∷ d) once = elim (Bool-cases (k == i)) [
    | inl same ↦ rw same once
    | inr other ↦
        rw (other, contains-keys-put i k v d)
          (ground (arith, unique-keys-put k v d, eq_iff k i, eq_iff i k))
  ]

  contains-get :
      (k : String) (d : Dict A) → contains k (keys d) ≡ true → (v : A) × (get k d ≡ some v)
  contains-get k [] has = absurd (ground arith)
  contains-get k ((i, w) ∷ d) has = elim (Bool-cases (k == i)) [
    | inl same ↦ (w, rw same refl)
    | inr other ↦ let (v, is) = contains-get k d (ground arith) in (v, rw other is)
  ]

  -- What holds of every item holds of the one that is read, and after a write.
  get-All :
      (P : String → A → Type 0) (k : String) (v : A) (d : Dict A)
      → All (λ item. P item.0 item.1) d
      → get k d ≡ some v
      → P k v
  get-All P k v [] holds is = absurd (ground arith)
  get-All P k v ((i, w) ∷ d) (p, ps) is = elim (Bool-cases (k == i)) [
    | inl same ↦
        let here : some w ≡ some v = ground arith in
        subst (λ z. P z v) (sym ((eq_iff k i).0 same))
          (subst (P i) (ap {B = A} (λ o. elim o [ none ↦ w | some x ↦ x ]) here) p)
    | inr other ↦ get-All P k v d ps (ground arith)
  ]

  put-All :
      (P : String → A → Type 0) (k : String) (v : A) (d : Dict A)
      → All (λ item. P item.0 item.1) d
      → P k v
      → All (λ item. P item.0 item.1) (put k v d)
  put-All P k v [] holds p = (p, tt)
  put-All P k v ((i, w) ∷ d) (q, qs) p = elim (Bool-cases (k == i)) [
    | inl same ↦ rw same (subst (λ z. P z v) ((eq_iff k i).0 same) p, qs)
    | inr other ↦ rw other (q, put-All P k v d qs p)
  ]

module _ {A : Type 0} where
  pub append_one-Mem : (a y : A) (xs : List A) → Memᴰ a (append xs (y ∷ [])) → Memᴰ a (y ∷ xs)
  append_one-Mem a y [] m = m
  append_one-Mem a y (x ∷ xs) m = elim (Memᴰ.cases_cons m) [
    | inl same ↦ Memᴰ.tail (Memᴰ.head same)
    | inr n ↦ elim (Memᴰ.cases_cons (append_one-Mem a y xs n)) [
      | inl last ↦ Memᴰ.head last
      | inr k ↦ Memᴰ.tail (Memᴰ.tail k)
    ]
  ]

  Mem-append_one : (y : A) (xs : List A) → Memᴰ y (append xs (y ∷ []))
  Mem-append_one y [] = Memᴰ.head refl
  Mem-append_one y (x ∷ xs) = Memᴰ.tail (Mem-append_one y xs)

module _ {h : SelectionHost} (source : List (InputGeneratorConfig h)) where
  -- A group is not empty, and its members are candidates for its input.
  abbrev pub IsGroup : String → List (InputGeneratorConfig h) → Type 0
  IsGroup id members =
      ((b : InputGeneratorConfig h) × Memᴰ b members)
      × ((c : InputGeneratorConfig h) → Memᴰ c members → Memᴰ c source × (c.input_node_id ≡ id))

  abbrev pub AreGroups : Dict (List (InputGeneratorConfig h)) → Type 0
  AreGroups groups = All (λ group. IsGroup group.0 group.1) groups

  add_positive-AreGroups :
      (item : InputGeneratorConfig h) (groups : Dict (List (InputGeneratorConfig h)))
      → Memᴰ item source
      → AreGroups groups
      → AreGroups (add_positive item.input_node_id item groups)
  add_positive-AreGroups item groups in_source are =
      elim (Option-cases (get item.input_node_id groups)) [
        | inl new ↦
            rw (new, add_positive)
              (put-All IsGroup item.input_node_id (item ∷ []) groups are (
                (item, Memᴰ.head refl),
                λ c m. elim (Memᴰ.cases_cons m) [
                  | inl same ↦
                      (subst (λ x. Memᴰ x source) (sym same) in_source, ap positive_id same)
                  | inr n ↦ absurd (Memᴰ.not-nil n)
                ],
              ))
        | inr (members, found) ↦
            let old : IsGroup item.input_node_id members =
              get-All IsGroup item.input_node_id members groups are found in
            rw (found, add_positive)
              (put-All IsGroup item.input_node_id (append members (item ∷ [])) groups are (
                (item, Mem-append_one item members),
                λ c m. elim (Memᴰ.cases_cons (append_one-Mem c item members m)) [
                  | inl same ↦
                      (subst (λ x. Memᴰ x source) (sym same) in_source, ap positive_id same)
                  | inr n ↦ old.1 c n
                ],
              ))
      ]
    where
      positive_id : InputGeneratorConfig h → String
      positive_id c = c.input_node_id

  pub group_positives-AreGroups :
      (items : List (InputGeneratorConfig h)) (groups : Dict (List (InputGeneratorConfig h)))
      → ((c : InputGeneratorConfig h) → Memᴰ c items → Memᴰ c source)
      → AreGroups groups
      → AreGroups (group_positives h items groups)
  unfolding group_positives
  group_positives-AreGroups [] groups within are = are
  group_positives-AreGroups (item ∷ items) groups within are =
      group_positives-AreGroups items (add_positive item.input_node_id item groups)
        (λ c m. within c (Memᴰ.tail m))
        (add_positive-AreGroups item groups (within item (Memᴰ.head refl)) are)

  pub members_of-IsGroup :
      (id : String) (groups : Dict (List (InputGeneratorConfig h)))
      → AreGroups groups
      → contains id (keys groups) ≡ true
      → IsGroup id (members_of h groups id)
  members_of-IsGroup id groups are has =
      let (members, found) = contains-get id groups has in
      rw (found, members_of) (get-All IsGroup id members groups are found)

module _ (h : SelectionHost) where
  contains-keys-add_positive :
      (k id : String) (item : InputGeneratorConfig h)
      (groups : Dict (List (InputGeneratorConfig h)))
      → contains k (keys (add_positive id item groups)) ≡ (k == id || contains k (keys groups))
  contains-keys-add_positive k id item groups = elim (Option-cases (get id groups)) [
    | inl new ↦ rw (new, add_positive) (contains-keys-put k id (item ∷ []) groups)
    | inr (members, found) ↦
        rw (found, add_positive) (contains-keys-put k id (append members (item ∷ [])) groups)
  ]

  unique-keys-add_positive :
      (id : String) (item : InputGeneratorConfig h) (groups : Dict (List (InputGeneratorConfig h)))
      → unique (keys groups) ≡ true
      → unique (keys (add_positive id item groups)) ≡ true
  unique-keys-add_positive id item groups once = elim (Option-cases (get id groups)) [
    | inl new ↦ rw (new, add_positive) (unique-keys-put id (item ∷ []) groups once)
    | inr (members, found) ↦
        rw (found, add_positive) (unique-keys-put id (append members (item ∷ [])) groups once)
  ]

  pub contains-keys-group_positives :
      (k : String) (items : List (InputGeneratorConfig h))
      (groups : Dict (List (InputGeneratorConfig h)))
      → contains k (keys (group_positives h items groups))
        ≡ (contains k (map (positive_input h) items) || contains k (keys groups))
  unfolding group_positives
  contains-keys-group_positives k [] groups = refl
  contains-keys-group_positives k (item ∷ items) groups =
      contains-keys-group_positives k items (add_positive item.input_node_id item groups)
      ∙ rw (contains-keys-add_positive k item.input_node_id item groups) (ground arith)

  pub unique-keys-group_positives :
      (items : List (InputGeneratorConfig h)) (groups : Dict (List (InputGeneratorConfig h)))
      → unique (keys groups) ≡ true
      → unique (keys (group_positives h items groups)) ≡ true
  unfolding group_positives
  unique-keys-group_positives [] groups once = once
  unique-keys-group_positives (item ∷ items) groups once =
      unique-keys-group_positives items (add_positive item.input_node_id item groups)
        (unique-keys-add_positive item.input_node_id item groups once)
