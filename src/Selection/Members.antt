-- ===== src/Selection/Members.antt =====
-- `random.choice`, and the members of the lists that the selection makes.

use mathlib.Core.List.{Memᴰ}
use mathlib.Core.List.Memᴰ
use restscope.Prelude.{
  ◌⊎◌, ℕ, zero, suc, ◌<◌, ◌≡◌, refl, ap, subst, ◌∙◌, String, Bool, true, false, List, [], ◌∷◌, keep,
  length, arith, Bool-cases, inl, inr, text_gt,
}
use restscope.Selection.{
  SelectionHost, Slot, filled, skipped, insert_by, sort_by, element_at, choice,
}

-- `random.choice` draws a position of the list.
abbrev pub IsInRange : SelectionHost → Type 0
IsInRange h = (scope : String) (n : ℕ) → h.position scope (suc n) < suc n

-- The slot is filled with a value of which `P` holds.
abbrev pub Fills : {A : Type 0} → (A → Type 0) → Slot A → Type 0
Fills {A} P slot = (a : A) × (slot ≡ filled a) × P a

-- A slot is skipped exactly if `b`, and otherwise filled.
abbrev pub FillsUnless : {A : Type 0} → Bool → (A → Type 0) → Slot A → Type 0
FillsUnless b P slot = ((slot ≡ skipped) × (b ≡ true)) ⊎ (Fills P slot × (b ≡ false))

module _ {A : Type 0} where
  element_at-Fills :
      (i : ℕ) (xs : List A) → i < length xs → Fills (λ a. Memᴰ a xs) (element_at i xs)
  element_at-Fills i [] lt = absurd (omega arith)
  element_at-Fills zero (x ∷ xs) lt = (x, refl, Memᴰ.head refl)
  element_at-Fills (suc i) (x ∷ xs) lt =
      let (a, is, m) = element_at-Fills i xs (omega arith) in (a, is, Memᴰ.tail m)

  pub choice-Fills :
      (h : SelectionHost) (values : List A) (b : A) (scope : String)
      → IsInRange h
      → Memᴰ b values
      → Fills (λ a. Memᴰ a values) (choice h values scope)
  unfolding choice
  choice-Fills h [] b scope in_range has = absurd (Memᴰ.not-nil has)
  choice-Fills h (x ∷ xs) b scope in_range has =
      element_at-Fills _ (x ∷ xs) (in_range scope (length xs))

  -- A member of a list with another head.
  Mem-cons :
      (a x : A) (xs ys : List A) → (Memᴰ a xs → Memᴰ a ys) → Memᴰ a (x ∷ xs) → Memᴰ a (x ∷ ys)
  Mem-cons a x xs ys under (Memᴰ.head e) = Memᴰ.head e
  Mem-cons a x xs ys under (Memᴰ.tail m) = Memᴰ.tail (under m)

  Mem-swap : (a x y : A) (xs : List A) → Memᴰ a (x ∷ (y ∷ xs)) → Memᴰ a (y ∷ (x ∷ xs))
  Mem-swap a x y xs (Memᴰ.head e) = Memᴰ.tail (Memᴰ.head e)
  Mem-swap a x y xs (Memᴰ.tail (Memᴰ.head e)) = Memᴰ.head e
  Mem-swap a x y xs (Memᴰ.tail (Memᴰ.tail m)) = Memᴰ.tail (Memᴰ.tail m)

  module _ (key : A → String) where
    insert_by-Mem : (a x : A) (xs : List A) → Memᴰ a (insert_by key x xs) → Memᴰ a (x ∷ xs)
    insert_by-Mem a x [] m = m
    insert_by-Mem a x (y ∷ ys) m = elim (Bool-cases (text_gt (key x) (key y))) [
      | inl more ↦ Mem-swap a y x ys (
          Mem-cons a y (insert_by key x ys) (x ∷ ys) (insert_by-Mem a x ys)
            (subst (λ t. Memᴰ a t) (rw more refl) m))
      | inr other ↦ subst (λ t. Memᴰ a t) (rw other refl) m
    ]

    Mem-insert_by : (a x : A) (xs : List A) → Memᴰ a (x ∷ xs) → Memᴰ a (insert_by key x xs)
    Mem-insert_by a x [] m = m
    Mem-insert_by a x (y ∷ ys) m = elim (Bool-cases (text_gt (key x) (key y))) [
      | inl more ↦
          rw more (
            Mem-cons a y (x ∷ ys) (insert_by key x ys) (Mem-insert_by a x ys) (Mem-swap a x y ys m))
      | inr other ↦ rw other m
    ]

    pub sort_by-Mem : (a : A) (xs : List A) → Memᴰ a (sort_by key xs) → Memᴰ a xs
    unfolding sort_by
    sort_by-Mem a [] m = m
    sort_by-Mem a (x ∷ xs) m =
        Mem-cons a x (sort_by key xs) xs (sort_by-Mem a xs) (insert_by-Mem a x (sort_by key xs) m)

    pub Mem-sort_by : (a : A) (xs : List A) → Memᴰ a xs → Memᴰ a (sort_by key xs)
    unfolding sort_by
    Mem-sort_by a [] m = m
    Mem-sort_by a (x ∷ xs) m =
        Mem-insert_by a x (sort_by key xs) (Mem-cons a x xs (sort_by key xs) (Mem-sort_by a xs) m)

  pub keep-Mem :
      (p : A → Bool) (a : A) (xs : List A) → Memᴰ a (keep p xs) → Memᴰ a xs × (p a ≡ true)
  keep-Mem p a [] m = absurd (Memᴰ.not-nil m)
  keep-Mem p a (x ∷ xs) m = elim (Bool-cases (p x)) [
    | inl e ↦ elim (Memᴰ.cases_cons (subst (λ t. Memᴰ a t) (rw e refl) m)) [
      | inl same ↦ (Memᴰ.head same, ap p same ∙ e)
      | inr n ↦ let (k, holds) = keep-Mem p a xs n in (Memᴰ.tail k, holds)
    ]
    | inr e ↦
        let (n, holds) = keep-Mem p a xs (subst (λ t. Memᴰ a t) (rw e refl) m) in
        (Memᴰ.tail n, holds)
  ]

  pub Mem-keep : (p : A → Bool) (a : A) (xs : List A) → p a ≡ true → Memᴰ a xs → Memᴰ a (keep p xs)
  Mem-keep p a [] holds m = m
  Mem-keep p a (x ∷ xs) holds m = elim (Bool-cases (p x)) [
    | inl e ↦ rw e (Mem-cons a x xs (keep p xs) (Mem-keep p a xs holds) m)
    | inr e ↦ rw e (elim (Memᴰ.cases_cons m) [
      | inl same ↦ absurd (ground (arith, ap p same))
      | inr n ↦ Mem-keep p a xs holds n
    ])
  ]
