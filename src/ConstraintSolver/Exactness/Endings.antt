-- ===== src/ConstraintSolver/Exactness/Endings.antt =====
-- How a search of the solver may end, and its last step.
use restscope.Prelude.{
  ℕ, suc, ◌+◌, ◌≤◌, ◌<◌, ◌≡◌, refl, ap, sym, ◌∙◌, subst, Bool, true, false, Option, none, some,
  List, [], ◌∷◌, ◌++◌, inl, inr, length, arith, Bool-cases, map, leb,
}
use restscope.Constraints.Values.{Host}
use restscope.ConstraintSolver.Candidates.{Overrides}
use restscope.ConstraintSolver.Search.{
  SearchState, Problem, Searched, is_pruned, accepted, search_leaf,
}
use restscope.ConstraintSolver.Choices.{or_else, first, first-skip, length-extend}

-- What the search needs to know of the candidates: those that it may meet, and for them what is pruned
-- and what is accepted. What is pruned has no result, however it is completed.
pub record Behaviour {h : Host} (problem : Problem h) : Type 1 where
  pub Good : Overrides h → Type 0
  pub joined : (a b : Overrides h) → Good a → Good b → Good (a ++ b)
  pub good_nil : Good []
  pub prune : Overrides h → Bool
  pub result : Overrides h → Option (Overrides h)
  pub is_pruned_is : (s : Overrides h) → Good s → is_pruned problem s ≡ some (prune s)
  pub accepted_is : (s : Overrides h) → Good s → accepted problem s ≡ some (result s)
  pub prune_sound : (s p : Overrides h) → Good s → Good p → prune s ≡ true → result (s ++ p) ≡ none

append_nil : {A : Type 0} (xs : List A) → xs ++ [] ≡ xs
append_nil [] = refl
append_nil (x ∷ xs) = ap (λ t. x ∷ t) (append_nil xs)

module _ {h : Host} {problem : Problem h} (behaviour : Behaviour problem) where
  open behaviour use {Good, joined, good_nil, prune, result, is_pruned_is, accepted_is, prune_sound}

  -- A search without a result: over the limit, or through all choices.
  abbrev pub Failed :
      Bool → Overrides h → List (Overrides h) → ℕ → (Overrides h → Type 0) → SearchState h → Type 0
  Failed true selected ps explored Left after =
      (after.explored ≡ problem.max_search_states)
      × (problem.max_search_states < explored + length ps)
  Failed false selected ps explored Left after =
      (first result selected ps ≡ none)
      × Left after.selected
      × (after.explored ≤ problem.max_search_states)
      × (after.explored ≤ explored + length ps)

  abbrev pub Ended :
      Overrides h
      → List (Overrides h)
      → ℕ
      → (Overrides h → Type 0)
      → SearchState h
      → Option (Overrides h)
      → Type 0
  Ended selected ps explored Left after (some o) =
      (first result selected ps ≡ some o) × (after.explored ≤ problem.max_search_states)
  Ended selected ps explored Left after none =
      Failed after.exhausted selected ps explored Left after

  abbrev pub Runs :
      Searched h → Overrides h → List (Overrides h) → ℕ → (Overrides h → Type 0) → Type 0
  Runs out selected ps explored Left =
      (after : SearchState h) × (r : Option (Overrides h)) × (out ≡ some (after, r))
      × Ended selected ps explored Left after r

  first-leaf : (selected : Overrides h) → first result selected ([] ∷ []) ≡ result selected
  first-leaf selected = ap (λ x. or_else (result x) none) (append_nil selected) ∙ or_else_none _
    where
      or_else_none : {A : Type 0} (o : Option A) → or_else o none ≡ o
      or_else_none none = refl
      or_else_none (some a) = refl

  leaf-Ended :
      (selected : Overrides h) (n : ℕ) (after : SearchState h) (r : Option (Overrides h))
      → result selected ≡ r
      → after.selected ≡ selected
      → after.exhausted ≡ false
      → after.explored ≡ suc n
      → n < problem.max_search_states
      → Ended selected ([] ∷ []) n (λ x. x ≡ selected) after r
  leaf-Ended selected n after (some o) found same on counted bound =
      (first-leaf selected ∙ found, omega arith)
  leaf-Ended selected n after none found same on counted bound =
      subst (λ b. Failed b selected ([] ∷ []) n (λ x. x ≡ selected) after) (sym on)
        (first-leaf selected ∙ found, same, omega arith, omega arith)

  over_limit :
      (n : ℕ)
      → leb problem.max_search_states n ≡ true
      → n ≤ problem.max_search_states
      → (n ≡ problem.max_search_states) × (problem.max_search_states < n + 1)
  over_limit n full bound = (ground arith, ground arith)

  pub search_leaf-Runs :
      (selected : Overrides h) (s : SearchState h)
      → Good selected
      → s.selected ≡ selected
      → s.exhausted ≡ false
      → s.explored ≤ problem.max_search_states
      → Runs (search_leaf problem s) selected ([] ∷ []) s.explored (λ x. x ≡ selected)
  unfolding search_leaf
  search_leaf-Runs selected s good same on bound =
      elim (Bool-cases (leb problem.max_search_states s.explored)) [
        | inl full ↦ (
          record { selected = s.selected; explored = s.explored; exhausted = true },
          none,
          rw full refl,
          over_limit s.explored full bound,
        )
        | inr below ↦
            let evaluated : accepted problem s.selected ≡ some (result selected) =
              ap (accepted problem) same ∙ accepted_is selected good in
            let after : SearchState h = record {
              selected = s.selected;
              explored = suc s.explored;
              exhausted = s.exhausted;
            } in
            (
              after,
              result selected,
              rw (below, evaluated) refl,
              leaf-Ended selected s.explored after (result selected) refl same on refl
                  (ground arith),
            )
      ]

  pub Ended-skip :
      (selected c : Overrides h) (ps qs : List (Overrides h)) (e d : ℕ)
      (Left : Overrides h → Type 0) (after : SearchState h) (r : Option (Overrides h))
      → first result (selected ++ c) ps ≡ none
      → d ≤ e + length ps
      → Ended selected qs d Left after r
      → Ended selected (map (λ p. c ++ p) ps ++ qs) e Left after r
  Ended-skip selected c ps qs e d Left after (some o) nothing le (found, bound) =
      (first-skip result selected c ps qs nothing ∙ found, bound)
  Ended-skip selected c ps qs e d Left after none nothing le failed =
      Failed-skip after.exhausted failed
    where
      Failed-skip :
          (b : Bool)
          → Failed b selected qs d Left after
          → Failed b selected (map (λ p. c ++ p) ps ++ qs) e Left after
      Failed-skip true (full, over) = (full, omega (arith, length-extend c ps qs))
      Failed-skip false (none_later, left, bound, count) = (
        first-skip result selected c ps qs nothing ∙ none_later,
        left,
        bound,
        omega (arith, length-extend c ps qs),
      )
