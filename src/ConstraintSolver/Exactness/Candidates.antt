-- ===== src/ConstraintSolver/Exactness/Candidates.antt =====
-- The loop of the solver over the candidates of a unit.
use restscope.Prelude.{
  ℕ, ◌≤◌, ◌≡◌, refl, ap, sym, ◌∙◌, subst, Bool, true, false, Option, none, some, List, [], ◌∷◌,
  ◌++◌, ◌⊎◌, inl, inr, String, All, arith, Bool-cases, if◌then◌else◌,
}
use restscope.Prelude.Dicts.{
  IsFresh, keys, put_all, put_all-new, put_all-old, pop_all, pop_all-old, pop_all-new,
}
use restscope.Constraints.Values.{Host}
use restscope.ConstraintSolver.Candidates.{Overrides}
use restscope.ConstraintSolver.Search.{
  SearchState, Problem, Searched, select, is_pruned, search_candidates,
}
use restscope.ConstraintSolver.Choices.{extend, first, first-none, first-found, length-extend}
use restscope.ConstraintSolver.Exactness.Endings.{Behaviour, Failed, Ended, Runs, Ended-skip}

module _ {h : Host} where
  abbrev pub Left : List String → Overrides h → Overrides h → Type 0
  Left ids selected x = (x ≡ selected) ⊎ ((b : Overrides h) × (keys b ≡ ids) × (x ≡ selected ++ b))

  -- Whatever the candidate before it left behind, a candidate is selected behind the selection.
  pub put_all-Left :
      (ids : List String) (selected x c : Overrides h)
      → IsFresh ids (keys selected)
      → keys c ≡ ids
      → Left ids selected x
      → put_all x c ≡ selected ++ c
  put_all-Left ids selected x c fresh same left =
      let fresh_keys : IsFresh (keys c) (keys selected) =
        subst (λ ks. IsFresh ks (keys selected)) (sym same) fresh in
      elim left [
        | inl e ↦ ap (λ d. put_all d c) e ∙ put_all-new selected c fresh_keys
        | inr (b, keys_b, e) ↦
            ap (λ d. put_all d c) e ∙ put_all-old selected b c (keys_b ∙ sym same) fresh_keys
      ]

  pub pop_all-Left :
      (ids : List String) (selected x : Overrides h)
      → IsFresh ids (keys selected)
      → Left ids selected x
      → pop_all ids x ≡ selected
  pop_all-Left ids selected x fresh left = elim left [
    | inl e ↦ ap (pop_all ids) e ∙ pop_all-new ids selected fresh
    | inr (b, keys_b, e) ↦
        ap (pop_all ids) e
        ∙ ap (λ ks. pop_all ks (selected ++ b)) (sym keys_b)
        ∙ pop_all-old selected b (subst (λ ks. IsFresh ks (keys selected)) (sym keys_b) fresh)
  ]

module _ {h : Host} {problem : Problem h} (behaviour : Behaviour problem) where
  open behaviour use {Good, joined, good_nil, prune, result, is_pruned_is, accepted_is, prune_sound}

  first-pruned :
      (selected : Overrides h) (ps : List (Overrides h))
      → Good selected
      → All Good ps
      → prune selected ≡ true
      → first result selected ps ≡ none
  first-pruned selected ps good goods pruned = first-none result selected ps (all_none ps goods)
    where
      all_none :
          (qs : List (Overrides h)) → All Good qs → All (λ p. result (selected ++ p) ≡ none) qs
      all_none [] tt = tt
      all_none (p ∷ qs) (g, gs) = (prune_sound selected p good g pruned, all_none qs gs)

  -- What the search of the units after a candidate does.
  abbrev pub NextRuns : (SearchState h → Searched h) → Overrides h → List (Overrides h) → Type 0
  NextRuns search_next selected ps =
      (s : SearchState h)
      → s.selected ≡ selected
      → s.exhausted ≡ false
      → s.explored ≤ problem.max_search_states
      → Runs behaviour (search_next s) selected ps s.explored (λ x. x ≡ selected)

  module _ (search_next : SearchState h → Searched h) (last : Bool) (ids : List String)
      (selected : Overrides h) (ps : List (Overrides h)) (good : Good selected)
      (goods : All Good ps) (fresh : IsFresh ids (keys selected))
      (next_runs : (c : Overrides h)
        → keys c ≡ ids
        → Good c
        → NextRuns search_next (selected ++ c) ps) where
    decided :
        (c x : Overrides h)
        → x ≡ selected ++ c
        → Good c
        → (if last then some false else is_pruned problem x)
          ≡ some (if last then false else prune (selected ++ c))
    decided c x e good_c =
        let pruned : is_pruned problem x ≡ some (prune (selected ++ c)) =
          ap (is_pruned problem) e ∙ is_pruned_is (selected ++ c) (joined selected c good good_c) in
        ground arith

    abbrev proceed : SearchState h → Option (Overrides h) → Searched h → Searched h
    proceed after (some o) rest = some (after, some o)
    proceed after none rest = if after.exhausted then some (after, none) else rest

    search_candidates-pruned :
        (c : Overrides h) (cs : List (Overrides h)) (s : SearchState h)
        → let chosen = select (put_all s.selected c) s in
          (if last then some false else is_pruned problem chosen.selected) ≡ some true
          → search_candidates problem search_next last (c ∷ cs) s
            ≡ search_candidates problem search_next last cs chosen
    unfolding search_candidates
    search_candidates-pruned c cs s e = rw (e, search_candidates) refl

    search_candidates-kept :
        (c : Overrides h) (cs : List (Overrides h)) (s after : SearchState h)
        (r : Option (Overrides h))
        → let chosen = select (put_all s.selected c) s in
          (if last then some false else is_pruned problem chosen.selected) ≡ some false
          → search_next chosen ≡ some (after, r)
          → search_candidates problem search_next last (c ∷ cs) s
            ≡ proceed after r (search_candidates problem search_next last cs after)
    unfolding search_candidates
    search_candidates-kept c cs s after (some o) e f = rw (e, f, search_candidates) refl
    search_candidates-kept c cs s after none e f =
        rw (e, f, search_candidates) (Bool-elim after.exhausted)
      where
        Bool-elim :
            (b : Bool)
            → elim b [
              | true ↦ some (after, none)
              | false ↦ search_candidates problem search_next last cs after
            ]
              ≡ (if b
                  then some (after, none)
                  else search_candidates problem search_next last cs after)
        Bool-elim true = refl
        Bool-elim false = refl

    -- What the loop does after the search behind a candidate.
    proceed-Runs :
        (c : Overrides h) (cs : List (Overrides h)) (e : ℕ) (after : SearchState h)
        (r : Option (Overrides h)) (out rest : Searched h)
        → keys c ≡ ids
        → out ≡ proceed after r rest
        → Ended behaviour (selected ++ c) ps e (λ x. x ≡ selected ++ c) after r
        → (Left ids selected after.selected
            → after.exhausted ≡ false
            → after.explored ≤ problem.max_search_states
            → Runs behaviour rest selected (extend cs ps) after.explored (Left ids selected))
        → Runs behaviour out selected (extend (c ∷ cs) ps) e (Left ids selected)
    proceed-Runs c cs e after (some o) out rest keys_c is (found, count) resume =
        (after, some o, is, (first-found result selected c o ps (extend cs ps) found, count))
    proceed-Runs c cs e after none out rest keys_c is ended resume =
        elim (Bool-cases after.exhausted) [
          | inl full ↦
              let over : Failed behaviour true (selected ++ c) ps e (λ x. x ≡ selected ++ c) after =
                subst (λ b. Failed behaviour b (selected ++ c) ps e (λ x. x ≡ selected ++ c) after)
                  full ended in
              (
                after,
                none,
                is ∙ rw full refl,
                subst
                    (λ b.
                      Failed behaviour b selected (extend (c ∷ cs) ps) e (Left ids selected) after)
                    (sym full) (over.0, omega (arith, over.1, length-extend c ps (extend cs ps))),
              )
          | inr under ↦
              let through : Failed behaviour false (selected ++ c) ps e (λ x. x ≡ selected ++ c)
                  after =
                subst (λ b. Failed behaviour b (selected ++ c) ps e (λ x. x ≡ selected ++ c) after)
                  under ended in
              let later = resume (inr (c, keys_c, through.1)) under through.2 in
              (
                later.0,
                later.1,
                is ∙ rw under later.2,
                Ended-skip behaviour selected c ps (extend cs ps) e after.explored
                    (Left ids selected) later.0 later.1 through.0 through.3 later.3,
              )
        ]

    pub search_candidates-Runs :
        (cs : List (Overrides h)) (s : SearchState h)
        → All (λ c. keys c ≡ ids) cs
        → All Good cs
        → Left ids selected s.selected
        → s.exhausted ≡ false
        → s.explored ≤ problem.max_search_states
        → Runs behaviour
            (search_candidates problem search_next last cs s)
            selected
            (extend cs ps)
            s.explored
            (Left ids selected)
    unfolding search_candidates
    search_candidates-Runs [] s all_keys all_good left on bound = (
      s,
      none,
      refl,
      subst (λ b. Failed behaviour b selected [] s.explored (Left ids selected) s) (sym on)
          (refl, left, bound, omega arith),
    )
    search_candidates-Runs (c ∷ cs) s (keys_c, all_keys) (good_c, all_good) left on bound =
        let chosen = select (put_all s.selected c) s in
        let sel : chosen.selected ≡ selected ++ c =
          put_all-Left ids selected s.selected c fresh keys_c left in
        let dec = decided c chosen.selected sel good_c in
        elim (Bool-cases (if last then false else prune (selected ++ c))) [
          | inl pruned ↦
              let rest =
                search_candidates-Runs cs chosen all_keys all_good (inr (c, keys_c, sel)) on
                  bound in
              let nothing =
                first-pruned (selected ++ c) ps (joined selected c good good_c) goods
                  (ground arith) in
              (
                rest.0,
                rest.1,
                search_candidates-pruned c cs s (dec ∙ ap some pruned) ∙ rest.2,
                Ended-skip behaviour selected c ps (extend cs ps) s.explored s.explored
                    (Left ids selected) rest.0 rest.1 nothing (omega arith) rest.3,
              )
          | inr kept ↦
              let next = next_runs c keys_c good_c chosen sel on bound in
              proceed-Runs c cs s.explored next.0 next.1
                (search_candidates problem search_next last (c ∷ cs) s)
                (search_candidates problem search_next last cs next.0) keys_c
                (search_candidates-kept c cs s next.0 next.1 (dec ∙ ap some kept) next.2) next.3
                (λ left_behind under count.
                  search_candidates-Runs cs next.0 all_keys all_good left_behind under count)
        ]
