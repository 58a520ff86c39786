-- ===== src/Selection/Bandit.antt =====
-- `_epsilon_greedy`: the candidate that it takes, given how `random.choice` and floats behave.
use Prim.Native.String.{◌++◌}
use mathlib.Core.List.{Memᴰ}
use mathlib.Core.List.Memᴰ
use restscope.Prelude.{
  ◌≡◌, refl, sym, ap, subst, ◌∙◌, String, Bool, true, false, List, [], ◌∷◌, map, keep, arith,
  Bool-cases, inl, inr, ◌⊎◌,
}
use restscope.Selection.{
  SelectionHost, InputGeneratorConfig, CandidateKind, Statistics, sort_by, candidate_id, largest,
  reward, greedy, epsilon_greedy,
}
use restscope.Selection.Members.{
  IsInRange, Fills, choice-Fills, sort_by-Mem, Mem-sort_by, keep-Mem, Mem-keep,
}

-- The scores are totally preordered: they are no NaN.
pub record IsFloatOrder (h : SelectionHost) : Type 0 where
  pub eq_refl : (x : h.Float) → h.float_eq x x ≡ true
  pub eq_gt :
      (x y z : h.Float) → h.float_eq x y ≡ true → h.float_gt z y ≡ false → h.float_gt z x ≡ false
  pub gt_irrefl : (x : h.Float) → h.float_gt x x ≡ false
  pub gt_asymm : (x y : h.Float) → h.float_gt x y ≡ true → h.float_gt y x ≡ false
  pub le_trans :
      (x y z : h.Float) → h.float_gt x y ≡ false → h.float_gt y z ≡ false → h.float_gt x z ≡ false

module _ (h : SelectionHost) (ordered : IsFloatOrder h) {A : Type 0} (score : A → h.Float) where
  -- No score exceeds the largest, which is that of a member.
  largest-bound :
      (best : h.Float) (xs : List A)
      → (h.float_gt best (largest h best (map score xs)) ≡ false)
        × ((y : A) → Memᴰ y xs → h.float_gt (score y) (largest h best (map score xs)) ≡ false)
  unfolding largest
  largest-bound best [] = (ordered.gt_irrefl best, λ y m. absurd (Memᴰ.not-nil m))
  largest-bound best (x ∷ xs) = elim (Bool-cases (h.float_gt (score x) best)) [
    | inl more ↦
        let (above, rest) = largest-bound (score x) xs in
        rw (largest, more)
          (
            ordered.le_trans best (score x) _ (ordered.gt_asymm (score x) best more) above,
            λ y m. elim (Memᴰ.cases_cons m) [
              | inl e ↦
                  subst (λ z. h.float_gt (score z) (largest h (score x) (map score xs)) ≡ false)
                    (sym e) above
              | inr n ↦ rest y n
            ],
          )
    | inr less ↦
        let (above, rest) = largest-bound best xs in
        rw (largest, less)
          (
            above,
            λ y m. elim (Memᴰ.cases_cons m) [
              | inl e ↦
                  subst (λ z. h.float_gt (score z) (largest h best (map score xs)) ≡ false) (sym e)
                    (ordered.le_trans (score x) best _ less above)
              | inr n ↦ rest y n
            ],
          )
  ]

  largest-found :
      (best : h.Float) (xs : List A)
      → (largest h best (map score xs) ≡ best)
        ⊎ ((y : A) × Memᴰ y xs × (largest h best (map score xs) ≡ score y))
  unfolding largest
  largest-found best [] = inl refl
  largest-found best (x ∷ xs) = elim (Bool-cases (h.float_gt (score x) best)) [
    | inl more ↦
        rw (largest, more)
          (elim (largest-found (score x) xs) [
            | inl e ↦ inr (x, Memᴰ.head refl, e)
            | inr (y, m, e) ↦ inr (y, Memᴰ.tail m, e)
          ])
    | inr less ↦
        rw (largest, less)
          (elim (largest-found best xs) [ inl e ↦ inl e | inr (y, m, e) ↦ inr (y, Memᴰ.tail m, e) ])
  ]

-- No candidate has a greater mean reward.
abbrev pub IsBest :
    (h : SelectionHost)
    → Statistics
    → {A : Type 0} → (A → InputGeneratorConfig h)
    → CandidateKind
    → List A
    → A
    → Type 0
IsBest h statistics {A} inherited_of kind candidates c =
    (y : A)
    → Memᴰ y candidates
    → h.float_gt (reward h statistics kind (inherited_of y))
        (reward h statistics kind (inherited_of c))
      ≡ false

module _ (h : SelectionHost) (statistics : Statistics) {A : Type 0}
    (inherited_of : A → InputGeneratorConfig h) (kind : CandidateKind) (in_range : IsInRange h)
    (ordered : IsFloatOrder h) where
  score_of : A → h.Float
  score_of y = reward h statistics kind (inherited_of y)

  greedy-Fills :
      (candidates : List A) (b : A) (scope : String)
      → Memᴰ b candidates
      → Fills
          (λ c. Memᴰ c candidates × IsBest h statistics inherited_of kind candidates c)
          (greedy h statistics inherited_of kind candidates scope)
  unfolding greedy score_of
  greedy-Fills [] b scope has = absurd (Memᴰ.not-nil has)
  greedy-Fills (x ∷ xs) b scope has =
      let best = largest h (score_of x) (map score_of xs) in
      let (above, bound) = largest-bound h ordered score_of (score_of x) xs in
      let (y, in_list, same) : (y : A) × Memᴰ y (x ∷ xs) × (best ≡ score_of y) =
        elim (largest-found h ordered score_of (score_of x) xs) [
          | inl e ↦ (x, Memᴰ.head refl, e)
          | inr (z, m, e) ↦ (z, Memᴰ.tail m, e)
        ] in
      let is_best : A → Bool = λ z. h.float_eq (score_of z) best in
      let (c, is, kept) =
        choice-Fills h (keep is_best (x ∷ xs)) y (scope ++ ":greedy-tie") in_range (
          Mem-keep is_best y (x ∷ xs)
            (ap (λ s. h.float_eq (score_of y) s) same ∙ ordered.eq_refl (score_of y)) in_list) in
      let (member, equal) = keep-Mem is_best c (x ∷ xs) kept in
      (
        c,
        is,
        (
          member,
          λ z m. ordered.eq_gt (score_of c) best (score_of z) equal (elim (Memᴰ.cases_cons m) [
            | inl e ↦ subst (λ w. h.float_gt (score_of w) best ≡ false) (sym e) above
            | inr n ↦ bound z n
          ]),
        ),
      )

  -- From candidates, one is taken, and where the draw is not to explore, none has a greater mean
  -- reward, if `random.choice` draws a position of its list and the scores are totally preordered.
  pub epsilon_greedy-IsBest :
      (candidates : List A) (b : A) (scope : String)
      → Memᴰ b candidates
      → Fills
          (λ c.
            Memᴰ c candidates
            × (h.explores (scope ++ ":epsilon") ≡ false
                → IsBest h statistics inherited_of kind candidates c))
          (epsilon_greedy h statistics inherited_of kind candidates scope)
  unfolding epsilon_greedy
  epsilon_greedy-IsBest candidates b scope has =
      let key : A → String = λ y. candidate_id h (inherited_of y) in
      let sorted_has = Mem-sort_by key b candidates has in
      elim (Bool-cases (h.explores (scope ++ ":epsilon"))) [
        | inl e ↦
            let (c, is, m) =
              choice-Fills h (sort_by key candidates) b (scope ++ ":explore") in_range sorted_has in
            (
              c,
              rw (e, epsilon_greedy) is,
              (sort_by-Mem key c candidates m, λ no_draw. absurd (ground arith)),
            )
        | inr e ↦
            let (c, is, (m, best)) = greedy-Fills (sort_by key candidates) b scope sorted_has in
            (
              c,
              rw (e, epsilon_greedy) is,
              (
                sort_by-Mem key c candidates m,
                λ no_draw y n. best y (Mem-sort_by key y candidates n),
              ),
            )
      ]
