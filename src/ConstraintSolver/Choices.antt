-- ===== src/ConstraintSolver/Choices.antt =====
-- The brute force that the search is compared with: every way to take one candidate of each unit, and
-- the first of them that has a result.
use restscope.Prelude.{
  suc, ◌≡◌, refl, ap, ◌∙◌, Option, none, some, List, [], ◌∷◌, ◌++◌, map, length, All, All-append,
  arith, ◌+◌, length-append,
}
use restscope.Prelude.Dicts.{append_assoc}
use restscope.Constraints.Values.{Host}
use restscope.ConstraintSolver.Candidates.{Overrides}
use restscope.ConstraintSolver.Search.{SearchUnit}

abbrev pub extend : {h : Host} → List (Overrides h) → List (Overrides h) → List (Overrides h)
extend [] ps = []
extend (c ∷ cs) ps = map (λ p. c ++ p) ps ++ extend cs ps

-- The choices for all units, in the order of the candidates.
abbrev pub choices : {h : Host} → List (SearchUnit h) → List (Overrides h)
choices [] = [] ∷ []
choices (unit ∷ units) = extend unit.candidates (choices units)

abbrev pub or_else : {A : Type 0} → Option A → Option A → Option A
or_else (some a) b = some a
or_else none b = b

module _ {h : Host} (result : Overrides h → Option (Overrides h)) where
  abbrev pub first : Overrides h → List (Overrides h) → Option (Overrides h)
  first selected [] = none
  first selected (p ∷ ps) = or_else (result (selected ++ p)) (first selected ps)

  pub first-append :
      (selected : Overrides h) (ps qs : List (Overrides h))
      → first selected (ps ++ qs) ≡ or_else (first selected ps) (first selected qs)
  first-append selected [] qs = refl
  first-append selected (p ∷ ps) qs = ground (arith, first-append selected ps qs)

  pub first-map :
      (selected c : Overrides h) (ps : List (Overrides h))
      → first selected (map (λ p. c ++ p) ps) ≡ first (selected ++ c) ps
  first-map selected c [] = refl
  first-map selected c (p ∷ ps) =
      cc (ap result (append_assoc selected c p), first-map selected c ps)

  pub first-none :
      (selected : Overrides h) (ps : List (Overrides h))
      → All (λ p. result (selected ++ p) ≡ none) ps
      → first selected ps ≡ none
  first-none selected [] all_none = refl
  first-none selected (p ∷ ps) (this, all_none) = rw this (first-none selected ps all_none)

  -- To look behind the choices with a candidate that has no result.
  pub first-skip :
      (selected c : Overrides h) (ps qs : List (Overrides h))
      → first (selected ++ c) ps ≡ none
      → first selected (map (λ p. c ++ p) ps ++ qs) ≡ first selected qs
  first-skip selected c ps qs nothing =
      first-append selected (map (λ p. c ++ p) ps) qs
      ∙ ap (λ o. or_else o (first selected qs)) (first-map selected c ps ∙ nothing)

  pub first-found :
      (selected c o : Overrides h) (ps qs : List (Overrides h))
      → first (selected ++ c) ps ≡ some o
      → first selected (map (λ p. c ++ p) ps ++ qs) ≡ some o
  first-found selected c o ps qs found =
      first-append selected (map (λ p. c ++ p) ps) qs
      ∙ ap (λ x. or_else x (first selected qs)) (first-map selected c ps ∙ found)

length-map : {A : Type 0} (f : A → A) (xs : List A) → length (map f xs) ≡ length xs
length-map f [] = refl
length-map f (x ∷ xs) = ap suc (length-map f xs)

pub length-extend :
    {h : Host} (c : Overrides h) (ps qs : List (Overrides h))
    → length (map (λ p. c ++ p) ps ++ qs) ≡ length ps + length qs
length-extend c ps qs =
    length-append (map (λ p. c ++ p) ps) qs ∙ ap (λ n. n + length qs) (length-map (λ p. c ++ p) ps)

module _ {h : Host} (Good : Overrides h → Type 0)
    (joined : (a b : Overrides h) → Good a → Good b → Good (a ++ b)) where
  map-Good :
      (c : Overrides h) (ps : List (Overrides h))
      → Good c
      → All Good ps
      → All Good (map (λ p. c ++ p) ps)
  map-Good c [] good goods = tt
  map-Good c (p ∷ ps) good (this, goods) = (joined c p good this, map-Good c ps good goods)

  pub extend-Good :
      (cs ps : List (Overrides h)) → All Good cs → All Good ps → All Good (extend cs ps)
  extend-Good [] ps goods rest = tt
  extend-Good (c ∷ cs) ps (good, goods) rest =
      All-append Good (map (λ p. c ++ p) ps) (extend cs ps) (map-Good c ps good rest)
        (extend-Good cs ps goods rest)
