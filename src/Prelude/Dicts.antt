-- ===== src/Prelude/Dicts.antt =====
-- Python's dict with text keys, as the list of its items in insertion order.
use mathlib.Core.Path.{◌≡◌, refl, sym, ap, ◌∙◌}
use mathlib.Core.Bool.{false, ◌||◌}
use mathlib.Core.List.{List, [], ◌∷◌, ◌++◌}
use mathlib.Core.Option.{Option, none, some}
use mathlib.Core.Logic.{inl, inr}
use native.Mathlib.Omega.{arith}
use Prim.Native.String.{String}
use text.Mathlib.Text.{◌==◌}
use text.Mathlib.TextEquality.{eq_iff}
use text.Mathlib.TextPositions.{eq_refl}
use restscope.Prelude.Tests.{if◌then◌else◌, Bool-cases}
use restscope.Prelude.Text.{contains}

abbrev pub Dict {ℓ} : Type ℓ → Type ℓ
Dict A = List (String × A)

-- Distinct keys that a dict with the given keys does not have.
abbrev pub IsFresh : List String → List String → Type 0
IsFresh [] used = Unit
IsFresh (k ∷ ks) used = (contains k used ≡ false) × (contains k ks ≡ false) × IsFresh ks used

pub contains-append :
    (k : String) (xs ys : List String) → contains k (xs ++ ys) ≡ (contains k xs || contains k ys)
contains-append k [] ys = refl
contains-append k (x ∷ xs) ys = ground (arith, contains-append k xs ys)

module _ {ℓ} {A : Type ℓ} where
  -- `d.get(k)`, `d[k] = v`, `d.update(c)`, `d.pop(k, None)`, and this for each of some keys.
  abbrev pub get : String → Dict A → Option A
  get k [] = none
  get k ((j, v) ∷ d) = let rest = get k d in if k == j then some v else rest

  abbrev pub put : String → A → Dict A → Dict A
  put k v [] = (k, v) ∷ []
  put k v ((j, w) ∷ d) = let rest = put k v d in if k == j then (j, v) ∷ d else (j, w) ∷ rest

  abbrev pub put_all : Dict A → Dict A → Dict A
  put_all d [] = d
  put_all d ((k, v) ∷ c) = put_all (put k v d) c

  abbrev pub pop : String → Dict A → Dict A
  pop k [] = []
  pop k ((j, w) ∷ d) = let rest = pop k d in if k == j then d else (j, w) ∷ rest

  abbrev pub pop_all : List String → Dict A → Dict A
  pop_all [] d = d
  pop_all (k ∷ ks) d = pop_all ks (pop k d)

  abbrev pub keys : Dict A → List String
  keys [] = []
  keys ((k, v) ∷ d) = k ∷ keys d

  pub keys-append : (d c : Dict A) → keys (d ++ c) ≡ keys d ++ keys c
  keys-append [] c = refl
  keys-append ((k, v) ∷ d) c = ap (λ t. k ∷ t) (keys-append d c)

  pub append_assoc : (b c d : Dict A) → (b ++ c) ++ d ≡ b ++ (c ++ d)
  append_assoc [] c d = refl
  append_assoc (x ∷ b) c d = ap (λ t. x ∷ t) (append_assoc b c d)

  pub get-append : (k : String) (a : A) (d c : Dict A) → get k d ≡ some a → get k (d ++ c) ≡ some a
  get-append k a [] c h = absurd (ground arith)
  get-append k a ((j, v) ∷ d) c h = elim (Bool-cases (k == j)) [
    | inl same ↦ ground arith
    | inr other ↦ rw other (get-append k a d c (ground arith))
  ]

  -- A new key goes to the end; an old one keeps its place.
  put-new :
      (k : String) (v : A) (d : Dict A)
      → contains k (keys d) ≡ false
      → put k v d ≡ d ++ ((k, v) ∷ [])
  put-new k v [] new = refl
  put-new k v ((j, w) ∷ d) new =
      let other : (k == j) ≡ false = ground arith in
      rw other (ap (λ t. (j, w) ∷ t) (put-new k v d (ground arith)))

  put-old :
      (k : String) (v w : A) (d c : Dict A)
      → contains k (keys d) ≡ false
      → put k v (d ++ ((k, w) ∷ c)) ≡ (d ++ ((k, v) ∷ [])) ++ c
  put-old k v w [] c new = rw (eq_refl k) refl
  put-old k v w ((j, u) ∷ d) c new =
      let other : (k == j) ≡ false = ground arith in
      rw other (ap (λ t. (j, u) ∷ t) (put-old k v w d c (ground arith)))

  pop-old :
      (k : String) (w : A) (d c : Dict A)
      → contains k (keys d) ≡ false
      → pop k (d ++ ((k, w) ∷ c)) ≡ d ++ c
  pop-old k w [] c new = rw (eq_refl k) refl
  pop-old k w ((j, u) ∷ d) c new =
      let other : (k == j) ≡ false = ground arith in
      rw other (ap (λ t. (j, u) ∷ t) (pop-old k w d c (ground arith)))

  pop-new : (k : String) (d : Dict A) → contains k (keys d) ≡ false → pop k d ≡ d
  pop-new k [] new = refl
  pop-new k ((j, u) ∷ d) new =
      let other : (k == j) ≡ false = ground arith in
      rw other (ap (λ t. (j, u) ∷ t) (pop-new k d (ground arith)))

  IsFresh-put :
      (k : String) (v : A) (ks : List String) (d : Dict A)
      → contains k ks ≡ false
      → IsFresh ks (keys d)
      → IsFresh ks (keys (d ++ ((k, v) ∷ [])))
  IsFresh-put k v [] d other f = tt
  IsFresh-put k v (j ∷ ks) d other (new, once, f) =
      let apart : (j == k) ≡ false = ground (arith, eq_iff j k, eq_iff k j) in
      (
        ap (contains j) (keys-append d ((k, v) ∷ []))
            ∙ contains-append j (keys d) (k ∷ [])
            ∙ rw (new, apart) refl,
        once,
        IsFresh-put k v ks d (ground arith) f,
      )

  singleton-append : (x : String × A) (d c : Dict A) → (d ++ (x ∷ [])) ++ c ≡ d ++ (x ∷ c)
  singleton-append x [] c = refl
  singleton-append x (y ∷ d) c = ap (λ t. y ∷ t) (singleton-append x d c)

  -- An update with fresh keys appends the new items.
  pub put_all-new : (d c : Dict A) → IsFresh (keys c) (keys d) → put_all d c ≡ d ++ c
  put_all-new d [] f = sym (append_nil d)
    where
      append_nil : (e : Dict A) → e ++ [] ≡ e
      append_nil [] = refl
      append_nil (x ∷ e) = ap (λ t. x ∷ t) (append_nil e)
  put_all-new d ((k, v) ∷ c) (new, once, f) =
      ap (λ t. put_all t c) (put-new k v d new)
      ∙ put_all-new (d ++ ((k, v) ∷ [])) c (IsFresh-put k v (keys c) d once f)
      ∙ singleton-append (k, v) d c

  -- A second update with the same keys replaces the items of the first.
  pub put_all-old :
      (d b c : Dict A) → keys b ≡ keys c → IsFresh (keys c) (keys d) → put_all (d ++ b) c ≡ d ++ c
  put_all-old d [] [] same f = refl
  put_all-old d [] (x ∷ c) same f = absurd (ground arith)
  put_all-old d (x ∷ b) [] same f = absurd (ground arith)
  put_all-old d ((j, w) ∷ b) ((k, v) ∷ c) same (new, once, f) =
      let key : k ≡ j = ground arith in
      ap (λ i. put_all (d ++ ((i, w) ∷ b)) ((k, v) ∷ c)) (sym key)
      ∙ ap (λ t. put_all t c) (put-old k v w d b new)
      ∙ put_all-old (d ++ ((k, v) ∷ [])) b c (ground arith) (IsFresh-put k v (keys c) d once f)
      ∙ singleton-append (k, v) d c

  -- To pop the keys of the last items leaves the first; to pop fresh keys leaves all.
  pub pop_all-old : (d c : Dict A) → IsFresh (keys c) (keys d) → pop_all (keys c) (d ++ c) ≡ d
  pop_all-old d [] f = sym (put_all-new d [] tt)
  pop_all-old d ((k, v) ∷ c) (new, once, f) =
      ap (pop_all (keys c)) (pop-old k v d c new) ∙ pop_all-old d c f

  pub pop_all-new : (ks : List String) (d : Dict A) → IsFresh ks (keys d) → pop_all ks d ≡ d
  pop_all-new [] d f = refl
  pop_all-new (k ∷ ks) d (new, once, f) = ap (pop_all ks) (pop-new k d new) ∙ pop_all-new ks d f
