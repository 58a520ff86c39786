-- ===== src/Constraints/Validation/Meeting.antt =====
-- What a step of the validator's `validate_constraint_set` may end with and how it carries over
-- the steps that follow: `Meets`, for each of passed, refused and endless.
use restscope.Constraints.Validation.{
  ErrorCode, constraint_repeated_input, Checked, passed, refused, endless, ◌>>=◌, ◌>>◌, Ancestry,
  is_fixed, is_repeated, is_endless,
}

module _ (E : ErrorCode → Type 0) (D : Type 0) where
  abbrev pub Holds : {A : Type 0} → (A → Type 0) → Checked A → Type 0
  Holds P (passed a) = P a
  Holds P (refused e) = E e.code
  Holds P endless = D

  pub record Meets {A : Type 0} (P : A → Type 0) (r : Checked A) : Type 0 where
    pub outcome : Holds P r

  pub Meets-bind :
      {A B : Type 0} {P : A → Type 0} {Q : B → Type 0} {f : A → Checked B} {r : Checked A}
      → Meets P r
      → ((a : A) → P a → Meets Q (f a))
      → Meets Q (r >>= f)
  unfolding ◌>>=◌
  Meets-bind {P = P} {Q = Q} {f = f} {r = r} meets next = of_outcome r meets.outcome
    where
      of_outcome : (s : Checked _) → Holds P s → Meets Q (s >>= f)
      of_outcome (passed a) holds = next a holds
      of_outcome (refused e) holds = record { outcome = holds }
      of_outcome endless holds = record { outcome = holds }

  pub Meets-then :
      {B : Type 0} {P : Type 0} {Q : B → Type 0} {rest : Checked B} {r : Checked (Unit {0})}
      → Meets (λ u. P) r
      → (P → Meets Q rest)
      → Meets Q (r >> rest)
  unfolding ◌>>◌
  Meets-then {P = P} {Q = Q} {rest = rest} {r = r} meets next = of_outcome r meets.outcome
    where
      of_outcome : (s : Checked (Unit {0})) → Holds (λ u. P) s → Meets Q (s >> rest)
      of_outcome (passed tt) holds = next holds
      of_outcome (refused e) holds = record { outcome = holds }
      of_outcome endless holds = record { outcome = holds }

  pub Meets-weaken :
      {A : Type 0} {P Q : A → Type 0} {r : Checked A}
      → Meets P r
      → ((a : A) → P a → Q a)
      → Meets Q r
  Meets-weaken {P = P} {Q = Q} {r = r} meets implied = record {
    outcome = of_outcome r meets.outcome;
  }
    where
      of_outcome : (s : Checked _) → Holds P s → Holds Q s
      of_outcome (passed a) holds = implied a holds
      of_outcome (refused e) holds = holds
      of_outcome endless holds = holds

  -- What the loop over the parents may end with.
  abbrev pub Allows : Ancestry → Type 0
  Allows is_fixed = Unit
  Allows is_repeated = E constraint_repeated_input
  Allows is_endless = D
