-- ===== src/BugOracle/Primary.antt =====
-- The decision on a first response: by the two tests of oracle.py, and in words of its own.

use restscope.Prelude.{
  [], ◌≤◌, ◌⊎◌, ◌↔◌, Bool-cases, ℕ, ◌≡◌, refl, String, Bool, true, false, not, ◌||◌, Option, none,
  some, List, ◌++◌, arith, if◌then◌else◌, inl, inr,
}
use restscope.BugOracle.{
  CheckStatus, has_reason, is_canonical, is_invalid, OracleReason, server_error,
  invalid_input_unexpected_status, InputValidity, OracleAssessment, OraclePrimaryDecision,
  replay_required, is_server_error, is_wrongly_accepted, reason_if, unexpected_status_reasons,
  ApiBehaviorCatalog, persist, evaluate_primary, no_candidate_assessment, decide_primary,
}

abbrev pub reasons : Bool → Bool → List OracleReason
reasons a b = reason_if a server_error ++ reason_if b invalid_input_unexpected_status

-- What the two tests of the code tell of the decision on a first response.
pub record Decides (catalog : ApiBehaviorCatalog) (id : Option String) (a b : Bool)
    (s s' : catalog.State) (d : OraclePrimaryDecision) : Type 0 where
  pub identity : d.primary_observation_id ≡ id
  pub canonical : d.primary_reasons ≡ reasons a b
  pub replay : replay_required d ≡ (a || b)
  pub assessed : d.assessment ≡ (if a || b then none else some no_candidate_assessment)
  pub failed :
      d.persistence_failed
      ≡ (if a || b then false else not (persist catalog id none no_candidate_assessment s).0)
  pub stored : s' ≡ (if a || b then s else (persist catalog id none no_candidate_assessment s).1)

decide_primary-Decides :
    (catalog : ApiBehaviorCatalog) (id : Option String) (a b : Bool) (s : catalog.State)
    → (d : OraclePrimaryDecision) × (s' : catalog.State) × (decide_primary catalog id
          (reasons a b)
          s
        ≡ some (d, s'))
      × Decides catalog id a b s s' d
decide_primary-Decides catalog id true true s = (
  _,
  _,
  refl,
  record {
    identity = refl;
    canonical = refl;
    replay = refl;
    assessed = refl;
    failed = refl;
    stored = refl;
  },
)
decide_primary-Decides catalog id true false s = (
  _,
  _,
  refl,
  record {
    identity = refl;
    canonical = refl;
    replay = refl;
    assessed = refl;
    failed = refl;
    stored = refl;
  },
)
decide_primary-Decides catalog id false true s = (
  _,
  _,
  refl,
  record {
    identity = refl;
    canonical = refl;
    replay = refl;
    assessed = refl;
    failed = refl;
    stored = refl;
  },
)
decide_primary-Decides catalog id false false s = (
  _,
  _,
  refl,
  record {
    identity = refl;
    canonical = refl;
    replay = refl;
    assessed = refl;
    failed = refl;
    stored = refl;
  },
)

pub primary-Decides :
    (catalog : ApiBehaviorCatalog) (id : Option String) (status_code : ℕ)
    (validity : Option InputValidity) (s : catalog.State)
    → (d : OraclePrimaryDecision) × (s' : catalog.State) × (evaluate_primary catalog id status_code
          validity s
        ≡ some (d, s'))
      × Decides catalog id
          (is_server_error status_code)
          (is_wrongly_accepted status_code validity)
          s
          s'
          d
unfolding evaluate_primary unexpected_status_reasons
primary-Decides catalog id status_code validity s =
    decide_primary-Decides catalog id (is_server_error status_code)
      (is_wrongly_accepted status_code validity) s

abbrev pub IsServerError : ℕ → Type 0
IsServerError status_code = (500 ≤ status_code) × (status_code ≤ 599)

-- An invalid input that is answered with 2xx or 5xx.
abbrev pub IsUnexpected : ℕ → Option InputValidity → Type 0
IsUnexpected status_code validity =
    (validity ≡ some InputValidity.invalid)
    × (((200 ≤ status_code) × (status_code ≤ 299)) ⊎ IsServerError status_code)

-- What a Catalog call for an observation leaves and whether it fails; without an observation there is no
-- call, and none fails.
abbrev pub IsStored :
    (catalog : ApiBehaviorCatalog)
    → Option String
    → Option String
    → OracleAssessment
    → catalog.State
    → catalog.State
    → Bool
    → Type 0
IsStored catalog none replay_id a s s' failed = (s' ≡ s) × (failed ≡ false)
IsStored catalog (some id) replay_id a s s' failed =
    (s' ≡ (catalog.record_oracle_assessment id replay_id a s).1)
    × (failed ≡ not (catalog.record_oracle_assessment id replay_id a s).0)

-- The decision on a first response.
pub record IsDecided (catalog : ApiBehaviorCatalog) (id : Option String) (status_code : ℕ)
    (validity : Option InputValidity) (s s' : catalog.State) (d : OraclePrimaryDecision)
    : Type 0 where
  pub identity : d.primary_observation_id ≡ id
  pub server : (has_reason server_error d.primary_reasons ≡ true) ↔ IsServerError status_code
  pub unexpected :
      (has_reason invalid_input_unexpected_status d.primary_reasons ≡ true)
      ↔ IsUnexpected status_code validity
  pub canonical : is_canonical d.primary_reasons ≡ true
  pub required :
      (replay_required d ≡ true) ↔ (IsServerError status_code ⊎ IsUnexpected status_code validity)
  pub waiting :
      replay_required d ≡ true → (d.assessment ≡ none) × (d.persistence_failed ≡ false) × (s' ≡ s)
  pub concluded :
      replay_required d ≡ false
      → (a : OracleAssessment) × (d.assessment ≡ some a)
        × (a.check.status ≡ CheckStatus.no_candidate)
        × (a.check.primary_reasons ≡ [])
        × (a.check.replay_reasons ≡ [])
        × (a.errors ≡ [])
        × IsStored catalog id none a s s' d.persistence_failed

pub is_server_error_iff : (c : ℕ) → (is_server_error c ≡ true) ↔ IsServerError c
is_server_error_iff c =
    (λ h. (ground arith, ground arith), λ (low, high). ground (arith, low, high))

is_invalid_iff :
    (v : Option InputValidity) → (is_invalid v ≡ true) ↔ (v ≡ some InputValidity.invalid)
is_invalid_iff none = (λ h. absurd (ground arith), λ h. absurd (ground arith))
is_invalid_iff (some v) = (λ h. ground arith, λ h. ground arith)

pub is_wrongly_accepted_iff :
    (c : ℕ) (v : Option InputValidity) → (is_wrongly_accepted c v ≡ true) ↔ IsUnexpected c v
is_wrongly_accepted_iff c v =
    let invalid = is_invalid_iff v in
    let server = is_server_error_iff c in
    (
      λ h. (
        invalid.0 (ground arith),
        elim (Bool-cases (is_server_error c)) [
          | inl e ↦ inr (server.0 e)
          | inr e ↦ inl (ground arith, ground arith)
        ],
      ),
      λ (is, range). elim range [
        | inl (low, high) ↦ ground (arith, invalid.1 is, low, high)
        | inr error ↦ ground (arith, invalid.1 is, server.1 error)
      ],
    )

pub persist-IsStored :
    (catalog : ApiBehaviorCatalog) (id replay_id : Option String) (a : OracleAssessment)
    (s : catalog.State)
    → let p = persist catalog id replay_id a s in IsStored catalog id replay_id a s p.1 (not p.0)
unfolding persist
persist-IsStored catalog none replay_id a s = (refl, refl)
persist-IsStored catalog (some id) replay_id a s = (refl, refl)

pub has_reason-reasons :
    (a b : Bool)
    → (has_reason server_error (reasons a b) ≡ a)
      × (has_reason invalid_input_unexpected_status (reasons a b) ≡ b)
      × (is_canonical (reasons a b) ≡ true)
has_reason-reasons a b = (ground arith, ground arith, ground arith)

pub or_iff :
    {P Q : Type 0} (a b : Bool) → (a ≡ true) ↔ P → (b ≡ true) ↔ Q → ((a || b) ≡ true) ↔ (P ⊎ Q)
or_iff true b p q = (λ h. inl (p.0 refl), λ h. refl)
or_iff false b p q =
    (λ h. inr (q.0 h), λ h. elim h [ inl x ↦ absurd (ground (arith, p.1 x)) | inr y ↦ q.1 y ])
