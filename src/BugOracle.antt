-- ===== src/BugOracle.antt =====
-- `api_behavior_monitor/oracle.py` and the Oracle's part of `api_behavior_monitor/catalog.py`. The
-- Catalog's storage is a parameter. A Check has one name, which is left out.
pub mod Primary
pub mod Verdict
mod Tests
use Prim.Native.String.{count}
use restscope.Prelude.{
  ℕ, String, Bool, true, false, not, ◌&&◌, ◌||◌, Option, none, some, List, [], ◌∷◌, ◌++◌, keep,
  length, leb, if◌then◌else◌, clip, or_else, list_eq,
}

pub data OracleReason : Type 0 where
  server_error invalid_input_unexpected_status : OracleReason

pub data InputValidity : Type 0 where
  valid invalid : InputValidity

abbrev pub reason_eq : OracleReason → OracleReason → Bool
reason_eq server_error server_error = true
reason_eq invalid_input_unexpected_status invalid_input_unexpected_status = true
reason_eq _ _ = false

abbrev pub has_reason : OracleReason → List OracleReason → Bool
has_reason r [] = false
has_reason r (x ∷ xs) = reason_eq r x || has_reason r xs

abbrev pub reasons_eq : List OracleReason → List OracleReason → Bool
reasons_eq [] [] = true
reasons_eq (x ∷ xs) (y ∷ ys) = reason_eq x y && reasons_eq xs ys
reasons_eq _ _ = false

-- The four kinds of Check by their status; a failed Replay has an error.
pub data CheckStatus : Type 0 where
  no_candidate not_reproduced reproduced : CheckStatus
  replay_failed : String → CheckStatus

pub record OracleCheck : Type 0 where
  pub status : CheckStatus
  pub primary_reasons : List OracleReason
  pub replay_reasons : List OracleReason

pub record OracleAssessment : Type 0 where
  pub check : OracleCheck
  pub errors : List String

-- `require_canonical_reason_sets`, for one of the two sets, with the limit of its field.
abbrev pub is_canonical : List OracleReason → Bool
is_canonical reasons =
    leb (length reasons) 2
    && reasons_eq reasons
        (keep (λ r. has_reason r reasons) (server_error ∷ invalid_input_unexpected_status ∷ []))

abbrev is_empty : List OracleReason → Bool
is_empty [] = true
is_empty (x ∷ xs) = false

-- `require_fixed_check_order`, and the limits of the error of a failed Replay.
abbrev pub fits_status : CheckStatus → List OracleReason → List OracleReason → Bool
fits_status no_candidate primary replay = is_empty primary && is_empty replay
fits_status reproduced primary replay = not (is_empty primary) && reasons_eq primary replay
fits_status not_reproduced primary replay =
    not (is_empty primary) && not (reasons_eq primary replay)
fits_status (replay_failed error) primary replay =
    leb 1 (count error) && leb (count error) 500 && not (is_empty primary) && is_empty replay

-- Whether the models accept the Assessment.
abbrev pub is_accepted : OracleAssessment → Bool
is_accepted a =
    is_canonical a.check.primary_reasons
    && is_canonical a.check.replay_reasons
    && fits_status a.check.status a.check.primary_reasons a.check.replay_reasons
    && leb (length a.errors) 20

-- `is_bug`
abbrev pub is_bug : OracleAssessment → Bool
is_bug a = elim a.check.status [ reproduced ↦ true | _ ↦ false ]

pub record OraclePrimaryDecision : Type 0 where
  pub primary_observation_id : Option String
  pub primary_reasons : List OracleReason
  pub assessment : Option OracleAssessment
  pub persistence_failed : Bool

abbrev pub replay_required : OraclePrimaryDecision → Bool
replay_required d = not (is_empty d.primary_reasons)

pub record OracleFinalization : Type 0 where
  pub assessment : OracleAssessment
  pub persistence_failed : Bool

abbrev pub is_server_error : ℕ → Bool
is_server_error status_code = leb 500 status_code && leb status_code 599

abbrev pub is_invalid : Option InputValidity → Bool
is_invalid (some invalid) = true
is_invalid _ = false

abbrev pub is_wrongly_accepted : ℕ → Option InputValidity → Bool
is_wrongly_accepted status_code validity =
    is_invalid validity
    && (leb 200 status_code && leb status_code 299 || is_server_error status_code)

abbrev pub reason_if : Bool → OracleReason → List OracleReason
reason_if true r = r ∷ []
reason_if false r = []

-- `_unexpected_status_reasons`
unfoldable pub unexpected_status_reasons : ℕ → Option InputValidity → List OracleReason
unexpected_status_reasons status_code validity =
    reason_if (is_server_error status_code) server_error
    ++ reason_if (is_wrongly_accepted status_code validity) invalid_input_unexpected_status

-- The Catalog that stores the Assessments: the new state, and whether the call returned.
pub record ApiBehaviorCatalog : Type 1 where
  pub State : Type 0
  pub record_oracle_assessment : String → Option String → OracleAssessment → State → Bool × State

abbrev pub no_candidate_assessment : OracleAssessment
no_candidate_assessment = record {
  check = record { status = no_candidate; primary_reasons = []; replay_reasons = [] };
  errors = [];
}

abbrev pub replay_errors : Bool → List String
replay_errors true = []
replay_errors false = "replay_observation_not_persisted" ∷ []

-- The Assessment of a Replay with a response, and of one without.
abbrev pub replay_assessment : List OracleReason → List OracleReason → Bool → OracleAssessment
replay_assessment primary replay replay_persisted = record {
  check = record {
    status = if reasons_eq replay primary then reproduced else not_reproduced;
    primary_reasons = primary;
    replay_reasons = replay;
  };
  errors = replay_errors replay_persisted;
}

abbrev pub failed_assessment : List OracleReason → String → Bool → OracleAssessment
failed_assessment primary error replay_persisted = record {
  check = record {
    status = replay_failed (or_else (clip 500 error) "Replay transport failed");
    primary_reasons = primary;
    replay_reasons = [];
  };
  errors = replay_errors replay_persisted;
}

module _ (catalog : ApiBehaviorCatalog) where
  -- `_persist`: whether the Assessment is stored or needs no storing.
  unfoldable pub persist :
      Option String → Option String → OracleAssessment → catalog.State → Bool × catalog.State
  persist none replay_id assessment s = (true, s)
  persist (some id) replay_id assessment s =
      catalog.record_oracle_assessment id replay_id assessment s

  -- A model that its validators refuse raises.
  abbrev pub built : {A : Type 0} → OracleAssessment → A → Option A
  built assessment x = if is_accepted assessment then some x else none

  abbrev pub decide_primary :
      Option String
      → List OracleReason
      → catalog.State
      → Option (OraclePrimaryDecision × catalog.State)
  decide_primary id [] s =
      let (persisted, s') = persist id none no_candidate_assessment s in
      built no_candidate_assessment (
        record {
          primary_observation_id = id;
          primary_reasons = [];
          assessment = some no_candidate_assessment;
          persistence_failed = not persisted;
        },
        s',
      )
  decide_primary id (r ∷ rs) s = some (
    record {
      primary_observation_id = id;
      primary_reasons = r ∷ rs;
      assessment = none;
      persistence_failed = false;
    },
    s,
  )

  -- `evaluate_primary`; here and below `none` is a refusal by the models.
  unfoldable pub evaluate_primary :
      Option String
      → ℕ
      → Option InputValidity
      → catalog.State
      → Option (OraclePrimaryDecision × catalog.State)
  evaluate_primary id status_code validity s =
      decide_primary id (unexpected_status_reasons status_code validity) s

  abbrev pub finalize :
      OraclePrimaryDecision
      → Option String
      → OracleAssessment
      → catalog.State
      → Option (OracleFinalization × catalog.State)
  finalize primary replay_id a s =
      let (persisted, s') = persist primary.primary_observation_id replay_id a s in
      built a (record { assessment = a; persistence_failed = not persisted }, s')

  unfoldable pub evaluate_replay :
      OraclePrimaryDecision
      → Option String
      → ℕ
      → Option InputValidity
      → Bool
      → catalog.State
      → Option (OracleFinalization × catalog.State)
  evaluate_replay primary replay_id status_code validity replay_persisted s =
      finalize primary replay_id
        (replay_assessment primary.primary_reasons (unexpected_status_reasons status_code validity)
          replay_persisted)
        s

  unfoldable pub finish_failed_replay :
      OraclePrimaryDecision
      → Option String
      → String
      → Bool
      → catalog.State
      → Option (OracleFinalization × catalog.State)
  finish_failed_replay primary replay_id error replay_persisted s =
      finalize primary replay_id (failed_assessment primary.primary_reasons error replay_persisted)
        s
