-- ===== src/BugOracle/Tests.antt =====
-- The Bug Oracle with a Catalog that keeps the identities of the Assessments, and with one that fails.
use restscope.Prelude.{◌≡◌, refl, String, true, false, not, none, some, List, [], ◌∷◌}
use restscope.BugOracle.{
  OracleReason, InputValidity, is_bug, OraclePrimaryDecision, OracleFinalization,
  ApiBehaviorCatalog, persist, evaluate_primary, evaluate_replay, finish_failed_replay,
  unexpected_status_reasons,
}
use restscope.BugOracle.Primary.{IsDecided}
use restscope.BugOracle.Verdict.{
  evaluate_primary_exact, evaluate_replay_verdict, finish_failed_replay_verdict,
}

abbrev keeping : ApiBehaviorCatalog
keeping = record {
  State = List String;
  record_oracle_assessment = λ id replay assessment s. (true, id ∷ s);
}

abbrev failing : ApiBehaviorCatalog
failing = record {
  State = List String;
  record_oracle_assessment = λ id replay assessment s. (false, s);
}

-- An invalid input that is answered with 201.
abbrev accepted_invalid : OraclePrimaryDecision
accepted_invalid = record {
  primary_observation_id = some "o1";
  primary_reasons = OracleReason.invalid_input_unexpected_status ∷ [];
  assessment = none;
  persistence_failed = false;
}

evaluate_primary_exact_example :
    (d : OraclePrimaryDecision) × (s' : List String) × (evaluate_primary failing
        (some "o1")
        404
        (some InputValidity.invalid)
        []
      ≡ some (d, s'))
    × IsDecided failing (some "o1") 404 (some InputValidity.invalid) [] s' d
evaluate_primary_exact_example =
    evaluate_primary_exact failing (some "o1") 404 (some InputValidity.invalid) []

evaluate_replay_verdict_example :
    (f : OracleFinalization) × (u' : List String) × (evaluate_replay keeping accepted_invalid
        (some "o2")
        204
        (some InputValidity.invalid)
        true
        []
      ≡ some (f, u'))
    × (is_bug f.assessment ≡ true)
    × (f.persistence_failed ≡ not (persist keeping (some "o1") (some "o2") f.assessment []).0)
    × (u' ≡ (persist keeping (some "o1") (some "o2") f.assessment []).1)
unfolding evaluate_primary unexpected_status_reasons
evaluate_replay_verdict_example =
    evaluate_replay_verdict keeping (some "o1") 201 (some InputValidity.invalid) [] []
      accepted_invalid refl refl (some "o2") 204 (some InputValidity.invalid) true []

finish_failed_replay_verdict_example :
    (f : OracleFinalization) × (u' : List String) × (finish_failed_replay keeping accepted_invalid
        none "" false []
      ≡ some (f, u'))
    × (is_bug f.assessment ≡ false)
    × (f.persistence_failed ≡ not (persist keeping (some "o1") none f.assessment []).0)
    × (u' ≡ (persist keeping (some "o1") none f.assessment []).1)
unfolding evaluate_primary unexpected_status_reasons
finish_failed_replay_verdict_example =
    finish_failed_replay_verdict keeping (some "o1") 201 (some InputValidity.invalid) [] []
      accepted_invalid refl refl none "" false []
