-- ===== src/BugOracle/Verdict.antt =====
-- What the Bug Oracle concludes of a response and of its Replay.
use Prim.Native.String.{count}
use restscope.Prelude.{
  ℕ, ◌≡◌, refl, String, Bool, true, false, not, ◌&&◌, ◌||◌, Option, none, some, arith, leb, clip,
  or_else, count-clip, or_else-cases, subst, sym, ◌∙◌, inl, inr,
}
use restscope.BugOracle.{
  InputValidity, is_accepted, is_bug, OracleAssessment, OraclePrimaryDecision, replay_required,
  OracleFinalization, is_server_error, is_wrongly_accepted, unexpected_status_reasons,
  ApiBehaviorCatalog, replay_assessment, failed_assessment, persist, evaluate_primary,
  evaluate_replay, finish_failed_replay, no_candidate_assessment, finalize,
}
use restscope.BugOracle.Primary.{
  reasons, Decides, IsDecided, primary-Decides, is_server_error_iff, is_wrongly_accepted_iff,
  persist-IsStored, has_reason-reasons, or_iff,
}

abbrev pub agree : Bool → Bool → Bool
agree true b = b
agree false b = not b

replay_assessment-is_accepted :
    (a b c d persisted : Bool)
    → (a || b) ≡ true
    → let x = replay_assessment (reasons a b) (reasons c d) persisted in
      (is_accepted x ≡ true) × (is_bug x ≡ (agree a c && agree b d))
replay_assessment-is_accepted a b c d persisted h = ground arith

is_error :
    (e : String)
    → let x = or_else (clip 500 e) "Replay transport failed" in
      (leb 1 (count x) && leb (count x) 500) ≡ true
is_error e = elim (or_else-cases (clip 500 e) "Replay transport failed") [
  | inl t ↦ rw t refl
  | inr (long, t) ↦ rw t (ground (arith, long, count-clip 500 e))
]

failed_assessment-is_accepted :
    (a b persisted : Bool) (error : String)
    → (a || b) ≡ true
    → is_accepted (failed_assessment (reasons a b) error persisted) ≡ true
failed_assessment-is_accepted a b persisted error h = ground (arith, is_error error)

-- The first response is always decided. Its reasons are a server error exactly for a status from 500 to
-- 599, and an unexpected status exactly for an invalid input that is answered with 2xx or 5xx, in
-- this order; a Replay is required exactly if there is one. Then nothing is assessed or stored yet.
-- Otherwise the Assessment has no candidate, reasons or errors, and if the response has an observation
-- the Catalog is called with it: its state and its failure are what is left.
pub evaluate_primary_exact :
    (catalog : ApiBehaviorCatalog) (id : Option String) (status_code : ℕ)
    (validity : Option InputValidity) (s : catalog.State)
    → (d : OraclePrimaryDecision) × (s' : catalog.State) × (evaluate_primary catalog id status_code
          validity s
        ≡ some (d, s'))
      × IsDecided catalog id status_code validity s s' d
evaluate_primary_exact catalog id status_code validity s =
    let (d, s', e, k) = primary-Decides catalog id status_code validity s in
    let a = is_server_error status_code in
    let b = is_wrongly_accepted status_code validity in
    let server = is_server_error_iff status_code in
    let unexpected = is_wrongly_accepted_iff status_code validity in
    let (has_server, has_unexpected, is_in_order) = has_reason-reasons a b in
    let either = or_iff a b server unexpected in
    (
      d,
      s',
      e,
      record {
        identity = k.identity;
        server = rw (k.canonical, has_server) server;
        unexpected = rw (k.canonical, has_unexpected) unexpected;
        canonical = rw k.canonical is_in_order;
        required = rw k.replay either;
        waiting = λ h.
            let some_reason : (a || b) ≡ true = sym k.replay ∙ h in
            (
              k.assessed ∙ rw some_reason refl,
              k.failed ∙ rw some_reason refl,
              k.stored ∙ rw some_reason refl,
            );
        concluded = λ h.
            let no_reason : (a || b) ≡ false = sym k.replay ∙ h in
            let p = persist catalog id none no_candidate_assessment s in
            let failed : d.persistence_failed ≡ not p.0 = k.failed ∙ rw no_reason refl in
            let stored : s' ≡ p.1 = k.stored ∙ rw no_reason refl in
            (
              no_candidate_assessment,
              k.assessed ∙ rw no_reason refl,
              refl,
              refl,
              refl,
              refl,
              rw (failed, stored) (persist-IsStored catalog id none no_candidate_assessment s),
            );
      },
    )

-- An accepted Assessment is concluded, and handed to the Catalog.
finalize-accepted :
    (catalog : ApiBehaviorCatalog) (id : Option String) (d : OraclePrimaryDecision)
    (replay_id : Option String) (a : OracleAssessment) (u : catalog.State)
    → d.primary_observation_id ≡ id
    → is_accepted a ≡ true
    → (f : OracleFinalization) × (u' : catalog.State) × (finalize catalog d replay_id a u
        ≡ some (f, u'))
      × (f.assessment ≡ a)
      × (f.persistence_failed ≡ not (persist catalog id replay_id f.assessment u).0)
      × (u' ≡ (persist catalog id replay_id f.assessment u).1)
finalize-accepted catalog id d replay_id a u same accepted = (
  record { assessment = a; persistence_failed = not (persist catalog id replay_id a u).0 },
  (persist catalog id replay_id a u).1,
  rw (same, accepted) refl,
  refl,
  refl,
  refl,
)

module _ (catalog : ApiBehaviorCatalog) (id : Option String) (status_code : ℕ)
    (validity : Option InputValidity) (s t : catalog.State) (d : OraclePrimaryDecision)
    (decided : evaluate_primary catalog id status_code validity s ≡ some (d, t))
    (required : replay_required d ≡ true) where
  candidate :
      (d.primary_observation_id ≡ id)
      × (d.primary_reasons
          ≡ reasons (is_server_error status_code) (is_wrongly_accepted status_code validity))
      × ((is_server_error status_code || is_wrongly_accepted status_code validity) ≡ true)
  candidate =
      let (d', s', e, k) = primary-Decides catalog id status_code validity s in
      let same : d' ≡ d = ground (arith, e, decided) in
      let k' =
        subst
          (λ x.
            Decides catalog id (is_server_error status_code)
              (is_wrongly_accepted status_code validity) s s' x)
          same k in
      (k'.identity, k'.canonical, sym k'.replay ∙ required)

  -- The Replay of a response that required one is always concluded. It is a bug exactly when the two
  -- responses agree on being a server error and on being an accepted invalid input; the Assessment is
  -- handed to the Catalog under the identity of the first response.
  pub evaluate_replay_verdict :
      (replay_id : Option String) (again : ℕ) (validity' : Option InputValidity) (persisted : Bool)
      (u : catalog.State)
      → (f : OracleFinalization) × (u' : catalog.State) × (evaluate_replay catalog d replay_id again
            validity' persisted u
          ≡ some (f, u'))
        × (is_bug f.assessment ≡ (
            agree (is_server_error status_code) (is_server_error again)
            && agree
                (is_wrongly_accepted status_code validity)
                (is_wrongly_accepted again validity')))
        × (f.persistence_failed ≡ not (persist catalog id replay_id f.assessment u).0)
        × (u' ≡ (persist catalog id replay_id f.assessment u).1)
  unfolding evaluate_replay unexpected_status_reasons
  evaluate_replay_verdict replay_id again validity' persisted u =
      let (same, canonical, suspicious) = candidate in
      let (accepted, verdict) =
        replay_assessment-is_accepted _ _ (is_server_error again)
          (is_wrongly_accepted again validity') persisted suspicious in
      let (f, u', e, concluded, failed, stored) =
        finalize-accepted catalog id d replay_id
          (replay_assessment d.primary_reasons
            (reasons (is_server_error again) (is_wrongly_accepted again validity')) persisted)
          u same (rw canonical accepted) in
      (f, u', e, rw (concluded, canonical) verdict, failed, stored)

  -- A Replay without a response is always concluded too, and never as a bug.
  pub finish_failed_replay_verdict :
      (replay_id : Option String) (error : String) (persisted : Bool) (u : catalog.State)
      → (f : OracleFinalization) × (u' : catalog.State) × (finish_failed_replay catalog d replay_id
            error persisted u
          ≡ some (f, u'))
        × (is_bug f.assessment ≡ false)
        × (f.persistence_failed ≡ not (persist catalog id replay_id f.assessment u).0)
        × (u' ≡ (persist catalog id replay_id f.assessment u).1)
  unfolding finish_failed_replay
  finish_failed_replay_verdict replay_id error persisted u =
      let (same, canonical, suspicious) = candidate in
      let (f, u', e, concluded, failed, stored) =
        finalize-accepted catalog id d replay_id
          (failed_assessment d.primary_reasons error persisted) u same
          (rw canonical (failed_assessment-is_accepted _ _ persisted error suspicious)) in
      (f, u', e, rw concluded refl, failed, stored)
