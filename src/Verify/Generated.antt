-- ===== src/Verify/Generated.antt =====
-- What `verifyReport` accepts for a generated test, whatever the other verifiers return.
use swift_proof.Prelude.{Bool, String, [], inl, inr, refl, some, subst, sym, ◌∙◌, ◌∷◌, ◌≡◌, ◌≢◌}
use swift_proof.Prelude.Dict.{Dict, get}
use swift_proof.Model.Kind
use swift_proof.Model.{Check, Evidence}
use swift_proof.Model.Report.{Report}
use swift_proof.Ledger.{Ledger, apply_masks, item, merge_owned, new_ledger, owns}
use swift_proof.Ledger.Invariant.{
  IsSound, apply_masks-IsSound, apply_masks-verified, new_ledger-IsSound, new_ledger-verified,
}
use swift_proof.Ledger.Owned.{
  Returned, SameRecords, SameRecords-trans, check-same, item-same, merge_owned-other,
  merge_owned-same, merge_owned-verified, new_ledger-IsIndexed,
}
use swift_proof.Verify.{
  Verifiers, core_status, differential_test_status, merge_verifiers, outcome_status,
  verify_core_evidence, verify_report,
}
use swift_proof.Verify.Positive.{
  Runs, core_evidence-Returned, differential_test_status-Runs, merge_verifiers-IsSound,
  merge_verifiers-same,
}

module _ (v : Verifiers) where
  -- The records of the ledger of a report are those that `newLedger` indexed.
  pub apply_masks-same : (l : Ledger) (masked : Dict Bool) → SameRecords l (apply_masks l masked)
  unfolding apply_masks
  apply_masks-same l masked = record {
    checks = refl;
    duplicate_checks = refl;
    evidence = refl;
    duplicate_evidence = refl;
  }

  pub verify_report-same :
      (r : Report) → SameRecords (new_ledger r.checks r.evidence) (verify_report v r)
  unfolding verify_report
  verify_report-same r =
      let l = new_ledger r.checks r.evidence in
      let m = merge_verifiers v r l in
      SameRecords-trans l m (apply_masks m (v.masks r m)) (merge_verifiers-same v r l)
        (apply_masks-same m (v.masks r m))

  -- Every status in the ledger of a report is the stored status of a record whose ID occurs
  -- once, it is not empty, and no rejected ID has one, whatever the verifiers return.
  pub verify_report-IsSound : (r : Report) → IsSound (verify_report v r)
  unfolding verify_report
  verify_report-IsSound r =
      apply_masks-IsSound _ _
        (merge_verifiers-IsSound v r _ (new_ledger-IsSound r.checks r.evidence))

  -- Of a generated test only the core verifier's status is admitted.
  core_only :
      (r : Report) (l : Ledger) (id s : String) (e : Evidence)
      → l.verified ≡ []
      → item l id ≡ some e
      → e.kind ≡ Kind.differential_test
      → get id (merge_verifiers v r l).verified ≡ some s
      → Returned id s (verify_core_evidence v r l)
  unfolding merge_verifiers get owns
  core_only r l id s e empty p k q =
      let k₁ = Kind.source_observation ∷ Kind.differential_test ∷ [] in
      let l₁ = merge_owned k₁ l (verify_core_evidence v r l) in
      let l₂ = merge_owned (Kind.differential_observation ∷ []) l₁ (v.observations r l₁) in
      let l₃ = merge_owned (Kind.differential_fuzz ∷ []) l₂ (v.fuzz r l₂) in
      let l₄ = merge_owned (Kind.base_test_differential ∷ []) l₃ (v.base_tests r l₃) in
      let l₅ = merge_owned (Kind.impacted_test_differential ∷ []) l₄ (v.impacted_tests r l₄) in
      let s₁ = merge_owned-same k₁ l (verify_core_evidence v r l) in
      let s₂ = SameRecords-trans l l₁ l₂ s₁ (merge_owned-same _ l₁ _) in
      let s₃ = SameRecords-trans l l₂ l₃ s₂ (merge_owned-same _ l₂ _) in
      let s₄ = SameRecords-trans l l₃ l₄ s₃ (merge_owned-same _ l₃ _) in
      let s₅ = SameRecords-trans l l₄ l₅ s₄ (merge_owned-same _ l₄ _) in
      let i₁ = item-same l l₁ id s₁ ∙ p in
      let i₂ = item-same l l₂ id s₂ ∙ p in
      let i₃ = item-same l l₃ id s₃ ∙ p in
      let i₄ = item-same l l₄ id s₄ ∙ p in
      let i₅ = item-same l l₅ id s₅ ∙ p in
      let q₅ = merge_owned-other _ l₅ _ id s (rw (i₅, k)) q in
      let q₄ = merge_owned-other _ l₄ _ id s (rw (i₄, k)) q₅ in
      let q₃ = merge_owned-other _ l₃ _ id s (rw (i₃, k)) q₄ in
      let q₂ = merge_owned-other _ l₂ _ id s (rw (i₂, k)) q₃ in
      let q₁ = merge_owned-other _ l₁ _ id s (rw (i₁, k)) q₂ in
      elim (merge_owned-verified k₁ l (verify_core_evidence v r l) id s q₁) [
        | inl old ↦ cc (rw empty at old)
        | inr new ↦ new.0
      ]

  core_status-generated :
      (l : Ledger) (e : Evidence)
      → e.kind ≡ Kind.differential_test
      → core_status v e l ≡ differential_test_status v e l
  unfolding core_status
  core_status-generated l e k = rw k

  Runs-same :
      (l l' : Ledger) (e : Evidence) (base candidate : Check)
      → SameRecords l l'
      → Runs v l e base candidate
      → Runs v l' e base candidate
  Runs-same l l' e base candidate same runs = record {
    base_recorded = check-same l l' e.base_check_id same ∙ runs.base_recorded;
    candidate_recorded = check-same l l' e.check_id same ∙ runs.candidate_recorded;
    base_kind = runs.base_kind;
    candidate_kind = runs.candidate_kind;
    same_command = runs.same_command;
    candidate_live = runs.candidate_live;
    known_runner = runs.known_runner;
    base_passes = runs.base_passes;
    base_exit = runs.base_exit;
  }

  generated-Runs :
      (l l' : Ledger) (e : Evidence) (s : String)
      → SameRecords l l'
      → e.kind ≡ Kind.differential_test
      → core_status v e l ≡ s
      → s ≢ ""
      → (base : Check) × (candidate : Check) × Runs v l' e base candidate
        × (s
            ≡ outcome_status
                (v.validate_execution e.runner candidate e.path e.test_names).0
                (v.validate_execution e.runner base e.path e.test_names).0)
  generated-Runs l l' e s same k status full =
      let is_core : differential_test_status v e l ≡ s =
        sym (core_status-generated l e k) ∙ status in
      let (base, candidate, runs, eq) =
        differential_test_status-Runs v l e (λ empty. full (sym is_core ∙ empty)) in
      (base, candidate, Runs-same l l' e base candidate same runs, sym is_core ∙ eq)

  before_masks :
      (r : Report) (id s : String)
      → get id (verify_report v r).verified ≡ some s
      → get id (merge_verifiers v r (new_ledger r.checks r.evidence)).verified ≡ some s
  unfolding verify_report
  before_masks r id s q = apply_masks-verified _ _ id s q

  -- The verified status of a generated test is the outcome of its two recorded runs, and when it
  -- is NOT_REPRODUCED no mask names its candidate check.
  pub verified_generated_test :
      (r : Report) (id s : String) (e : Evidence)
      → item (verify_report v r) id ≡ some e
      → e.kind ≡ Kind.differential_test
      → get id (verify_report v r).verified ≡ some s
      → (base : Check) × (candidate : Check) × Runs v (verify_report v r) e base candidate
        × (s
            ≡ outcome_status
                (v.validate_execution e.runner candidate e.path e.test_names).0
                (v.validate_execution e.runner base e.path e.test_names).0)
  verified_generated_test r id s e p k q =
      let l = new_ledger r.checks r.evidence in
      let same = verify_report-same r in
      let here = sym (item-same l (verify_report v r) id same) ∙ p in
      elim (core_evidence-Returned v l r.evidence [] id s (new_ledger-IsIndexed r.checks r.evidence)
        (unfold verify_core_evidence in
          core_only r l id s e (new_ledger-verified r.checks r.evidence) here k
            (before_masks r id s q))) [
              | inl none_yet ↦ absurd none_yet
              | inr (f, pf, status, full) ↦
                  generated-Runs l (verify_report v r) e s same k
                    (subst (λ g. core_status v g l ≡ s) (cc (pf, here)) status) full
            ]
