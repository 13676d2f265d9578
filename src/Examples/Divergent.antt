-- ===== src/Examples/Divergent.antt =====
-- A report with a recorded difference.
use swift_proof.Examples.{change, claim, run, sections, trusting}
use swift_proof.Texts.{contains, to_upper}
use swift_proof.Prelude.{Member, [], false, inl, none, refl, true, ◌∷◌}
use swift_proof.Prelude.Int.{pos}
use swift_proof.Prelude.Dict.{get, keep, put}
use swift_proof.Model.Status
use swift_proof.Model.Kind
use swift_proof.Model.{Evidence, Hypothesis}
use swift_proof.Model.Report.{Divergence, Observation, Report}
use swift_proof.Ledger.{apply_masks, check, item, merge_owned, new_ledger}
use swift_proof.Verify.{Verifiers, verify_core_evidence, verify_report}
use swift_proof.Divergences.{select_divergences}
use swift_proof.Divergences.Selected.{Listed, select_divergences-Listed}
use swift_proof.Conclude.{Sections, cleared, finalize}
use swift_proof.Conclude.Diverged.{Names, finalize-diverged}

abbrev observing : Verifiers
observing = record trusting { observations = λ r l. ("ev-1", Status.diverged) ∷ [] }

abbrev experiment : Evidence
experiment = record {
  id = "ev-1";
  kind = Kind.differential_observation;
  path = "store_test.go";
  output = "";
  check_id = "check-2";
  base_check_id = "check-1";
  criterion_id = "";
  status = Status.diverged;
  runner = "go";
  test_names = "TestPut" ∷ [];
}

abbrev row : Observation
row = record { test = "TestPut"; key = "size"; status = Status.diverged }

-- What the feed offers: it leaves the tests to the evidence record.
abbrev offered : Divergence
offered = record {
  evidence_id = "ev-1";
  kind = Kind.differential_observation;
  path = "";
  line = pos 0;
  symbol = "";
  anchor_source = "";
  test_path = "";
  test_names = [];
  check_ids = "check-1" ∷ "check-2" ∷ "check-3" ∷ [];
  hypothesis_ids = [];
  observations = row ∷ [];
}

abbrev feeding : Sections
feeding = record sections { verifiers = observing; observation_divergences = λ r l. offered ∷ [] }

abbrev diverging : Report
diverging = record {
  intent_criteria = [];
  change = change;
  signals = [];
  checks =
      run "check-1" "observation_base" "PASS" (pos 0)
      ∷ run "check-2" "observation_candidate" "PASS" (pos 0)
      ∷ run "check-3" "observation_repeat" "PASS" (pos 0)
      ∷ [];
  hypotheses = claim Status.diverged ∷ [];
  signal_assessments = [];
  evidence = experiment ∷ [];
  reproduced_issues = [];
  divergences = [];
  intent_test_failures = [];
  unverified = [];
  plan_drift = none;
  exit_code = 0;
  ai_impacts_criticality = false;
}

abbrev listed_entry : Divergence
listed_entry = record offered { test_path = "store_test.go"; test_names = "TestPut" ∷ [] }

entry_listed :
    Member listed_entry
      (select_divergences diverging (verify_report observing diverging) (offered ∷ []))
unfolding select_divergences verify_report item get apply_masks merge_owned verify_core_evidence
    new_ledger put contains check keep
entry_listed = inl refl

select_divergences-Listed_example : Listed (verify_report observing diverging) listed_entry
select_divergences-Listed_example =
    select_divergences-Listed diverging (verify_report observing diverging) (offered ∷ [])
      listed_entry entry_listed

abbrev diverged_claim : Hypothesis
diverged_claim = record (claim Status.diverged) { severity = "high" }

claim_diverged : Member diverged_claim (finalize feeding diverging true).hypotheses
unfolding finalize to_upper select_divergences verify_report item get apply_masks merge_owned
    verify_core_evidence new_ledger put contains check keep
claim_diverged = inl refl

finalize-diverged_example :
    (d : Divergence) × Names
      (verify_report observing (cleared diverging))
      (finalize feeding diverging true)
      diverged_claim
      d
finalize-diverged_example =
    finalize-diverged feeding diverging true diverged_claim claim_diverged refl
