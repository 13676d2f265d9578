-- ===== src/Examples.antt =====
-- A small report and concrete verifiers, plans and sections: the inputs of the tests.
mod Findings
mod Ledgers
mod Planned
mod Divergent
mod Logs
mod Limits
mod Logins
mod Handed
mod Paths
mod Coverage
mod Flags
use swift_proof.Prelude.{
  List, Option, String, [], false, if◌then◌else◌, none, refl, some, true, ◌++◌, ◌==◌, ◌∷◌,
}
use swift_proof.Texts.{has}
use swift_proof.Prelude.Int.{pos, ℤ}
use swift_proof.Model.Status
use swift_proof.Model.Kind
use swift_proof.Model.{Check, Evidence, Hypothesis, check_generated_base, check_generated_candidate}
use swift_proof.Model.Change.{Change, ChangedFile, PlanDrift, plan_assessed}
use swift_proof.Model.Report.{Report}
use swift_proof.Verify.{Verifiers}
use swift_proof.Drift.{PathRules}
use swift_proof.Gate.{Plans}
use swift_proof.Conclude.{Sections}

-- A reader of logs that believes every recorded status.
abbrev pub trusting : Verifiers
trusting = record {
  observations = λ r l. [];
  fuzz = λ r l. [];
  base_tests = λ r l. [];
  impacted_tests = λ r l. [];
  intent_tests = λ r l. [];
  masks = λ r l. [];
  validate_execution = λ runner c path names. (c, true);
  cache_kept = λ runner c path names. refl;
  is_fixed_point = λ s. true;
}

abbrev pub rules : PathRules
rules = record {
  match_sensitive = λ globs path. if has path globs then some path else none;
  is_test_path = λ path. path == "store_test.go";
  is_manifest = λ path. path == "go.mod";
}

abbrev pub plans : Plans
plans = record { rules = rules; merge_signals = λ kept extra. kept ++ extra }

abbrev pub sections : Sections
sections = record {
  verifiers = trusting;
  plans = plans;
  observation_divergences = λ r l. [];
  fuzz_divergences = λ r l. [];
  base_tests_need_human = λ r l. false;
  fuzz_needs_human = λ r l. false;
  mutation_needs_human = λ r. false;
  impact_needs_human = λ r l. false;
  intent_note = λ id. id;
}

abbrev pub run : String → String → String → ℤ → Check
run id kind status exit = record {
  id = id;
  kind = kind;
  status = status;
  command = "go" ∷ "test" ∷ [];
  exit_code = exit;
  duration_ms = pos 5;
  output = "log";
  truncated = false;
  results = "";
  cache = none;
}

abbrev pub base_run : Check
base_run = run "check-1" check_generated_base "PASS" (pos 0)

abbrev pub failing_run : Check
failing_run = run "check-2" check_generated_candidate "FAIL" (pos 1)

abbrev pub passing_run : Check
passing_run = run "check-2" check_generated_candidate "PASS" (pos 0)

abbrev pub generated_test : String → Evidence
generated_test status = record {
  id = "ev-1";
  kind = Kind.differential_test;
  path = "store_test.go";
  output = "";
  check_id = "check-2";
  base_check_id = "check-1";
  criterion_id = "";
  status = status;
  runner = "go";
  test_names = "TestPut" ∷ [];
}

abbrev pub claim : String → Hypothesis
claim status = record {
  id = "h-1";
  title = "Put loses a key";
  severity = "High";
  status = status;
  rationale = "";
  evidence_ids = "ev-1" ∷ [];
  path = "store.go";
  line = pos 12;
  criterion_id = "";
  intent_judgment = "";
}

abbrev pub changed : String → ChangedFile
changed path = record { path = path; old_path = ""; status = "M"; hunks = [] }

abbrev pub change : Change
change = record { base_commit = "abc"; files = changed "store.go" ∷ [] }

abbrev pub plan : List String → PlanDrift
plan files = record {
  status = "";
  base_matches = false;
  critical_globs = [];
  contract = record {
    base_commit = "abc";
    files = files;
    symbols = [];
    critical_files = [];
    manifests = [];
  };
  items = [];
  assessment = record {
    status = plan_assessed;
    major = false;
    flagged_categories = [];
    gaps = [];
    reason = "";
  };
  decision = "";
  decision_reasons = [];
}

abbrev pub report_of : Check → String → Option PlanDrift → Report
report_of candidate status plan_drift = record {
  intent_criteria = [];
  change = change;
  signals = [];
  checks = base_run ∷ candidate ∷ [];
  hypotheses = claim status ∷ [];
  signal_assessments = [];
  evidence = generated_test status ∷ [];
  reproduced_issues = [];
  divergences = [];
  intent_test_failures = [];
  unverified = [];
  plan_drift = plan_drift;
  exit_code = 7;
  ai_impacts_criticality = false;
}

-- A high issue that the generated test reproduces.
abbrev pub failing : Report
failing = report_of failing_run Status.reproduced none

-- The same claim, not reproduced, under a plan that names the changed file.
abbrev pub passing : Report
passing = report_of passing_run Status.not_reproduced (some (plan ("store.go" ∷ [])))
