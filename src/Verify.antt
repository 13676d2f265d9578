-- ===== src/Verify.antt =====
-- app/internal/report/verify.go: the statuses that recorded checks support, and the order in
-- which the verifiers feed the ledger. The verifiers of the other evidence kinds, the masks, the
-- reader of test logs and the redaction are components behind the interface `Verifiers`.
pub mod Positive
pub mod Generated
pub mod Supported
use swift_proof.Prelude.{
  Bool, List, Option, String, [], false, if◌then◌else◌, none, not, some, true, ◌&&◌, ◌==◌, ◌||◌,
  ◌∷◌, ◌≡◌,
}
use swift_proof.Prelude.Dict.{Dict, put}
use swift_proof.Prelude.Int.{above, below, is_nat}
use swift_proof.Texts.{contains}
use swift_proof.Model.Status
use swift_proof.Model.Kind
use swift_proof.Model.{
  Check, CheckCache, Evidence, check_generated_base, check_generated_candidate, replayed,
}
use swift_proof.Model.Report.{Report}
use swift_proof.Ledger.{Ledger, apply_masks, check, item, merge_owned, new_ledger}

pub record Verifiers : Type 0 where
  -- verifyObservations, verifyFuzz, verifyBaseTests, verifyImpactedTests, verifyIntentTests
  pub observations : Report → Ledger → Dict String
  pub fuzz : Report → Ledger → Dict String
  pub base_tests : Report → Ledger → Dict String
  pub impacted_tests : Report → Ledger → Dict String
  pub intent_tests : Report → Ledger → Dict String
  -- observationMasks
  pub masks : Report → Ledger → Dict Bool
  -- harness.ValidateExecution: the check as its log supports it, and whether the runner is known
  pub validate_execution : String → Check → String → List String → Check × Bool
  -- it returns a copy of the check that keeps the cache record
  pub cache_kept :
      (runner : String) (c : Check) (path : String) (names : List String)
      → (validate_execution runner c path names).0.cache ≡ c.cache
  -- redact.IsFixedPoint
  pub is_fixed_point : String → Bool

abbrev pub marker : String
marker = "[REDACTED]"

unfoldable pub equal_list : List String → List String → Bool
equal_list [] [] = true
equal_list (x ∷ xs) (y ∷ ys) = x == y && equal_list xs ys
equal_list _ _ = false

-- `equalCommand`: two empty commands are not equal.
unfoldable pub equal_command : List String → List String → Bool
unfolding equal_list
equal_command [] b = false
equal_command (x ∷ a) b = equal_list (x ∷ a) b

unfoldable pub positive_baseline : Check → Bool
unfolding replayed
positive_baseline c = not (replayed c)

unfoldable pub live_twice : Option CheckCache → Bool
live_twice none = false
live_twice (some cache) = above 1 cache.live_runs

unfoldable pub negative_baseline : Check → Bool
unfolding replayed live_twice
negative_baseline c = not (replayed c) || live_twice c.cache

-- The two cases of the `switch` that ends `differentialTestStatus`, on the validated runs.
unfoldable pub fails_live : Check → Check → Bool
unfolding positive_baseline
fails_live candidate base =
    candidate.status == "FAIL"
    && (above 0 candidate.exit_code && (below 125 candidate.exit_code && positive_baseline base))

unfoldable pub passes_live : Check → Check → Bool
unfolding negative_baseline
passes_live candidate base =
    candidate.status == "PASS" && (is_nat 0 candidate.exit_code && negative_baseline base)

unfoldable pub outcome_status : Check → Check → String
unfolding fails_live passes_live
outcome_status candidate base =
    if fails_live candidate base
    then Status.reproduced
    else if passes_live candidate base
    then Status.not_reproduced
    else ""

module _ (v : Verifiers) where
  unfoldable pub verifiable_text : String → Bool
  verifiable_text s = v.is_fixed_point s && not (contains s marker)

  unfoldable pub all_verifiable : List String → Bool
  unfolding verifiable_text
  all_verifiable [] = true
  all_verifiable (n ∷ names) = verifiable_text n && all_verifiable names

  unfoldable pub verifiable_names : List String → Bool
  unfolding all_verifiable
  verifiable_names [] = false
  verifiable_names (n ∷ names) = all_verifiable (n ∷ names)

  -- The part of `differentialTestStatus` after both checks were found.
  unfoldable pub runs_status : Evidence → Check → Check → String
  unfolding outcome_status equal_command replayed
  runs_status e base candidate =
      if not (base.kind == check_generated_base)
        || not (candidate.kind == check_generated_candidate)
        || not (equal_command candidate.command base.command)
        || replayed candidate
      then ""
      else let (candidate', known) = v.validate_execution e.runner candidate e.path e.test_names in
        let (base', _) = v.validate_execution e.runner base e.path e.test_names in
        if not known || not (base'.status == "PASS") || not (is_nat 0 base'.exit_code)
        then ""
        else outcome_status candidate' base'

  unfoldable pub found_status : Evidence → Option Check → Option Check → String
  unfolding runs_status
  found_status e (some base) (some candidate) = runs_status e base candidate
  found_status e _ _ = ""

  unfoldable pub differential_test_status : Evidence → Ledger → String
  unfolding found_status verifiable_names
  differential_test_status e l =
      if not (verifiable_names e.test_names) || (not (e.path == "") && not (verifiable_text e.path))
      then ""
      else found_status e (check l e.base_check_id) (check l e.check_id)

  -- The `switch` of `verifyCoreEvidence` over the evidence kind.
  unfoldable pub core_status : Evidence → Ledger → String
  unfolding differential_test_status
  core_status e l =
      if e.kind == Kind.source_observation
      then (if e.output == "" then "" else Status.observed)
      else if e.kind == Kind.differential_test
      then differential_test_status e l
      else ""

  unfoldable pub core_entry : Ledger → Option Evidence → Dict String → Dict String
  unfolding core_status
  core_entry l none out = out
  core_entry l (some e) out =
      if not (core_status e l == "") && core_status e l == e.status
      then put e.id (core_status e l) out
      else out

  unfoldable pub core_evidence : Ledger → List Evidence → Dict String → Dict String
  unfolding core_entry
  core_evidence l [] out = out
  core_evidence l (e ∷ es) out = core_evidence l es (core_entry l (item l e.id) out)

  unfoldable pub verify_core_evidence : Report → Ledger → Dict String
  unfolding core_evidence
  verify_core_evidence r l = core_evidence l r.evidence []

  -- The ledger of `verifyReport` before the masks.
  unfoldable pub merge_verifiers : Report → Ledger → Ledger
  merge_verifiers r l₀ =
      let l₁ =
        merge_owned (Kind.source_observation ∷ Kind.differential_test ∷ []) l₀
          (verify_core_evidence r l₀) in
      let l₂ = merge_owned (Kind.differential_observation ∷ []) l₁ (v.observations r l₁) in
      let l₃ = merge_owned (Kind.differential_fuzz ∷ []) l₂ (v.fuzz r l₂) in
      let l₄ = merge_owned (Kind.base_test_differential ∷ []) l₃ (v.base_tests r l₃) in
      let l₅ = merge_owned (Kind.impacted_test_differential ∷ []) l₄ (v.impacted_tests r l₄) in
      merge_owned (Kind.intent_test ∷ []) l₅ (v.intent_tests r l₅)

  unfoldable pub verify_report : Report → Ledger
  unfolding merge_verifiers
  verify_report r =
      let l = merge_verifiers r (new_ledger r.checks r.evidence) in apply_masks l (v.masks r l)
