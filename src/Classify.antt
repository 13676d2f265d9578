-- ===== src/Classify.antt =====
-- app/internal/mutation/events.go: the outcome of a mutant run, from the recorded control and
-- mutant checks of go test. Controls whose outcomes come from a script report are not modelled.
-- A reason is a constructor in place of the text that the source formats.
pub mod Outcomes
pub mod Verified
use swift_proof.Prelude.{
  Bool, List, Option, String, [], eqb, false, if◌then◌else◌, length, ltb, none, not, some, suc,
  take, true, ℕ, ◌&&◌, ◌++◌, ◌==◌, ◌||◌, ◌∷◌,
}
use swift_proof.Prelude.Int.{above, below, is_nat}
use swift_proof.Model.{Check, check_mutant, check_mutation_control}
use swift_proof.TestLog.{GoTestLog, LogReader, outcome, read_log}
use swift_proof.Verify.{equal_command}

abbrev pub killed : String
killed = "KILLED"

abbrev pub survived : String
survived = "SURVIVED"

abbrev pub invalid : String
invalid = "INVALID"

abbrev pub timeout : String
timeout = "TIMEOUT"

abbrev pub inconclusive : String
inconclusive = "INCONCLUSIVE"

abbrev pub not_run : String
not_run = "NOT_RUN"

-- `maxFailedTests`
abbrev pub max_failed_tests : ℕ
max_failed_tests = 5

pub data Reason : Type 0 where
  no_reason : Reason
  not_a_control : Reason
  no_command : Reason
  did_not_pass : Reason
  truncated_control : Reason
  unreadable_control : Reason
  control_build_failed : Reason
  control_timed_out : Reason
  several_packages : Reason
  failing_test : Reason
  no_passing_test : Reason
  not_a_mutant : Reason
  other_command : Reason
  not_executed : String → Reason
  time_limit : Reason
  infrastructure_error : Reason
  unknown_status : Reason
  truncated_log : Reason
  unreadable_log : Reason
  test_timed_out : Reason
  not_built : Reason
  other_package_tests : Reason
  no_failing_name : Reason
  no_passing_name : Reason

-- `Verdict`
pub record MutantVerdict : Type 0 where
  pub status : String
  pub tests_run : ℕ
  pub failed_tests : List String
  pub reason : Reason

abbrev pub without : String → Reason → MutantVerdict
without status reason = record {
  status = status;
  tests_run = 0;
  failed_tests = [];
  reason = reason;
}

-- The loop of `validateControl` over the top-level names: the package and how many passed.
unfoldable pub count_passed : GoTestLog → List String → String → ℕ → Option (String × ℕ) × Reason
count_passed l [] pkg passed = (some (pkg, passed), no_reason)
count_passed l (name ∷ names) pkg passed =
    let (action, p) = outcome l name in
    let pkg' = if pkg == "" then p else pkg in
    let rest =
      count_passed l names (if action == "" then pkg else pkg')
        (if action == "pass" then suc passed else passed) in
    if action == ""
    then rest
    else if not (p == pkg')
    then (none, several_packages)
    else if action == "fail"
    then (none, failing_test)
    else rest

unfoldable pub settle_passed : Option (String × ℕ) × Reason → String × Reason
settle_passed (none, why) = ("", why)
settle_passed (some (pkg, passed), why) =
    if eqb passed 0 || pkg == "" then ("", no_passing_test) else (pkg, no_reason)

unfoldable pub validate_log : GoTestLog → String × Reason
unfolding count_passed settle_passed
validate_log l =
    if l.unreadable
    then ("", unreadable_control)
    else if l.build_failed
    then ("", control_build_failed)
    else if l.timed_out
    then ("", control_timed_out)
    else settle_passed (count_passed l l.names "" 0)

-- A top-level failure of the mutant run, in order, and how many tests passed; none where a test
-- belongs to another package than the control's.
unfoldable pub split_outcomes :
    GoTestLog → String → List String → ℕ → List String → Option (ℕ × List String)
split_outcomes l pkg [] passed failed = some (passed, failed)
split_outcomes l pkg (name ∷ names) passed failed =
    let (action, p) = outcome l name in
    let rest =
      split_outcomes l pkg names (if action == "pass" then suc passed else passed)
        (if action == "fail" then failed ++ name ∷ [] else failed) in
    if action == "" then rest else if not (p == pkg) then none else rest

unfoldable pub settle_fail : Check → List String → MutantVerdict
settle_fail mutant failed =
    if above 0 mutant.exit_code && (below 125 mutant.exit_code && ltb 0 (length failed))
    then record {
      status = killed;
      tests_run = 0;
      failed_tests = take max_failed_tests failed;
      reason = no_reason;
    }
    else without inconclusive no_failing_name

unfoldable pub settle_pass : Check → ℕ → List String → MutantVerdict
settle_pass mutant passed failed =
    if is_nat 0 mutant.exit_code && (eqb (length failed) 0 && ltb 0 passed)
    then record { status = survived; tests_run = passed; failed_tests = []; reason = no_reason }
    else without inconclusive no_passing_name

unfoldable pub settle_run : Check → Option (ℕ × List String) → MutantVerdict
unfolding settle_fail settle_pass
settle_run mutant none = without inconclusive other_package_tests
settle_run mutant (some (passed, failed)) =
    if mutant.status == "FAIL" then settle_fail mutant failed else settle_pass mutant passed failed

unfoldable pub classify_log : Check → String → GoTestLog → MutantVerdict
unfolding split_outcomes settle_run
classify_log mutant pkg l =
    if l.unreadable
    then without inconclusive unreadable_log
    else if l.timed_out
    then without timeout test_timed_out
    else if l.build_failed
    then without invalid not_built
    else settle_run mutant (split_outcomes l pkg l.names 0 [])

unfoldable pub is_valid_reason : Reason → Bool
is_valid_reason no_reason = true
is_valid_reason _ = false

module _ (reader : LogReader) where
  unfoldable pub validate_control : Check → String × Reason
  unfolding validate_log
  validate_control control =
      if not (control.kind == check_mutation_control)
      then ("", not_a_control)
      else if eqb (length control.command) 0
      then ("", no_command)
      else if not (control.status == "PASS") || not (is_nat 0 control.exit_code)
      then ("", did_not_pass)
      else if control.truncated
      then ("", truncated_control)
      else validate_log (read_log reader control.output)

  -- `Control.Classify` for a control without a reason.
  unfoldable pub classify_valid : Check → String → Check → MutantVerdict
  unfolding classify_log
  classify_valid control pkg mutant =
      if not (mutant.kind == check_mutant)
      then without inconclusive not_a_mutant
      else if not (equal_command control.command mutant.command)
      then without inconclusive other_command
      else if mutant.status == "SKIPPED"
      then without not_run (not_executed mutant.output)
      else if mutant.status == "TIMEOUT"
      then without timeout time_limit
      else if mutant.status == "ERROR"
      then without inconclusive infrastructure_error
      else if not (mutant.status == "PASS" || mutant.status == "FAIL")
      then without inconclusive unknown_status
      else if mutant.truncated
      then without inconclusive truncated_log
      else classify_log mutant pkg (read_log reader mutant.output)

  -- `Classify`
  unfoldable pub classify : Check → Check → MutantVerdict
  unfolding validate_control classify_valid is_valid_reason
  classify control mutant =
      let (pkg, reason) = validate_control control in
      if is_valid_reason reason
      then classify_valid control pkg mutant
      else without inconclusive reason
