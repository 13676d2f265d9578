-- ===== src/Examples/Logs.antt =====
-- Logs of one test, and a mutant that it kills.
use swift_proof.Prelude.{
  Option, String, [], ap, false, if◌then◌else◌, none, not, refl, some, ◌==◌, ◌∷◌, ◌≡◌,
}
use swift_proof.Model.{Check, check_mutant, check_mutation_control}
use swift_proof.Prelude.Int.{pos}
use swift_proof.Examples.{run}
use swift_proof.Classify.{classify, killed, validate_control}
use swift_proof.Prelude.Dict.{get, put}
use swift_proof.Texts.{contains}
use swift_proof.Verify.{equal_command}
use swift_proof.Classify.Verified.{Executed, KilledBy, classify-KilledBy}
use swift_proof.TestLog.{
  LogEvent, LogReader, OutcomeEvent, go_test_outcome, outcome, outcome_of, read_log,
}
use swift_proof.TestLog.Agreement.{read_log-outcome}

abbrev test_event : String → LogEvent
test_event action = record {
  action = action;
  pkg = "store";
  test = "TestPut";
  output = "";
  failed_build = "";
}

decode : String → Option LogEvent
decode line =
    if line == "{run"
    then some (test_event "run")
    else if line == "{pass"
    then some (test_event "pass")
    else if line == "{fail"
    then some (test_event "fail")
    else none

decode_small : Option LogEvent → Option OutcomeEvent
decode_small none = none
decode_small (some e) = some (outcome_of e)

-- A reader that knows three lines, and a log that starts with the first.
abbrev two_lines : LogReader
unfolding decode_small
two_lines = record {
  lines = λ s. ("{run" ∷ s ∷ [], false);
  is_object = λ line. not (line == "text");
  decode_event = decode;
  decode_outcome = λ line. decode_small (decode line);
  decode_less = λ line e p. ap decode_small p;
}

read_log-outcome_example :
    outcome (read_log two_lines "{pass") "TestPut" ≡ go_test_outcome two_lines "{pass" "TestPut"
read_log-outcome_example = read_log-outcome two_lines "{pass" "TestPut"

passing_outcome : go_test_outcome two_lines "{pass" "TestPut" ≡ ("pass", "store")
unfolding two_lines decode decode_small go_test_outcome
passing_outcome = refl

abbrev control_run : Check
control_run = record (run "control" check_mutation_control "PASS" (pos 0)) { output = "{pass" }

abbrev mutant_run : Check
mutant_run = record (run "mutant" check_mutant "FAIL" (pos 1)) { output = "{fail" }

mutant_killed : (classify two_lines control_run mutant_run).status ≡ killed
unfolding two_lines decode decode_small classify read_log get put contains outcome equal_command
mutant_killed = refl

classify-KilledBy_example :
    Executed two_lines control_run mutant_run
    × KilledBy two_lines mutant_run
        (validate_control two_lines control_run).0
        (classify two_lines control_run mutant_run)
classify-KilledBy_example = classify-KilledBy two_lines control_run mutant_run mutant_killed
