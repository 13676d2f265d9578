-- ===== src/Model/Kind.antt =====
-- Evidence kinds of app/internal/model/status.go.
use swift_proof.Prelude.{String}

abbrev pub source_observation : String
source_observation = "source_observation"

abbrev pub differential_test : String
differential_test = "differential_test"

abbrev pub differential_observation : String
differential_observation = "differential_observation"

abbrev pub differential_fuzz : String
differential_fuzz = "differential_fuzz"

abbrev pub base_test_differential : String
base_test_differential = "base_test_differential"

abbrev pub impacted_test_differential : String
impacted_test_differential = "impacted_test_differential"

abbrev pub intent_test : String
intent_test = "intent_test"
