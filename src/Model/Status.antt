-- ===== src/Model/Status.antt =====
-- Hypothesis and evidence statuses of app/internal/model/status.go.
use swift_proof.Prelude.{String}

abbrev pub reproduced : String
reproduced = "REPRODUCED"

abbrev pub diverged : String
diverged = "DIVERGED"

abbrev pub intent_test_failed : String
intent_test_failed = "INTENT_TEST_FAILED"

abbrev pub not_reproduced : String
not_reproduced = "NOT_REPRODUCED"

abbrev pub dismissed : String
dismissed = "DISMISSED"

abbrev pub unverified : String
unverified = "UNVERIFIED"

abbrev pub observed : String
observed = "OBSERVED"
