-- ===== src/Examples/Findings.antt =====
-- Finalized reports.
use swift_proof.Examples.{claim, failing, sections}
use swift_proof.Texts.{contains, to_upper}
use swift_proof.Prelude.Dict.{get, keep, put}
use swift_proof.Verify.{verify_core_evidence, verify_report}
use swift_proof.Ledger.{apply_masks, check, item, merge_owned, new_ledger}
use swift_proof.Conclude.{finalize}
use swift_proof.Prelude.{Member, [], any, false, filter, inl, refl, true, ◌==◌, ◌↔◌, ◌∷◌, ◌≡◌}
use swift_proof.Model.Status
use swift_proof.Model.{Hypothesis}
use swift_proof.Severity.{is_high}
use swift_proof.Conclude.ExitCode.{finalize-exit_one, is_reproduced_high}
use swift_proof.Conclude.Derived.{finalize-derived}
use swift_proof.Conclude.Reproduced.{Backed, finalize-exit_one-Backed, finalize-reproduced}

failing_exit : (finalize sections failing false).exit_code ≡ 1
unfolding finalize to_upper item get verify_report apply_masks merge_owned verify_core_evidence
    new_ledger put contains check keep
failing_exit = refl

finalize-exit_one-Backed_example :
    (g : Hypothesis) × Member g (finalize sections failing false).hypotheses
    × (is_high g.severity ≡ true)
    × Backed sections failing g
finalize-exit_one-Backed_example = finalize-exit_one-Backed sections failing false failing_exit

finalize-exit_one_example :
    ((finalize sections failing true).exit_code ≡ 1)
    ↔ (any is_reproduced_high (finalize sections failing true).hypotheses ≡ true)
finalize-exit_one_example = finalize-exit_one sections failing true

-- The claim as the report ends with it.
abbrev final_claim : Hypothesis
final_claim = record (claim Status.reproduced) { severity = "high" }

failing_hypotheses : (finalize sections failing true).hypotheses ≡ final_claim ∷ []
unfolding finalize to_upper item get verify_report apply_masks merge_owned verify_core_evidence
    new_ledger put contains check keep
failing_hypotheses = refl

failing-Member : Member final_claim (finalize sections failing true).hypotheses
failing-Member = rw failing_hypotheses (inl refl)

finalize-reproduced_example : Backed sections failing final_claim
finalize-reproduced_example =
    finalize-reproduced sections failing true final_claim failing-Member refl

finalize-derived_example :
    let f = finalize sections failing true in
    (f.reproduced_issues ≡ filter (λ h. h.status == Status.reproduced) f.hypotheses)
    × (f.intent_test_failures ≡ filter (λ h. h.status == Status.intent_test_failed) f.hypotheses)
finalize-derived_example = finalize-derived sections failing true

failing_issues : (finalize sections failing true).reproduced_issues ≡ final_claim ∷ []
unfolding finalize to_upper item get verify_report apply_masks merge_owned verify_core_evidence
    new_ledger put contains check keep
failing_issues = refl
