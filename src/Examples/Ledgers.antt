-- ===== src/Examples/Ledgers.antt =====
-- Ledgers of reports.
use swift_proof.Examples.{claim, failing, generated_test, passing, trusting}
use swift_proof.Texts.{contains}
use swift_proof.Prelude.{String, [], false, refl, some, true, ◌∷◌, ◌≡◌, ◌≢◌, ◌⊎◌}
use swift_proof.Prelude.Dict.{get, keep, put}
use swift_proof.Prelude.Int.{pos}
use swift_proof.Model.Status
use swift_proof.Model.Kind
use swift_proof.Model.{Check, Evidence, replayed}
use swift_proof.Ledger.{Ledger, apply_masks, check, flag, item, merge_owned, new_ledger}
use swift_proof.Ledger.Invariant.{IsSound}
use swift_proof.Support.{supports}
use swift_proof.Support.Cited.{Cited, supports-Cited}
use swift_proof.Verify.{live_twice, merge_verifiers, verify_core_evidence, verify_report}
use swift_proof.Verify.Positive.{Runs}
use swift_proof.Verify.Generated.{verify_report-IsSound}
use swift_proof.Verify.Supported.{
  Reproduction, not_reproduced_hides_nothing, reproduced_needs_live_runs,
}

abbrev failed_test : Evidence
failed_test = generated_test Status.reproduced

abbrev passed_test : Evidence
passed_test = generated_test Status.not_reproduced

failing-item : item (verify_report trusting failing) "ev-1" ≡ some failed_test
unfolding verify_report item get apply_masks merge_owned verify_core_evidence new_ledger put
    contains check keep flag
failing-item = refl

failing_verified : get "ev-1" (verify_report trusting failing).verified ≡ some Status.reproduced
unfolding verify_report item get apply_masks merge_owned verify_core_evidence new_ledger put
    contains check keep flag
failing_verified = refl

reproduced_needs_live_runs_example :
    Reproduction trusting (verify_report trusting failing) failed_test
reproduced_needs_live_runs_example =
    reproduced_needs_live_runs trusting failing "ev-1" failed_test failing-item refl
      failing_verified

passing-item : item (verify_report trusting passing) "ev-1" ≡ some passed_test
unfolding verify_report item get apply_masks merge_owned verify_core_evidence new_ledger put
    contains check keep flag
passing-item = refl

passing_verified : get "ev-1" (verify_report trusting passing).verified ≡ some Status.not_reproduced
unfolding verify_report item get apply_masks merge_owned verify_core_evidence new_ledger put
    contains check keep flag
passing_verified = refl

not_reproduced_hides_nothing_example :
    ((base : Check) × (candidate : Check) × Runs trusting
        (verify_report trusting passing)
        passed_test
        base
        candidate
      × ((replayed base ≡ false) ⊎ (live_twice base.cache ≡ true))
      × ((candidate.status ≡ "PASS") × (candidate.exit_code ≡ pos 0)))
    × (let l = merge_verifiers trusting passing (new_ledger passing.checks passing.evidence) in
        (flag "check-2" (trusting.masks passing l) ≡ false)
        × ((id' : String) (o : Evidence)
            → item (verify_report trusting passing) id' ≡ some o
            → o.kind ≡ Kind.differential_observation
            → o.check_id ≢ ""
            → get id' (verify_report trusting passing).verified ≡ some Status.diverged
            → o.check_id ≢ "check-2"))
not_reproduced_hides_nothing_example =
    not_reproduced_hides_nothing trusting passing "ev-1" passed_test passing-item refl
      passing_verified

verify_report-IsSound_example : IsSound (verify_report trusting failing)
verify_report-IsSound_example = verify_report-IsSound trusting failing

abbrev failing_ledger : Ledger
failing_ledger = verify_report trusting failing

failing_supported :
    (supports failing_ledger (claim Status.reproduced) Status.reproduced []).1 ≡ true
unfolding supports verify_report item get apply_masks merge_owned verify_core_evidence new_ledger
    put contains check keep
failing_supported = refl

supports-Cited_example :
    (id : String) × (s : String) × (e : Evidence) × Cited failing_ledger
      ("ev-1" ∷ [])
      Status.reproduced
      id
      s
      e
supports-Cited_example =
    supports-Cited failing_ledger (claim Status.reproduced) Status.reproduced [] failing_supported
