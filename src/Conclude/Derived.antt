-- ===== src/Conclude/Derived.antt =====
-- The hypotheses that `conclude` ends with, and the lists derived from them.
use swift_proof.Prelude.{
  Bool, List, String, [], ap, append-nil, append_assoc, false, filter, map, refl, sym, true, ◌++◌,
  ◌==◌, ◌∙◌, ◌∷◌, ◌≡◌,
}
use swift_proof.Prelude.Dict.{Dict}
use swift_proof.Model.Status
use swift_proof.Model.{Hypothesis, IntentCriterion}
use swift_proof.Ledger.{Ledger}
use swift_proof.Conclude.{
  Sections, Tally, append_if, build_divergences, cleared, conclude_all, conclude_hypotheses,
  conclude_one, final_hypothesis, finalize, listed_ids,
}
use swift_proof.Model.Report.{Report}
use swift_proof.Support.{criterion_index}
use swift_proof.Verify.{verify_report}
use swift_proof.Conclude.ExitCode.{conclude-same}

abbrev has_status : String → Hypothesis → Bool
has_status status h = h.status == status

-- A round that appends a hypothesis passing a test extends the list of those.
extend :
    (p : Hypothesis → Bool) (g : Hypothesis) (xs gs : List Hypothesis) (b : Bool)
    → p g ≡ b
    → append_if b g xs ++ filter p gs ≡ xs ++ filter p (g ∷ gs)
extend p g xs gs true h = append_assoc xs (g ∷ []) (filter p gs) ∙ rw h refl
extend p g xs gs false h = rw h refl

module _ (sections : Sections) (l : Ledger) (criteria : Dict IntentCriterion)
    (listed : Dict Bool) where
  abbrev decide_one : Hypothesis → Hypothesis
  decide_one h = (final_hypothesis l criteria listed h).0

  pub conclude_all-hypotheses :
      (hs : List Hypothesis) (t : Tally)
      → (conclude_all sections l criteria listed hs t).hypotheses
        ≡ t.hypotheses ++ map decide_one hs
  unfolding conclude_all conclude_one
  conclude_all-hypotheses [] t = sym (append-nil t.hypotheses)
  conclude_all-hypotheses (h ∷ hs) t =
      conclude_all-hypotheses hs (conclude_one sections l criteria listed t h)
      ∙ append_assoc t.hypotheses (decide_one h ∷ []) (map decide_one hs)

  conclude_all-reproduced :
      (hs : List Hypothesis) (t : Tally)
      → (conclude_all sections l criteria listed hs t).reproduced_issues
        ≡ t.reproduced_issues ++ filter (has_status Status.reproduced) (map decide_one hs)
  unfolding conclude_all conclude_one
  conclude_all-reproduced [] t = sym (append-nil t.reproduced_issues)
  conclude_all-reproduced (h ∷ hs) t =
      conclude_all-reproduced hs (conclude_one sections l criteria listed t h)
      ∙ extend (has_status Status.reproduced) (decide_one h) t.reproduced_issues (map decide_one hs)
          (has_status Status.reproduced (decide_one h)) refl

  conclude_all-intent_failed :
      (hs : List Hypothesis) (t : Tally)
      → (conclude_all sections l criteria listed hs t).intent_test_failures
        ≡ t.intent_test_failures
          ++ filter (has_status Status.intent_test_failed) (map decide_one hs)
  unfolding conclude_all conclude_one
  conclude_all-intent_failed [] t = sym (append-nil t.intent_test_failures)
  conclude_all-intent_failed (h ∷ hs) t =
      conclude_all-intent_failed hs (conclude_one sections l criteria listed t h)
      ∙ extend (has_status Status.intent_test_failed) (decide_one h) t.intent_test_failures
          (map decide_one hs) (has_status Status.intent_test_failed (decide_one h)) refl

module _ (sections : Sections) where
  -- The hypothesis that `Finalize` makes of a recorded one.
  abbrev pub final : Report → Hypothesis → Hypothesis
  final r h =
      let r₀ = cleared r in
      let l = verify_report sections.verifiers r₀ in
      (final_hypothesis l (criterion_index r₀.intent_criteria)
        (listed_ids (build_divergences sections r₀ l) []) h).0

  pub finalize-hypotheses :
      (r : Report) (ci : Bool) → (finalize sections r ci).hypotheses ≡ map (final r) r.hypotheses
  unfolding finalize cleared conclude_hypotheses
  finalize-hypotheses r ci =
      let l = verify_report sections.verifiers (cleared r) in
      (conclude-same sections (cleared r) l ci).hypotheses
      ∙ conclude_all-hypotheses sections l _ _ r.hypotheses _

  -- The derived lists of a finalized report are its hypotheses with the status REPRODUCED and
  -- those with the status INTENT_TEST_FAILED, in order, whatever lists the report came with.
  pub finalize-derived :
      (r : Report) (ci : Bool)
      → let f = finalize sections r ci in
        (f.reproduced_issues ≡ filter (λ h. h.status == Status.reproduced) f.hypotheses)
        × (f.intent_test_failures
            ≡ filter (λ h. h.status == Status.intent_test_failed) f.hypotheses)
  unfolding finalize cleared conclude_hypotheses
  finalize-derived r ci =
      let l = verify_report sections.verifiers (cleared r) in
      let same = conclude-same sections (cleared r) l ci in
      let hypotheses = finalize-hypotheses r ci in
      (
        same.reproduced_issues
            ∙ conclude_all-reproduced sections l _ _ r.hypotheses _
            ∙ ap (filter (has_status Status.reproduced)) (sym hypotheses),
        same.intent_test_failures
            ∙ conclude_all-intent_failed sections l _ _ r.hypotheses _
            ∙ ap (filter (has_status Status.intent_test_failed)) (sym hypotheses),
      )
