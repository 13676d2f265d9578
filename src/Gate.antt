-- ===== src/Gate.antt =====
-- app/internal/report/plandrift.go: the plan section of a report and the plan gate. The merge of
-- signals (linter.Merge) is an operation of the interface `Plans`.
pub mod Decision
use swift_proof.Prelude.{
  Bool, List, Option, String, [], count_if, eqb, false, if◌then◌else◌, leb, length, ltb, map, none,
  not, some, true, ◌&&◌, ◌++◌, ◌==◌, ◌||◌, ◌∷◌,
}
use swift_proof.Prelude.Dict.{Dict}
use swift_proof.Prelude.Int.{is_nat}
use swift_proof.Severity.{is_high, rank}
use swift_proof.Model.{Check, Signal}
use swift_proof.Model.Change.{
  GateReason, PlanDrift, PlanGateAssessment, checks_failed, drifted, drifted_status, high_signals,
  no_check_ran, no_review_required, not_assessed, not_measured, other_base, other_sections,
  plan_assessed, plan_drift_signal, plan_unassessed, raised_categories, reproduced_issue,
  review_required, unverified_areas,
}
use swift_proof.Model.Report.{Report}
use swift_proof.Assessments.{Adjustment, effective_severity, signal_adjustments}
use swift_proof.DriftSignals.{drift_signals}
use swift_proof.Drift.{PathRules, drift, drift_status}

pub record Plans : Type 0 where
  pub rules : PathRules
  -- linter.Merge
  pub merge_signals : List Signal → List Signal → List Signal

abbrev pub plan_base_note : String
plan_base_note =
    "The plan was made against another base commit than the one this review compares from; files and symbols it named may have moved since."

abbrev pub default_reason : String
default_reason = "the plan was not re-assessed by this review"

-- The signals that are not plan_drift ones.
unfoldable pub other_signals : List Signal → List Signal
other_signals [] = []
other_signals (s ∷ ss) =
    let rest = other_signals ss in if s.kind == plan_drift_signal then rest else s ∷ rest

unfoldable pub is_empty {ℓ} : {A : Type ℓ} → List A → Bool
is_empty [] = true
is_empty (x ∷ xs) = false

-- The assessment as `finalizePlanDrift` leaves it.
unfoldable pub settle_assessment : PlanGateAssessment → PlanGateAssessment
unfolding is_empty
settle_assessment a =
    let assessed = a.status == plan_assessed in
    record a {
      status = if assessed then a.status else plan_unassessed;
      major = not (is_empty a.flagged_categories);
      reason = if assessed then a.reason else if a.reason == "" then default_reason else a.reason;
    }

-- Whether the assessment alone asks for a human: the tests run on the recorded one.
unfoldable pub assessment_needs_human : PlanGateAssessment → Bool
unfolding is_empty
assessment_needs_human a = not (a.status == plan_assessed) || a.major || not (is_empty a.gaps)

module _ (plans : Plans) where
  unfoldable pub settle_drift : Report → PlanDrift → PlanDrift
  unfolding settle_assessment
  settle_drift r d =
      let items =
        drift plans.rules d.contract d.critical_globs r.change (other_signals r.signals) in
      record d {
        items = items;
        status = drift_status items;
        base_matches =
            not (d.contract.base_commit == "") && d.contract.base_commit == r.change.base_commit;
        assessment = settle_assessment d.assessment;
      }

  unfoldable pub merge_drift_signals : List Signal → List Signal → List Signal
  unfolding is_empty
  merge_drift_signals signals extra =
      if is_empty extra then signals else plans.merge_signals signals extra

  unfoldable pub finalize_some_drift : Report → PlanDrift → Report × Bool
  unfolding settle_drift merge_drift_signals assessment_needs_human other_signals drift_signals
  finalize_some_drift r d =
      let d' = settle_drift r d in
      let kept = other_signals r.signals in
      let r' = record r {
        signals = merge_drift_signals kept (drift_signals d'.items r.change);
        plan_drift = some d';
        unverified = if d'.base_matches then r.unverified else r.unverified ++ plan_base_note ∷ [];
      } in
      (
        r',
        d'.status == drifted_status || assessment_needs_human d.assessment || not d'.base_matches,
      )

  unfoldable pub finalize_plan_drift_of : Report → Option PlanDrift → Report × Bool
  unfolding finalize_some_drift other_signals
  finalize_plan_drift_of r none = (record r { signals = other_signals r.signals }, false)
  finalize_plan_drift_of r (some d) = finalize_some_drift r d

  unfoldable pub finalize_plan_drift : Report → Report × Bool
  unfolding finalize_plan_drift_of
  finalize_plan_drift r = finalize_plan_drift_of r r.plan_drift

-- A check that did not pass.
unfoldable pub is_failed : Check → Bool
is_failed c = not (c.status == "PASS") || not (is_nat 0 c.exit_code)

-- A signal that conclusions read as high or critical.
unfoldable pub reads_high : Dict Adjustment → Signal → Bool
unfolding effective_severity is_high
reads_high adjustments s =
    let (sev, aside) = effective_severity s adjustments in not aside && is_high sev

abbrev pub when : Bool → GateReason → List GateReason
when b reason = if b then reason ∷ [] else []

unfoldable pub assessment_reasons : PlanGateAssessment → List GateReason
assessment_reasons a =
    (if not (a.status == plan_assessed)
      then not_assessed a.reason ∷ []
      else when a.major (raised_categories a.flagged_categories))
    ++ map not_measured a.gaps

unfoldable pub report_reasons : Report → PlanDrift → List GateReason
unfolding is_failed reads_high is_empty
report_reasons r d =
    let failed = count_if is_failed r.checks in
    let adjustments = signal_adjustments r.signal_assessments [] in
    let high =
      count_if (λ s. reads_high adjustments s && not (s.kind == plan_drift_signal)) r.signals in
    when (d.status == drifted_status)
      (drifted (count_if (λ i. leb (rank "medium") (rank i.severity)) d.items))
    ++ (when (not d.base_matches) other_base
        ++ (when (eqb r.exit_code 1) reproduced_issue
            ++ (when (not (is_empty r.change.files) && is_empty r.checks) no_check_ran
                ++ (when (ltb 0 failed) (checks_failed failed)
                    ++ (when (ltb 0 high) (high_signals high)
                        ++ when (ltb 0 (length r.unverified))
                            (unverified_areas (length r.unverified)))))))

unfoldable pub gate_reasons : Report → PlanDrift → Bool → List GateReason
unfolding assessment_reasons report_reasons is_empty
gate_reasons r d needs_human =
    let reasons = assessment_reasons d.assessment ++ report_reasons r d in
    if needs_human && is_empty reasons then other_sections ∷ [] else reasons

unfoldable pub decide : Report → PlanDrift → Bool → Report × Bool
unfolding gate_reasons is_empty
decide r d needs_human =
    let reasons = gate_reasons r d needs_human in
    let required = not (is_empty reasons) in
    (
      record r {
        plan_drift = some (record d {
          decision_reasons = reasons;
          decision = if required then review_required else no_review_required;
        });
      },
      required,
    )

unfoldable pub decide_plan_gate_of : Report → Option PlanDrift → Bool → Report × Bool
unfolding decide
decide_plan_gate_of r none needs_human = (r, false)
decide_plan_gate_of r (some d) needs_human = decide r d needs_human

unfoldable pub decide_plan_gate : Report → Bool → Report × Bool
unfolding decide_plan_gate_of
decide_plan_gate r needs_human = decide_plan_gate_of r r.plan_drift needs_human
