-- ===== src/Conclude.antt =====
-- app/internal/report/report.go: the final statuses of the hypotheses, and the exit code.
-- The sections of the report that have their own finalizers (base tests, fuzzing, mutation,
-- impact) are behind the interface `Sections`: each writes its section only, and answers whether
-- it asks for a human. Review targets, coverage notes and the notes of the execution and prepare
-- sections are not modelled: nothing here reads them.
pub mod Verdicts
pub mod ExitCode
pub mod Derived
pub mod Reproduced
pub mod Clean
pub mod Diverged
use swift_proof.Prelude.{
  Bool, List, String, [], any, eqb, false, if◌then◌else◌, length, ltb, not, true, ℕ, ◌&&◌, ◌++◌,
  ◌==◌, ◌||◌, ◌∷◌,
}
use swift_proof.Prelude.Dict.{Dict, put}
use swift_proof.Texts.{is_blank, to_upper, unique}
use swift_proof.Severity.{is_high, severity}
use swift_proof.Model.Status
use swift_proof.Model.{Hypothesis, IntentCriterion}
use swift_proof.Model.Report.{Divergence, Report}
use swift_proof.Ledger.{Ledger}
use swift_proof.Verify.{Verifiers, verify_report}
use swift_proof.Support.{cites_any, criterion_index, normalize_intent_link, supports}
use swift_proof.Assessments.{finalize_assessments, signal_adjustments}
use swift_proof.Divergences.{link_divergences, select_divergences}
use swift_proof.Gate.{Plans, decide_plan_gate, finalize_plan_drift, is_empty, is_failed, reads_high}

pub record Sections : Type 0 where
  pub verifiers : Verifiers
  pub plans : Plans
  -- observationDivergences, fuzzDivergences
  pub observation_divergences : Report → Ledger → List Divergence
  pub fuzz_divergences : Report → Ledger → List Divergence
  -- finalizeBaseTests, finalizeFuzz, finalizeMutation with verifyMutation, finalizeImpact
  pub base_tests_need_human : Report → Ledger → Bool
  pub fuzz_needs_human : Report → Ledger → Bool
  pub mutation_needs_human : Report → Bool
  pub impact_needs_human : Report → Ledger → Bool
  -- the note of normalizeIntentLink for a hypothesis ID
  pub intent_note : String → String

-- `buildDivergences`, the argument `divergences` of `conclude`.
unfoldable pub build_divergences : Sections → Report → Ledger → List Divergence
unfolding select_divergences
build_divergences sections r l =
    select_divergences r l (sections.observation_divergences r l ++ sections.fuzz_divergences r l)

-- A case of the `switch` over a claimed status: the final status, whether it sets exit code 1,
-- and whether it asks for a human.
pub record Verdict : Type 0 where
  pub status : String
  pub fails : Bool
  pub human : Bool

abbrev pub verdict : String → Bool → Bool → Verdict
verdict status fails human = record { status = status; fails = fails; human = human }

unfoldable pub judge : String → Bool → Bool → Bool → Bool → Verdict
judge claimed backed high listed reasoned =
    if claimed == Status.reproduced && backed
    then verdict Status.reproduced high false
    else if claimed == Status.diverged && (backed && listed)
    then verdict Status.diverged false true
    else if claimed == Status.intent_test_failed && backed
    then verdict Status.intent_test_failed false true
    else if claimed == Status.not_reproduced && backed
    then verdict Status.not_reproduced false false
    else if claimed == Status.dismissed && (backed && reasoned)
    then verdict Status.dismissed false false
    else verdict Status.unverified false true

-- What the loop over the hypotheses has written.
pub record Tally : Type 0 where
  pub hypotheses : List Hypothesis
  pub reproduced_issues : List Hypothesis
  pub intent_test_failures : List Hypothesis
  pub unverified : List String
  pub exit_code : ℕ
  pub needs_human : Bool

-- `valid && supported`
unfoldable pub is_backed : Ledger → Dict IntentCriterion → Hypothesis → Bool
unfolding supports
is_backed l criteria h =
    let (valid, supported) = supports l h (to_upper h.status) criteria in valid && supported

-- The verdict on a hypothesis whose severity is normalized.
unfoldable pub judge_hypothesis : Ledger → Dict IntentCriterion → Dict Bool → Hypothesis → Verdict
unfolding judge is_backed cites_any is_high
judge_hypothesis l criteria listed h =
    judge (to_upper h.status) (is_backed l criteria h) (is_high h.severity) (cites_any h listed)
      (not (is_blank h.rationale))

unfoldable pub with_severity : Hypothesis → Hypothesis
unfolding severity
with_severity h = record h { severity = severity h.severity }

-- The hypothesis and the drop that one round of the loop ends with.
unfoldable pub final_hypothesis :
    Ledger → Dict IntentCriterion → Dict Bool → Hypothesis → Hypothesis × Bool
unfolding judge_hypothesis with_severity normalize_intent_link
final_hypothesis l criteria listed h =
    let g = with_severity h in
    normalize_intent_link (record g { status = (judge_hypothesis l criteria listed g).status })
      criteria

abbrev pub append_if : {A : Type 0} → Bool → A → List A → List A
append_if b a xs = if b then xs ++ a ∷ [] else xs

unfoldable pub conclude_one :
    Sections → Ledger → Dict IntentCriterion → Dict Bool → Tally → Hypothesis → Tally
unfolding judge_hypothesis with_severity final_hypothesis
conclude_one sections l criteria listed t h =
    let v = judge_hypothesis l criteria listed (with_severity h) in
    let (g, dropped) = final_hypothesis l criteria listed h in
    record {
      hypotheses = t.hypotheses ++ g ∷ [];
      reproduced_issues = append_if (g.status == Status.reproduced) g t.reproduced_issues;
      intent_test_failures =
          append_if (g.status == Status.intent_test_failed) g t.intent_test_failures;
      unverified = append_if dropped (sections.intent_note g.id) t.unverified;
      exit_code = if v.fails then 1 else t.exit_code;
      needs_human = t.needs_human || (v.human || dropped);
    }

unfoldable pub conclude_all :
    Sections → Ledger → Dict IntentCriterion → Dict Bool → List Hypothesis → Tally → Tally
unfolding conclude_one
conclude_all sections l criteria listed [] t = t
conclude_all sections l criteria listed (h ∷ hs) t =
    conclude_all sections l criteria listed hs (conclude_one sections l criteria listed t h)

unfoldable pub listed_ids : List Divergence → Dict Bool → Dict Bool
listed_ids [] out = out
listed_ids (d ∷ ds) out = listed_ids ds (put d.evidence_id true out)

-- The report with the statuses that the loop decided.
unfoldable pub conclude_hypotheses : Sections → Report → Ledger → Report × Bool
unfolding build_divergences link_divergences conclude_all listed_ids criterion_index
conclude_hypotheses sections r l =
    let entries = build_divergences sections r l in
    let t =
      conclude_all sections l (criterion_index r.intent_criteria) (listed_ids entries [])
        r.hypotheses
        (record {
          hypotheses = [];
          reproduced_issues = r.reproduced_issues;
          intent_test_failures = r.intent_test_failures;
          unverified = r.unverified;
          exit_code = r.exit_code;
          needs_human = ltb 0 (length r.unverified);
        }) in
    let r' = record r {
      hypotheses = t.hypotheses;
      reproduced_issues = t.reproduced_issues;
      intent_test_failures = t.intent_test_failures;
      unverified = t.unverified;
      exit_code = t.exit_code;
    } in
    let linked = link_divergences r' entries in
    (record r' { divergences = linked }, t.needs_human || not (is_empty linked))

-- The checks, the signals and the missing checks that ask for a human.
unfoldable pub recorded_needs_human : Report → Bool
unfolding signal_adjustments reads_high is_failed
recorded_needs_human r =
    let adjustments = signal_adjustments r.signal_assessments [] in
    any is_failed r.checks
    || (any (reads_high adjustments) r.signals
        || (not (is_empty r.change.files) && is_empty r.checks))

unfoldable pub sections_need_human : Sections → Report → Ledger → Bool
sections_need_human sections r l =
    sections.base_tests_need_human r l
    || (sections.fuzz_needs_human r l
        || (sections.mutation_needs_human r || sections.impact_needs_human r l))

-- The sections, the plan, the assessments, the checks and the signals.
unfoldable pub conclude_sections : Sections → Report → Ledger → Bool → Report × Bool
unfolding finalize_plan_drift finalize_assessments recorded_needs_human unique
conclude_sections sections r l human =
    let (r₁, plan_human) = finalize_plan_drift sections.plans r in
    let r₂ = finalize_assessments r₁ l in
    (
      record r₂ { unverified = unique r₂.unverified },
      human || (sections_need_human sections r l || (plan_human || recorded_needs_human r₂)),
    )

-- The report before the last step, with the question whether it needs a human.
unfoldable pub decided : Sections → Report → Ledger → Report × Bool
unfolding conclude_hypotheses conclude_sections decide_plan_gate
decided sections r l =
    let (r₁, human₁) = conclude_hypotheses sections r l in
    let (r₂, human₂) = conclude_sections sections r₁ l human₁ in
    let (r₃, gate) = decide_plan_gate r₂ human₂ in (r₃, human₂ || gate)

unfoldable pub conclude : Sections → Report → Ledger → Bool → Report
unfolding decided
conclude sections r l ci =
    let (r', human) = decided sections r l in
    if eqb r'.exit_code 0 && (ci && human) then record r' { exit_code = 2 } else r'

-- `Finalize` clears the derived lists and the exit code first.
unfoldable pub cleared : Report → Report
cleared r = record r {
  exit_code = 0;
  reproduced_issues = [];
  divergences = [];
  intent_test_failures = [];
}

unfoldable pub finalize : Sections → Report → Bool → Report
unfolding conclude cleared
finalize sections r ci =
    conclude sections (cleared r) (verify_report sections.verifiers (cleared r)) ci
