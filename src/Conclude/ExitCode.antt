-- ===== src/Conclude/ExitCode.antt =====
-- The exit code of `Finalize`.
use swift_proof.Verify.{verify_report}
use swift_proof.Prelude.{
  Bool, List, Option, [], any, any-append, ap, eqb, false, if◌then◌else◌, none, not, refl, some,
  subst, sym, true, ℕ, ◌&&◌, ◌==◌, ◌||◌, ◌↔◌, ◌∙◌, ◌∷◌, ◌≡◌,
}
use swift_proof.Prelude.Dict.{Dict}
use swift_proof.Severity.{is_high}
use swift_proof.Texts.{is_blank, to_upper}
use swift_proof.Model.Status
use swift_proof.Model.{Hypothesis, IntentCriterion}
use swift_proof.Ledger.{Ledger}
use swift_proof.Support.{cites_any, criterion_index}
use swift_proof.Conclude.{
  Sections, Tally, build_divergences, cleared, conclude, conclude_all, conclude_hypotheses,
  conclude_one, conclude_sections, decided, final_hypothesis, finalize, is_backed, judge_hypothesis,
  listed_ids, with_severity,
}
use swift_proof.Conclude.Verdicts.{judge_fails, normalize_intent_link-SameClaim}
use swift_proof.Model.Change.{PlanDrift}
use swift_proof.Model.Report.{Report}
use swift_proof.Gate.{Plans, decide_plan_gate, decide_plan_gate_of, finalize_plan_drift_of}

-- A hypothesis that sets exit code 1.
abbrev pub is_reproduced_high : Hypothesis → Bool
is_reproduced_high h = h.status == Status.reproduced && is_high h.severity

exit_or :
    (b c : Bool)
    → ◌≡◌ {A = ℕ} (if c then 1 else if b then 1 else 0) (if b || (c || false) then 1 else 0)
exit_or true true = refl
exit_or true false = refl
exit_or false true = refl
exit_or false false = refl

module _ (sections : Sections) (l : Ledger) (criteria : Dict IntentCriterion)
    (listed : Dict Bool) where
  final-fails :
      (h : Hypothesis)
      → (judge_hypothesis l criteria listed (with_severity h)).fails
        ≡ is_reproduced_high (final_hypothesis l criteria listed h).0
  unfolding final_hypothesis
  final-fails h =
      let g = with_severity h in
      let v = judge_hypothesis l criteria listed g in
      let same = normalize_intent_link-SameClaim (record g { status = v.status }) criteria in
      judge_fails (to_upper g.status) (is_backed l criteria g) (is_high g.severity)
        (cites_any g listed) (not (is_blank g.rationale))
      ∙ rw (same.status, same.severity) refl

  -- The exit code of the loop tells whether it met such a hypothesis.
  abbrev TallyExit : Tally → Type 0
  TallyExit t = t.exit_code ≡ (if any is_reproduced_high t.hypotheses then 1 else 0)

  conclude_one-exit :
      (t : Tally) (h : Hypothesis)
      → TallyExit t
      → TallyExit (conclude_one sections l criteria listed t h)
  unfolding conclude_one
  conclude_one-exit t h p =
      rw (any-append, final-fails h, p) (exit_or (any is_reproduced_high t.hypotheses) _)

  conclude_all-exit :
      (hs : List Hypothesis) (t : Tally)
      → TallyExit t
      → TallyExit (conclude_all sections l criteria listed hs t)
  unfolding conclude_all
  conclude_all-exit [] t p = p
  conclude_all-exit (h ∷ hs) t p =
      conclude_all-exit hs (conclude_one sections l criteria listed t h) (conclude_one-exit t h p)

-- The rest of `conclude` leaves the hypotheses and the exit code of the loop.
pub record SameOutcome (r r' : Report) : Type 0 where
  pub hypotheses : r'.hypotheses ≡ r.hypotheses
  pub exit_code : r'.exit_code ≡ r.exit_code
  pub checks : r'.checks ≡ r.checks
  pub change : r'.change ≡ r.change
  pub divergences : r'.divergences ≡ r.divergences
  pub reproduced_issues : r'.reproduced_issues ≡ r.reproduced_issues
  pub intent_test_failures : r'.intent_test_failures ≡ r.intent_test_failures
  pub evidence : r'.evidence ≡ r.evidence

pub finalize_plan_drift-same :
    (plans : Plans) (r : Report) (o : Option PlanDrift)
    → SameOutcome r (finalize_plan_drift_of plans r o).0
unfolding finalize_plan_drift_of
finalize_plan_drift-same plans r none = record {
  hypotheses = refl;
  exit_code = refl;
  checks = refl;
  change = refl;
  divergences = refl;
  reproduced_issues = refl;
  intent_test_failures = refl;
  evidence = refl;
}
finalize_plan_drift-same plans r (some d) = record {
  hypotheses = refl;
  exit_code = refl;
  checks = refl;
  change = refl;
  divergences = refl;
  reproduced_issues = refl;
  intent_test_failures = refl;
  evidence = refl;
}

decide_plan_gate-same :
    (r : Report) (o : Option PlanDrift) (h : Bool) → SameOutcome r (decide_plan_gate_of r o h).0
unfolding decide_plan_gate_of
decide_plan_gate-same r none h = record {
  hypotheses = refl;
  exit_code = refl;
  checks = refl;
  change = refl;
  divergences = refl;
  reproduced_issues = refl;
  intent_test_failures = refl;
  evidence = refl;
}
decide_plan_gate-same r (some d) h = record {
  hypotheses = refl;
  exit_code = refl;
  checks = refl;
  change = refl;
  divergences = refl;
  reproduced_issues = refl;
  intent_test_failures = refl;
  evidence = refl;
}

module _ (sections : Sections) where
  sections-same :
      (r : Report) (l : Ledger) (h : Bool) → SameOutcome r (conclude_sections sections r l h).0
  unfolding conclude_sections
  sections-same r l h =
      let same = finalize_plan_drift-same sections.plans r r.plan_drift in
      record {
        hypotheses = same.hypotheses;
        exit_code = same.exit_code;
        checks = same.checks;
        change = same.change;
        divergences = same.divergences;
        reproduced_issues = same.reproduced_issues;
        intent_test_failures = same.intent_test_failures;
        evidence = same.evidence;
      }

  hypotheses-exit :
      (r : Report) (l : Ledger)
      → r.exit_code ≡ 0
      → (conclude_hypotheses sections r l).0.exit_code
        ≡ (if any is_reproduced_high (conclude_hypotheses sections r l).0.hypotheses then 1 else 0)
  unfolding conclude_hypotheses
  hypotheses-exit r l p =
      conclude_all-exit sections l (criterion_index r.intent_criteria)
        (listed_ids (build_divergences sections r l) []) r.hypotheses _ p

-- The last step: exit code 2 where the loop left 0 and a human is needed.
settled-exit :
    (r : Report) (x b : Bool)
    → r.exit_code ≡ (if x then 1 else 0)
    → (if eqb r.exit_code 0 && b then record r { exit_code = 2 } else r).exit_code
      ≡ (if x then 1 else if b then 2 else 0)
settled-exit r true b p = rw p refl
settled-exit r false true p = rw p refl
settled-exit r false false p = rw p refl

settled-same :
    (r : Report) (b : Bool)
    → SameOutcome
        (record r { exit_code = 0 })
        (record (if b then record r { exit_code = 2 } else r) { exit_code = 0 })
settled-same r true = record {
  hypotheses = refl;
  exit_code = refl;
  checks = refl;
  change = refl;
  divergences = refl;
  reproduced_issues = refl;
  intent_test_failures = refl;
  evidence = refl;
}
settled-same r false = record {
  hypotheses = refl;
  exit_code = refl;
  checks = refl;
  change = refl;
  divergences = refl;
  reproduced_issues = refl;
  intent_test_failures = refl;
  evidence = refl;
}

gate_same : (r : Report) (h : Bool) → SameOutcome r (decide_plan_gate r h).0
unfolding decide_plan_gate
gate_same r h = decide_plan_gate-same r r.plan_drift h

only_one : (x b : Bool) → (◌≡◌ {A = ℕ} (if x then 1 else if b then 2 else 0) 1) ↔ (x ≡ true)
only_one true b = ((λ p. refl), (λ p. refl))
only_one false true = ((λ p. absurd (cc)), (λ p. cc))
only_one false false = ((λ p. cc), (λ p. cc))

module _ (sections : Sections) where
  pub decided-same :
      (r : Report) (l : Ledger)
      → SameOutcome (conclude_hypotheses sections r l).0 (decided sections r l).0
  unfolding decided
  decided-same r l =
      let (r₁, human₁) = conclude_hypotheses sections r l in
      let (r₂, human₂) = conclude_sections sections r₁ l human₁ in
      let a = sections-same sections r₁ l human₁ in
      let b = gate_same r₂ human₂ in
      record {
        hypotheses = b.hypotheses ∙ a.hypotheses;
        exit_code = b.exit_code ∙ a.exit_code;
        checks = b.checks ∙ a.checks;
        change = b.change ∙ a.change;
        divergences = b.divergences ∙ a.divergences;
        reproduced_issues = b.reproduced_issues ∙ a.reproduced_issues;
        intent_test_failures = b.intent_test_failures ∙ a.intent_test_failures;
        evidence = b.evidence ∙ a.evidence;
      }

  -- The last step changes the exit code only.
  pub conclude-same :
      (r : Report) (l : Ledger) (ci : Bool)
      → SameOutcome
          (record (conclude_hypotheses sections r l).0 { exit_code = 0 })
          (record (conclude sections r l ci) { exit_code = 0 })
  unfolding conclude
  conclude-same r l ci =
      let a = decided-same r l in
      let b =
        settled-same (decided sections r l).0
          (eqb (decided sections r l).0.exit_code 0 && (ci && (decided sections r l).1)) in
      record {
        hypotheses = b.hypotheses ∙ a.hypotheses;
        exit_code = refl;
        checks = b.checks ∙ a.checks;
        change = b.change ∙ a.change;
        divergences = b.divergences ∙ a.divergences;
        reproduced_issues = b.reproduced_issues ∙ a.reproduced_issues;
        intent_test_failures = b.intent_test_failures ∙ a.intent_test_failures;
        evidence = b.evidence ∙ a.evidence;
      }

  pub conclude-exit :
      (r : Report) (l : Ledger) (ci : Bool)
      → r.exit_code ≡ 0
      → (conclude sections r l ci).exit_code ≡ (
          if any is_reproduced_high (conclude sections r l ci).hypotheses
          then 1
          else if ci && (decided sections r l).1
          then 2
          else 0)
  unfolding conclude
  conclude-exit r l ci p =
      settled-exit (decided sections r l).0
        (any is_reproduced_high (conclude sections r l ci).hypotheses)
        (ci && (decided sections r l).1)
        ((decided-same r l).exit_code
          ∙ hypotheses-exit sections r l p
          ∙ ap (λ hs. if any is_reproduced_high hs then 1 else 0)
              (sym (conclude-same r l ci).hypotheses))

  -- Whatever the other sections answer, `Finalize` sets exit code 1 exactly when a final hypothesis
  -- is REPRODUCED with a high or critical severity, with `ci` and without.
  pub finalize-exit_one :
      (r : Report) (ci : Bool)
      → ((finalize sections r ci).exit_code ≡ 1)
        ↔ (any is_reproduced_high (finalize sections r ci).hypotheses ≡ true)
  unfolding finalize cleared
  finalize-exit_one r ci =
      let r₀ = cleared r in
      let l = verify_report sections.verifiers r₀ in
      subst (λ n. (n ≡ 1) ↔ (any is_reproduced_high (conclude sections r₀ l ci).hypotheses ≡ true))
        (sym (conclude-exit r₀ l ci refl)) (only_one _ _)
