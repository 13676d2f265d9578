-- ===== src/Gate/Decision.antt =====
-- When the plan gate asks for no human review.
use swift_proof.Prelude.{
  Bool, List, [], all, ap, arith, count_if, eqb, false, if◌then◌else◌, length, ltb, map, not, refl,
  some, subst, sym, true, ◌&&◌, ◌++◌, ◌==◌, ◌∙◌, ◌∷◌, ◌≡◌,
}
use swift_proof.Model.Change.{
  GateReason, PlanDrift, PlanGateAssessment, drifted_status, no_review_required, not_assessed,
  not_measured, other_sections, plan_assessed, plan_drift_signal, raised_categories,
  review_required,
}
use swift_proof.Model.Report.{Report}
use swift_proof.Assessments.{signal_adjustments}
use swift_proof.Gate.{
  assessment_reasons, decide, decide_plan_gate, decide_plan_gate_of, gate_reasons, is_empty,
  is_failed, reads_high, report_reasons, when,
}

-- Everything that the plan-driven process asks of a report, and that nothing else in it asks
-- for a human.
abbrev pub gate_open : Report → PlanDrift → Bool → Bool
gate_open r d needs_human =
    d.assessment.status == plan_assessed
    && (not d.assessment.major
        && (is_empty d.assessment.gaps
            && (not (d.status == drifted_status)
                && (d.base_matches
                    && (not (eqb r.exit_code 1)
                        && (not (not (is_empty r.change.files) && is_empty r.checks)
                            && (all (λ c. not (is_failed c)) r.checks
                                && (all
                                      (λ s. not (
                                        reads_high (signal_adjustments r.signal_assessments []) s
                                        && not (s.kind == plan_drift_signal)))
                                      r.signals
                                    && (is_empty r.unverified && not needs_human)))))))))

is_empty-append {ℓ} :
    {A : Type ℓ} (xs ys : List A) → is_empty (xs ++ ys) ≡ (is_empty xs && is_empty ys)
unfolding is_empty
is_empty-append [] ys = refl
is_empty-append (x ∷ xs) ys = refl

is_empty-when : (b : Bool) (reason : GateReason) → is_empty (when b reason) ≡ not b
unfolding is_empty
is_empty-when true reason = refl
is_empty-when false reason = refl

is_empty-map {ℓ κ} :
    {A : Type ℓ} {B : Type κ} (f : A → B) (xs : List A) → is_empty (map f xs) ≡ is_empty xs
unfolding is_empty
is_empty-map f [] = refl
is_empty-map f (x ∷ xs) = refl

none_counted {ℓ} :
    {A : Type ℓ} (p : A → Bool) (xs : List A)
    → not (ltb 0 (count_if p xs)) ≡ all (λ x. not (p x)) xs
none_counted p [] = refl
none_counted p (x ∷ xs) = ground (arith, none_counted p xs)

none_unverified {ℓ} : {A : Type ℓ} (xs : List A) → not (ltb 0 (length xs)) ≡ is_empty xs
unfolding is_empty
none_unverified [] = refl
none_unverified (x ∷ xs) = ground arith

negated_twice : (b : Bool) → not (not b) ≡ b
negated_twice true = refl
negated_twice false = refl

assessment_reasons-empty :
    (a : PlanGateAssessment)
    → is_empty (assessment_reasons a)
      ≡ ((a.status == plan_assessed) && (not a.major && is_empty a.gaps))
unfolding assessment_reasons is_empty
assessment_reasons-empty a = ground (
  arith,
  is_empty-map not_measured a.gaps,
  is_empty-append
      (if not (a.status == plan_assessed)
        then not_assessed a.reason ∷ []
        else when a.major (raised_categories a.flagged_categories))
      (map not_measured a.gaps),
)

report_reasons-empty :
    (r : Report) (d : PlanDrift)
    → is_empty (report_reasons r d) ≡ (
        not (d.status == drifted_status)
        && (d.base_matches
            && (not (eqb r.exit_code 1)
                && (not (not (is_empty r.change.files) && is_empty r.checks)
                    && (all (λ c. not (is_failed c)) r.checks
                        && (all
                              (λ s. not (
                                reads_high (signal_adjustments r.signal_assessments []) s
                                && not (s.kind == plan_drift_signal)))
                              r.signals
                            && is_empty r.unverified))))))
unfolding report_reasons
report_reasons-empty r d =
    simp (is_empty-append, is_empty-when, none_counted, none_unverified, negated_twice)

and_assoc : (a b c : Bool) → ((a && b) && c) ≡ (a && (b && c))
and_assoc true b c = refl
and_assoc false b c = refl

with_other_sections :
    (h : Bool) (reasons : List GateReason)
    → is_empty (if h && is_empty reasons then other_sections ∷ [] else reasons)
      ≡ (is_empty reasons && not h)
unfolding is_empty
with_other_sections true [] = refl
with_other_sections true (x ∷ xs) = refl
with_other_sections false [] = refl
with_other_sections false (x ∷ xs) = refl

both_empty :
    (xs ys : List GateReason) (a b c : Bool)
    → is_empty xs ≡ a
    → is_empty ys ≡ b
    → (is_empty (xs ++ ys) && c) ≡ ((a && b) && c)
both_empty xs ys a b c p q = rw (is_empty-append, p, q)

gate_reasons-empty :
    (r : Report) (d : PlanDrift) (h : Bool) → is_empty (gate_reasons r d h) ≡ gate_open r d h
unfolding gate_reasons
gate_reasons-empty r d h =
    with_other_sections h (assessment_reasons d.assessment ++ report_reasons r d)
    ∙ both_empty (assessment_reasons d.assessment) (report_reasons r d) _ _ (not h)
        (assessment_reasons-empty d.assessment) (report_reasons-empty r d)
    ∙ simp and_assoc

review_if :
    (b : Bool)
    → (if not b then review_required else no_review_required)
      ≡ (if b then no_review_required else review_required)
review_if true = refl
review_if false = refl

decide_lem :
    (r : Report) (d : PlanDrift) (h : Bool)
    → ((decide r d h).1 ≡ not (gate_open r d h))
      × ((d' : PlanDrift) × ((decide r d h).0.plan_drift ≡ some d')
          × (d'.decision ≡ (if gate_open r d h then no_review_required else review_required)))
unfolding decide
decide_lem r d h = (
  ap not (gate_reasons-empty r d h),
  (
    record d {
      decision_reasons = gate_reasons r d h;
      decision =
          if not (is_empty (gate_reasons r d h)) then review_required else no_review_required;
    },
    refl,
    review_if (is_empty (gate_reasons r d h))
        ∙ ap (λ b. if b then no_review_required else review_required) (gate_reasons-empty r d h),
  ),
)

-- The plan gate decides that no human review is required exactly when the plan was assessed,
-- raised no category and left no gap, the change conforms to it at its base commit, no high or
-- critical issue was reproduced, a check ran if a file changed, every check passed, no signal
-- other than the drift ones reads as high or critical, nothing is unverified and no other part
-- of the report asks for a human; otherwise it requires review and asks for a human itself.
pub decide_plan_gate_lem :
    (r : Report) (d : PlanDrift) (needs_human : Bool)
    → r.plan_drift ≡ some d
    → ((decide_plan_gate r needs_human).1 ≡ not (gate_open r d needs_human))
      × ((d' : PlanDrift) × ((decide_plan_gate r needs_human).0.plan_drift ≡ some d')
          × (d'.decision
              ≡ (if gate_open r d needs_human then no_review_required else review_required)))
unfolding decide_plan_gate
decide_plan_gate_lem r d h p =
    subst
      (λ o.
        ((decide_plan_gate_of r o h).1 ≡ not (gate_open r d h))
        × ((d' : PlanDrift) × ((decide_plan_gate_of r o h).0.plan_drift ≡ some d')
            × (d'.decision ≡ (if gate_open r d h then no_review_required else review_required))))
      (sym p) (decide_lem r d h)
