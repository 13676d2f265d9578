-- ===== src/Conclude/Reproduced.antt =====
-- What a REPRODUCED hypothesis of a finalized report rests on.
use swift_proof.Conclude.ExitCode.{finalize-exit_one, is_reproduced_high}
use swift_proof.Verify.Supported.{Reproduction, reproduced_needs_live_runs}
use swift_proof.Prelude.{
  Bool, List, Member, Member-map, String, [], and_split, any-Member, ap, not, some, subst, sym,
  text_eq, true, ◌∙◌, ◌≡◌,
}
use swift_proof.Prelude.Dict.{Dict, get}
use swift_proof.Severity.{is_high}
use swift_proof.Texts.{is_blank, to_upper}
use swift_proof.Model.Status
use swift_proof.Model.Kind
use swift_proof.Model.{Evidence, Hypothesis, IntentCriterion}
use swift_proof.Ledger.{Ledger, item}
use swift_proof.Support.{cites_any, criterion_index, supports}
use swift_proof.Support.Cited.{Cited, accepts-reproduced, supports-Cited}
use swift_proof.Conclude.{
  Sections, build_divergences, cleared, final_hypothesis, finalize, is_backed, judge_hypothesis,
  listed_ids, with_severity,
}
use swift_proof.Conclude.Verdicts.{judge-reproduced, normalize_intent_link-SameClaim}
use swift_proof.Model.Report.{Report}
use swift_proof.Verify.{verify_report}
use swift_proof.Conclude.Derived.{final, finalize-hypotheses}

backed-supported :
    (l : Ledger) (criteria : Dict IntentCriterion) (h : Hypothesis)
    → is_backed l criteria h ≡ true
    → (supports l h (to_upper h.status) criteria).1 ≡ true
unfolding is_backed
backed-supported l criteria h b = (and_split _ _ b).1

-- A cited record that the ledger verified as a REPRODUCED generated test.
record CitedTest (l : Ledger) (ids : List String) (id : String) (e : Evidence) : Type 0 where
  cited : Member id ids
  recorded : item l id ≡ some e
  generated : e.kind ≡ Kind.differential_test
  verified : get id l.verified ≡ some Status.reproduced

cited_test :
    (l : Ledger) (ids : List String) (claimed id s : String) (e : Evidence)
    → claimed ≡ Status.reproduced
    → Cited l ids claimed id s e
    → CitedTest l ids id e
cited_test l ids claimed id s e p c =
    let (kind, status) = accepts-reproduced e.kind s (rw (← p) c.accepted) in
    record {
      cited = c.cited;
      recorded = c.recorded;
      generated = kind;
      verified = c.verified ∙ ap some status;
    }

module _ (l : Ledger) (criteria : Dict IntentCriterion) (listed : Dict Bool) where
  -- A hypothesis that ends as REPRODUCED claimed it and cites a record verified as REPRODUCED.
  final-reproduced :
      (h : Hypothesis)
      → (final_hypothesis l criteria listed h).0.status ≡ Status.reproduced
      → (id : String) × (e : Evidence) × CitedTest l h.evidence_ids id e
  unfolding final_hypothesis judge_hypothesis with_severity
  final-reproduced h p =
      let g = with_severity h in
      let v = judge_hypothesis l criteria listed g in
      let same = normalize_intent_link-SameClaim (record g { status = v.status }) criteria in
      let is_rep = (text_eq v.status Status.reproduced).1 (sym same.status ∙ p) in
      let (claims, backed) = and_split _ _ (
        sym (
          judge-reproduced (to_upper g.status) (is_backed l criteria g) (is_high g.severity)
            (cites_any g listed) (not (is_blank g.rationale)))
        ∙ is_rep) in
      let (id, s, e, c) =
        supports-Cited l g (to_upper g.status) criteria (backed-supported l criteria g backed) in
      (id, e, cited_test l h.evidence_ids (to_upper g.status) id s e ((text_eq _ _).0 claims) c)

  pub final-evidence_ids :
      (h : Hypothesis) → (final_hypothesis l criteria listed h).0.evidence_ids ≡ h.evidence_ids
  unfolding final_hypothesis with_severity
  final-evidence_ids h =
      let g = with_severity h in
      let v = judge_hypothesis l criteria listed g in
      (normalize_intent_link-SameClaim (record g { status = v.status }) criteria).evidence_ids

-- The hypothesis cites a generated test of the report, which the ledger holds with two live runs
-- that reproduce it.
abbrev pub Backed : Sections → Report → Hypothesis → Type 0
Backed sections r g =
    let v = sections.verifiers in
    let l = verify_report v (cleared r) in
    (id : String) × (e : Evidence) × Member id g.evidence_ids
    × (item l id ≡ some e)
    × (e.kind ≡ Kind.differential_test)
    × Reproduction v l e

-- Each hypothesis that a finalized report calls REPRODUCED cites a generated test of the
-- report, verified in its ledger, with two live runs: of one command, passing on the baseline
-- and failing on the candidate.
pub finalize-reproduced :
    (sections : Sections) (r : Report) (ci : Bool) (g : Hypothesis)
    → Member g (finalize sections r ci).hypotheses
    → g.status ≡ Status.reproduced
    → Backed sections r g
finalize-reproduced sections r ci g m p =
    let v = sections.verifiers in
    let l = verify_report v (cleared r) in
    let criteria = criterion_index (cleared r).intent_criteria in
    let listed = listed_ids (build_divergences sections (cleared r) l) [] in
    let (h, _, same) =
      Member-map (final sections r) r.hypotheses g
        (subst (Member g) (finalize-hypotheses sections r ci) m) in
    let (id, e, test) = final-reproduced l criteria listed h (ap (λ k. k.status) same ∙ p) in
    (
      id,
      e,
      (subst (Member id)
          (sym (final-evidence_ids l criteria listed h) ∙ ap (λ k. k.evidence_ids) same)
          test.cited),
      test.recorded,
      test.generated,
      reproduced_needs_live_runs v (cleared r) id e test.recorded test.generated test.verified,
    )

-- Exit code 1 of `Finalize` names a high or critical hypothesis that a generated test of the
-- report, verified in its ledger, reproduces with two live runs.
pub finalize-exit_one-Backed :
    (sections : Sections) (r : Report) (ci : Bool)
    → (finalize sections r ci).exit_code ≡ 1
    → (g : Hypothesis) × Member g (finalize sections r ci).hypotheses
      × (is_high g.severity ≡ true)
      × Backed sections r g
finalize-exit_one-Backed sections r ci p =
    let (g, m, high) = any-Member is_reproduced_high _ ((finalize-exit_one sections r ci).0 p) in
    let (is_rep, severe) = and_split _ _ high in
    (g, m, severe, finalize-reproduced sections r ci g m ((text_eq _ _).0 is_rep))
