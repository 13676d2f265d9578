-- ===== src/Assessments.antt =====
-- app/internal/report/assessments.go: the reviewer's reading of the linter signals, and the
-- severity that the conclusions use.
use swift_proof.Prelude.{
  Bool, List, Option, String, [], false, if◌then◌else◌, leb, map, none, not, some, true, ℕ, ◌&&◌,
  ◌+◌, ◌==◌, ◌||◌, ◌∷◌,
}
use swift_proof.Prelude.Dict.{Dict, get, is_some, put}
use swift_proof.Texts.{is_blank, to_lower}
use swift_proof.Model.Status
use swift_proof.Severity.{severity}
use swift_proof.Model.Kind
use swift_proof.Model.{Evidence, Signal}
use swift_proof.Model.Report.{Report, SignalAssessment}
use swift_proof.Ledger.{Ledger, flag, item}

abbrev pub no_risk : String
no_risk = "no_risk"

abbrev pub uncertain : String
uncertain = "uncertain"

-- The map `order`: the index of the first signal with an ID.
unfoldable pub position : String → List Signal → ℕ → Option ℕ
position id [] i = none
position id (s ∷ ss) i = if s.id == id then some i else position id ss (i + 1)

-- `order[id]`: a missing key reads as 0.
unfoldable pub order : List Signal → String → ℕ
unfolding position
order signals id = elim (position id signals 0) [ none ↦ 0 | some i ↦ i ]

unfoldable pub is_observation : Ledger → String → Option Evidence → Bool
is_observation l id none = false
is_observation l id (some e) =
    e.kind == Kind.source_observation
    && (elim (get id l.verified) [ none ↦ false | some s ↦ s == Status.observed ])

unfoldable pub cites_observation : List String → Ledger → Bool
unfolding is_observation
cites_observation [] l = false
cites_observation (id ∷ ids) l = is_observation l id (item l id) || cites_observation ids l

-- The `switch` over a lowered judgment.
unfoldable pub kept_judgment : SignalAssessment → Ledger → String → String
kept_judgment a l judgment =
    if judgment == "risk" || judgment == uncertain
    then judgment
    else if judgment == no_risk
    then (if is_blank a.rationale || not (cites_observation a.evidence_ids l)
        then uncertain
        else judgment)
    else uncertain

unfoldable pub keeps : List Signal → Dict Bool → SignalAssessment → Bool
unfolding flag
keeps signals seen a =
    is_some (position a.signal_id signals 0)
    && not (flag a.signal_id seen)
    && not (is_blank a.title)
    && not (is_blank a.explanation)

unfoldable pub keep_assessments :
    List Signal → Ledger → Dict Bool → List SignalAssessment → List SignalAssessment
unfolding keeps kept_judgment
keep_assessments signals l seen [] = []
keep_assessments signals l seen (a ∷ as') =
    let kept = record a { judgment = kept_judgment a l (to_lower a.judgment) } in
    let with' = kept ∷ keep_assessments signals l (put a.signal_id true seen) as' in
    let without = keep_assessments signals l seen as' in
    if keeps signals seen a then with' else without

-- sort.SliceStable by the index of the signal: an element goes behind those that are not above.
unfoldable pub insert_assessment :
    List Signal → SignalAssessment → List SignalAssessment → List SignalAssessment
unfolding order
insert_assessment signals a [] = a ∷ []
insert_assessment signals a (b ∷ bs) =
    if leb (order signals a.signal_id) (order signals b.signal_id)
    then a ∷ b ∷ bs
    else b ∷ insert_assessment signals a bs

unfoldable pub sort_assessments : List Signal → List SignalAssessment → List SignalAssessment
unfolding insert_assessment
sort_assessments signals [] = []
sort_assessments signals (a ∷ as') = insert_assessment signals a (sort_assessments signals as')

-- The map `linter`: the severity of the first signal with an ID, and "" without one.
unfoldable pub linter_severity : String → List Signal → String
linter_severity id [] = ""
linter_severity id (s ∷ ss) = if s.id == id then s.severity else linter_severity id ss

-- One level below a normalized severity: the adjusted severity, and whether to set aside.
unfoldable pub one_below : String → String × Bool
one_below s =
    if s == "critical"
    then ("high", false)
    else if s == "high"
    then ("medium", false)
    else if s == "medium"
    then ("low", false)
    else ("", true)

unfoldable pub adjust : Bool → List Signal → SignalAssessment → SignalAssessment
unfolding one_below severity linter_severity
adjust allowed signals a =
    if not allowed || not (a.judgment == no_risk)
    then record a { adjusted_severity = ""; set_aside = false }
    else let (lowered, aside) = one_below (severity (linter_severity a.signal_id signals)) in
      record a { adjusted_severity = lowered; set_aside = aside }

unfoldable pub finalize_assessments : Report → Ledger → Report
unfolding keep_assessments sort_assessments adjust
finalize_assessments r l = record r {
  signal_assessments =
      map (adjust r.ai_impacts_criticality r.signals)
        (sort_assessments r.signals (keep_assessments r.signals l [] r.signal_assessments));
}

pub record Adjustment : Type 0 where
  pub severity : String
  pub set_aside : Bool

unfoldable pub signal_adjustments : List SignalAssessment → Dict Adjustment → Dict Adjustment
signal_adjustments [] out = out
signal_adjustments (a ∷ as') out = signal_adjustments as' (
    if not (a.adjusted_severity == "") || a.set_aside
    then put a.signal_id (record { severity = a.adjusted_severity; set_aside = a.set_aside }) out
    else out)

unfoldable pub apply_adjustment : Signal → Option Adjustment → String × Bool
apply_adjustment s none = (s.severity, false)
apply_adjustment s (some a) =
    if not (a.severity == "") then (a.severity, a.set_aside) else (s.severity, a.set_aside)

unfoldable pub effective_severity : Signal → Dict Adjustment → String × Bool
unfolding apply_adjustment
effective_severity s adjustments = apply_adjustment s (get s.id adjustments)
