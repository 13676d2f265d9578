-- ===== src/Examples/Planned.antt =====
-- Reports under a plan.
use swift_proof.Examples.{change, passing_run, plan, report_of, rules}
use swift_proof.Prelude.{
  Member, [], all, any, false, if◌then◌else◌, inl, not, refl, some, true, ◌&&◌, ◌∷◌, ◌≡◌,
}
use swift_proof.Model.Status
use swift_proof.Model.{Signal}
use swift_proof.Model.Change.{
  PlanDrift, PlanDriftItem, conforming, drifted_status, no_review_required, plan_drift_signal,
  review_required,
}
use swift_proof.Model.Report.{Report}
use swift_proof.Drift.{drift, drift_status}
use swift_proof.Drift.Conformance.{drift_status_lem, file_conforms, signal_conforms}
use swift_proof.Prelude.Dict.{get, put}
use swift_proof.Prelude.Int.{pos}
use swift_proof.DriftSignals.{drift_signals}
use swift_proof.DriftSignals.Located.{MadeOf, drift_signals-MadeOf, names_path}
use swift_proof.Gate.{decide_plan_gate}
use swift_proof.Gate.Decision.{decide_plan_gate_lem, gate_open}

abbrev store_plan : PlanDrift
store_plan = plan ("store.go" ∷ [])

drift_status_lem_example : drift_status (drift rules store_plan.contract [] change []) ≡ (
    if all (file_conforms rules store_plan.contract []) change.files
      && all (signal_conforms rules store_plan.contract [] change.files) []
    then conforming
    else drifted_status)
drift_status_lem_example = drift_status_lem rules store_plan.contract [] change []

abbrev settled_plan : PlanDrift
settled_plan = record store_plan { status = conforming; base_matches = true }

abbrev planned : Report
planned = report_of passing_run Status.not_reproduced (some settled_plan)

decide_plan_gate_lem_example :
    ((decide_plan_gate planned false).1 ≡ not (gate_open planned settled_plan false))
    × ((d' : PlanDrift) × ((decide_plan_gate planned false).0.plan_drift ≡ some d')
        × (d'.decision ≡ (
            if gate_open planned settled_plan false then no_review_required else review_required)))
decide_plan_gate_lem_example = decide_plan_gate_lem planned settled_plan false refl

-- A changed file out of the plan.
abbrev unplanned : PlanDriftItem
unplanned = record {
  kind = "file_not_planned";
  severity = "medium";
  path = "store.go";
  symbol = "";
  summary = "Changed file not in the plan";
}

abbrev unplanned_signal : Signal
unplanned_signal = record {
  id = "";
  kind = plan_drift_signal;
  path = "store.go";
  line = pos 1;
  side = "new";
  scope = "file";
  symbol = "";
  severity = "medium";
  summary = "Changed file not in the plan";
  evidence =
      "Plan contract check (file_not_planned): deterministic comparison of the diff with the plan";
}

signal_made : Member unplanned_signal (drift_signals (unplanned ∷ []) change)
unfolding drift_signals get put
signal_made = inl refl

drift_signals-MadeOf_example :
    (it : PlanDriftItem) × Member it (unplanned ∷ [])
    × MadeOf unplanned_signal it
    × (any (names_path "store.go") change.files ≡ true)
drift_signals-MadeOf_example =
    drift_signals-MadeOf (unplanned ∷ []) change unplanned_signal signal_made
