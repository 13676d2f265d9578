-- ===== src/Model/Change.antt =====
-- app/internal/model/model.go and plan.go: the recorded change, and the plan it is held to.
use swift_proof.Prelude.{Bool, List, String, ℕ}
use swift_proof.Prelude.Int.{ℤ}

pub record DiffLine : Type 0 where
  pub kind : String
  pub old_line : ℤ
  pub new_line : ℤ

pub record Hunk : Type 0 where
  pub lines : List DiffLine

pub record ChangedFile : Type 0 where
  pub path : String
  pub old_path : String
  pub status : String
  pub hunks : List Hunk

pub record Change : Type 0 where
  pub base_commit : String
  pub files : List ChangedFile

pub record PlanContractSymbol : Type 0 where
  pub path : String
  pub name : String
  pub change : String

pub record PlanContract : Type 0 where
  pub base_commit : String
  pub files : List String
  pub symbols : List PlanContractSymbol
  pub critical_files : List String
  pub manifests : List String

pub record PlanDriftItem : Type 0 where
  pub kind : String
  pub severity : String
  pub path : String
  pub symbol : String
  pub summary : String

pub record PlanGateAssessment : Type 0 where
  pub status : String
  pub major : Bool
  pub flagged_categories : List String
  pub gaps : List String
  pub reason : String

-- The texts that `decidePlanGate` formats, with the arguments of each.
pub data GateReason : Type 0 where
  not_assessed : String → GateReason
  raised_categories : List String → GateReason
  not_measured : String → GateReason
  drifted : ℕ → GateReason
  other_base : GateReason
  reproduced_issue : GateReason
  no_check_ran : GateReason
  checks_failed : ℕ → GateReason
  high_signals : ℕ → GateReason
  unverified_areas : ℕ → GateReason
  other_sections : GateReason

pub record PlanDrift : Type 0 where
  pub status : String
  pub base_matches : Bool
  pub critical_globs : List String
  pub contract : PlanContract
  pub items : List PlanDriftItem
  pub assessment : PlanGateAssessment
  pub decision : String
  pub decision_reasons : List GateReason

abbrev pub plan_assessed : String
plan_assessed = "assessed"

abbrev pub plan_unassessed : String
plan_unassessed = "unavailable"

abbrev pub review_required : String
review_required = "human_review_required"

abbrev pub no_review_required : String
no_review_required = "no_human_review_required"

abbrev pub conforming : String
conforming = "conforming"

abbrev pub drifted_status : String
drifted_status = "drifted"

abbrev pub plan_drift_signal : String
plan_drift_signal = "plan_drift"
