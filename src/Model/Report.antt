-- ===== src/Model/Report.antt =====
-- app/internal/model: the confidence report, with the fields that the modelled operations use.
use swift_proof.Prelude.{Bool, List, Option, String, ℕ}
use swift_proof.Prelude.Int.{ℤ}
use swift_proof.Model.{Check, Evidence, Hypothesis, IntentCriterion, Signal}
use swift_proof.Model.Change.{Change, PlanDrift}

pub record SignalAssessment : Type 0 where
  pub signal_id : String
  pub title : String
  pub explanation : String
  pub judgment : String
  pub rationale : String
  pub evidence_ids : List String
  pub adjusted_severity : String
  pub set_aside : Bool

pub record Observation : Type 0 where
  pub test : String
  pub key : String
  pub status : String

pub record Divergence : Type 0 where
  pub evidence_id : String
  pub kind : String
  pub path : String
  pub line : ℤ
  pub symbol : String
  pub anchor_source : String
  pub test_path : String
  pub test_names : List String
  pub check_ids : List String
  pub hypothesis_ids : List String
  pub observations : List Observation

pub record Report : Type 0 where
  pub intent_criteria : List IntentCriterion
  pub change : Change
  pub signals : List Signal
  pub checks : List Check
  pub hypotheses : List Hypothesis
  pub signal_assessments : List SignalAssessment
  pub evidence : List Evidence
  pub reproduced_issues : List Hypothesis
  pub divergences : List Divergence
  pub intent_test_failures : List Hypothesis
  pub unverified : List String
  pub plan_drift : Option PlanDrift
  pub exit_code : ℕ
  pub ai_impacts_criticality : Bool
