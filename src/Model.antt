-- ===== src/Model.antt =====
-- app/internal/model: the recorded review evidence. Statuses and kinds are free texts, as in
-- the persisted report. Fields that no modelled operation reads or writes are left out.
pub mod Status
pub mod Kind
pub mod Change
pub mod Report
use swift_proof.Prelude.{String, Bool, false, Option, none, some, List, ℕ, ◌==◌}
use swift_proof.Prelude.Int.{ℤ}

-- Check kinds (status.go).
abbrev pub check_generated_base : String
check_generated_base = "generated_test_base"

abbrev pub check_generated_candidate : String
check_generated_candidate = "generated_test_candidate"

abbrev pub check_mutation_control : String
check_mutation_control = "mutation_control"

abbrev pub check_mutant : String
check_mutant = "mutant"

abbrev pub cache_hit : String
cache_hit = "hit"

-- `CheckCache` of execution.go.
pub record CheckCache : Type 0 where
  pub status : String
  pub live_runs : ℤ

pub record Check : Type 0 where
  pub id : String
  pub kind : String
  pub status : String
  pub command : List String
  pub exit_code : ℤ
  pub duration_ms : ℤ
  pub output : String
  pub truncated : Bool
  pub results : String
  pub cache : Option CheckCache

-- `Check.Replayed`: served from the execution cache rather than executed.
unfoldable pub replayed : Check → Bool
replayed c = elim c.cache [ none ↦ false | some cache ↦ cache.status == cache_hit ]

pub record Evidence : Type 0 where
  pub id : String
  pub kind : String
  pub path : String
  pub output : String
  pub check_id : String
  pub base_check_id : String
  pub criterion_id : String
  pub status : String
  pub runner : String
  pub test_names : List String

pub record Hypothesis : Type 0 where
  pub id : String
  pub title : String
  pub severity : String
  pub status : String
  pub rationale : String
  pub evidence_ids : List String
  pub path : String
  pub line : ℤ
  pub criterion_id : String
  pub intent_judgment : String

pub record IntentCriterion : Type 0 where
  pub id : String
  pub line : ℤ
  pub text : String

pub record Signal : Type 0 where
  pub id : String
  pub kind : String
  pub path : String
  pub line : ℤ
  pub side : String
  pub scope : String
  pub symbol : String
  pub severity : String
  pub summary : String
  pub evidence : String
