-- ===== src/Categories.antt =====
-- app/internal/plan/evaluate.go: `Categorize`, and the table of plan signals of
-- app/internal/model/plan.go.
pub mod Flagged
use swift_proof.Prelude.{
  Bool, List, String, [], false, if◌then◌else◌, map, none, some, true, ◌&&◌, ◌++◌, ◌==◌, ◌||◌, ◌∷◌,
}
use swift_proof.Prelude.Dict.{Dict, get}
use swift_proof.Model.{Signal}

-- `PlanSignalCategory`
abbrev pub plan_signal_category : Dict String
plan_signal_category =
    ("plan_critical_path", "critical_parts")
    ∷ ("plan_sensitive_symbol", "critical_parts")
    ∷ ("plan_exported_signature", "architecture")
    ∷ ("plan_dependency_change", "architecture")
    ∷ ("plan_new_package", "architecture")
    ∷ ("plan_wide_impact", "regression_risk")
    ∷ ("plan_untested_impact", "regression_risk")
    ∷ ("plan_file_deletion", "other_major")
    ∷ ("plan_large_scope", "other_major")
    ∷ ("plan_inconsistent", "other_major")
    ∷ ("plan_unmeasured", "other_major")
    ∷ []

-- `PlanCategory`
pub record PlanCategory : Type 0 where
  pub name : String
  pub flagged : Bool
  pub signal_ids : List String

abbrev pub category_order : List String
category_order = "critical_parts" ∷ "architecture" ∷ "regression_risk" ∷ "other_major" ∷ []

abbrev pub raises : Signal → Bool
raises s = s.severity == "medium" || (s.severity == "high" || s.severity == "critical")

-- model.PlanSignalCategory[s.Kind]; a kind that is not there reads as "".
unfoldable pub category_of : Signal → String
unfolding get
category_of s = elim (get s.kind plan_signal_category) [ none ↦ "" | some c ↦ c ]

-- What one signal does to its category.
abbrev pub with_signal : Signal → PlanCategory → PlanCategory
with_signal s c = record c {
  signal_ids = c.signal_ids ++ s.id ∷ [];
  flagged = if raises s then true else c.flagged;
}

abbrev pub in_category : Signal → PlanCategory → PlanCategory
unfolding category_of
in_category s c = if c.name == category_of s then with_signal s c else c

abbrev pub has_category : String → List PlanCategory → Bool
has_category n [] = false
has_category n (c ∷ cs) = c.name == n || has_category n cs

-- The loop over the signals.
unfoldable pub categorize_each : List Signal → List PlanCategory → Bool → List PlanCategory × Bool
unfolding in_category category_of
categorize_each [] cs major = (cs, major)
categorize_each (s ∷ ss) cs major =
    categorize_each ss (map (in_category s) cs)
      (if has_category (category_of s) cs && raises s then true else major)

-- `Categorize`
unfoldable pub categorize : List Signal → List PlanCategory × Bool
unfolding categorize_each
categorize signals =
    categorize_each signals
      (map (λ n. record { name = n; flagged = false; signal_ids = [] }) category_order) false
