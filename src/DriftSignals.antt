-- ===== src/DriftSignals.antt =====
-- app/internal/plan/drift.go: the signals of the drift items that point into the diff.
pub mod Located
use Prim.Native.String.{◌++◌ as append_text}
use swift_proof.Prelude.{List, Option, String, [], if◌then◌else◌, none, not, some, ◌&&◌, ◌==◌, ◌∷◌}
use swift_proof.Prelude.Dict.{Dict, get, put}
use swift_proof.Prelude.Int.{above, pos, ℤ}
use swift_proof.Model.{Signal}
use swift_proof.Model.Change.{Change, ChangedFile, DiffLine, Hunk, PlanDriftItem, plan_drift_signal}

abbrev pub scope_file : String
scope_file = "file"

abbrev pub planned_untouched : String
planned_untouched = "planned_file_untouched"

-- The inner loop of `firstLine`.
unfoldable pub first_of_lines : List DiffLine → Option (ℤ × String)
first_of_lines [] = none
first_of_lines (d ∷ ds) =
    let rest = first_of_lines ds in
    if d.kind == "add" && above 0 d.new_line
    then some (d.new_line, "new")
    else if d.kind == "delete" && above 0 d.old_line
    then some (d.old_line, "old")
    else rest

unfoldable pub first_of_hunks : List Hunk → Option (ℤ × String)
unfolding first_of_lines
first_of_hunks [] = none
first_of_hunks (h ∷ hs) =
    let rest = first_of_hunks hs in
    elim (first_of_lines h.lines) [ none ↦ rest | some at_line ↦ some at_line ]

-- `firstLine`
unfoldable pub first_line : ChangedFile → ℤ × String
unfolding first_of_hunks
first_line f = elim (first_of_hunks f.hunks) [
  | none ↦ (if f.status == "D" then (pos 1, "old") else (pos 1, "new"))
  | some at_line ↦ at_line
]

unfoldable pub locate_old : String → ℤ × String → Dict (ℤ × String) → Dict (ℤ × String)
locate_old old_path at_line first = elim (get old_path first) [
  | none ↦ put old_path at_line first
  | some seen ↦ first
]

-- The map `first`.
unfoldable pub locations : List ChangedFile → Dict (ℤ × String) → Dict (ℤ × String)
unfolding first_line locate_old
locations [] first = first
locations (f ∷ fs) first =
    let placed = put f.path (first_line f) first in
    locations fs
      (if not (f.old_path == "") then locate_old f.old_path (first_line f) placed else placed)

unfoldable pub drift_signal : PlanDriftItem → ℤ × String → Signal
drift_signal it (line, side) = record {
  id = "";
  kind = plan_drift_signal;
  path = it.path;
  line = line;
  side = side;
  scope = scope_file;
  symbol = it.symbol;
  severity = it.severity;
  summary = it.summary;
  evidence =
      append_text (append_text "Plan contract check (" it.kind)
        "): deterministic comparison of the diff with the plan";
}

unfoldable pub signals_at : Dict (ℤ × String) → List PlanDriftItem → List Signal
unfolding drift_signal
signals_at first [] = []
signals_at first (it ∷ its) =
    let rest = signals_at first its in
    elim (get it.path first) [
      | none ↦ rest
      | some at_line ↦
          (if it.kind == planned_untouched then rest else drift_signal it at_line ∷ rest)
    ]

-- `DriftSignals`
unfoldable pub drift_signals : List PlanDriftItem → Change → List Signal
unfolding signals_at locations
drift_signals items change = signals_at (locations change.files []) items
