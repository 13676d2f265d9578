-- ===== src/Drift.antt =====
-- app/internal/plan/drift.go: the recorded change against the contract of a plan. The path
-- rules of the linter (sensitive globs, test paths) and of the plan (manifests) are the
-- interface `PathRules`.
pub mod Conformance
use Prim.Native.String.{◌++◌ as append_text}
use swift_proof.Prelude.{
  Bool, List, Option, String, [], any, if◌then◌else◌, none, not, some, ◌&&◌, ◌++◌, ◌==◌, ◌||◌, ◌∷◌,
}
use swift_proof.Texts.{has, text_lt}
use swift_proof.Model.{Signal}
use swift_proof.Model.Change.{
  Change, ChangedFile, PlanContract, PlanContractSymbol, PlanDriftItem, conforming, drifted_status,
}

pub record PathRules : Type 0 where
  -- linter.MatchSensitive: the first glob that matches, and none where a glob is invalid
  pub match_sensitive : List String → String → Option String
  -- linter.IsTestPath
  pub is_test_path : String → Bool
  -- IsManifest
  pub is_manifest : String → Bool

abbrev pub exported_changed : String
exported_changed = "Exported Go declaration changed"

abbrev pub exported_removed : String
exported_removed = "Exported Go declaration removed"

-- The paths of a changed file.
unfoldable pub file_paths : ChangedFile → List String
file_paths f =
    if not (f.old_path == "") && not (f.old_path == f.path)
    then f.path ∷ f.old_path ∷ []
    else f.path ∷ []

-- `announced[{path, name}]`
unfoldable pub announces : List PlanContractSymbol → String → String → Bool
announces symbols path name =
    any
      (λ s. (s.change == "signature" || s.change == "remove") && (s.path == path && s.name == name))
      symbols

-- `oldPath[path]`, which reads as "" without an entry; a later file replaces an earlier one.
unfoldable pub old_path_of : List ChangedFile → String → String → String
old_path_of [] path found = found
old_path_of (f ∷ fs) path found =
    old_path_of fs path (if not (f.old_path == "") && f.path == path then f.old_path else found)

-- `touched[path]`
unfoldable pub touches : List ChangedFile → String → Bool
touches files path =
    any (λ f. f.path == path || (not (f.old_path == "") && f.old_path == path)) files

abbrev pub drift_item : String → String → String → String → String → PlanDriftItem
drift_item kind severity path symbol summary = record {
  kind = kind;
  severity = severity;
  path = path;
  symbol = symbol;
  summary = summary;
}

module _ (rules : PathRules) (contract : PlanContract) (globs : List String) where
  unfoldable pub unplanned_items : ChangedFile → List PlanDriftItem
  unfolding file_paths
  unplanned_items f =
      if any (λ p. has p contract.files) (file_paths f)
      then []
      else if rules.is_test_path f.path
      then drift_item "unplanned_test_file" "low" f.path "" "Test file changed outside the plan"
        ∷ []
      else drift_item "unplanned_file" "medium" f.path "" "File changed outside the plan" ∷ []

  unfoldable pub critical_item : String → Option String → Option PlanDriftItem
  critical_item p none = none
  critical_item p (some glob) =
      if has p contract.critical_files
      then none
      else some (
          drift_item "unannounced_critical_path" "high" p "" (
            append_text "Critical path changed although the plan did not announce it (pattern "
              (append_text glob ")")))

  unfoldable pub manifest_item : String → Option PlanDriftItem
  manifest_item p =
      if rules.is_manifest p && not (has p contract.manifests)
      then some (
          drift_item "unannounced_dependency_change" "medium" p ""
            "Dependency manifest changed although the plan did not announce it")
      else none

  -- A loop over the paths that stops at the first item.
  unfoldable pub first_item : (String → Option PlanDriftItem) → List String → List PlanDriftItem
  first_item g [] = []
  first_item g (p ∷ ps) = let rest = first_item g ps in elim (g p) [ some i ↦ i ∷ [] | none ↦ rest ]

  -- One round of the loop over the changed files.
  unfoldable pub file_items : ChangedFile → List PlanDriftItem
  unfolding unplanned_items first_item critical_item manifest_item
  file_items f =
      unplanned_items f
      ++ (first_item (λ p. critical_item p (rules.match_sensitive globs p)) (file_paths f)
          ++ first_item manifest_item (file_paths f))

  unfoldable pub all_file_items : List ChangedFile → List PlanDriftItem
  unfolding file_items
  all_file_items [] = []
  all_file_items (f ∷ fs) = file_items f ++ all_file_items fs

  -- A public_api_change signal that changes or removes an exported declaration.
  unfoldable pub is_exported_change : Signal → Bool
  is_exported_change s =
      s.kind == "public_api_change"
      && (s.summary == exported_changed || s.summary == exported_removed)

  unfoldable pub is_announced : List ChangedFile → Signal → Bool
  unfolding announces old_path_of
  is_announced files s =
      announces contract.symbols s.path s.symbol
      || (not (old_path_of files s.path "" == "")
          && announces contract.symbols (old_path_of files s.path "") s.symbol)

  unfoldable pub signal_items : List ChangedFile → List Signal → List PlanDriftItem
  unfolding is_exported_change is_announced
  signal_items files [] = []
  signal_items files (s ∷ ss) =
      let rest = signal_items files ss in
      if is_exported_change s && not (is_announced files s)
      then drift_item "unannounced_exported_change" "high" s.path s.symbol (
          if s.summary == exported_removed
          then "Exported declaration removed although the plan did not announce it"
          else "Exported declaration changed although the plan did not announce it")
        ∷ rest
      else rest

  unfoldable pub untouched_items : List ChangedFile → List String → List PlanDriftItem
  unfolding touches
  untouched_items files [] = []
  untouched_items files (p ∷ ps) =
      let rest = untouched_items files ps in
      if touches files p
      then rest
      else drift_item "planned_file_untouched" "low" p "" "Planned file not changed" ∷ rest

-- The order of the items: by path, then kind, then symbol.
unfoldable pub item_lt : PlanDriftItem → PlanDriftItem → Bool
item_lt a b =
    if not (a.path == b.path)
    then text_lt a.path b.path
    else if not (a.kind == b.kind)
    then text_lt a.kind b.kind
    else text_lt a.symbol b.symbol

-- sort.SliceStable
unfoldable pub insert_item : PlanDriftItem → List PlanDriftItem → List PlanDriftItem
unfolding item_lt
insert_item a [] = a ∷ []
insert_item a (b ∷ bs) = if item_lt b a then b ∷ insert_item a bs else a ∷ b ∷ bs

unfoldable pub sort_items : List PlanDriftItem → List PlanDriftItem
unfolding insert_item
sort_items [] = []
sort_items (a ∷ as') = insert_item a (sort_items as')

unfoldable pub drift :
    PathRules → PlanContract → List String → Change → List Signal → List PlanDriftItem
unfolding all_file_items signal_items untouched_items sort_items
drift rules contract globs change signals = sort_items (
    all_file_items rules contract globs change.files
    ++ (signal_items rules contract globs change.files signals
        ++ untouched_items rules contract globs change.files contract.files))

-- The test of `DriftStatus` on one item.
unfoldable pub is_drifting : PlanDriftItem → Bool
is_drifting i = i.severity == "medium" || i.severity == "high" || i.severity == "critical"

unfoldable pub drift_status : List PlanDriftItem → String
unfolding is_drifting
drift_status items = if any is_drifting items then drifted_status else conforming
