-- ===== src/Drift/Conformance.antt =====
-- A change conforms to its plan exactly when it stays within what the contract announces.
use swift_proof.Prelude.{
  Bool, List, String, [], all, any, any-append, ap, arith, false, if◌then◌else◌, not, refl, true,
  ◌&&◌, ◌||◌, ◌∙◌, ◌∷◌, ◌≡◌,
}
use swift_proof.Prelude.Dict.{is_some}
use swift_proof.Texts.{has}
use swift_proof.Model.{Signal}
use swift_proof.Model.Change.{
  Change, ChangedFile, PlanContract, PlanDriftItem, conforming, drifted_status,
}
use swift_proof.Drift.{
  PathRules, all_file_items, critical_item, drift, drift_status, file_items, file_paths, first_item,
  insert_item, is_announced, is_drifting, is_exported_change, manifest_item, signal_items,
  sort_items, unplanned_items, untouched_items,
}

any-insert_item :
    (p : PlanDriftItem → Bool) (a : PlanDriftItem) (bs : List PlanDriftItem)
    → any p (insert_item a bs) ≡ (p a || any p bs)
unfolding insert_item
any-insert_item p a [] = refl
any-insert_item p a (b ∷ bs) = ground (arith, any-insert_item p a bs)

any-sort_items :
    (p : PlanDriftItem → Bool) (as' : List PlanDriftItem) → any p (sort_items as') ≡ any p as'
unfolding sort_items
any-sort_items p [] = refl
any-sort_items p (a ∷ as') =
    any-insert_item p a (sort_items as') ∙ ap (λ b. p a || b) (any-sort_items p as')

not_and : (a b x y : Bool) → a ≡ not x → b ≡ not y → (a || b) ≡ not (x && y)
not_and a b true y p q = rw (p, q)
not_and a b false y p q = rw p

module _ (rules : PathRules) (contract : PlanContract) (globs : List String) where
  -- What the contract allows of one changed file: a planned file or a test file, whose critical
  -- paths and dependency manifests it announces.
  abbrev pub file_conforms : ChangedFile → Bool
  file_conforms f =
      (any (λ p. has p contract.files) (file_paths f) || rules.is_test_path f.path)
      && (all (λ p. not (is_some (rules.match_sensitive globs p)) || has p contract.critical_files)
            (file_paths f)
          && all (λ p. not (rules.is_manifest p) || has p contract.manifests) (file_paths f))

  abbrev pub signal_conforms : List ChangedFile → Signal → Bool
  signal_conforms files s =
      not (is_exported_change rules contract globs s) || is_announced rules contract globs files s

  unplanned-drifts :
      (f : ChangedFile)
      → any is_drifting (unplanned_items rules contract globs f)
        ≡ not (any (λ p. has p contract.files) (file_paths f) || rules.is_test_path f.path)
  unfolding unplanned_items is_drifting
  unplanned-drifts f = ground arith

  critical-drifts :
      (ps : List String)
      → any is_drifting (
          first_item rules contract globs
            (λ p. critical_item rules contract globs p (rules.match_sensitive globs p))
            ps)
        ≡ not (
            all
              (λ p. not (is_some (rules.match_sensitive globs p)) || has p contract.critical_files)
              ps)
  unfolding first_item critical_item is_drifting
  critical-drifts [] = refl
  critical-drifts (p ∷ ps) = ground (arith, critical-drifts ps)

  manifest-drifts :
      (ps : List String)
      → any is_drifting (first_item rules contract globs (manifest_item rules contract globs) ps)
        ≡ not (all (λ p. not (rules.is_manifest p) || has p contract.manifests) ps)
  unfolding first_item manifest_item is_drifting
  manifest-drifts [] = refl
  manifest-drifts (p ∷ ps) = ground (arith, manifest-drifts ps)

  file-drifts :
      (f : ChangedFile)
      → any is_drifting (file_items rules contract globs f) ≡ not (file_conforms f)
  unfolding file_items
  file-drifts f = simp any-append (
      not_and _ _ _ _ (unplanned-drifts f)
        (not_and _ _ _ _ (critical-drifts (file_paths f)) (manifest-drifts (file_paths f))))

  files-drift :
      (fs : List ChangedFile)
      → any is_drifting (all_file_items rules contract globs fs) ≡ not (all file_conforms fs)
  unfolding all_file_items
  files-drift [] = refl
  files-drift (f ∷ fs) =
      any-append is_drifting (file_items rules contract globs f)
        (all_file_items rules contract globs fs)
      ∙ not_and _ _ _ _ (file-drifts f) (files-drift fs)

  signals-drift :
      (files : List ChangedFile) (ss : List Signal)
      → any is_drifting (signal_items rules contract globs files ss)
        ≡ not (all (signal_conforms files) ss)
  unfolding signal_items is_drifting
  signals-drift files [] = refl
  signals-drift files (s ∷ ss) = ground (arith, signals-drift files ss)

  untouched-drift :
      (files : List ChangedFile) (ps : List String)
      → any is_drifting (untouched_items rules contract globs files ps) ≡ false
  unfolding untouched_items is_drifting
  untouched-drift files [] = refl
  untouched-drift files (p ∷ ps) = ground (arith, untouched-drift files ps)

  -- The status of a change is conforming exactly when each changed file is planned under one of
  -- its paths or is a test file, each of its paths that a critical glob matches or that is a
  -- dependency manifest is announced as such, and each signal of a changed or removed exported
  -- declaration is announced under the new or the old path of its file; otherwise it is drifted.
  pub drift_status_lem :
      (change : Change) (signals : List Signal)
      → drift_status (drift rules contract globs change signals) ≡ (
          if all file_conforms change.files && all (signal_conforms change.files) signals
          then conforming
          else drifted_status)
  unfolding drift_status drift
  drift_status_lem change signals =
      simp (any-sort_items, any-append)
        (ground (
          arith,
          files-drift change.files,
          signals-drift change.files signals,
          untouched-drift change.files contract.files,
        ))
