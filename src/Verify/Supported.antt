-- ===== src/Verify/Supported.antt =====
-- The two positive conclusions a generated test can support.
use swift_proof.Model.Status
use swift_proof.Prelude.{
  String, and_split, arith, false, inl, inr, negated_true, or_split, some, sym, text_eq, true, ◌∙◌,
  ◌≡◌, ◌≢◌, ◌⊎◌,
}
use swift_proof.Prelude.Dict.{get}
use swift_proof.Prelude.Int.{above, below, is_nat→eq, pos}
use swift_proof.Model.Status
use swift_proof.Model.Kind
use swift_proof.Model.{Check, Evidence, replayed}
use swift_proof.Model.Report.{Report}
use swift_proof.Ledger.Masks.{apply_masks-unmasked}
use swift_proof.Ledger.{Ledger, apply_masks, flag, item, new_ledger}
use swift_proof.Verify.{
  Verifiers, fails_live, live_twice, merge_verifiers, outcome_status, passes_live, verify_report,
}
use swift_proof.Verify.Positive.{Runs}
use swift_proof.Verify.Generated.{apply_masks-same, verified_generated_test}
use swift_proof.Ledger.Invariant.{apply_masks-verified}
use swift_proof.Ledger.Owned.{item-same}

fails_live-true :
    (candidate base : Check)
    → fails_live candidate base ≡ true
    → (candidate.status ≡ "FAIL")
      × (above 0 candidate.exit_code ≡ true)
      × (below 125 candidate.exit_code ≡ true)
      × (replayed base ≡ false)
unfolding fails_live
fails_live-true candidate base h =
    let (fails, h₁) = and_split _ _ h in
    let (low, h₂) = and_split _ _ h₁ in
    let (high, live) = and_split _ _ h₂ in
    ((text_eq candidate.status "FAIL").0 fails, low, high, negated_true _ live)

passes_live-true :
    (candidate base : Check)
    → passes_live candidate base ≡ true
    → (candidate.status ≡ "PASS")
      × (candidate.exit_code ≡ pos 0)
      × ((replayed base ≡ false) ⊎ (live_twice base.cache ≡ true))
unfolding passes_live
passes_live-true candidate base h =
    let (passes, h₁) = and_split _ _ h in
    let (exit, backed) = and_split _ _ h₁ in
    (
      (text_eq candidate.status "PASS").0 passes,
      is_nat→eq 0 candidate.exit_code exit,
      elim (or_split _ _ backed) [ inl live ↦ inl (negated_true _ live) | inr twice ↦ inr twice ],
    )

outcome_reproduced :
    (candidate base : Check)
    → outcome_status candidate base ≡ Status.reproduced
    → fails_live candidate base ≡ true
unfolding outcome_status
outcome_reproduced candidate base h =
    ground (arith, text_eq Status.not_reproduced Status.reproduced, text_eq "" Status.reproduced)

outcome_not_reproduced :
    (candidate base : Check)
    → outcome_status candidate base ≡ Status.not_reproduced
    → passes_live candidate base ≡ true
unfolding outcome_status
outcome_not_reproduced candidate base h =
    ground
      (arith, text_eq Status.reproduced Status.not_reproduced, text_eq "" Status.not_reproduced)

replayed-cache : (c d : Check) → c.cache ≡ d.cache → replayed c ≡ replayed d
unfolding replayed
replayed-cache c d h = rw h

backed_base :
    (base validated : Check)
    → validated.cache ≡ base.cache
    → (replayed validated ≡ false) ⊎ (live_twice validated.cache ≡ true)
    → (replayed base ≡ false) ⊎ (live_twice base.cache ≡ true)
backed_base base validated kept (inl live) = inl (sym (replayed-cache validated base kept) ∙ live)
backed_base base validated kept (inr twice) = inr (rw kept at twice)

-- Two recorded runs of one command of a generated test, neither replayed from the cache, whose
-- validated logs pass on the baseline and fail on the candidate with an exit code from 1 to 124.
abbrev pub Reproduction : Verifiers → Ledger → Evidence → Type 0
Reproduction v l e =
    (base : Check) × (candidate : Check) × Runs v l e base candidate
    × (replayed base ≡ false)
    × (let run = (v.validate_execution e.runner candidate e.path e.test_names).0 in
        (run.status ≡ "FAIL") × (above 0 run.exit_code ≡ true) × (below 125 run.exit_code ≡ true))

module _ (v : Verifiers) where
  -- A generated test counts as REPRODUCED in the ledger of a report only if the report records,
  -- each under an ID that occurs once, a baseline and a candidate run of one command, neither
  -- replayed from the cache, whose validated logs pass on the baseline with exit code 0 and fail
  -- on the candidate with an exit code from 1 to 124.
  pub reproduced_needs_live_runs :
      (r : Report) (id : String) (e : Evidence)
      → item (verify_report v r) id ≡ some e
      → e.kind ≡ Kind.differential_test
      → get id (verify_report v r).verified ≡ some Status.reproduced
      → Reproduction v (verify_report v r) e
  reproduced_needs_live_runs r id e p k q =
      let (base, candidate, runs, eq) = verified_generated_test v r id Status.reproduced e p k q in
      let (fails, low, high, live) = fails_live-true _ _ (outcome_reproduced _ _ (sym eq)) in
      (
        base,
        candidate,
        runs,
        sym (replayed-cache _ base (v.cache_kept e.runner base e.path e.test_names)) ∙ live,
        (fails, low, high),
      )

  -- The masks, seen from the final ledger: its records are those that the masks read.
  masks_leave :
      (r : Report) (id : String) (e : Evidence)
      → item (verify_report v r) id ≡ some e
      → e.kind ≡ Kind.differential_test
      → get id (verify_report v r).verified ≡ some Status.not_reproduced
      → (let l = merge_verifiers v r (new_ledger r.checks r.evidence) in
          (flag e.check_id (v.masks r l) ≡ false)
          × ((id' : String) (o : Evidence)
              → item (verify_report v r) id' ≡ some o
              → o.kind ≡ Kind.differential_observation
              → o.check_id ≢ ""
              → get id' (verify_report v r).verified ≡ some Status.diverged
              → o.check_id ≢ e.check_id))
  unfolding verify_report
  masks_leave r id e p k q =
      let l = merge_verifiers v r (new_ledger r.checks r.evidence) in
      let masked = v.masks r l in
      let same = apply_masks-same v l masked in
      let (free, others) =
        apply_masks-unmasked l masked id e (sym (item-same l (apply_masks l masked) id same) ∙ p) k
          q in
      (
        free,
        λ id' o po ko full d.
            others id' o (sym (item-same l (apply_masks l masked) id' same) ∙ po) ko full
              (apply_masks-verified l masked id' Status.diverged d),
      )

  -- A generated test counts as NOT_REPRODUCED only if the report records a baseline run that is
  -- live or rests on at least two live runs, and a candidate run that is live, of one command,
  -- whose validated logs both pass with exit code 0, and if no behavior difference was recorded
  -- by that candidate run: no mask names its check, and no verified DIVERGED observation has it.
  pub not_reproduced_hides_nothing :
      (r : Report) (id : String) (e : Evidence)
      → item (verify_report v r) id ≡ some e
      → e.kind ≡ Kind.differential_test
      → get id (verify_report v r).verified ≡ some Status.not_reproduced
      → ((base : Check) × (candidate : Check) × Runs v (verify_report v r) e base candidate
          × ((replayed base ≡ false) ⊎ (live_twice base.cache ≡ true))
          × (let run = (v.validate_execution e.runner candidate e.path e.test_names).0 in
              (run.status ≡ "PASS") × (run.exit_code ≡ pos 0)))
        × (let l = merge_verifiers v r (new_ledger r.checks r.evidence) in
            (flag e.check_id (v.masks r l) ≡ false)
            × ((id' : String) (o : Evidence)
                → item (verify_report v r) id' ≡ some o
                → o.kind ≡ Kind.differential_observation
                → o.check_id ≢ ""
                → get id' (verify_report v r).verified ≡ some Status.diverged
                → o.check_id ≢ e.check_id))
  not_reproduced_hides_nothing r id e p k q =
      let (base, candidate, runs, eq) =
        verified_generated_test v r id Status.not_reproduced e p k q in
      let (passes, exit, backed) = passes_live-true _ _ (outcome_not_reproduced _ _ (sym eq)) in
      let kept = v.cache_kept e.runner base e.path e.test_names in
      (
        (base, candidate, runs, backed_base base _ kept backed, (passes, exit)),
        masks_leave r id e p k q,
      )
