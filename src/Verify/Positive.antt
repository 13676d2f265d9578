-- ===== src/Verify/Positive.antt =====
-- What a verified status of a generated test rests on: two recorded runs.
use swift_proof.Prelude.{
  Bool-cases, List, Option, String, [], arith, false, inl, inr, none, not, refl, some, subst, sym,
  text_eq, true, ◌&&◌, ◌==◌, ◌||◌, ◌∙◌, ◌∷◌, ◌≡◌, ◌≢◌, ◌⊎◌,
}
use swift_proof.Prelude.Int.{is_nat→eq, pos}
use swift_proof.Prelude.Dict.{Dict}
use swift_proof.Ledger.Owned.{
  IsIndexed, Returned, Returned-put, SameRecords, SameRecords-trans, item-id, merge_owned-same,
}
use swift_proof.Ledger.Invariant.{IsSound, merge_owned-IsSound}
use swift_proof.Model.Kind
use swift_proof.Model.Report.{Report}
use swift_proof.Model.{Check, Evidence, check_generated_base, check_generated_candidate, replayed}
use swift_proof.Ledger.{Ledger, check, item, merge_owned}
use swift_proof.Verify.{
  Verifiers, core_entry, core_evidence, core_status, differential_test_status, equal_command,
  found_status, merge_verifiers, outcome_status, runs_status, verifiable_names, verifiable_text,
  verify_core_evidence,
}

-- The two recorded runs behind a verified generated test, and what their validated logs say.
pub record Runs (v : Verifiers) (l : Ledger) (e : Evidence) (base candidate : Check) : Type 0 where
  pub base_recorded : check l e.base_check_id ≡ some base
  pub candidate_recorded : check l e.check_id ≡ some candidate
  pub base_kind : base.kind ≡ check_generated_base
  pub candidate_kind : candidate.kind ≡ check_generated_candidate
  pub same_command : equal_command candidate.command base.command ≡ true
  pub candidate_live : replayed candidate ≡ false
  pub known_runner : (v.validate_execution e.runner candidate e.path e.test_names).1 ≡ true
  pub base_passes : (v.validate_execution e.runner base e.path e.test_names).0.status ≡ "PASS"
  pub base_exit : (v.validate_execution e.runner base e.path e.test_names).0.exit_code ≡ pos 0

module _ (v : Verifiers) where
  runs_status-Runs :
      (l : Ledger) (e : Evidence) (base candidate : Check)
      → check l e.base_check_id ≡ some base
      → check l e.check_id ≡ some candidate
      → runs_status v e base candidate ≢ ""
      → Runs v l e base candidate
        × (runs_status v e base candidate
            ≡ outcome_status
                (v.validate_execution e.runner candidate e.path e.test_names).0
                (v.validate_execution e.runner base e.path e.test_names).0)
  unfolding runs_status
  runs_status-Runs l e base candidate pb pc h =
      let (candidate', known) = v.validate_execution e.runner candidate e.path e.test_names in
      let (base', _) = v.validate_execution e.runner base e.path e.test_names in
      (
        ground (
          arith,
          text_eq base.kind check_generated_base,
          text_eq candidate.kind check_generated_candidate,
          text_eq base'.status "PASS",
          is_nat→eq 0 base'.exit_code,
        ),
        ground arith,
      )

  found_status-Runs :
      (l : Ledger) (e : Evidence) (ob oc : Option Check)
      → check l e.base_check_id ≡ ob
      → check l e.check_id ≡ oc
      → found_status v e ob oc ≢ ""
      → (base : Check) × (candidate : Check) × Runs v l e base candidate
        × (found_status v e ob oc
            ≡ outcome_status
                (v.validate_execution e.runner candidate e.path e.test_names).0
                (v.validate_execution e.runner base e.path e.test_names).0)
  unfolding found_status
  found_status-Runs l e (some base) (some candidate) pb pc h =
      let (runs, eq) = runs_status-Runs l e base candidate pb pc h in (base, candidate, runs, eq)
  found_status-Runs l e (some base) none pb pc h = absurd (h refl)
  found_status-Runs l e none (some candidate) pb pc h = absurd (h refl)
  found_status-Runs l e none none pb pc h = absurd (h refl)

  -- A status of a generated test comes from two recorded runs.
  pub differential_test_status-Runs :
      (l : Ledger) (e : Evidence)
      → differential_test_status v e l ≢ ""
      → (base : Check) × (candidate : Check) × Runs v l e base candidate
        × (differential_test_status v e l
            ≡ outcome_status
                (v.validate_execution e.runner candidate e.path e.test_names).0
                (v.validate_execution e.runner base e.path e.test_names).0)
  unfolding differential_test_status
  differential_test_status-Runs l e h =
      elim (Bool-cases (
        not (verifiable_names v e.test_names)
        || (not (e.path == "") && not (verifiable_text v e.path)))) [
          | inl bad ↦ absurd (h (rw bad))
          | inr good ↦ rw good (
              found_status-Runs l e (check l e.base_check_id) (check l e.check_id) refl refl
                (rw good at h))
        ]

  core_entry-Returned :
      (l : Ledger) (j : String) (o : Option Evidence) (out : Dict String) (id s : String)
      → IsIndexed l
      → item l j ≡ o
      → Returned id s (core_entry v l o out)
      → Returned id s out
        ⊎ ((e : Evidence) × (item l id ≡ some e) × (core_status v e l ≡ s) × (s ≢ ""))
  unfolding core_entry
  core_entry-Returned l j none out id s h p q = inl q
  core_entry-Returned l j (some e) out id s h p q =
      elim (Bool-cases (not (core_status v e l == "") && core_status v e l == e.status)) [
        | inr bad ↦ inl (rw bad at q)
        | inl good ↦ elim (Returned-put id s e.id (core_status v e l) out (rw good at q)) [
          | inr old ↦ inl old
          | inl new ↦ inr (
            e,
            subst (λ k. item l k ≡ some e) (sym (item-id l j e h p) ∙ new.0) p,
            new.1,
            ground (arith, good, new.1, text_eq (core_status v e l) ""),
          )
        ]
      ]

  pub core_evidence-Returned :
      (l : Ledger) (es : List Evidence) (out : Dict String) (id s : String)
      → IsIndexed l
      → Returned id s (core_evidence v l es out)
      → Returned id s out
        ⊎ ((e : Evidence) × (item l id ≡ some e) × (core_status v e l ≡ s) × (s ≢ ""))
  unfolding core_evidence
  core_evidence-Returned l [] out id s h p = inl p
  core_evidence-Returned l (f ∷ es) out id s h p =
      elim (core_evidence-Returned l es (core_entry v l (item l f.id) out) id s h p) [
        | inl q ↦ core_entry-Returned l f.id (item l f.id) out id s h refl q
        | inr found ↦ inr found
      ]

  pub merge_verifiers-same : (r : Report) (l : Ledger) → SameRecords l (merge_verifiers v r l)
  unfolding merge_verifiers
  merge_verifiers-same r l =
      let k₁ = Kind.source_observation ∷ Kind.differential_test ∷ [] in
      let l₁ = merge_owned k₁ l (verify_core_evidence v r l) in
      let l₂ = merge_owned (Kind.differential_observation ∷ []) l₁ (v.observations r l₁) in
      let l₃ = merge_owned (Kind.differential_fuzz ∷ []) l₂ (v.fuzz r l₂) in
      let l₄ = merge_owned (Kind.base_test_differential ∷ []) l₃ (v.base_tests r l₃) in
      let l₅ = merge_owned (Kind.impacted_test_differential ∷ []) l₄ (v.impacted_tests r l₄) in
      let l₆ = merge_owned (Kind.intent_test ∷ []) l₅ (v.intent_tests r l₅) in
      SameRecords-trans l l₁ l₆ (merge_owned-same k₁ l _) (
        SameRecords-trans l₁ l₂ l₆ (merge_owned-same _ l₁ _) (
          SameRecords-trans l₂ l₃ l₆ (merge_owned-same _ l₂ _) (
            SameRecords-trans l₃ l₄ l₆ (merge_owned-same _ l₃ _)
              (SameRecords-trans l₄ l₅ l₆ (merge_owned-same _ l₄ _) (merge_owned-same _ l₅ _)))))

  pub merge_verifiers-IsSound :
      (r : Report) (l : Ledger) → IsSound l → IsSound (merge_verifiers v r l)
  unfolding merge_verifiers
  merge_verifiers-IsSound r l h = merge_owned-IsSound _ _ _ (
      merge_owned-IsSound _ _ _ (
        merge_owned-IsSound _ _ _ (
          merge_owned-IsSound _ _ _
            (merge_owned-IsSound _ _ _ (merge_owned-IsSound _ l (verify_core_evidence v r l) h)))))
