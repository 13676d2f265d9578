-- ===== src/Ledger/Masks.antt =====
-- What `applyMasks` withdraws: a both-pass result whose candidate run recorded a difference.
use swift_proof.Prelude.{
  Bool, Bool-cases, Option, String, [], arith, false, if◌then◌else◌, inl, inr, none, not_both,
  negated_true, or_none, some, subst, sym, text_eq, text_refl, true, ◌==◌, ◌∷◌, ◌≡◌, ◌≢◌,
}
use swift_proof.Prelude.Dict.{Dict, get, get-keep, get-put, only, put}
use swift_proof.Model.Status
use swift_proof.Model.Kind
use swift_proof.Model.{Evidence}
use swift_proof.Ledger.{Ledger, apply_masks, diverged_check, diverged_checks, flag, item, unmasked}

flag-put : (k j : String) (d : Dict Bool) → flag j d ≡ true → flag j (put k true d) ≡ true
unfolding flag
flag-put k j d h = ground (arith, get-put k j true d)

flag-put_self : (k : String) (d : Dict Bool) → flag k (put k true d) ≡ true
unfolding flag
flag-put_self k d = ground (arith, get-put k k true d, text_refl k)

-- One round of the loop over the verified statuses.
abbrev mark : Ledger → String → String → Dict Bool → Dict Bool
mark l j t out = if t == Status.diverged then diverged_check l t (item l j) out else out

diverged_check-keeps :
    (l : Ledger) (t : String) (o : Option Evidence) (c : String) (out : Dict Bool)
    → flag c out ≡ true
    → flag c (diverged_check l t o out) ≡ true
unfolding diverged_check
diverged_check-keeps l t none c out h = h
diverged_check-keeps l t (some e) c out h = ground (arith, flag-put e.check_id c out)

mark-keeps :
    (l : Ledger) (j t c : String) (out : Dict Bool)
    → flag c out ≡ true
    → flag c (mark l j t out) ≡ true
mark-keeps l j t c out h = elim (Bool-cases (t == Status.diverged)) [
  | inl yes' ↦ rw yes' (diverged_check-keeps l t (item l j) c out h)
  | inr no' ↦ rw no' h
]

diverged_checks-keeps :
    (l : Ledger) (m : Dict String) (c : String) (out : Dict Bool)
    → flag c out ≡ true
    → flag c (diverged_checks l m out) ≡ true
unfolding diverged_checks
diverged_checks-keeps l [] c out h = h
diverged_checks-keeps l ((j, t) ∷ m) c out h =
    diverged_checks-keeps l m c (mark l j t out) (mark-keeps l j t c out h)

mark_new :
    (l : Ledger) (id : String) (e : Evidence) (out : Dict Bool)
    → item l id ≡ some e
    → e.kind ≡ Kind.differential_observation
    → e.check_id ≢ ""
    → flag e.check_id (mark l id Status.diverged out) ≡ true
unfolding diverged_check
mark_new l id e out p k full =
    rw (p, text_refl Status.diverged, k, text_refl Kind.differential_observation)
      (ground (arith, flag-put_self e.check_id out, text_eq e.check_id ""))

first_status :
    (j id t : String) (o : Option String)
    → (j == id) ≡ true
    → (if j == id then some t else o) ≡ some Status.diverged
    → Status.diverged ≡ t
first_status j id t o here q = cc (rw here at q)

-- The check of a verified DIVERGED observation is marked.
diverged_checks-mem :
    (l : Ledger) (m : Dict String) (id : String) (e : Evidence) (out : Dict Bool)
    → item l id ≡ some e
    → e.kind ≡ Kind.differential_observation
    → e.check_id ≢ ""
    → get id m ≡ some Status.diverged
    → flag e.check_id (diverged_checks l m out) ≡ true
unfolding diverged_checks get
diverged_checks-mem l [] id e out p k full q = cc
diverged_checks-mem l ((j, t) ∷ m) id e out p k full q = elim (Bool-cases (j == id)) [
  | inl here ↦ diverged_checks-keeps l m e.check_id (mark l j t out) (
      subst (λ u. flag e.check_id (mark l j u out) ≡ true) (first_status j id t (get id m) here q)
        (subst (λ i. flag e.check_id (mark l i Status.diverged out) ≡ true)
          (sym ((text_eq j id).0 here)) (mark_new l id e out p k full)))
  | inr there ↦ diverged_checks-mem l m id e (mark l j t out) p k full (rw there at q)
]

unmasked-true :
    (d m : Dict Bool) (e : Evidence)
    → e.kind ≡ Kind.differential_test
    → unmasked d m Status.not_reproduced (some e) ≡ true
    → (flag e.check_id d ≡ false) × (flag e.check_id m ≡ false)
unfolding unmasked
unmasked-true d m e k h = or_none _ _ (rw k at (negated_true _ h))

only-true : {V : Type 0} (p : V → Bool) (o : Option V) (v : V) → only p o ≡ some v → p v ≡ true
only-true p none v h = cc
only-true p (some w) v h = ground arith

-- A NOT_REPRODUCED generated test that the masks left has a candidate check that no mask names
-- and that no verified DIVERGED observation shares.
pub apply_masks-unmasked :
    (l : Ledger) (masked : Dict Bool) (id : String) (e : Evidence)
    → item l id ≡ some e
    → e.kind ≡ Kind.differential_test
    → get id (apply_masks l masked).verified ≡ some Status.not_reproduced
    → (flag e.check_id masked ≡ false)
      × ((id' : String) (o : Evidence)
          → item l id' ≡ some o
          → o.kind ≡ Kind.differential_observation
          → o.check_id ≢ ""
          → get id' l.verified ≡ some Status.diverged
          → o.check_id ≢ e.check_id)
unfolding apply_masks
apply_masks-unmasked l masked id e p k q =
    let marks = diverged_checks l l.verified [] in
    let kept : unmasked marks masked Status.not_reproduced (some e) ≡ true =
      subst (λ o. unmasked marks masked Status.not_reproduced o ≡ true) p
        (only-true _ (get id l.verified) Status.not_reproduced (rw get-keep at q)) in
    let (free, open') = unmasked-true marks masked e k kept in
    (
      open',
      λ id' o po ko full d same. not_both (flag e.check_id marks) free (
          subst (λ c. flag c marks ≡ true) same
            (diverged_checks-mem l l.verified id' o [] po ko full d)),
    )
