-- ===== src/Ledger/Invariant.antt =====
-- What holds of a ledger whatever the verifiers claim.
use swift_proof.Prelude.{
  Bool, Bool-cases, List, Option, String, [], arith, false, inl, inr, none, not, refl, some,
  text_eq, true, ◌==◌, ◌||◌, ◌∙◌, ◌∷◌, ◌≡◌, ◌≢◌,
}
use swift_proof.Prelude.Dict.{Dict, get, get-delete, get-keep, get-put, only, put}
use swift_proof.Model.{Check, Evidence}
use swift_proof.Ledger.{
  Ledger, admit, admit_item, apply_masks, empty_ledger, flag, index_all_evidence, index_check,
  index_checks, index_evidence, item, merge, merge_one, merge_owned, new_ledger, owns, reject,
}

-- A verified status is the stored status of the one record with that ID, it is not empty, and
-- the ID was never rejected.
pub record IsSound (l : Ledger) : Type 0 where
  pub stored :
      (id s : String)
      → get id l.verified ≡ some s
      → (e : Evidence) × (item l id ≡ some e) × (e.status ≡ s) × (s ≢ "")
  pub closed : (id : String) → flag id l.rejected ≡ true → get id l.verified ≡ none

pub reject-IsSound : (l : Ledger) (id : String) → IsSound l → IsSound (reject l id)
unfolding reject item flag
reject-IsSound l id h = record {
  stored = λ j s p. h.stored j s (ground (arith, get-delete id j l.verified));
  closed =
      λ j p. ground (arith, get-delete id j l.verified, get-put id j true l.rejected, h.closed j);
}

put-IsSound :
    (l : Ledger) (id s : String) (e : Evidence)
    → item l id ≡ some e
    → flag id l.rejected ≡ false
    → e.status ≡ s
    → s ≢ ""
    → IsSound l
    → IsSound (record l { verified = put id s l.verified })
unfolding item
put-IsSound l id s e p new same full h = record {
  stored = λ j t q. elim (Bool-cases (id == j)) [
    | inl here ↦ (
      e,
      rw (← (text_eq id j).0 here) p,
      ground (arith, get-put id j s l.verified),
      ground (arith, get-put id j s l.verified),
    )
    | inr there ↦ h.stored j t (ground (arith, get-put id j s l.verified))
  ];
  closed = λ j q. ground (arith, get-put id j s l.verified, h.closed j, text_eq id j);
}

-- Putting a status that passed the tests of `admit`.
admit_item-IsSound :
    (l : Ledger) (id s : String) (o : Option Evidence)
    → item l id ≡ o
    → flag id l.rejected ≡ false
    → IsSound l
    → IsSound (admit_item l id s o)
unfolding admit_item
admit_item-IsSound l id s none p new h = reject-IsSound l id h
admit_item-IsSound l id s (some e) p new h = elim (Bool-cases (s == "" || not (e.status == s))) [
  | inl bad ↦ rw bad (reject-IsSound l id h)
  | inr good ↦ rw good (
      put-IsSound l id s e p new (ground (arith, good, text_eq e.status s))
        (ground (arith, good, text_eq s "")) h)
]

pub admit-IsSound : (l : Ledger) (id s : String) → IsSound l → IsSound (admit l id s)
unfolding admit
admit-IsSound l id s h = elim (Bool-cases (flag id l.rejected)) [
  | inl old ↦ rw old h
  | inr new ↦ rw new (admit_item-IsSound l id s (item l id) refl new h)
]

merge_one-IsSound :
    (kinds : List String) (l : Ledger) (id s : String)
    → IsSound l
    → IsSound (merge_one kinds l id s)
unfolding merge_one
merge_one-IsSound kinds l id s h = elim (Bool-cases (owns kinds (item l id))) [
  | inl own ↦ rw own (admit-IsSound l id s h)
  | inr other ↦ rw other (reject-IsSound l id h)
]

pub merge_owned-IsSound :
    (kinds : List String) (l : Ledger) (m : Dict String)
    → IsSound l
    → IsSound (merge_owned kinds l m)
unfolding merge_owned
merge_owned-IsSound kinds l [] h = h
merge_owned-IsSound kinds l ((id, s) ∷ m) h =
    merge_owned-IsSound kinds (merge_one kinds l id s) m (merge_one-IsSound kinds l id s h)

-- Every status that `merge` admits is a stored one, and a rejected ID stays out.
pub merge-IsSound : (l : Ledger) (m : Dict String) → IsSound l → IsSound (merge l m)
unfolding merge
merge-IsSound l [] h = h
merge-IsSound l ((id, s) ∷ m) h = merge-IsSound (admit l id s) m (admit-IsSound l id s h)

pub only-eq_some :
    {V : Type 0} (p : V → Bool) (o : Option V) (v : V) → only p o ≡ some v → o ≡ some v
only-eq_some p none v h = cc
only-eq_some p (some w) v h = ground arith

pub only-none : {V : Type 0} (p : V → Bool) (o : Option V) → o ≡ none → only p o ≡ none
only-none p o h = rw h

pub apply_masks-verified :
    (l : Ledger) (masked : Dict Bool) (id s : String)
    → get id (apply_masks l masked).verified ≡ some s
    → get id l.verified ≡ some s
unfolding apply_masks
apply_masks-verified l masked id s q = only-eq_some _ _ s (rw get-keep at q)

pub apply_masks-IsSound :
    (l : Ledger) (masked : Dict Bool) → IsSound l → IsSound (apply_masks l masked)
unfolding apply_masks item
apply_masks-IsSound l masked h = record {
  stored = λ j s p. h.stored j s (only-eq_some _ _ s (rw get-keep at p));
  closed = λ j p. rw get-keep (only-none _ _ (h.closed j p));
}

index_check-verified :
    (l : Ledger) (cs : List Check)
    → ((index_checks l cs).verified ≡ l.verified) × ((index_checks l cs).rejected ≡ l.rejected)
unfolding index_checks
index_check-verified l [] = (refl, refl)
index_check-verified l (c ∷ cs) = index_check-verified (index_check l c) cs

index_evidence-verified :
    (l : Ledger) (es : List Evidence)
    → ((index_all_evidence l es).verified ≡ l.verified)
      × ((index_all_evidence l es).rejected ≡ l.rejected)
unfolding index_all_evidence
index_evidence-verified l [] = (refl, refl)
index_evidence-verified l (e ∷ es) = index_evidence-verified (index_evidence l e) es

pub new_ledger-verified : (cs : List Check) (es : List Evidence) → (new_ledger cs es).verified ≡ []
unfolding new_ledger
new_ledger-verified cs es =
    (index_evidence-verified (index_checks empty_ledger cs) es).0
    ∙ (index_check-verified empty_ledger cs).0

pub new_ledger-IsSound : (cs : List Check) (es : List Evidence) → IsSound (new_ledger cs es)
unfolding get
new_ledger-IsSound cs es = record {
  stored = λ j s p. cc (rw (new_ledger-verified cs es) at p);
  closed = λ j p. rw (new_ledger-verified cs es);
}
