-- ===== src/Ledger/Owned.antt =====
-- Where a verified status comes from: the records never change, and only a verifier that owns
-- the kind of a record can have its status admitted.
use swift_proof.Prelude.{
  Bool-cases, List, String, [], arith, false, inl, inr, refl, some, text_eq, true, ◌==◌, ◌∙◌, ◌∷◌,
  ◌≡◌, ◌⊎◌,
}
use swift_proof.Model.{Check, Evidence}
use swift_proof.Prelude.Dict.{Dict, get, get-delete, get-put, put}
use swift_proof.Ledger.{
  Ledger, check, empty_ledger, index_all_evidence, index_check, index_checks, index_evidence, item,
  merge_one, merge_owned, new_ledger, owns,
}

-- The indexes of two ledgers are the same.
pub record SameRecords (l l' : Ledger) : Type 0 where
  pub checks : l'.checks ≡ l.checks
  pub duplicate_checks : l'.duplicate_checks ≡ l.duplicate_checks
  pub evidence : l'.evidence ≡ l.evidence
  pub duplicate_evidence : l'.duplicate_evidence ≡ l.duplicate_evidence

pub SameRecords-refl : (l : Ledger) → SameRecords l l
SameRecords-refl l = record {
  checks = refl;
  duplicate_checks = refl;
  evidence = refl;
  duplicate_evidence = refl;
}

pub SameRecords-trans : (a b c : Ledger) → SameRecords a b → SameRecords b c → SameRecords a c
SameRecords-trans a b c p q = record {
  checks = q.checks ∙ p.checks;
  duplicate_checks = q.duplicate_checks ∙ p.duplicate_checks;
  evidence = q.evidence ∙ p.evidence;
  duplicate_evidence = q.duplicate_evidence ∙ p.duplicate_evidence;
}

pub item-same : (l l' : Ledger) (id : String) → SameRecords l l' → item l' id ≡ item l id
unfolding item
item-same l l' id h = cc (h.evidence, h.duplicate_evidence)

pub check-same : (l l' : Ledger) (id : String) → SameRecords l l' → check l' id ≡ check l id
unfolding check
check-same l l' id h = cc (h.checks, h.duplicate_checks)

merge_one-same :
    (kinds : List String) (l : Ledger) (id s : String) → SameRecords l (merge_one kinds l id s)
unfolding merge_one
merge_one-same kinds l id s = ground arith

pub merge_owned-same :
    (kinds : List String) (l : Ledger) (m : Dict String) → SameRecords l (merge_owned kinds l m)
unfolding merge_owned
merge_owned-same kinds l [] = SameRecords-refl l
merge_owned-same kinds l ((id, s) ∷ m) =
    SameRecords-trans l (merge_one kinds l id s) (merge_owned kinds (merge_one kinds l id s) m)
      (merge_one-same kinds l id s) (merge_owned-same kinds (merge_one kinds l id s) m)

-- A status that one verifier returned for an ID.
abbrev pub Returned : String → String → Dict String → Type 0
Returned id s [] = ⊥
Returned id s ((j, t) ∷ m) = ((j ≡ id) × (t ≡ s)) ⊎ Returned id s m

-- One round admits at most the status that the verifier returned, and only for a kind it owns.
merge_one-verified :
    (kinds : List String) (l : Ledger) (j t id s : String)
    → get id (merge_one kinds l j t).verified ≡ some s
    → (get id l.verified ≡ some s) ⊎ ((j ≡ id) × (t ≡ s) × (owns kinds (item l id) ≡ true))
unfolding merge_one
merge_one-verified kinds l j t id s p =
    ground (arith, get-put j id t l.verified, get-delete j id l.verified, text_eq j id)

-- The merge admits only what its verifier returned, and only for a kind that it owns.
pub merge_owned-verified :
    (kinds : List String) (l : Ledger) (m : Dict String) (id s : String)
    → get id (merge_owned kinds l m).verified ≡ some s
    → (get id l.verified ≡ some s) ⊎ (Returned id s m × (owns kinds (item l id) ≡ true))
unfolding merge_owned
merge_owned-verified kinds l [] id s p = inl p
merge_owned-verified kinds l ((j, t) ∷ m) id s p =
    elim (merge_owned-verified kinds (merge_one kinds l j t) m id s p) [
      | inl before ↦ elim (merge_one-verified kinds l j t id s before) [
        | inl old ↦ inl old
        | inr new ↦ inr (inl (new.0, new.1), new.2)
      ]
      | inr later ↦ inr (inr later.0, rw (item-same l _ id (merge_one-same kinds l j t)) at later.1)
    ]

-- A verifier that does not own the kind of a record adds no status to it.
pub merge_owned-other :
    (kinds : List String) (l : Ledger) (m : Dict String) (id s : String)
    → owns kinds (item l id) ≡ false
    → get id (merge_owned kinds l m).verified ≡ some s
    → get id l.verified ≡ some s
merge_owned-other kinds l m id s other p = elim (merge_owned-verified kinds l m id s p) [
  | inl old ↦ old
  | inr new ↦ cc (other, new.1)
]

pub Returned-put :
    (id s k t : String) (m : Dict String)
    → Returned id s (put k t m)
    → ((k ≡ id) × (t ≡ s)) ⊎ Returned id s m
unfolding put
Returned-put id s k t [] h = h
Returned-put id s k t ((j, u) ∷ m) h = elim (Bool-cases (j == k)) [
  | inl here ↦ elim (rw here at h) [ inl new ↦ inl new | inr old ↦ inr (inr old) ]
  | inr there ↦ elim (rw there at h) [
    | inl first ↦ inr (inl first)
    | inr rest ↦ elim (Returned-put id s k t m rest) [ inl new ↦ inl new | inr old ↦ inr (inr old) ]
  ]
]

-- A record is indexed under its own ID.
abbrev pub IsIndexed : Ledger → Type 0
IsIndexed l = (id : String) (e : Evidence) → get id l.evidence ≡ some e → e.id ≡ id

index_evidence-IsIndexed :
    (l : Ledger) (e : Evidence) → IsIndexed l → IsIndexed (index_evidence l e)
unfolding index_evidence
index_evidence-IsIndexed l e h id f p =
    ground (arith, get-put e.id id e l.evidence, text_eq e.id id, h id f)

index_all_evidence-IsIndexed :
    (l : Ledger) (es : List Evidence) → IsIndexed l → IsIndexed (index_all_evidence l es)
unfolding index_all_evidence
index_all_evidence-IsIndexed l [] h = h
index_all_evidence-IsIndexed l (e ∷ es) h =
    index_all_evidence-IsIndexed (index_evidence l e) es (index_evidence-IsIndexed l e h)

index_checks-evidence : (l : Ledger) (cs : List Check) → (index_checks l cs).evidence ≡ l.evidence
unfolding index_checks
index_checks-evidence l [] = refl
index_checks-evidence l (c ∷ cs) = index_checks-evidence (index_check l c) cs

pub new_ledger-IsIndexed : (cs : List Check) (es : List Evidence) → IsIndexed (new_ledger cs es)
unfolding new_ledger get
new_ledger-IsIndexed cs es =
    index_all_evidence-IsIndexed (index_checks empty_ledger cs) es
      (λ id e p. cc (rw (index_checks-evidence empty_ledger cs) at p))

pub item-id :
    (l : Ledger) (id : String) (e : Evidence) → IsIndexed l → item l id ≡ some e → e.id ≡ id
unfolding item
item-id l id e h p = h id e (ground arith)
