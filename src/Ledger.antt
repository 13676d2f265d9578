-- ===== src/Ledger.antt =====
-- app/internal/report/verify.go: the ledger that indexes the recorded checks and evidence of a
-- report and collects the statuses that verifiers re-derived. A method that mutates `*ledger`
-- returns the new ledger; `range` over a Go map runs over the entries of the association list.
pub mod Invariant
pub mod Owned
pub mod Masks
use swift_proof.Prelude.{
  String, Bool, true, false, ◌&&◌, ◌||◌, not, Option, none, some, List, [], ◌∷◌, ◌==◌,
  if◌then◌else◌, any,
}
use swift_proof.Prelude.Dict.{Dict, get, put, delete, keep, is_some}
use swift_proof.Model.Status
use swift_proof.Model.Kind
use swift_proof.Model.{Check, Evidence}

pub record Ledger : Type 0 where
  pub checks : Dict Check
  pub duplicate_checks : Dict Bool
  pub evidence : Dict Evidence
  pub duplicate_evidence : Dict Bool
  pub verified : Dict String
  pub rejected : Dict Bool

-- `m[k]` of a `map[string]bool`: a missing key reads as false.
unfoldable pub flag : String → Dict Bool → Bool
flag k d = elim (get k d) [ none ↦ false | some b ↦ b ]

-- The body of the loop of `newLedger` over the checks.
unfoldable pub index_check : Ledger → Check → Ledger
index_check l c =
    let duplicates =
      if is_some (get c.id l.checks)
      then put c.id true l.duplicate_checks
      else l.duplicate_checks in
    record l { checks = put c.id c l.checks; duplicate_checks = duplicates }

-- The body of the loop of `newLedger` over the evidence.
unfoldable pub index_evidence : Ledger → Evidence → Ledger
index_evidence l e =
    let duplicates =
      if is_some (get e.id l.evidence)
      then put e.id true l.duplicate_evidence
      else l.duplicate_evidence in
    record l { evidence = put e.id e l.evidence; duplicate_evidence = duplicates }

unfoldable pub index_checks : Ledger → List Check → Ledger
unfolding index_check
index_checks l [] = l
index_checks l (c ∷ cs) = index_checks (index_check l c) cs

unfoldable pub index_all_evidence : Ledger → List Evidence → Ledger
unfolding index_evidence
index_all_evidence l [] = l
index_all_evidence l (e ∷ es) = index_all_evidence (index_evidence l e) es

abbrev pub empty_ledger : Ledger
empty_ledger = record {
  checks = [];
  duplicate_checks = [];
  evidence = [];
  duplicate_evidence = [];
  verified = [];
  rejected = [];
}

unfoldable pub new_ledger : List Check → List Evidence → Ledger
unfolding index_checks index_all_evidence
new_ledger checks evidence = index_all_evidence (index_checks empty_ledger checks) evidence

-- What a map lookup with an `ok` result gives, unless the ID is empty or recorded twice.
unfoldable pub unique_entry : {A : Type 0} → String → Bool → Option A → Option A
unique_entry id duplicate none = none
unique_entry id duplicate (some a) = if id == "" || duplicate then none else some a

unfoldable pub check : Ledger → String → Option Check
unfolding unique_entry flag
check l id = unique_entry id (flag id l.duplicate_checks) (get id l.checks)

unfoldable pub item : Ledger → String → Option Evidence
unfolding unique_entry flag
item l id = unique_entry id (flag id l.duplicate_evidence) (get id l.evidence)

unfoldable pub reject : Ledger → String → Ledger
reject l id = record l { rejected = put id true l.rejected; verified = delete id l.verified }

-- The tests of `admit` once the record is looked up.
unfoldable pub admit_item : Ledger → String → String → Option Evidence → Ledger
unfolding reject
admit_item l id status none = reject l id
admit_item l id status (some e) =
    if status == "" || not (e.status == status)
    then reject l id
    else record l { verified = put id status l.verified }

unfoldable pub admit : Ledger → String → String → Ledger
unfolding admit_item flag
admit l id status = if flag id l.rejected then l else admit_item l id status (item l id)

unfoldable pub merge : Ledger → Dict String → Ledger
unfolding admit
merge l [] = l
merge l ((id, status) ∷ m) = merge (admit l id status) m

unfoldable pub owns : List String → Option Evidence → Bool
owns kinds none = false
owns kinds (some e) = any (λ k. k == e.kind) kinds

-- One round of the loop of `mergeOwned`.
unfoldable pub merge_one : List String → Ledger → String → String → Ledger
unfolding admit reject owns
merge_one kinds l id status = if owns kinds (item l id) then admit l id status else reject l id

unfoldable pub merge_owned : List String → Ledger → Dict String → Ledger
unfolding merge_one
merge_owned kinds l [] = l
merge_owned kinds l ((id, status) ∷ m) = merge_owned kinds (merge_one kinds l id status) m

-- The first loop of `applyMasks`: the candidate checks of verified DIVERGED observations.
unfoldable pub diverged_check : Ledger → String → Option Evidence → Dict Bool → Dict Bool
diverged_check l status none out = out
diverged_check l status (some e) out =
    if e.kind == Kind.differential_observation && not (e.check_id == "")
    then put e.check_id true out
    else out

unfoldable pub diverged_checks : Ledger → Dict String → Dict Bool → Dict Bool
unfolding diverged_check
diverged_checks l [] out = out
diverged_checks l ((id, status) ∷ m) out =
    diverged_checks l m
      (if status == Status.diverged then diverged_check l status (item l id) out else out)

-- Whether the second loop of `applyMasks` leaves an entry.
unfoldable pub unmasked : Dict Bool → Dict Bool → String → Option Evidence → Bool
unfolding flag
unmasked diverged masked status none = true
unmasked diverged masked status (some e) = not (
    status == Status.not_reproduced
    && e.kind == Kind.differential_test
    && (flag e.check_id diverged || flag e.check_id masked))

unfoldable pub apply_masks : Ledger → Dict Bool → Ledger
unfolding diverged_checks unmasked
apply_masks l masked =
    let diverged = diverged_checks l l.verified [] in
    record l {
      verified = keep (λ id status. unmasked diverged masked status (item l id)) l.verified;
    }
