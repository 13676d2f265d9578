-- ===== src/Conclude/Clean.antt =====
-- What exit code 0 of `Finalize` with `ci` leaves out.
use swift_proof.Conclude.Verdicts.{is_settled}
use swift_proof.Prelude.{Bool, refl, true, ◌&&◌, ◌≡◌}
use swift_proof.Prelude.Dict.{Dict}
use swift_proof.Model.{Hypothesis}
use swift_proof.Ledger.{Ledger}
use swift_proof.Model.Report.{Report}

pub both_true : (a b : Bool) → a ≡ true → b ≡ true → (a && b) ≡ true
both_true a b p q = rw (p, q) refl

-- A hypothesis that asks for no human.
abbrev pub is_settled_claim : Hypothesis → Bool
is_settled_claim h = is_settled h.status
