-- ===== src/Support/Cited.antt =====
-- A supported claim cites a record that supports it.
use swift_proof.Prelude.{
  Bool, List, Member, Option, String, [], and_split, false, inl, inr, none, or_split, refl, some,
  text_eq, true, ◌∷◌, ◌≡◌, ◌⊎◌,
}
use swift_proof.Prelude.Dict.{Dict, get}
use swift_proof.Model.Status
use swift_proof.Model.Kind
use swift_proof.Model.{Evidence, Hypothesis, IntentCriterion}
use swift_proof.Ledger.{Ledger, item}
use swift_proof.Support.{accepts, supports, supports_by, supports_loop}

-- A cited record that the ledger verified and that supports the claim.
pub record Cited (l : Ledger) (ids : List String) (claimed id status : String) (e : Evidence)
    : Type 0 where
  pub cited : Member id ids
  pub recorded : item l id ≡ some e
  pub verified : get id l.verified ≡ some status
  pub accepted : accepts claimed e.kind status ≡ true

supports_by-Cited :
    (l : Ledger) (criteria : Dict IntentCriterion) (h : Hypothesis) (claimed id : String)
    (oe : Option Evidence) (os : Option String)
    → item l id ≡ oe
    → get id l.verified ≡ os
    → supports_by criteria h claimed oe os ≡ true
    → (s : String) × (e : Evidence) × Cited l (id ∷ []) claimed id s e
unfolding supports_by
supports_by-Cited l criteria h claimed id (some e) (some s) p q b =
    (s, e, record { cited = inl refl; recorded = p; verified = q; accepted = (and_split _ _ b).0 })
supports_by-Cited l criteria h claimed id (some e) none p q b = cc
supports_by-Cited l criteria h claimed id none (some s) p q b = cc
supports_by-Cited l criteria h claimed id none none p q b = cc

first-Cited :
    (l : Ledger) (ids : List String) (claimed id : String)
    → (s : String) × (e : Evidence) × Cited l (id ∷ []) claimed id s e
    → (j : String) × (s : String) × (e : Evidence) × Cited l (id ∷ ids) claimed j s e
first-Cited l ids claimed id (s, e, c) = (
  id,
  s,
  e,
  record { cited = inl refl; recorded = c.recorded; verified = c.verified; accepted = c.accepted },
)

supports_loop-Cited :
    (l : Ledger) (criteria : Dict IntentCriterion) (h : Hypothesis) (claimed : String)
    (ids : List String) (valid supported : Bool)
    → (supports_loop l criteria h claimed ids valid supported).1 ≡ true
    → (supported ≡ true)
      ⊎ ((id : String) × (s : String) × (e : Evidence) × Cited l ids claimed id s e)
unfolding supports_loop
supports_loop-Cited l criteria h claimed [] valid supported b = inl b
supports_loop-Cited l criteria h claimed (id ∷ ids) valid supported b =
    elim (supports_loop-Cited l criteria h claimed ids _ _ b) [
      | inr (j, s, e, c) ↦ inr (
        j,
        s,
        e,
        record {
          cited = inr c.cited;
          recorded = c.recorded;
          verified = c.verified;
          accepted = c.accepted;
        },
      )
      | inl both ↦ elim (or_split supported _ both) [
        | inl old ↦ inl old
        | inr new ↦ inr (
            first-Cited l ids claimed id (
              supports_by-Cited l criteria h claimed id (item l id) (get id l.verified) refl refl
                new))
      ]
    ]

-- A claim that `supports` finds supported cites a verified record that the table accepts.
pub supports-Cited :
    (l : Ledger) (h : Hypothesis) (claimed : String) (criteria : Dict IntentCriterion)
    → (supports l h claimed criteria).1 ≡ true
    → (id : String) × (s : String) × (e : Evidence) × Cited l h.evidence_ids claimed id s e
unfolding supports
supports-Cited l h claimed criteria b =
    elim (supports_loop-Cited l criteria h claimed h.evidence_ids _ false b) [
      | inl none_yet ↦ cc
      | inr found ↦ found
    ]

-- Only a verified reproduction by a generated test is accepted for REPRODUCED.
pub accepts-reproduced :
    (kind status : String)
    → accepts Status.reproduced kind status ≡ true
    → (kind ≡ Kind.differential_test) × (status ≡ Status.reproduced)
unfolding accepts
accepts-reproduced kind status h =
    let (k, s) = and_split _ _ h in
    ((text_eq kind Kind.differential_test).0 k, (text_eq status Status.reproduced).0 s)
