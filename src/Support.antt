-- ===== src/Support.antt =====
-- app/internal/report/verify.go: which recorded evidence supports a claimed hypothesis status,
-- and app/internal/report/intent.go: the link of a hypothesis to an acceptance criterion.
use Prim.Native.Char.{code}
pub mod Cited
use swift_proof.Prelude.{
  Bool, List, Option, String, [], all, any, count_if, eqb, false, if◌then◌else◌, leb, length, ltb,
  not, refl, some, true, ℕ, ◌&&◌, ◌==◌, ◌||◌, ◌∷◌, ◌≡◌,
}
use swift_proof.Prelude.Dict.{Dict, get, is_some, put}
use swift_proof.Model.Status
use swift_proof.Model.Kind
use swift_proof.Model.{Evidence, Hypothesis, IntentCriterion}
use swift_proof.Ledger.{Ledger, flag, item}

-- The table `accepted`: the evidence kind and verified status that support a claim.
unfoldable pub accepts : String → String → String → Bool
accepts claimed kind status =
    if claimed == Status.reproduced
    then kind == Kind.differential_test && status == Status.reproduced
    else if claimed == Status.diverged
    then (kind == Kind.differential_observation && status == Status.diverged)
      || (kind == Kind.differential_fuzz && status == Status.diverged)
    else if claimed == Status.intent_test_failed
    then kind == Kind.intent_test && status == Status.intent_test_failed
    else if claimed == Status.not_reproduced
    then kind == Kind.differential_test && status == Status.not_reproduced
    else if claimed == Status.dismissed
    then kind == Kind.source_observation && status == Status.observed
    else false

-- The extra condition of an INTENT_TEST_FAILED claim.
unfoldable pub same_criterion : Dict IntentCriterion → String → Hypothesis → Evidence → Bool
same_criterion criteria claimed h e =
    if claimed == Status.intent_test_failed
    then is_some (get h.criterion_id criteria) && e.criterion_id == h.criterion_id
    else true

-- Whether one cited record, with its verified status, supports the claim.
unfoldable pub supports_by :
    Dict IntentCriterion → Hypothesis → String → Option Evidence → Option String → Bool
unfolding accepts same_criterion
supports_by criteria h claimed (some e) (some status) =
    accepts claimed e.kind status && same_criterion criteria claimed h e
supports_by criteria h claimed _ _ = false

-- The loop of `supports` over the cited IDs.
unfoldable pub supports_loop :
    Ledger → Dict IntentCriterion → Hypothesis → String → List String → Bool → Bool → Bool × Bool
unfolding supports_by
supports_loop l criteria h claimed [] valid supported = (valid, supported)
supports_loop l criteria h claimed (id ∷ ids) valid supported =
    supports_loop l criteria h claimed ids (valid && is_some (item l id))
      (supported || supports_by criteria h claimed (item l id) (get id l.verified))

unfoldable pub supports : Ledger → Hypothesis → String → Dict IntentCriterion → Bool × Bool
unfolding supports_loop
supports l h claimed criteria =
    supports_loop l criteria h claimed h.evidence_ids (ltb 0 (length h.evidence_ids)) false

digit : ℕ → Bool
digit c = leb 48 c && leb c 57

-- `ValidCriterionID`, the texts ^AC-[1-9][0-9]{0,2}$. `codes` are the characters.
criterion_codes : List ℕ → Bool
unfolding digit
criterion_codes (a ∷ c ∷ dash ∷ first ∷ rest) =
    eqb a 65
    && eqb c 67
    && eqb dash 45
    && leb 49 first
    && leb first 57
    && leb (length rest) 2
    && all digit rest
criterion_codes _ = false

codes : String → List ℕ
codes String.[] = []
codes (String.◌∷◌ c s) = code c ∷ codes s

unfoldable pub valid_criterion_id : String → Bool
unfolding criterion_codes codes
valid_criterion_id id = criterion_codes (codes id)

criterion_test :
    (valid_criterion_id "AC-12" ≡ true)
    × (valid_criterion_id "AC-0" ≡ false)
    × (valid_criterion_id "AC-1234" ≡ false)
unfolding valid_criterion_id
criterion_test = (refl, refl, refl)

unfoldable pub index_criteria :
    List IntentCriterion → List IntentCriterion → Dict IntentCriterion → Dict IntentCriterion
index_criteria every [] out = out
index_criteria every (c ∷ cs) out = index_criteria every cs (
    if valid_criterion_id c.id && eqb (count_if (λ d. d.id == c.id) every) 1
    then put c.id c out
    else out)

unfoldable pub criterion_index : List IntentCriterion → Dict IntentCriterion
unfolding index_criteria
criterion_index criteria = index_criteria criteria criteria []

-- `citesAny`
unfoldable pub cites_any : Hypothesis → Dict Bool → Bool
unfolding flag
cites_any h ids = any (λ id. flag id ids) h.evidence_ids

-- `normalizeIntentLink`: the hypothesis, and whether something was dropped.
unfoldable pub drop_criterion : Hypothesis → Dict IntentCriterion → Hypothesis × Bool
drop_criterion h criteria =
    if not (h.criterion_id == "") && not (is_some (get h.criterion_id criteria))
    then (record h { criterion_id = "" }, true)
    else (h, false)

unfoldable pub drop_judgment : Hypothesis → Bool → Hypothesis × Bool
drop_judgment h dropped =
    let allowed =
      h.intent_judgment == "expected_change" || h.intent_judgment == "unexpected_change" in
    if not (h.intent_judgment == "")
      && (not allowed || not (h.status == Status.diverged) || h.criterion_id == "")
    then (record h { intent_judgment = "" }, true)
    else (h, dropped)

unfoldable pub normalize_intent_link : Hypothesis → Dict IntentCriterion → Hypothesis × Bool
unfolding drop_criterion drop_judgment
normalize_intent_link h criteria =
    let (h', dropped) = drop_criterion h criteria in drop_judgment h' dropped
