-- ===== src/Conclude/Verdicts.antt =====
-- What a final hypothesis status rests on.
use swift_proof.Prelude.{
  Bool, String, and_split, false, if◌then◌else◌, not, refl, true, ◌&&◌, ◌==◌, ◌||◌, ◌∙◌, ◌≡◌,
}
use swift_proof.Model.Status
use swift_proof.Conclude.{Verdict, judge, verdict}
use swift_proof.Prelude.Dict.{Dict}
use swift_proof.Model.{Hypothesis, IntentCriterion}
use swift_proof.Support.{drop_criterion, normalize_intent_link}

-- `judge` on the outcomes of its five tests.
abbrev choose : Bool → Bool → Bool → Bool → Bool → Bool → Verdict
choose a b c d e high =
    if a
    then verdict Status.reproduced high false
    else if b
    then verdict Status.diverged false true
    else if c
    then verdict Status.intent_test_failed false true
    else if d
    then verdict Status.not_reproduced false false
    else if e
    then verdict Status.dismissed false false
    else verdict Status.unverified false true

module _ (b c d e high : Bool) where
  choose_fails :
      (a : Bool)
      → (choose a b c d e high).fails
        ≡ ((choose a b c d e high).status == Status.reproduced && high)
  choose_fails true = refl
  choose_fails false = rest b c d e
    where
      rest :
          (b c d e : Bool)
          → (choose false b c d e high).fails
            ≡ ((choose false b c d e high).status == Status.reproduced && high)
      rest true c d e = refl
      rest false true d e = refl
      rest false false true e = refl
      rest false false false true = refl
      rest false false false false = refl

  choose_first : (a : Bool) → ((choose a b c d e high).status == Status.reproduced) ≡ a
  choose_first true = refl
  choose_first false = rest b c d e
    where
      rest : (b c d e : Bool) → ((choose false b c d e high).status == Status.reproduced) ≡ false
      rest true c d e = refl
      rest false true d e = refl
      rest false false true e = refl
      rest false false false true = refl
      rest false false false false = refl

  choose_second : (a : Bool) → (choose a b c d e high).status ≡ Status.diverged → b ≡ true
  choose_second true h = cc
  choose_second false h = rest b c d e h
    where
      rest : (b c d e : Bool) → (choose false b c d e high).status ≡ Status.diverged → b ≡ true
      rest true c d e h = refl
      rest false true d e h = cc
      rest false false true e h = cc
      rest false false false true h = cc
      rest false false false false h = cc

abbrev pub is_settled : String → Bool
is_settled s = s == Status.reproduced || s == Status.not_reproduced || s == Status.dismissed

choose_settled :
    (a b c d e high : Bool)
    → (choose a b c d e high).human ≡ not (is_settled (choose a b c d e high).status)
choose_settled true b c d e high = refl
choose_settled false true c d e high = refl
choose_settled false false true d e high = refl
choose_settled false false false true e high = refl
choose_settled false false false false true high = refl
choose_settled false false false false false high = refl

module _ (claimed : String) (backed high listed reasoned : Bool) where
  -- Exit code 1 is set by a reproduced high or critical hypothesis only.
  pub judge_fails :
      (judge claimed backed high listed reasoned).fails
      ≡ ((judge claimed backed high listed reasoned).status == Status.reproduced && high)
  unfolding judge
  judge_fails =
      choose_fails (claimed == Status.diverged && (backed && listed))
        (claimed == Status.intent_test_failed && backed)
        (claimed == Status.not_reproduced && backed)
        (claimed == Status.dismissed && (backed && reasoned)) high
        (claimed == Status.reproduced && backed)

  pub judge-reproduced :
      ((judge claimed backed high listed reasoned).status == Status.reproduced)
      ≡ (claimed == Status.reproduced && backed)
  unfolding judge
  judge-reproduced =
      choose_first (claimed == Status.diverged && (backed && listed))
        (claimed == Status.intent_test_failed && backed)
        (claimed == Status.not_reproduced && backed)
        (claimed == Status.dismissed && (backed && reasoned)) high
        (claimed == Status.reproduced && backed)

  -- A DIVERGED verdict needs a listed divergence.
  pub judge-diverged :
      (judge claimed backed high listed reasoned).status ≡ Status.diverged → listed ≡ true
  unfolding judge
  judge-diverged h =
      (and_split backed listed
        (and_split (claimed == Status.diverged) (backed && listed) (
          choose_second (claimed == Status.diverged && (backed && listed))
            (claimed == Status.intent_test_failed && backed)
            (claimed == Status.not_reproduced && backed)
            (claimed == Status.dismissed && (backed && reasoned)) high
            (claimed == Status.reproduced && backed) h)).1).1

  -- A verdict asks for no human only with one of three statuses.
  pub judge_settled :
      (judge claimed backed high listed reasoned).human
      ≡ not (is_settled (judge claimed backed high listed reasoned).status)
  unfolding judge
  judge_settled =
      choose_settled (claimed == Status.reproduced && backed)
        (claimed == Status.diverged && (backed && listed))
        (claimed == Status.intent_test_failed && backed)
        (claimed == Status.not_reproduced && backed)
        (claimed == Status.dismissed && (backed && reasoned)) high

if_field :
    {A : Type 0} (field : Hypothesis → A) (b : Bool) (x y : Hypothesis × Bool) (a : A)
    → field x.0 ≡ a
    → field y.0 ≡ a
    → field (if b then x else y).0 ≡ a
if_field field true x y a p q = p
if_field field false x y a p q = q

-- A field that neither write of the normalization changes.
keep_link :
    {A : Type 0} (h : Hypothesis) (criteria : Dict IntentCriterion) (field : Hypothesis → A)
    → ((g : Hypothesis) (s : String) → field (record g { criterion_id = s }) ≡ field g)
    → ((g : Hypothesis) (s : String) → field (record g { intent_judgment = s }) ≡ field g)
    → field (normalize_intent_link h criteria).0 ≡ field h
unfolding normalize_intent_link
keep_link h criteria field p q =
    if_field field _ _ _ (field h) (q (drop_criterion h criteria).0 "" ∙ first) first
  where
    first : field (drop_criterion h criteria).0 ≡ field h
    first = if_field field _ _ _ (field h) (p h "") refl

-- The normalization of the intent link leaves the status, the severity and the citations.
pub record SameClaim (g h : Hypothesis) : Type 0 where
  pub status : h.status ≡ g.status
  pub severity : h.severity ≡ g.severity
  pub evidence_ids : h.evidence_ids ≡ g.evidence_ids

pub normalize_intent_link-SameClaim :
    (h : Hypothesis) (criteria : Dict IntentCriterion)
    → SameClaim h (normalize_intent_link h criteria).0
unfolding normalize_intent_link
normalize_intent_link-SameClaim h criteria = record {
  status = keep_link h criteria (λ g. g.status) (λ g s. refl) (λ g s. refl);
  severity = keep_link h criteria (λ g. g.severity) (λ g s. refl) (λ g s. refl);
  evidence_ids = keep_link h criteria (λ g. g.evidence_ids) (λ g s. refl) (λ g s. refl);
}
