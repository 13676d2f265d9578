-- ===== src/Conclude/Diverged.antt =====
-- What a DIVERGED hypothesis of a finalized report rests on.
use swift_proof.Prelude.{
  Bool, Bool-cases, List, Member, Member-map, String, [], any-Member, ap, arith, inl, inr, map, not,
  refl, subst, sym, text_eq, true, ◌++◌, ◌==◌, ◌∙◌, ◌∷◌, ◌≡◌, ◌≢◌, ◌⊎◌,
}
use swift_proof.Prelude.Dict.{Dict, get, get-put, put}
use swift_proof.Severity.{is_high}
use swift_proof.Texts.{has, is_blank, to_upper}
use swift_proof.Model.Status
use swift_proof.Model.{Hypothesis, IntentCriterion}
use swift_proof.Model.Report.{Divergence, Report}
use swift_proof.Ledger.{Ledger, flag}
use swift_proof.Support.{cites_any, criterion_index}
use swift_proof.Conclude.{
  Sections, build_divergences, cleared, conclude, conclude_hypotheses, final_hypothesis, finalize,
  is_backed, judge_hypothesis, listed_ids, with_severity,
}
use swift_proof.Conclude.Verdicts.{judge-diverged, normalize_intent_link-SameClaim}
use swift_proof.Verify.{verify_report}
use swift_proof.Divergences.{cites, is_citing, link_divergences, link_entry, live_changed_paths}
use swift_proof.Divergences.Selected.{Listed, select_divergences-Listed}
use swift_proof.Divergences.Linked.{link_entry-Listed, link_entry-evidence_id, link_entry-names}
use swift_proof.Conclude.Reproduced.{final-evidence_ids}
use swift_proof.Conclude.Clean.{both_true}
use swift_proof.Conclude.Derived.{final, finalize-hypotheses}
use swift_proof.Conclude.ExitCode.{conclude-same}

listed_ids-Member :
    (ds : List Divergence) (out : Dict Bool) (id : String)
    → flag id (listed_ids ds out) ≡ true
    → (flag id out ≡ true) ⊎ ((d : Divergence) × Member d ds × (d.evidence_id ≡ id))
unfolding listed_ids flag
listed_ids-Member [] out id h = inl h
listed_ids-Member (d ∷ ds) out id h =
    elim (listed_ids-Member ds (put d.evidence_id true out) id h) [
      | inr (o, m, same) ↦ inr (o, inr m, same)
      | inl now ↦ elim (Bool-cases (d.evidence_id == id)) [
        | inl here ↦ inr (d, inl refl, (text_eq _ _).0 here)
        | inr there ↦ inl (ground (arith, get-put d.evidence_id id true out))
      ]
    ]

cited_entry :
    (ds : List Divergence) (h : Hypothesis)
    → cites_any h (listed_ids ds []) ≡ true
    → (d : Divergence) × Member d ds × Member d.evidence_id h.evidence_ids
unfolding cites_any flag get
cited_entry ds h p =
    let (id, m, q) = any-Member (λ i. flag i (listed_ids ds [])) h.evidence_ids p in
    elim (listed_ids-Member ds [] id q) [
      | inl none_yet ↦ cc
      | inr (d, n, same) ↦ (d, n, subst (λ i. Member i h.evidence_ids) (sym same) m)
    ]

final-diverged :
    (l : Ledger) (criteria : Dict IntentCriterion) (listed : Dict Bool) (h : Hypothesis)
    → (final_hypothesis l criteria listed h).0.status ≡ Status.diverged
    → cites_any h listed ≡ true
unfolding final_hypothesis judge_hypothesis with_severity cites_any
final-diverged l criteria listed h p =
    let g = with_severity h in
    let v = judge_hypothesis l criteria listed g in
    let same = normalize_intent_link-SameClaim (record g { status = v.status }) criteria in
    judge-diverged (to_upper g.status) (is_backed l criteria g) (is_high g.severity)
      (cites_any g listed) (not (is_blank g.rationale)) (sym same.status ∙ p)

Member-has : (s : String) (xs : List String) → Member s xs → has s xs ≡ true
Member-has s [] m = absurd m
Member-has s (x ∷ xs) (inl p) = ground (arith, text_eq x s)
Member-has s (x ∷ xs) (inr m) = ground (arith, Member-has s xs m)

Member-map_intro :
    {A B : Type 0} (f : A → B) (xs : List A) (x : A) → Member x xs → Member (f x) (map f xs)
Member-map_intro f [] x m = absurd m
Member-map_intro f (y ∷ xs) x (inl p) = inl (ap f p)
Member-map_intro f (y ∷ xs) x (inr m) = inr (Member-map_intro f xs x m)

-- The entry is listed by the report, holds, and names the hypothesis.
pub record Names (l : Ledger) (f : Report) (g : Hypothesis) (d : Divergence) : Type 0 where
  pub in_report : Member d f.divergences
  pub cited : Member d.evidence_id g.evidence_ids
  pub listed : Listed l d
  pub named : g.id ≢ "" → has g.id d.hypothesis_ids ≡ true

linked_entry :
    (l : Ledger) (live : List String) (hs : List Hypothesis) (g : Hypothesis)
    (entries : List Divergence) (f : Report) (d : Divergence)
    → f.divergences ≡ map (λ entry. link_entry live entry [] hs) entries
    → Member d entries
    → Listed l d
    → Member g hs
    → g.status ≡ Status.diverged
    → Member d.evidence_id g.evidence_ids
    → Names l f g (link_entry live d [] hs)
unfolding is_citing cites
linked_entry l live hs g entries f d same m held n p cited =
    let kept = link_entry-evidence_id live d [] hs in
    record {
      in_report =
          subst (Member (link_entry live d [] hs)) (sym same)
            (Member-map_intro (λ entry. link_entry live entry [] hs) entries d m);
      cited = subst (λ i. Member i g.evidence_ids) (sym kept) cited;
      listed = link_entry-Listed l live d [] hs held;
      named = λ full.
          link_entry-names live d [] hs g n
            (both_true _ _ ((text_eq _ _).1 p) (Member-has d.evidence_id g.evidence_ids cited))
            full;
    }

entries-Listed :
    (sections : Sections) (r : Report) (l : Ledger) (d : Divergence)
    → Member d (build_divergences sections r l)
    → Listed l d
unfolding build_divergences
entries-Listed sections r l d m =
    select_divergences-Listed r l
      (sections.observation_divergences r l ++ sections.fuzz_divergences r l) d m

conclude-divergences :
    (sections : Sections) (r : Report) (l : Ledger) (ci : Bool)
    → (conclude sections r l ci).divergences
      ≡ map
          (λ entry.
            link_entry
              (live_changed_paths r.change.files)
              entry
              []
              (conclude sections r l ci).hypotheses)
          (build_divergences sections r l)
unfolding conclude_hypotheses link_divergences
conclude-divergences sections r l ci =
    let same = conclude-same sections r l ci in
    same.divergences
    ∙ ap
        (λ hs.
          map (λ entry. link_entry (live_changed_paths r.change.files) entry [] hs)
            (build_divergences sections r l))
        (sym same.hypotheses)

-- Each hypothesis that a finalized report calls DIVERGED cites the evidence of a divergence that
-- the same report lists: the entry names a verified DIVERGED record with its checks, tests and
-- diverged rows, and lists the hypothesis if its ID is not empty.
pub finalize-diverged :
    (sections : Sections) (r : Report) (ci : Bool) (g : Hypothesis)
    → Member g (finalize sections r ci).hypotheses
    → g.status ≡ Status.diverged
    → (d : Divergence) × Names
        (verify_report sections.verifiers (cleared r))
        (finalize sections r ci)
        g
        d
unfolding finalize
finalize-diverged sections r ci g m p =
    let r₀ = cleared r in
    let l = verify_report sections.verifiers r₀ in
    let criteria = criterion_index r₀.intent_criteria in
    let entries = build_divergences sections r₀ l in
    let (h, _, same) =
      Member-map (final sections r) r.hypotheses g
        (subst (Member g) (finalize-hypotheses sections r ci) m) in
    let cites = final-diverged l criteria (listed_ids entries []) h (ap (λ k. k.status) same ∙ p) in
    let (d, n, cited) = cited_entry entries h cites in
    let live = live_changed_paths r₀.change.files in
    let hs = (finalize sections r ci).hypotheses in
    (
      link_entry live d [] hs,
      linked_entry l live hs g entries (finalize sections r ci) d
          (conclude-divergences sections r₀ l ci) n (entries-Listed sections r₀ l d n) m p
          (subst (Member d.evidence_id)
            (sym (final-evidence_ids l criteria (listed_ids entries []) h)
              ∙ ap (λ k. k.evidence_ids) same)
            cited),
    )
