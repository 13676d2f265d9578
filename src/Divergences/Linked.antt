-- ===== src/Divergences/Linked.antt =====
-- The hypotheses that a listed divergence names.
use swift_proof.Model.Kind
use swift_proof.Prelude.{
  Bool, List, Member, String, [], ap, arith, false, if◌then◌else◌, inl, inr, not, refl, subst, sym,
  text_eq, text_refl, true, ◌&&◌, ◌++◌, ◌==◌, ◌||◌, ◌∙◌, ◌∷◌, ◌≡◌, ◌≢◌,
}
use swift_proof.Texts.{has, insert_text, unique}
use swift_proof.Model.{Hypothesis}
use swift_proof.Model.Report.{Divergence}
use swift_proof.Divergences.{
  anchor_at, anchor_hypothesis, is_citing, link_entry, next_citing, next_entry,
}
use swift_proof.Ledger.{Ledger}
use swift_proof.Divergences.Selected.{Listed, moved-Listed}

insert_text-has :
    (s k : String) (xs : List String)
    → (k == s || has s xs) ≡ true
    → has s (insert_text k xs) ≡ true
unfolding insert_text
insert_text-has s k [] h = h
insert_text-has s k (x ∷ xs) h =
    ground (arith, insert_text-has s k xs, text_eq k x, text_eq k s, text_eq x s)

-- `unique` keeps every text that is not empty.
unique-has : (s : String) (xs : List String) → has s xs ≡ true → s ≢ "" → has s (unique xs) ≡ true
unfolding unique
unique-has s [] h full = h
unique-has s (x ∷ xs) h full = ground (
  arith,
  unique-has s xs,
  insert_text-has s x (unique xs),
  text_eq x "",
  text_eq x s,
  text_eq s "",
)

-- A field that no anchor changes.
is_citing-anchor_at :
    (live : List String) (entry : Divergence) (h g : Hypothesis)
    → is_citing (anchor_at live entry h) g ≡ is_citing entry g
unfolding is_citing anchor_at
is_citing-anchor_at live entry h g = same_if _ _ _ _ refl refl
  where
    same_if :
        (b : Bool) (x y : Divergence) (c : Bool)
        → is_citing x g ≡ c
        → is_citing y g ≡ c
        → is_citing (if b then x else y) g ≡ c
    same_if true x y c p q = p
    same_if false x y c p q = q

has-append_left : (s : String) (xs ys : List String) → has s xs ≡ true → has s (xs ++ ys) ≡ true
has-append_left s [] ys h = cc
has-append_left s (x ∷ xs) ys h = ground (arith, has-append_left s xs ys)

has-append_last : (s : String) (xs : List String) → has s (xs ++ s ∷ []) ≡ true
has-append_last s [] = ground (arith, text_refl s)
has-append_last s (x ∷ xs) = ground (arith, has-append_last s xs)

-- What the loop over the hypotheses has collected stays.
link_entry-keeps :
    (live : List String) (entry : Divergence) (citing : List String) (hs : List Hypothesis)
    (s : String)
    → has s citing ≡ true
    → s ≢ ""
    → has s (link_entry live entry citing hs).hypothesis_ids ≡ true
unfolding link_entry
link_entry-keeps live entry citing [] s h full = unique-has s citing h full
link_entry-keeps live entry citing (g ∷ hs) s h full =
    link_entry-keeps live (next_entry live entry g) (next_citing entry citing g) hs s
      (kept (is_citing entry g)) full
  where
    kept : (b : Bool) → has s (if b then citing ++ g.id ∷ [] else citing) ≡ true
    kept true = has-append_left s citing (g.id ∷ []) h
    kept false = h

used_citing :
    (live : List String) (entry : Divergence) (h g : Hypothesis) (b : Bool)
    → is_citing entry g ≡ true
    → is_citing (if b then anchor_at live entry h else entry) g ≡ true
used_citing live entry h g true p = is_citing-anchor_at live entry h g ∙ p
used_citing live entry h g false p = p

-- Every DIVERGED hypothesis that cites the entry is named by it.
pub link_entry-names :
    (live : List String) (entry : Divergence) (citing : List String) (hs : List Hypothesis)
    (g : Hypothesis)
    → Member g hs
    → is_citing entry g ≡ true
    → g.id ≢ ""
    → has g.id (link_entry live entry citing hs).hypothesis_ids ≡ true
unfolding link_entry
link_entry-names live entry citing [] g m p full = absurd m
link_entry-names live entry citing (h ∷ hs) g (inl same) p full =
    link_entry-keeps live (next_entry live entry h) (next_citing entry citing h) hs g.id
      (here (is_citing entry h) (ap (is_citing entry) same ∙ p)) full
  where
    here : (b : Bool) → b ≡ true → has g.id (if b then citing ++ h.id ∷ [] else citing) ≡ true
    here true q =
        subst (λ i. has g.id (citing ++ i ∷ []) ≡ true) (ap (λ k. k.id) (sym same))
          (has-append_last g.id citing)
    here false q = cc
link_entry-names live entry citing (h ∷ hs) g (inr later) p full =
    link_entry-names live (next_entry live entry h) (next_citing entry citing h) hs g later
      (used_citing live entry h g (is_citing entry h) p) full

anchor_at-Listed :
    (l : Ledger) (live : List String) (entry : Divergence) (h : Hypothesis) (b : Bool)
    → Listed l entry
    → Listed l (if b then anchor_at live entry h else entry)
unfolding anchor_at
anchor_at-Listed l live entry h false p = p
anchor_at-Listed l live entry h true p = anchored _
  where
    anchored :
        (c : Bool)
        → Listed l (
            if c
            then record entry { path = h.path; line = h.line; anchor_source = anchor_hypothesis }
            else entry)
    anchored true =
        moved-Listed l entry h.path entry.symbol anchor_hypothesis h.line entry.hypothesis_ids p
    anchored false = p

pub link_entry-Listed :
    (l : Ledger) (live : List String) (entry : Divergence) (citing : List String)
    (hs : List Hypothesis)
    → Listed l entry
    → Listed l (link_entry live entry citing hs)
unfolding link_entry
link_entry-Listed l live entry citing [] p =
    moved-Listed l entry entry.path entry.symbol entry.anchor_source entry.line (unique citing) p
link_entry-Listed l live entry citing (h ∷ hs) p =
    link_entry-Listed l live (next_entry live entry h) (next_citing entry citing h) hs
      (anchor_at-Listed l live entry h (is_citing entry h) p)

pub link_entry-evidence_id :
    (live : List String) (entry : Divergence) (citing : List String) (hs : List Hypothesis)
    → (link_entry live entry citing hs).evidence_id ≡ entry.evidence_id
unfolding link_entry anchor_at
link_entry-evidence_id live entry citing [] = refl
link_entry-evidence_id live entry citing (h ∷ hs) =
    link_entry-evidence_id live (next_entry live entry h) (next_citing entry citing h) hs
    ∙ either (is_citing entry h) (
        entry.kind == Kind.differential_observation
        && (entry.path == "" && (not (h.path == "") && has h.path live)))
  where
    either :
        (b c : Bool)
        → (if b
            then if c
              then record entry { path = h.path; line = h.line; anchor_source = anchor_hypothesis }
              else entry
            else entry).evidence_id
          ≡ entry.evidence_id
    either true true = refl
    either true false = refl
    either false c = refl
