-- ===== src/Divergences/Selected.antt =====
-- What every listed divergence rests on.
use swift_proof.Prelude.{
  Bool, Bool-cases, List, Member, Option, String, [], all, and_split, ap, arith, eqb, false, filter,
  if◌then◌else◌, inl, inr, leb, length, length-take-le, ltb, negated_true, none, refl, some,
  some-injective, subst, suc, take, text_eq, true, zero, ℕ, ◌&&◌, ◌∷◌, ◌≡◌, ◌≤◌, ◌⊎◌,
}
use swift_proof.Prelude.Int.{ℤ}
use swift_proof.Prelude.Dict.{Dict, get, is_some}
use swift_proof.Model.Status
use swift_proof.Model.{Evidence}
use swift_proof.Model.Report.{Divergence, Observation, Report}
use swift_proof.Ledger.{Ledger, check, flag, item}
use swift_proof.Divergences.{
  add_entry, anchor, anchor_changed_function, bare_entry, evidence_position, insert_divergence,
  is_complete, is_diverged, is_divergent_row, is_resolved, kept_rows, live_changed_paths, mark_kept,
  max_divergence_rows, min_divergence_checks, select_divergences, select_entry, select_loop,
  select_one, sort_divergences,
}

-- An entry that names a verified DIVERGED record of its kind, with enough recorded checks, with
-- tests, and with one to 32 rows that all diverged.
pub record Listed (l : Ledger) (d : Divergence) : Type 0 where
  pub evidence : Evidence
  pub recorded : item l d.evidence_id ≡ some evidence
  pub same_kind : evidence.kind ≡ d.kind
  pub verified : get d.evidence_id l.verified ≡ some Status.diverged
  pub enough : ltb (length d.check_ids) (min_divergence_checks d.kind) ≡ false
  pub known_kind : eqb (min_divergence_checks d.kind) 0 ≡ false
  pub checks_recorded : all (λ id. is_some (check l id)) d.check_ids ≡ true
  pub tested : is_complete d ≡ true
  pub rows : all is_divergent_row d.observations ≡ true
  pub few_rows : length d.observations ≤ max_divergence_rows

all-filter : (p : Observation → Bool) (xs : List Observation) → all p (filter p xs) ≡ true
all-filter p [] = refl
all-filter p (x ∷ xs) = ground (arith, all-filter p xs)

all-take :
    (p : Observation → Bool) (n : ℕ) (xs : List Observation)
    → all p xs ≡ true
    → all p (take n xs) ≡ true
all-take p zero xs h = refl
all-take p (suc n) [] h = refl
all-take p (suc n) (x ∷ xs) h =
    let (now, rest) = and_split (p x) (all p xs) h in rw (now, all-take p n xs rest)

is_diverged-eq : (o : Option String) → is_diverged o ≡ true → o ≡ some Status.diverged
is_diverged-eq none h = cc
is_diverged-eq (some s) h = ap some ((text_eq s Status.diverged).0 h)

-- The anchor changes none of the fields that the tests read.
bare-Listed :
    (l : Ledger) (d : Divergence) (e : Evidence)
    → item l d.evidence_id ≡ some e
    → (is_resolved l d e && is_complete (bare_entry d e)) ≡ true
    → Listed l (bare_entry d e)
unfolding is_resolved bare_entry kept_rows
bare-Listed l d e p h =
    let (resolved, complete) = and_split _ _ h in
    let (known, h₁) = and_split _ _ resolved in
    let (kind, h₂) = and_split _ _ h₁ in
    let (diverged, h₃) = and_split _ _ h₂ in
    let (enough, recorded) = and_split _ _ h₃ in
    record {
      evidence = e;
      recorded = p;
      same_kind = (text_eq e.kind d.kind).0 kind;
      verified = is_diverged-eq _ diverged;
      enough = negated_true _ enough;
      known_kind = negated_true _ known;
      checks_recorded = recorded;
      tested = complete;
      rows =
          all-take is_divergent_row max_divergence_rows (filter is_divergent_row d.observations)
            (all-filter is_divergent_row d.observations);
      few_rows = length-take-le max_divergence_rows (filter is_divergent_row d.observations);
    }

pub moved-Listed :
    (l : Ledger) (entry : Divergence) (path symbol source : String) (line : ℤ) (ids : List String)
    → Listed l entry
    → Listed l (record entry {
      path = path;
      line = line;
      symbol = symbol;
      anchor_source = source;
      hypothesis_ids = ids;
    })
unfolding is_complete
moved-Listed l entry path symbol source line ids h = record {
  evidence = h.evidence;
  recorded = h.recorded;
  same_kind = h.same_kind;
  verified = h.verified;
  enough = h.enough;
  known_kind = h.known_kind;
  checks_recorded = h.checks_recorded;
  tested = h.tested;
  rows = h.rows;
  few_rows = h.few_rows;
}

if-Listed :
    (l : Ledger) (b : Bool) (x y : Divergence)
    → Listed l x
    → Listed l y
    → Listed l (if b then x else y)
if-Listed l true x y h k = h
if-Listed l false x y h k = k

anchor-Listed :
    (l : Ledger) (live : List String) (d entry : Divergence)
    → Listed l entry
    → Listed l (anchor live d entry)
unfolding anchor
anchor-Listed l live d entry h =
    if-Listed l _ _ _
      (moved-Listed l entry d.path d.symbol anchor_changed_function d.line entry.hypothesis_ids h) h

select_entry-Listed :
    (l : Ledger) (live : List String) (d : Divergence) (o : Option Evidence) (g : Divergence)
    → item l d.evidence_id ≡ o
    → select_entry l live d o ≡ some g
    → Listed l g
unfolding select_entry
select_entry-Listed l live d none g p q = cc
select_entry-Listed l live d (some e) g p q =
    elim (Bool-cases (is_resolved l d e && is_complete (bare_entry d e))) [
      | inl good ↦
          subst (Listed l) (some-injective _ _ (rw good at q))
            (anchor-Listed l live d (bare_entry d e) (bare-Listed l d e p good))
      | inr bad ↦ cc (rw bad at q)
    ]

select_one-Listed :
    (l : Ledger) (live : List String) (kept : Dict Bool) (d g : Divergence)
    → select_one l live kept d ≡ some g
    → Listed l g
unfolding select_one
select_one-Listed l live kept d g q = elim (Bool-cases (flag d.evidence_id kept)) [
  | inl old ↦ cc (rw old at q)
  | inr new ↦ select_entry-Listed l live d (item l d.evidence_id) g refl (rw new at q)
]

add_entry-Member :
    (o : Option Divergence) (ds : List Divergence) (d : Divergence)
    → Member d (add_entry o ds)
    → (o ≡ some d) ⊎ Member d ds
unfolding add_entry
add_entry-Member none ds d m = inr m
add_entry-Member (some e) ds d (inl p) = inl (ap some p)
add_entry-Member (some e) ds d (inr m) = inr m

select_loop-Listed :
    (l : Ledger) (live : List String) (kept : Dict Bool) (ds : List Divergence) (g : Divergence)
    → Member g (select_loop l live kept ds)
    → Listed l g
unfolding select_loop
select_loop-Listed l live kept [] g m = absurd m
select_loop-Listed l live kept (d ∷ ds) g m =
    let chosen = select_one l live kept d in
    elim (add_entry-Member chosen (select_loop l live (mark_kept chosen kept) ds) g m) [
      | inl now ↦ select_one-Listed l live kept d g now
      | inr later ↦ select_loop-Listed l live (mark_kept chosen kept) ds g later
    ]

behind :
    (g d o : Divergence) (os new : List Divergence)
    → (Member g new → Member g (d ∷ os))
    → Member g (o ∷ new)
    → Member g (d ∷ o ∷ os)
behind g d o os new f (inl p) = inr (inl p)
behind g d o os new f (inr n) = elim (f n) [ inl p ↦ inl p | inr rest ↦ inr (inr rest) ]

insert_divergence-Member :
    (es : List Evidence) (d : Divergence) (ds : List Divergence) (g : Divergence)
    → Member g (insert_divergence es d ds)
    → Member g (d ∷ ds)
unfolding insert_divergence
insert_divergence-Member es d [] g m = m
insert_divergence-Member es d (o ∷ os) g m =
    elim (Bool-cases
      (leb (evidence_position d.evidence_id es) (evidence_position o.evidence_id es))) [
        | inl before ↦ rw before at m
        | inr after ↦
            behind g d o os (insert_divergence es d os) (insert_divergence-Member es d os g)
              (rw after at m)
      ]

sort_divergences-Member :
    (es : List Evidence) (ds : List Divergence) (g : Divergence)
    → Member g (sort_divergences es ds)
    → Member g ds
unfolding sort_divergences
sort_divergences-Member es [] g m = m
sort_divergences-Member es (d ∷ ds) g m =
    elim (insert_divergence-Member es d (sort_divergences es ds) g m) [
      | inl p ↦ inl p
      | inr n ↦ inr (sort_divergences-Member es ds g n)
    ]

-- Whatever the two feeds offer, every entry that `selectDivergences` keeps names a verified
-- DIVERGED record of its kind, cites enough checks that the ledger resolves, names its tests,
-- and has one to 32 rows that all diverged.
pub select_divergences-Listed :
    (r : Report) (l : Ledger) (feed : List Divergence) (d : Divergence)
    → Member d (select_divergences r l feed)
    → Listed l d
unfolding select_divergences
select_divergences-Listed r l feed d m =
    select_loop-Listed l (live_changed_paths r.change.files) [] feed d
      (sort_divergences-Member r.evidence _ d m)
