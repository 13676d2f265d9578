-- ===== src/Divergences.antt =====
-- app/internal/report/verify.go: the divergence entries that a report lists, and their link to
-- the hypotheses. The fixed note of an entry is not recorded.
pub mod Selected
pub mod Linked
use swift_proof.Prelude.{
  Bool, List, Option, String, [], all, eqb, false, filter, if◌then◌else◌, leb, length, ltb, map,
  none, not, some, suc, take, true, ℕ, ◌&&◌, ◌++◌, ◌==◌, ◌∷◌,
}
use swift_proof.Prelude.Dict.{Dict, get, is_some, put}
use swift_proof.Prelude.Int.{pos}
use swift_proof.Texts.{has, unique}
use swift_proof.Model.Status
use swift_proof.Model.Kind
use swift_proof.Model.{Evidence, Hypothesis}
use swift_proof.Model.Change.{ChangedFile}
use swift_proof.Model.Report.{Divergence, Observation, Report}
use swift_proof.Ledger.{Ledger, check, flag, item}

-- `maxDivergenceRows`
abbrev pub max_divergence_rows : ℕ
max_divergence_rows = 32

abbrev pub anchor_changed_function : String
anchor_changed_function = "changed_function"

abbrev pub anchor_hypothesis : String
anchor_hypothesis = "hypothesis"

-- `minDivergenceChecks`
unfoldable pub min_divergence_checks : String → ℕ
min_divergence_checks kind =
    if kind == Kind.differential_observation
    then 3
    else if kind == Kind.differential_fuzz
    then 4
    else 0

-- `liveChangedPaths`, as the list of the paths.
unfoldable pub live_changed_paths : List ChangedFile → List String
live_changed_paths [] = []
live_changed_paths (f ∷ fs) =
    let rest = live_changed_paths fs in
    if not (f.path == "") && not (f.status == "D") then f.path ∷ rest else rest

-- A row that an entry keeps.
unfoldable pub is_divergent_row : Observation → Bool
is_divergent_row o = o.status == Status.diverged && (not (o.test == "") && not (o.key == ""))

unfoldable pub kept_rows : List Observation → List Observation
unfolding is_divergent_row
kept_rows rows = take max_divergence_rows (filter is_divergent_row rows)

abbrev pub is_diverged : Option String → Bool
is_diverged none = false
is_diverged (some s) = s == Status.diverged

-- The tests on the evidence and the checks of a candidate entry.
unfoldable pub is_resolved : Ledger → Divergence → Evidence → Bool
unfolding min_divergence_checks
is_resolved l d e =
    not (eqb (min_divergence_checks d.kind) 0)
    && (e.kind == d.kind
        && (is_diverged (get d.evidence_id l.verified)
            && (not (ltb (length d.check_ids) (min_divergence_checks d.kind))
                && all (λ id. is_some (check l id)) d.check_ids)))

-- The entry with the fallbacks of the evidence record, and no anchor.
unfoldable pub bare_entry : Divergence → Evidence → Divergence
unfolding kept_rows
bare_entry d e = record {
  evidence_id = d.evidence_id;
  kind = d.kind;
  path = "";
  line = pos 0;
  symbol = "";
  anchor_source = "";
  test_path = if d.test_path == "" then e.path else d.test_path;
  test_names = elim d.test_names [ [] ↦ e.test_names | n ∷ names ↦ d.test_names ];
  check_ids = d.check_ids;
  hypothesis_ids = [];
  observations = kept_rows d.observations;
}

-- The tests on what the entry would hold.
unfoldable pub is_complete : Divergence → Bool
is_complete entry =
    ltb 0 (length entry.observations)
    && (not (entry.test_path == "")
        && (ltb 0 (length entry.test_names) && not (has "" entry.test_names)))

unfoldable pub anchor : List String → Divergence → Divergence → Divergence
anchor live d entry =
    if d.kind == Kind.differential_fuzz && (not (d.path == "") && has d.path live)
    then record entry {
      path = d.path;
      line = d.line;
      symbol = d.symbol;
      anchor_source = anchor_changed_function;
    }
    else entry

-- One round of the loop of `selectDivergences` for evidence that resolves.
unfoldable pub select_entry :
    Ledger → List String → Divergence → Option Evidence → Option Divergence
unfolding is_resolved bare_entry is_complete anchor
select_entry l live d none = none
select_entry l live d (some e) =
    if is_resolved l d e && is_complete (bare_entry d e)
    then some (anchor live d (bare_entry d e))
    else none

unfoldable pub select_one : Ledger → List String → Dict Bool → Divergence → Option Divergence
unfolding select_entry flag
select_one l live kept d =
    if flag d.evidence_id kept then none else select_entry l live d (item l d.evidence_id)

unfoldable pub mark_kept : Option Divergence → Dict Bool → Dict Bool
mark_kept none kept = kept
mark_kept (some entry) kept = put entry.evidence_id true kept

unfoldable pub add_entry : Option Divergence → List Divergence → List Divergence
add_entry none out = out
add_entry (some entry) out = entry ∷ out

unfoldable pub select_loop : Ledger → List String → Dict Bool → List Divergence → List Divergence
unfolding select_one mark_kept add_entry
select_loop l live kept [] = []
select_loop l live kept (d ∷ ds) =
    let chosen = select_one l live kept d in
    add_entry chosen (select_loop l live (mark_kept chosen kept) ds)

-- The index of the first record with an ID, and 0 without one, as the map reads.
unfoldable pub evidence_position : String → List Evidence → ℕ
evidence_position id [] = 0
evidence_position id (e ∷ es) =
    let rest = evidence_position id es in
    if e.id == id then 0 else if has id (map (λ o. o.id) es) then suc rest else 0

unfoldable pub insert_divergence : List Evidence → Divergence → List Divergence → List Divergence
unfolding evidence_position
insert_divergence es d [] = d ∷ []
insert_divergence es d (o ∷ os) =
    let rest = insert_divergence es d os in
    if leb (evidence_position d.evidence_id es) (evidence_position o.evidence_id es)
    then d ∷ o ∷ os
    else o ∷ rest

-- sort.SliceStable by the position of the evidence.
unfoldable pub sort_divergences : List Evidence → List Divergence → List Divergence
unfolding insert_divergence
sort_divergences es [] = []
sort_divergences es (d ∷ ds) = insert_divergence es d (sort_divergences es ds)

unfoldable pub select_divergences : Report → Ledger → List Divergence → List Divergence
unfolding select_loop sort_divergences live_changed_paths
select_divergences r l feed =
    sort_divergences r.evidence (select_loop l (live_changed_paths r.change.files) [] feed)

-- `cites`
unfoldable pub cites : Hypothesis → String → Bool
cites h id = has id h.evidence_ids

unfoldable pub is_citing : Divergence → Hypothesis → Bool
unfolding cites
is_citing entry h = h.status == Status.diverged && cites h entry.evidence_id

-- An unanchored observation entry takes the path of a citing hypothesis.
unfoldable pub anchor_at : List String → Divergence → Hypothesis → Divergence
anchor_at live entry h =
    if entry.kind == Kind.differential_observation
      && (entry.path == "" && (not (h.path == "") && has h.path live))
    then record entry { path = h.path; line = h.line; anchor_source = anchor_hypothesis }
    else entry

-- The entry and the citing IDs after a hypothesis.
abbrev pub next_entry : List String → Divergence → Hypothesis → Divergence
next_entry live entry h = if is_citing entry h then anchor_at live entry h else entry

abbrev pub next_citing : Divergence → List String → Hypothesis → List String
next_citing entry citing h = if is_citing entry h then citing ++ h.id ∷ [] else citing

unfoldable pub link_entry : List String → Divergence → List String → List Hypothesis → Divergence
unfolding is_citing anchor_at unique
link_entry live entry citing [] = record entry { hypothesis_ids = unique citing }
link_entry live entry citing (h ∷ hs) =
    link_entry live (next_entry live entry h) (next_citing entry citing h) hs

unfoldable pub link_divergences : Report → List Divergence → List Divergence
unfolding link_entry live_changed_paths
link_divergences r entries =
    map (λ entry. link_entry (live_changed_paths r.change.files) entry [] r.hypotheses) entries
