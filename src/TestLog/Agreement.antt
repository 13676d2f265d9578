-- ===== src/TestLog/Agreement.antt =====
-- The one-pass reader and `GoTestOutcome` report the same outcome.
use swift_proof.Prelude.{
  Bool, Bool-cases, List, Option, String, [], ap, arith, false, if◌then◌else◌, inl, inr, none, not,
  not_both, refl, some, sym, text_eq, true, ◌&&◌, ◌==◌, ◌||◌, ◌∙◌, ◌∷◌, ◌≡◌, ◌≢◌,
}
use swift_proof.TestLog.{
  GoTestLog, LogEvent, LogReader, OutcomeEvent, Scan, TestEvents, count, count_event, count_some,
  empty_log, events_or_new, final_outcome, go_test_outcome, outcome, outcome_events, outcome_of,
  outcome_or_none, read_event, read_line, read_lines, read_log, read_object, read_text,
  scan_decoded, scan_event, scan_line, scan_lines,
}
use swift_proof.Prelude.Dict.{Dict, get, get-put, put}

-- The variables that `GoTestOutcome` has where the one-pass reader has this tally.
abbrev to_scan : TestEvents → Option Scan
to_scan t =
    if t.conflict
    then none
    else some (record {
      runs = t.runs;
      terminals = t.terminals;
      run_seen = t.run_seen;
      terminal = t.terminal;
      pkg = t.pkg;
      order_ok = t.order_ok;
    })

then_scan : OutcomeEvent → Option Scan → Option Scan
then_scan e none = none
then_scan e (some s) = scan_event e s

order_same : (seen ok : Bool) → (ok && seen) ≡ (if not seen then false else ok)
order_same true true = refl
order_same true false = refl
order_same false true = refl
order_same false false = refl

-- One event keeps the two in step.
count_event-scan :
    (e : OutcomeEvent) (t : TestEvents) → to_scan (count_event e t) ≡ then_scan e (to_scan t)
unfolding count_event scan_event then_scan
count_event-scan e t = ground (arith, order_same t.run_seen t.order_ok)

abbrev events_of : GoTestLog → String → TestEvents
events_of l name = events_or_new (get name l.tests)

abbrev then_decoded : String → Option OutcomeEvent → Option Scan → Option Scan
then_decoded name o none = none
then_decoded name o (some s) = scan_decoded name s o

events-put :
    (name test : String) (t : TestEvents) (tests : Dict TestEvents)
    → events_or_new (get name (put test t tests))
      ≡ (if test == name then t else events_or_new (get name tests))
events-put name test t tests = ground (arith, get-put test name t tests)

same_test :
    (b : Bool) (name : String) (e : OutcomeEvent) (t : TestEvents)
    → (e.test == name) ≡ b
    → to_scan (if b then count_event e t else t) ≡ then_decoded name (some e) (to_scan t)
unfolding scan_decoded then_scan
same_test true name e t p = count_event-scan e t ∙ decoded (to_scan t)
  where
    decoded : (o : Option Scan) → then_scan e o ≡ then_decoded name (some e) o
    decoded none = refl
    decoded (some s) = rw p refl
same_test false name e t p = decoded (to_scan t)
  where
    decoded : (o : Option Scan) → o ≡ then_decoded name (some e) o
    decoded none = refl
    decoded (some s) = rw p refl

-- The tally of the test of an event is the one that `count` reads.
counted :
    (name : String) (e : OutcomeEvent) (l : GoTestLog) (b : Bool)
    → (e.test == name) ≡ b
    → to_scan (if b then count_event e (events_of l e.test) else events_of l name)
      ≡ then_decoded name (some e) (to_scan (events_of l name))
counted name e l true p =
    ap (λ n. to_scan (count_event e (events_of l n))) ((text_eq e.test name).0 p)
    ∙ same_test true name e (events_of l name) p
counted name e l false p = same_test false name e (events_of l name) p

count-scan :
    (l : GoTestLog) (e : OutcomeEvent) (name : String)
    → name ≢ ""
    → to_scan (events_of (count l e) name) ≡ then_decoded name (some e) (to_scan (events_of l name))
unfolding count
count-scan l e name full = elim (Bool-cases (e.test == "")) [
  | inl blank ↦ rw blank (
      same_test false name e (events_of l name)
        (ground (arith, text_eq e.test name, text_eq e.test "")))
  | inr other ↦ rw other (
      ap to_scan (events-put name e.test (count_event e (events_of l e.test)) l.tests)
      ∙ counted name e l (e.test == name) refl)
]

module _ (reader : LogReader) (name : String) (full : name ≢ "") where
  then_line : String → Option Scan → Option Scan
  then_line line none = none
  then_line line (some s) = scan_line reader name s line

  then_line-skipped :
      (line : String) (o : Option Scan)
      → (line == "" || not (reader.is_object line)) ≡ true
      → o ≡ then_line line o
  unfolding then_line scan_line
  then_line-skipped line none p = refl
  then_line-skipped line (some s) p = rw p refl

  then_line-decoded :
      (line : String) (o : Option Scan)
      → (line == "" || not (reader.is_object line)) ≡ false
      → then_decoded name (reader.decode_outcome line) o ≡ then_line line o
  unfolding then_line scan_line
  then_line-decoded line none p = refl
  then_line-decoded line (some s) p = rw p refl

  then_decoded-none : (o : Option Scan) → o ≡ then_decoded name none o
  unfolding scan_decoded
  then_decoded-none none = refl
  then_decoded-none (some s) = refl

  count_some-scan :
      (l : GoTestLog) (o : Option OutcomeEvent)
      → to_scan (events_of (count_some reader l o) name)
        ≡ then_decoded name o (to_scan (events_of l name))
  unfolding count_some
  count_some-scan l none = then_decoded-none (to_scan (events_of l name))
  count_some-scan l (some e) = count-scan l e name full

  read_object-scan :
      (l : GoTestLog) (line : String) (o : Option LogEvent)
      → reader.decode_event line ≡ o
      → to_scan (events_of (read_object reader l line o) name)
        ≡ then_decoded name (reader.decode_outcome line) (to_scan (events_of l name))
  unfolding read_object read_text read_event
  read_object-scan l line none p = count_some-scan (read_text l line) (reader.decode_outcome line)
  read_object-scan l line (some e) p =
      count-scan (read_event l e) (outcome_of e) name full
      ∙ ap (λ o. then_decoded name o (to_scan (events_of l name)))
          (sym (reader.decode_less line e p))

  read_line-scan :
      (l : GoTestLog) (line : String)
      → to_scan (events_of (read_line reader l line) name)
        ≡ then_line line (to_scan (events_of l name))
  unfolding read_line read_text
  read_line-scan l line = elim (Bool-cases (line == "")) [
    | inl blank ↦ rw blank (then_line-skipped line _ (rw blank refl))
    | inr full_line ↦ elim (Bool-cases (reader.is_object line)) [
      | inl object ↦
          rw (full_line, object)
            (read_object-scan l line (reader.decode_event line) refl
              ∙ then_line-decoded line _ (rw (full_line, object) refl))
      | inr text ↦ rw (full_line, text) (then_line-skipped line _ (rw (full_line, text) refl))
    ]
  ]

  scan_lines-none : (lines : List String) → scan_lines reader name none lines ≡ none
  unfolding scan_lines
  scan_lines-none [] = refl
  scan_lines-none (line ∷ lines) = refl

  scan_lines-step :
      (o : Option Scan) (line : String) (lines : List String)
      → scan_lines reader name o (line ∷ lines) ≡ scan_lines reader name (then_line line o) lines
  unfolding scan_lines then_line
  scan_lines-step none line lines = sym (scan_lines-none lines)
  scan_lines-step (some s) line lines = refl

  -- Both readers are in step after any lines.
  read_lines-scan :
      (l : GoTestLog) (lines : List String)
      → to_scan (events_of (read_lines reader l lines) name)
        ≡ scan_lines reader name (to_scan (events_of l name)) lines
  unfolding read_lines scan_lines
  read_lines-scan l [] = refl
  read_lines-scan l (line ∷ lines) =
      read_lines-scan (read_line reader l line) lines
      ∙ ap (λ o. scan_lines reader name o lines) (read_line-scan l line)
      ∙ sym (scan_lines-step (to_scan (events_of l name)) line lines)

outcome_events-scan :
    (error : Bool) (o : Option TestEvents)
    → (if error then ("", "") else outcome_events o)
      ≡ outcome_or_none error (to_scan (events_or_new o))
unfolding outcome_events outcome_or_none final_outcome
outcome_events-scan true none = refl
outcome_events-scan false none = refl
outcome_events-scan error (some t) = ground arith

-- For every log and test name, the outcome that the one-pass reader of the mutation package
-- reports is the one that `GoTestOutcome` of the harness finds, whatever the scanner and the
-- decoder read.
pub read_log-outcome :
    (reader : LogReader) (output name : String)
    → outcome (read_log reader output) name ≡ go_test_outcome reader output name
unfolding outcome read_log go_test_outcome get
read_log-outcome reader output name = elim (Bool-cases (name == "")) [
  | inl blank ↦ rw blank refl
  | inr there ↦
      let (lines, error) = reader.lines output in
      let full : name ≢ "" = λ p. not_both (name == "") there ((text_eq name "").1 p) in
      rw there (
        outcome_events-scan error (get name (read_lines reader (empty_log reader) lines).tests)
        ∙ ap (outcome_or_none error) (read_lines-scan reader name full (empty_log reader) lines))
]
