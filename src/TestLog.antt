-- ===== src/TestLog.antt =====
-- The two readers of recorded go test -json logs: app/internal/mutation/events.go, which reads a
-- log once for every test, and `GoTestOutcome` of app/internal/harness/existingtests.go, which
-- reads it for one test. The scanner and the JSON decoder of Go are the interface `LogReader`.
pub mod Agreement
use swift_proof.Prelude.{
  Bool, List, Option, String, [], any, eqb, false, if◌then◌else◌, none, not, some, suc, true, ℕ,
  ◌&&◌, ◌++◌, ◌==◌, ◌||◌, ◌∷◌, ◌≡◌,
}
use swift_proof.Prelude.Dict.{Dict, get, put}
use swift_proof.Texts.{contains}

-- `outcomeEvent`, the fields that `GoTestOutcome` decodes.
pub record OutcomeEvent : Type 0 where
  pub action : String
  pub test : String
  pub pkg : String

-- The event that `readLog` decodes.
pub record LogEvent : Type 0 where
  pub action : String
  pub pkg : String
  pub test : String
  pub output : String
  pub failed_build : String

abbrev pub outcome_of : LogEvent → OutcomeEvent
outcome_of e = record { action = e.action; test = e.test; pkg = e.pkg }

pub record LogReader : Type 0 where
  -- bufio.Scanner with the line limit, which both readers share: the lines without the white
  -- space around them, and whether reading ended in an error
  pub lines : String → List String × Bool
  -- strings.HasPrefix with "{"
  pub is_object : String → Bool
  -- json.Unmarshal into the two structures
  pub decode_event : String → Option LogEvent
  pub decode_outcome : String → Option OutcomeEvent
  -- a line that decodes into the larger structure decodes into the smaller one, field by field
  pub decode_less :
      (line : String) (e : LogEvent)
      → decode_event line ≡ some e
      → decode_outcome line ≡ some (outcome_of e)

-- `testEvents`
pub record TestEvents : Type 0 where
  pub runs : ℕ
  pub terminals : ℕ
  pub run_seen : Bool
  pub order_ok : Bool
  pub terminal : String
  pub pkg : String
  pub conflict : Bool

-- `goTestLog`
pub record GoTestLog : Type 0 where
  pub names : List String
  pub tests : Dict TestEvents
  pub build_failed : Bool
  pub timed_out : Bool
  pub unreadable : Bool

abbrev pub new_events : TestEvents
new_events = record {
  runs = 0;
  terminals = 0;
  run_seen = false;
  order_ok = true;
  terminal = "";
  pkg = "";
  conflict = false;
}

abbrev pub is_terminal : String → Bool
is_terminal action = action == "pass" || (action == "fail" || action == "skip")

abbrev pub other_package : OutcomeEvent → String → Bool
other_package e pkg = e.pkg == "" || (not (pkg == "") && not (e.pkg == pkg))

-- The rest of `count`, after the entry of the test was found.
unfoldable pub count_event : OutcomeEvent → TestEvents → TestEvents
count_event e t =
    if t.conflict
    then t
    else if other_package e t.pkg
    then record t { conflict = true }
    else if e.action == "run"
    then record t { pkg = e.pkg; runs = suc t.runs; run_seen = true }
    else if is_terminal e.action
    then record t {
      pkg = e.pkg;
      terminals = suc t.terminals;
      terminal = e.action;
      order_ok = t.order_ok && t.run_seen;
    }
    else record t { pkg = e.pkg }

abbrev pub events_or_new : Option TestEvents → TestEvents
events_or_new none = new_events
events_or_new (some t) = t

unfoldable pub names_after : OutcomeEvent → Option TestEvents → List String → List String
names_after e none names = if contains e.test "/" then names else names ++ e.test ∷ []
names_after e (some t) names = names

unfoldable pub count : GoTestLog → OutcomeEvent → GoTestLog
unfolding count_event names_after
count l e = if e.test == "" then l else record l {
  names = names_after e (get e.test l.tests) l.names;
  tests = put e.test (count_event e (events_or_new (get e.test l.tests))) l.tests;
}

abbrev pub timed_out_marker : String
timed_out_marker = "panic: test timed out after"

unfoldable pub contains_any : String → List String → Bool
contains_any s markers = any (λ m. contains s m) markers

abbrev pub build_failed_markers : List String
build_failed_markers = "[build failed]" ∷ "[setup failed]" ∷ []

-- A line that is no JSON object of the larger structure.
unfoldable pub read_text : GoTestLog → String → GoTestLog
unfolding contains_any
read_text l line = record l {
  build_failed = l.build_failed || contains_any line build_failed_markers;
  timed_out = l.timed_out || contains line timed_out_marker;
}

unfoldable pub read_event : GoTestLog → LogEvent → GoTestLog
unfolding contains_any
read_event l e =
    let is_output = e.action == "output" in
    record l {
      build_failed =
          l.build_failed
          || (e.action == "build-fail"
              || (not (e.failed_build == "")
                  || (is_output && (e.test == "" && contains_any e.output build_failed_markers))));
      timed_out = l.timed_out || (is_output && contains e.output timed_out_marker);
    }

module _ (reader : LogReader) where
  unfoldable pub count_some : GoTestLog → Option OutcomeEvent → GoTestLog
  unfolding count
  count_some l none = l
  count_some l (some e) = count l e

  unfoldable pub read_object : GoTestLog → String → Option LogEvent → GoTestLog
  unfolding count count_some read_event read_text
  read_object l line none = count_some (read_text l line) (reader.decode_outcome line)
  read_object l line (some e) = count (read_event l e) (outcome_of e)

  unfoldable pub read_line : GoTestLog → String → GoTestLog
  unfolding read_object read_text
  read_line l line =
      if line == ""
      then l
      else if reader.is_object line
      then read_object l line (reader.decode_event line)
      else read_text l line

  unfoldable pub read_lines : GoTestLog → List String → GoTestLog
  unfolding read_line
  read_lines l [] = l
  read_lines l (line ∷ lines) = read_lines (read_line l line) lines

  abbrev pub empty_log : GoTestLog
  empty_log = record {
    names = [];
    tests = [];
    build_failed = false;
    timed_out = false;
    unreadable = false;
  }

  -- `readLog`
  unfoldable pub read_log : String → GoTestLog
  unfolding read_lines
  read_log output =
      let (lines, error) = reader.lines output in
      record (read_lines empty_log lines) { unreadable = error }

unfoldable pub outcome_events : Option TestEvents → String × String
outcome_events none = ("", "")
outcome_events (some t) =
    if t.conflict
      || (not (eqb t.runs 1) || (not (eqb t.terminals 1) || (not t.order_ok || t.pkg == "")))
    then ("", "")
    else (t.terminal, t.pkg)

-- `goTestLog.outcome`
unfoldable pub outcome : GoTestLog → String → String × String
unfolding outcome_events
outcome l name = if name == "" || l.unreadable then ("", "") else outcome_events (get name l.tests)

-- The local variables of `GoTestOutcome`.
pub record Scan : Type 0 where
  pub runs : ℕ
  pub terminals : ℕ
  pub run_seen : Bool
  pub terminal : String
  pub pkg : String
  pub order_ok : Bool

abbrev pub new_scan : Scan
new_scan = record {
  runs = 0;
  terminals = 0;
  run_seen = false;
  terminal = "";
  pkg = "";
  order_ok = true;
}

-- The loop body for an event of the test; none is the early return.
unfoldable pub scan_event : OutcomeEvent → Scan → Option Scan
scan_event e s =
    if other_package e s.pkg
    then none
    else if e.action == "run"
    then some (record s { pkg = e.pkg; runs = suc s.runs; run_seen = true })
    else if is_terminal e.action
    then some (record s {
      pkg = e.pkg;
      terminals = suc s.terminals;
      terminal = e.action;
      order_ok = if not s.run_seen then false else s.order_ok;
    })
    else some (record s { pkg = e.pkg })

unfoldable pub scan_decoded : String → Scan → Option OutcomeEvent → Option Scan
unfolding scan_event
scan_decoded name s none = some s
scan_decoded name s (some e) = if not (e.test == name) then some s else scan_event e s

unfoldable pub final_outcome : Bool → Scan → String × String
final_outcome error s =
    if error || (not (eqb s.runs 1) || (not (eqb s.terminals 1) || (not s.order_ok || s.pkg == "")))
    then ("", "")
    else (s.terminal, s.pkg)

unfoldable pub outcome_or_none : Bool → Option Scan → String × String
unfolding final_outcome
outcome_or_none error none = ("", "")
outcome_or_none error (some s) = final_outcome error s

module _ (reader : LogReader) where
  unfoldable pub scan_line : String → Scan → String → Option Scan
  unfolding scan_decoded
  scan_line name s line =
      if line == "" || not (reader.is_object line)
      then some s
      else scan_decoded name s (reader.decode_outcome line)

  unfoldable pub scan_lines : String → Option Scan → List String → Option Scan
  unfolding scan_line
  scan_lines name o [] = o
  scan_lines name none (line ∷ lines) = none
  scan_lines name (some s) (line ∷ lines) = scan_lines name (scan_line name s line) lines

  -- `GoTestOutcome`
  unfoldable pub go_test_outcome : String → String → String × String
  unfolding scan_lines outcome_or_none
  go_test_outcome output name =
      if name == ""
      then ("", "")
      else let (lines, error) = reader.lines output in
        outcome_or_none error (scan_lines name (some new_scan) lines)
