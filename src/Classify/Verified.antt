-- ===== src/Classify/Verified.antt =====
-- What a KILLED or SURVIVED mutant rests on.
use swift_proof.Prelude.{
  Bool, Bool-cases, List, Member, Option, String, [], and_split, ap, arith, eqb, false,
  if◌then◌else◌, inl, inr, length, length-take-le, ltb, negated_false, none, refl, some, subst, suc,
  sym, take, text_eq, true, zero, ℕ, ◌&&◌, ◌==◌, ◌||◌, ◌∙◌, ◌∷◌, ◌≡◌, ◌≢◌, ◌≤◌,
}
use swift_proof.Model.{Check, check_mutant}
use swift_proof.TestLog.{LogReader, go_test_outcome, read_log}
use swift_proof.Verify.{equal_command}
use swift_proof.Classify.Outcomes.{FailsIn, split_outcomes-Member}
use swift_proof.Classify.{
  MutantVerdict, classify, classify_log, classify_valid, inconclusive, invalid, is_valid_reason,
  killed, max_failed_tests, no_passing_name, no_reason, not_run, settle_fail, settle_pass,
  settle_run, split_outcomes, survived, timeout, validate_control, without,
}
use swift_proof.Prelude.Int.{above, below, is_nat}
use swift_proof.TestLog.Agreement.{read_log-outcome}

status-if :
    (b : Bool) (x y : MutantVerdict)
    → (if b then x else y).status ≡ (if b then x.status else y.status)
status-if true x y = refl
status-if false x y = refl

-- A test on the way to a status that its own answer does not have.
past :
    (k : String) (b : Bool) (s v : String)
    → s ≢ k
    → (if b then s else v) ≡ k
    → (b ≡ false) × (v ≡ k)
past k true s v other p = absurd (other p)
past k false s v other p = (refl, p)

past_else :
    (k : String) (b : Bool) (s v : String) → s ≢ k → (if b then v else s) ≡ k → (b ≡ true) × (v ≡ k)
past_else k true s v other p = (refl, p)
past_else k false s v other p = absurd (other p)

-- The conditions on the mutant run that both statuses share.
pub record Executed (reader : LogReader) (control mutant : Check) : Type 0 where
  pub control_valid : is_valid_reason (validate_control reader control).1 ≡ true
  pub kind : mutant.kind ≡ check_mutant
  pub same_command : equal_command control.command mutant.command ≡ true
  pub known_status : (mutant.status == "PASS" || mutant.status == "FAIL") ≡ true
  pub complete : mutant.truncated ≡ false
  pub readable : (read_log reader mutant.output).unreadable ≡ false
  pub in_time : (read_log reader mutant.output).timed_out ≡ false
  pub built : (read_log reader mutant.output).build_failed ≡ false

-- The last test of `Classify`, on the outcomes of the mutant run.
abbrev last_test : LogReader → Check → Check → MutantVerdict
last_test reader control mutant =
    let l = read_log reader mutant.output in
    settle_run mutant (split_outcomes l (validate_control reader control).0 l.names 0 [])

module _ (reader : LogReader) (control mutant : Check) where
  -- A status that only the end of `Classify` gives.
  reaches_end :
      (k : String)
      → inconclusive ≢ k
      → not_run ≢ k
      → timeout ≢ k
      → invalid ≢ k
      → (classify reader control mutant).status ≡ k
      → Executed reader control mutant
        × (classify reader control mutant ≡ last_test reader control mutant)
  unfolding classify classify_valid classify_log
  reaches_end k ni nn nt nv p =
      let (valid, p₀) = past_else k _ _ _ ni (simp status-if at p) in
      let (kind, p₁) = past k _ _ _ ni p₀ in
      let (command, p₂) = past k _ _ _ ni p₁ in
      let (ran, p₃) = past k (mutant.status == "SKIPPED") _ _ nn p₂ in
      let (in_limit, p₄) = past k (mutant.status == "TIMEOUT") _ _ nt p₃ in
      let (sane, p₅) = past k (mutant.status == "ERROR") _ _ ni p₄ in
      let (known, p₆) = past k _ _ _ ni p₅ in
      let (complete, p₇) = past k _ _ _ ni p₆ in
      let (readable, p₈) = past k _ _ _ ni p₇ in
      let (in_time, p₉) = past k _ _ _ nt p₈ in
      let (built, _) = past k _ _ (last_test reader control mutant).status nv p₉ in
      (
        record {
          control_valid = valid;
          kind = (text_eq _ _).0 (negated_false _ kind);
          same_command = negated_false _ command;
          known_status = negated_false _ known;
          complete = complete;
          readable = readable;
          in_time = in_time;
          built = built;
        },
        rw (valid, kind, command, ran, in_limit, sane, known, complete, readable, in_time, built)
            refl,
      )

module _ (reader : LogReader) (mutant : Check) (pkg : String) where
  -- A name that the harness finds failing, in the package of the control.
  abbrev pub FoundFailing : String → Type 0
  FoundFailing name =
      ((go_test_outcome reader mutant.output name).0 ≡ "fail")
      × ((go_test_outcome reader mutant.output name).1 ≡ pkg)

  pub record KilledBy (v : MutantVerdict) : Type 0 where
    pub fails : mutant.status ≡ "FAIL"
    pub exit_low : above 0 mutant.exit_code ≡ true
    pub exit_high : below 125 mutant.exit_code ≡ true
    pub named : ltb 0 (length v.failed_tests) ≡ true
    pub few : length v.failed_tests ≤ max_failed_tests
    pub each : (name : String) → Member name v.failed_tests → FoundFailing name

  Member-take : (n : ℕ) (x : String) (xs : List String) → Member x (take n xs) → Member x xs
  Member-take zero x xs m = absurd m
  Member-take (suc n) x [] m = absurd m
  Member-take (suc n) x (y ∷ ys) (inl p) = inl p
  Member-take (suc n) x (y ∷ ys) (inr m) = inr (Member-take n x ys m)

  some_taken :
      (xs : List String)
      → ltb 0 (length xs) ≡ true
      → ltb 0 (length (take max_failed_tests xs)) ≡ true
  some_taken [] h = h
  some_taken (x ∷ xs) h = ground arith

  found : (name : String) → FailsIn (read_log reader mutant.output) pkg name → FoundFailing name
  found name fails =
      subst (λ o. (o.0 ≡ "fail") × (o.1 ≡ pkg)) (read_log-outcome reader mutant.output name) fails

  settle_fail-KilledBy :
      (failed : List String)
      → mutant.status ≡ "FAIL"
      → ((name : String) → Member name failed → FoundFailing name)
      → (settle_fail mutant failed).status ≡ killed
      → KilledBy (settle_fail mutant failed)
  unfolding settle_fail
  settle_fail-KilledBy failed st each p =
      elim (Bool-cases
        (above 0 mutant.exit_code && (below 125 mutant.exit_code && ltb 0 (length failed)))) [
          | inl good ↦
              let (low, rest) = and_split _ _ good in
              let (high, some_failed) = and_split _ _ rest in
              rw good (record {
                fails = st;
                exit_low = low;
                exit_high = high;
                named = some_taken failed some_failed;
                few = length-take-le max_failed_tests failed;
                each = λ name m. each name (Member-take max_failed_tests name failed m);
              })
          | inr bad ↦ cc
        ]

  settle_run-KilledBy :
      (o : Option (ℕ × List String))
      → split_outcomes
          (read_log reader mutant.output)
          pkg
          (read_log reader mutant.output).names
          0
          []
        ≡ o
      → (settle_run mutant o).status ≡ killed
      → KilledBy (settle_run mutant o)
  unfolding settle_run settle_pass
  settle_run-KilledBy none q p = cc
  settle_run-KilledBy (some (passed, failed)) q p = elim (Bool-cases (mutant.status == "FAIL")) [
    | inl fails ↦ rw fails (
        settle_fail-KilledBy failed ((text_eq _ _).0 fails)
          (λ name m. elim (split_outcomes-Member _ pkg _ 0 [] passed failed name q m) [
            | inl none_yet ↦ absurd none_yet
            | inr bad ↦ found name bad
          ])
          (rw fails at p))
    | inr passes ↦ absurd (
        never (is_nat 0 mutant.exit_code && (eqb (length failed) 0 && ltb 0 passed))
          (rw passes at p))
  ]
    where
      never :
          (b : Bool)
          → (if b
              then record {
                status = survived;
                tests_run = passed;
                failed_tests = [];
                reason = no_reason;
              }
              else without inconclusive no_passing_name).status
            ≡ killed
          → ⊥
      never true h = cc
      never false h = cc

-- A mutant is KILLED only after a valid control run, with the command of that run, when its
-- complete and readable log of a built run exits with a code from 1 to 124 and names one to five
-- failing tests, each of which `GoTestOutcome` finds failing in the package of the control.
pub classify-KilledBy :
    (reader : LogReader) (control mutant : Check)
    → (classify reader control mutant).status ≡ killed
    → Executed reader control mutant
      × KilledBy reader mutant (validate_control reader control).0 (classify reader control mutant)
classify-KilledBy reader control mutant p =
    let (ran, same) =
      reaches_end reader control mutant killed (λ h. cc) (λ h. cc) (λ h. cc) (λ h. cc) p in
    (
      ran,
      subst (KilledBy reader mutant (validate_control reader control).0) (sym same) (
          settle_run-KilledBy reader mutant (validate_control reader control).0 _ refl
            (sym (ap (λ v. v.status) same) ∙ p)),
    )
