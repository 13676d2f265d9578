-- ===== src/Devices/Runs/Once.antt =====
-- How often a grant is handed over.
use swift_proof.Prelude.{
  Bool, Bool-cases, List, Option, String, ap, arith, count_if, false, if◌then◌else◌, inl, inr, none,
  refl, some, some-injective, subst, text_eq, true, ℕ, ◌+◌, ◌==◌, ◌≡◌, ◌≤◌,
}
use swift_proof.Prelude.Dict.{get, only}
use swift_proof.Devices.{
  DeviceFlows, DeviceGrant, Polled, granted, named, poll, polled, polled_waiting, text_at, told,
}
use swift_proof.Devices.Phases.{
  after_answer, after_poll, decide_grant-get, live, poll-get, start-get, start-refused,
}
use swift_proof.Devices.Runs.{
  Event, Run, Step, answer, answers, ask, begin, declines, fail, idle, more, polls, starts,
}
use swift_proof.Devices.Runs.History.{polled-granted}

-- Whether an event hands over the grant of a device code, and whether it issues the code.
abbrev pub hands_over : String → Event → Bool
hands_over h (starts j u now) = false
hands_over h (declines now) = false
hands_over h (answers u k approve now done) = false
hands_over h (polls j now (told code)) = false
hands_over h (polls j now (granted g)) = j == h

abbrev pub issues : String → Event → Bool
issues h (starts j u now) = j == h
issues h (declines now) = false
issues h (answers u k approve now done) = false
issues h (polls j now r) = false

-- One for a request that is pending.
abbrev held : Option DeviceGrant → ℕ
held none = 0
held (some g) = 1

held-only : (p : DeviceGrant → Bool) (o : Option DeviceGrant) → held (only p o) ≤ held o
held-only p none = omega arith
held-only p (some g) = ground arith

held-answer :
    (now : ℕ) (key : String) (approve : Bool) (o : Option DeviceGrant)
    → held (after_answer now key approve o) ≡ held o
held-answer now key approve none = refl
held-answer now key approve (some g) = refl

-- A poll of another code hands nothing over for this one.
hands_over-other :
    (h j : String) (now : ℕ) (r : Polled) → (j == h) ≡ false → hands_over h (polls j now r) ≡ false
hands_over-other h j now (told code) e = refl
hands_over-other h j now (granted g) e = e

granted_of :
    (h : String) (now : ℕ) (r : Polled)
    → hands_over h (polls h now r) ≡ true
    → (g : DeviceGrant) × (r ≡ granted g)
granted_of h now (told code) e = cc
granted_of h now (granted g) e = (g, refl)

-- A grant that is handed over is gone.
polled-once :
    (h : String) (now : ℕ) (o : Option DeviceGrant) (d : DeviceFlows)
    → (if hands_over h (polls h now (polled h now d o).1) then 1 else 0) + held (after_poll now o)
      ≤ held o
unfolding polled polled_waiting
polled-once h now none d = omega arith
polled-once h now (some f) d =
    elim (Bool-cases (hands_over h (polls h now (polled h now d (some f)).1))) [
      | inl given ↦
          let (g, e) = granted_of h now (polled h now d (some f)).1 given in
          let (same, alive, allowed, keyed) = polled-granted h now (some f) d g e in
          rw given (ground (arith, some-injective _ _ same, alive, allowed, keyed))
      | inr kept ↦ rw kept (ground arith)
    ]

poll-once :
    (h : String) (now : ℕ) (d : DeviceFlows)
    → (if hands_over h (polls h now (poll h now d).1) then 1 else 0)
        + held (after_poll now (get h d.by_device))
      ≤ held (get h d.by_device)
unfolding poll
poll-once h now d = polled-once h now (get h d.by_device) d

Step-once :
    (h : String) {e : Event} {d d' : DeviceFlows}
    → Step e d d'
    → (if hands_over h e then 1 else 0) + held (get h d'.by_device)
      ≤ (if issues h e then 1 else 0) + held (get h d.by_device)
unfolding named
Step-once h (begin j client user now draws d solid fresh p) =
    rw (start-get j client h now draws d user p)
      (ground (arith, held-only (live now) (get h d.by_device)))
Step-once h (fail j client now draws d error solid fresh p) =
    rw (start-refused j client h now draws d error p)
      (omega (arith, held-only (live now) (get h d.by_device)))
Step-once h (answer user key approve now d solid) =
    rw (decide_grant-get user key h approve now d)
      (elim (Bool-cases (text_at user d.by_user == h)) [
        | inl same ↦ rw same (
            omega (
              arith,
              held-answer now key approve (named user d),
              ap (λ k. held (get k d.by_device)) ((text_eq (text_at user d.by_user) h).0 same),
            ))
        | inr other ↦ rw other (omega arith)
      ])
Step-once h (ask j now d) = rw (poll-get j h now d) (elim (Bool-cases (j == h)) [
  | inl same ↦ rw same (
      subst
        (λ k.
          (if hands_over k (polls j now (poll j now d).1) then 1 else 0)
            + held (after_poll now (get j d.by_device))
          ≤ 0 + held (get k d.by_device))
        ((text_eq j h).0 same) (omega (arith, poll-once j now d)))
  | inr other ↦ rw (other, hands_over-other h j now (poll j now d).1 other) (omega arith)
])

once :
    (h : String) (es : List Event) (d : DeviceFlows)
    → Run es d
    → count_if (hands_over h) es + held (get h d.by_device) ≤ count_if (issues h) es
unfolding get
once h es d idle = omega arith
once h es d (more r s) = ground (arith, once h _ _ r, Step-once h s)

-- In every history the grant of a device code is handed over at most as often as the code is
-- issued.
pub Run-once :
    (es : List Event) (d : DeviceFlows) (h : String)
    → Run es d
    → count_if (hands_over h) es ≤ count_if (issues h) es
Run-once es d h r = omega (arith, once h es d r)
