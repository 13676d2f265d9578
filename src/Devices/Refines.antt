-- ===== src/Devices/Refines.antt =====
-- A login as a caller sees it: one phase for each device code.
use swift_proof.Prelude.{
  Bool, Bool-cases, Option, String, ap, arith, false, if◌then◌else◌, inl, inr, none, refl, some,
  text_eq, true, ℕ, ◌==◌, ◌≡◌, ◌≢◌, ◌⊎◌,
}
use swift_proof.Prelude.Dict.{get, only}
use swift_proof.Devices.{
  DeviceFlows, DeviceGrant, Polled, after, decide_grant, decide_found, forget, granted, named,
  new_grant, open_grant, pending, poll, polled, polled_waiting, text_at, told, too_fast,
}
use swift_proof.Devices.Runs.{
  Event, Step, answer, answers, ask, begin, declines, fail, polls, starts, time,
}
use swift_proof.Devices.Phases.{
  after_answer, after_poll, decide_grant-get, live, poll-get, start-get, start-refused,
}

pub data Phase : Type 0 where
  absent waiting denial : Phase
  approval : String → Phase

abbrev pub phase_of : ℕ → Option DeviceGrant → Phase
phase_of now none = absent
phase_of now (some g) =
    if after now g.expires
    then absent
    else if g.denied
    then denial
    else if g.user_key == ""
    then waiting
    else approval g.user_key

-- The phase of the request that a device code names.
abbrev pub phase : ℕ → String → DeviceFlows → Phase
phase now h d = phase_of now (get h d.by_device)

-- A poll ends every phase but that of waiting; an answer ends only that one.
abbrev pub next_poll : Phase → Phase
next_poll absent = absent
next_poll waiting = waiting
next_poll denial = absent
next_poll (approval key) = absent

abbrev pub next_answer : String → Bool → Phase → Phase
next_answer key approve absent = absent
next_answer key approve waiting = if approve then approval key else denial
next_answer key approve denial = denial
next_answer key approve (approval other) = approval other

abbrev pub is_waiting : Phase → Bool
is_waiting absent = false
is_waiting waiting = true
is_waiting denial = false
is_waiting (approval key) = false

-- What the client is told in each phase.
abbrev pub IsReply : Phase → Polled → Type 0
IsReply absent r = (r ≡ told "invalid_grant") ⊎ (r ≡ told "expired_token")
IsReply waiting r = (r ≡ told "slow_down") ⊎ (r ≡ told "authorization_pending")
IsReply denial r = r ≡ told "access_denied"
IsReply (approval key) r = (g : DeviceGrant) × (r ≡ granted g) × (g.user_key ≡ key)

after_poll-phase :
    (now : ℕ) (o : Option DeviceGrant)
    → phase_of now (after_poll now o) ≡ next_poll (phase_of now o)
after_poll-phase now none = refl
after_poll-phase now (some g) = ground (arith)

IsReply-of :
    (a b c : Bool) (key : String) (g : DeviceGrant) (x y : DeviceFlows) (z : DeviceFlows × Polled)
    → g.user_key ≡ key
    → IsReply waiting z.1
    → IsReply
        (if a then absent else if b then denial else if c then waiting else approval key)
        (if a
          then (x, told "expired_token")
          else if b
          then (x, told "access_denied")
          else if c
          then z
          else (y, granted g)).1
IsReply-of true b c key g x y z e p = inr refl
IsReply-of false true c key g x y z e p = refl
IsReply-of false false true key g x y z e p = p
IsReply-of false false false key g x y z e p = (g, refl, e)

waiting-IsReply :
    (h : String) (now : ℕ) (g : DeviceGrant) (d : DeviceFlows)
    → IsReply waiting (polled_waiting h now g d).1
unfolding polled_waiting
waiting-IsReply h now g d = elim (Bool-cases (too_fast now g)) [
  | inl fast ↦ rw fast (inl refl)
  | inr slow ↦ rw slow (inr refl)
]

polled-IsReply :
    (h : String) (now : ℕ) (o : Option DeviceGrant) (d : DeviceFlows)
    → IsReply (phase_of now o) (polled h now d o).1
unfolding polled
polled-IsReply h now none d = inl refl
polled-IsReply h now (some g) d =
    IsReply-of (after now g.expires) g.denied (g.user_key == "") g.user_key g (forget h g d)
      (forget h g d) (polled_waiting h now g d) refl (waiting-IsReply h now g d)

after_answer-phase :
    (now : ℕ) (key : String) (approve : Bool) (o : Option DeviceGrant)
    → key ≢ ""
    → phase_of now (after_answer now key approve o) ≡ next_answer key approve (phase_of now o)
after_answer-phase now key approve none solid = refl
after_answer-phase now key true (some g) solid = ground (arith, text_eq key "")
after_answer-phase now key false (some g) solid = ground (arith, text_eq key "")

answer-done :
    (user key : String) (approve : Bool) (now : ℕ) (d : DeviceFlows)
    → (decide_grant user key approve now d).1 ≡ is_waiting (phase_of now (named user d))
unfolding decide_grant pending decide_found
answer-done user key approve now d = done (named user d)
  where
    done :
        (o : Option DeviceGrant)
        → (decide_found user key approve d (open_grant now o)).1 ≡ is_waiting (phase_of now o)
    done none = refl
    done (some g) = ground arith

live-phase : (now : ℕ) (o : Option DeviceGrant) → phase_of now (only (live now) o) ≡ phase_of now o
live-phase now none = refl
live-phase now (some g) = ground arith

-- The steps of a login, on the phases alone.
pub Moves : Event → (String → Phase) → (String → Phase) → Type 0
Moves (starts h user now) p q = (k : String) → q k ≡ (if h == k then waiting else p k)
Moves (declines now) p q = (k : String) → q k ≡ p k
Moves (answers user key approve now done) p q =
    (h : String) × (done ≡ is_waiting (p h))
    × ((k : String) → q k ≡ (if h == k then next_answer key approve (p k) else p k))
Moves (polls h now r) p q =
    IsReply (p h) r × ((k : String) → q k ≡ (if h == k then next_poll (p k) else p k))

if-phase :
    (now : ℕ) (b : Bool) (x y : Option DeviceGrant)
    → phase_of now (if b then x else y) ≡ (if b then phase_of now x else phase_of now y)
if-phase now true x y = refl
if-phase now false x y = refl

-- Behind a test that two codes are equal, either may be named.
same_code :
    (f : Phase → Phase) (p : Phase) (now : ℕ) (h k : String) (d : DeviceFlows)
    → (if h == k then f (phase now h d) else p) ≡ (if h == k then f (phase now k d) else p)
same_code f p now h k d = elim (Bool-cases (h == k)) [
  | inl e ↦ rw e (ap (λ j. f (phase now j d)) ((text_eq h k).0 e))
  | inr e ↦ rw e refl
]

poll-phase :
    (h k : String) (now : ℕ) (d : DeviceFlows)
    → phase now k (poll h now d).0 ≡ (if h == k then next_poll (phase now k d) else phase now k d)
poll-phase h k now d =
    rw (poll-get h k now d, if-phase, after_poll-phase now (get h d.by_device))
      (same_code next_poll (phase now k d) now h k d)

decide_grant-phase :
    (user key k : String) (approve : Bool) (now : ℕ) (d : DeviceFlows)
    → key ≢ ""
    → phase now k (decide_grant user key approve now d).0 ≡ (
        if text_at user d.by_user == k
        then next_answer key approve (phase now k d)
        else phase now k d)
unfolding named
decide_grant-phase user key k approve now d solid =
    rw
      (
        decide_grant-get user key k approve now d,
        if-phase,
        after_answer-phase now key approve (get (text_at user d.by_user) d.by_device) solid,
      )
      (same_code (next_answer key approve) (phase now k d) now (text_at user d.by_user) k d)

fresh-phase :
    (user client : String) (now : ℕ) → phase_of now (some (new_grant user client now)) ≡ waiting
fresh-phase user client now = ground arith

poll-IsReply : (h : String) (now : ℕ) (d : DeviceFlows) → IsReply (phase now h d) (poll h now d).1
unfolding poll
poll-IsReply h now d = polled-IsReply h now (get h d.by_device) d

-- Each step of the program is a step of the login as the callers see it, at the time of the step.
pub Step-Moves :
    {e : Event} {d d' : DeviceFlows}
    → Step e d d'
    → Moves e (λ k. phase (time e) k d) (λ k. phase (time e) k d')
unfolding Moves named
Step-Moves (begin h client user now draws d solid fresh p) =
    λ k. rw (start-get h client k now draws d user p, if-phase, live-phase, fresh-phase) refl
Step-Moves (fail h client now draws d error solid fresh p) =
    λ k. rw (start-refused h client k now draws d error p, live-phase) refl
Step-Moves (answer user key approve now d solid) = (
  text_at user d.by_user,
  answer-done user key approve now d,
  λ k. decide_grant-phase user key k approve now d solid,
)
Step-Moves (ask h now d) = (poll-IsReply h now d, λ k. poll-phase h k now d)
