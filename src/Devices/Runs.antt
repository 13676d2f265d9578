-- ===== src/Devices/Runs.antt =====
-- The steps of the pending logins, with what each caller was answered.
pub mod History
pub mod Once
use swift_proof.Prelude.{Bool, List, String, [], none, ℕ, ◌∷◌, ◌≡◌, ◌≢◌}
use swift_proof.Prelude.Dict.{get}
use swift_proof.Devices.{
  DeviceFlows, Polled, StartError, begun, decide_grant, no_logins, poll, refused, start,
}
use swift_proof.Devices.Kept.{decide_grant-IsLinked, poll-IsLinked, start-IsLinked}
use swift_proof.Devices.Links.{IsLinked, no_logins-IsLinked}

-- Requests are named by the hash of their device code.
pub data Event : Type 0 where
  starts : String → String → ℕ → Event
  declines : ℕ → Event
  answers : String → String → Bool → ℕ → Bool → Event
  polls : String → ℕ → Polled → Event

abbrev pub time : Event → ℕ
time (starts h user now) = now
time (declines now) = now
time (answers user key approve now done) = now
time (polls h now r) = now

-- A new device code is not that of a pending request, and the hash of a code and the key of an
-- account are not empty.
pub data Step : Event → DeviceFlows → DeviceFlows → Type 0 where
  begin :
      (h client user : String) (now : ℕ) (draws : List (List ℕ)) (d : DeviceFlows)
      → h ≢ ""
      → get h d.by_device ≡ none
      → (start h client now draws d).1 ≡ begun user
      → Step (starts h user now) d (start h client now draws d).0
  fail :
      (h client : String) (now : ℕ) (draws : List (List ℕ)) (d : DeviceFlows) (error : StartError)
      → h ≢ ""
      → get h d.by_device ≡ none
      → (start h client now draws d).1 ≡ refused error
      → Step (declines now) d (start h client now draws d).0
  answer :
      (user key : String) (approve : Bool) (now : ℕ) (d : DeviceFlows)
      → key ≢ ""
      → Step
          (answers user key approve now (decide_grant user key approve now d).1)
          d
          (decide_grant user key approve now d).0
  ask :
      (h : String) (now : ℕ) (d : DeviceFlows)
      → Step (polls h now (poll h now d).1) d (poll h now d).0

-- The logins after a history; its last event stands first.
pub data Run : List Event → DeviceFlows → Type 0 where
  idle : Run [] no_logins
  more :
      {es : List Event} {e : Event} {d d' : DeviceFlows} → Run es d → Step e d d' → Run (e ∷ es) d'

pub Step-IsLinked : {e : Event} {d d' : DeviceFlows} → Step e d d' → IsLinked d → IsLinked d'
Step-IsLinked (begin h client user now draws d solid fresh p) l =
    start-IsLinked h client now draws d l solid fresh
Step-IsLinked (fail h client now draws d error solid fresh p) l =
    start-IsLinked h client now draws d l solid fresh
Step-IsLinked (answer user key approve now d solid) l =
    decide_grant-IsLinked user key approve now d l
Step-IsLinked (ask h now d) l = poll-IsLinked h now d l

-- After any history of starts, answers and polls, in which each new device code is not that of a
-- pending request, at most 1000 requests are pending, and the two maps are inverse to each other:
-- the user code of each request leads to it, and each user code leads to a request that carries it.
pub Run-IsLinked : (es : List Event) (d : DeviceFlows) → Run es d → IsLinked d
Run-IsLinked es d idle = no_logins-IsLinked
Run-IsLinked es d (more r s) = Step-IsLinked s (Run-IsLinked _ _ r)
