-- ===== src/Devices/Kept.antt =====
-- Every operation keeps the two maps together.
use swift_proof.Prelude.{
  Bool, Bool-cases, List, Option, Option-cases, String, [], arith, false, if◌then◌else◌, inl, inr,
  leb, length, none, refl, some, true, ℕ, ◌==◌, ◌∷◌, ◌≡◌, ◌≢◌,
}
use swift_proof.Prelude.Dict.{Dict, get, get-delete}
use swift_proof.Devices.{
  DeviceFlows, DeviceGrant, Polled, after, answered, decide_grant, decide_found, forget, free_code,
  granted, is_closed, max_pending_devices, named, open_grant, pending, poll, polled, polled_waiting,
  registered, seen_at, slowed, start, started_with, sweep, sweep_each, text_at, told, too_fast,
  visited,
}
use swift_proof.Devices.Links.{IsLinked, forget-IsLinked, register-IsLinked, set_grant-IsLinked}

visited-IsLinked :
    (now : ℕ) (h : String) (o : Option DeviceGrant) (d : DeviceFlows)
    → get h d.by_device ≡ o
    → IsLinked d
    → IsLinked (visited now h o d)
unfolding visited
visited-IsLinked now h none d e l = l
visited-IsLinked now h (some g) d e l = elim (Bool-cases (after now g.expires)) [
  | inl over ↦ rw over (forget-IsLinked h g d l e)
  | inr live ↦ rw live l
]

sweep_each-IsLinked :
    (now : ℕ) (es : Dict DeviceGrant) (d : DeviceFlows)
    → IsLinked d
    → IsLinked (sweep_each now es d)
unfolding sweep_each
sweep_each-IsLinked now [] d l = l
sweep_each-IsLinked now ((h, g) ∷ es) d l =
    sweep_each-IsLinked now es (visited now h (get h d.by_device) d)
      (visited-IsLinked now h (get h d.by_device) d refl l)

pub sweep-IsLinked : (now : ℕ) (d : DeviceFlows) → IsLinked d → IsLinked (sweep now d)
unfolding sweep
sweep-IsLinked now d l = sweep_each-IsLinked now d.by_device d l

pub free_code-free :
    (draws : List (List ℕ)) (codes : Dict String) (user : String)
    → free_code draws codes ≡ some user
    → get user codes ≡ none
unfolding free_code
free_code-free [] codes user h = cc
free_code-free (ns ∷ draws) codes user h = ground (arith, free_code-free draws codes user)

visited-absent :
    (now : ℕ) (h k : String) (o : Option DeviceGrant) (d : DeviceFlows)
    → get k d.by_device ≡ none
    → get k (visited now h o d).by_device ≡ none
unfolding visited forget
visited-absent now h k none d e = e
visited-absent now h k (some g) d e = elim (Bool-cases (after now g.expires)) [
  | inl over ↦ rw over (ground (arith, get-delete h k d.by_device, e))
  | inr live ↦ rw live e
]

sweep_each-absent :
    (now : ℕ) (k : String) (es : Dict DeviceGrant) (d : DeviceFlows)
    → get k d.by_device ≡ none
    → get k (sweep_each now es d).by_device ≡ none
unfolding sweep_each
sweep_each-absent now k [] d e = e
sweep_each-absent now k ((h, g) ∷ es) d e =
    sweep_each-absent now k es (visited now h (get h d.by_device) d)
      (visited-absent now h k (get h d.by_device) d e)

pub sweep-absent :
    (now : ℕ) (k : String) (d : DeviceFlows)
    → get k d.by_device ≡ none
    → get k (sweep now d).by_device ≡ none
unfolding sweep
sweep-absent now k d e = sweep_each-absent now k d.by_device d e

started_with-IsLinked :
    (h client : String) (now : ℕ) (draws : List (List ℕ)) (d : DeviceFlows)
    → IsLinked d
    → h ≢ ""
    → get h d.by_device ≡ none
    → IsLinked (started_with h client now draws d).0
unfolding started_with registered
started_with-IsLinked h client now draws d l solid fresh =
    elim (Bool-cases (leb max_pending_devices (length d.by_device))) [
      | inl full ↦ rw full l
      | inr room ↦ elim (Option-cases (free_code draws d.by_user)) [
        | inl e ↦ rw (room, e) l
        | inr (user, e) ↦
            rw (room, e)
              (register-IsLinked h user client now d l solid fresh
                (free_code-free draws d.by_user user e) (ground (arith, room)))
      ]
    ]

pub start-IsLinked :
    (h client : String) (now : ℕ) (draws : List (List ℕ)) (d : DeviceFlows)
    → IsLinked d
    → h ≢ ""
    → get h d.by_device ≡ none
    → IsLinked (start h client now draws d).0
unfolding start
start-IsLinked h client now draws d l solid fresh =
    started_with-IsLinked h client now draws (sweep now d) (sweep-IsLinked now d l) solid
      (sweep-absent now h d fresh)

-- What an open request is found by.
pub pending-found :
    (user : String) (now : ℕ) (d : DeviceFlows) (g : DeviceGrant)
    → pending user now d ≡ some g
    → (get (text_at user d.by_user) d.by_device ≡ some g) × (is_closed now g ≡ false)
unfolding pending named
pending-found user now d g h = opened (get (text_at user d.by_user) d.by_device) h
  where
    opened :
        (o : Option DeviceGrant)
        → open_grant now o ≡ some g
        → (o ≡ some g) × (is_closed now g ≡ false)
    opened none e = cc
    opened (some f) e = ground arith

answered-code :
    (key : String) (approve : Bool) (g : DeviceGrant)
    → (answered key approve g).user_code ≡ g.user_code
answered-code key true g = refl
answered-code key false g = refl

pub decide_grant-IsLinked :
    (user key : String) (approve : Bool) (now : ℕ) (d : DeviceFlows)
    → IsLinked d
    → IsLinked (decide_grant user key approve now d).0
unfolding decide_grant decide_found
decide_grant-IsLinked user key approve now d l = elim (Option-cases (pending user now d)) [
  | inl e ↦ rw e l
  | inr (g, e) ↦ rw e (
      set_grant-IsLinked (text_at user d.by_user) g (answered key approve g) d l
        (pending-found user now d g e).0 (answered-code key approve g))
]

polled_waiting-IsLinked :
    (h : String) (now : ℕ) (g : DeviceGrant) (d : DeviceFlows)
    → IsLinked d
    → get h d.by_device ≡ some g
    → IsLinked (polled_waiting h now g d).0
unfolding polled_waiting
polled_waiting-IsLinked h now g d l e = elim (Bool-cases (too_fast now g)) [
  | inl fast ↦ rw fast (set_grant-IsLinked h g (slowed now g) d l e refl)
  | inr slow ↦ rw slow (set_grant-IsLinked h g (seen_at now g) d l e refl)
]

one_of :
    (a b c : Bool) (x y z w : DeviceFlows × Polled)
    → IsLinked x.0
    → IsLinked y.0
    → IsLinked z.0
    → IsLinked w.0
    → IsLinked (if a then x else if b then y else if c then z else w).0
one_of true b c x y z w p q r s = p
one_of false true c x y z w p q r s = q
one_of false false true x y z w p q r s = r
one_of false false false x y z w p q r s = s

polled-IsLinked :
    (h : String) (now : ℕ) (o : Option DeviceGrant) (d : DeviceFlows)
    → IsLinked d
    → get h d.by_device ≡ o
    → IsLinked (polled h now d o).0
unfolding polled
polled-IsLinked h now none d l e = l
polled-IsLinked h now (some g) d l e =
    let gone = forget-IsLinked h g d l e in
    one_of (after now g.expires) g.denied (g.user_key == "") (forget h g d, told "expired_token")
      (forget h g d, told "access_denied") (polled_waiting h now g d) (forget h g d, granted g) gone
      gone (polled_waiting-IsLinked h now g d l e) gone

pub poll-IsLinked :
    (h : String) (now : ℕ) (d : DeviceFlows) → IsLinked d → IsLinked (poll h now d).0
unfolding poll
poll-IsLinked h now d l = polled-IsLinked h now (get h d.by_device) d l refl
