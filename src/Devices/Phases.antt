-- ===== src/Devices/Phases.antt =====
-- What each operation does to one request, and the phases that a caller sees.
use swift_proof.Devices.{
  DeviceFlows, DeviceGrant, StartError, after, answered, begun, decide_grant, decide_found, forget,
  is_closed, named, new_grant, open_grant, pending, poll, polled, polled_waiting, refused, seen_at,
  set_grant, slowed, start, started_with, sweep, sweep_each, text_at, too_fast, visited,
}
use swift_proof.Prelude.{
  Bool, Bool-cases, List, Option, String, [], arith, if◌then◌else◌, inl, inr, none, not, refl, some,
  text_eq, ℕ, ◌==◌, ◌||◌, ◌∙◌, ◌∷◌, ◌≡◌,
}
use swift_proof.Prelude.Dict.{Dict, get, get-delete, get-put, is_some, only}

abbrev pub live : ℕ → DeviceGrant → Bool
live now g = not (after now g.expires)

visited-get :
    (now : ℕ) (h k : String) (o : Option DeviceGrant) (d : DeviceFlows)
    → get h d.by_device ≡ o
    → get k (visited now h o d).by_device
      ≡ (if h == k then only (live now) (get k d.by_device) else get k d.by_device)
unfolding visited forget
visited-get now h k none d e = ground (arith, text_eq h k, e)
visited-get now h k (some g) d e = ground (arith, text_eq h k, e, get-delete h k d.by_device)

only_twice : (p : DeviceGrant → Bool) (o : Option DeviceGrant) → only p (only p o) ≡ only p o
only_twice p none = refl
only_twice p (some g) = ground arith

sweep_each-get :
    (now : ℕ) (k : String) (es : Dict DeviceGrant) (d : DeviceFlows)
    → get k (sweep_each now es d).by_device
      ≡ (if is_some (get k es) then only (live now) (get k d.by_device) else get k d.by_device)
unfolding sweep_each get
sweep_each-get now k [] d = refl
sweep_each-get now k ((h, g) ∷ es) d =
    let d' = visited now h (get h d.by_device) d in
    ground (
      arith,
      sweep_each-get now k es d',
      visited-get now h k (get h d.by_device) d refl,
      only_twice (live now) (get k d.by_device),
    )

-- A sweep forgets exactly the expired requests.
pub sweep-get :
    (now : ℕ) (k : String) (d : DeviceFlows)
    → get k (sweep now d).by_device ≡ only (live now) (get k d.by_device)
unfolding sweep
sweep-get now k d = sweep_each-get now k d.by_device d ∙ seen (get k d.by_device)
  where
    seen :
        (o : Option DeviceGrant) → (if is_some o then only (live now) o else o) ≡ only (live now) o
    seen none = refl
    seen (some g) = refl

-- What a poll leaves of the request.
abbrev pub after_poll : ℕ → Option DeviceGrant → Option DeviceGrant
after_poll now none = none
after_poll now (some g) =
    if after now g.expires || g.denied || not (g.user_key == "")
    then none
    else some (if too_fast now g then slowed now g else seen_at now g)

polled-get :
    (h k : String) (now : ℕ) (o : Option DeviceGrant) (d : DeviceFlows)
    → get h d.by_device ≡ o
    → get k (polled h now d o).0.by_device
      ≡ (if h == k then after_poll now o else get k d.by_device)
unfolding polled polled_waiting forget set_grant
polled-get h k now none d e = ground (arith, text_eq h k, e)
polled-get h k now (some g) d e = ground (
  arith,
  text_eq h k,
  e,
  get-delete h k d.by_device,
  get-put h k (slowed now g) d.by_device,
  get-put h k (seen_at now g) d.by_device,
)

pub poll-get :
    (h k : String) (now : ℕ) (d : DeviceFlows)
    → get k (poll h now d).0.by_device
      ≡ (if h == k then after_poll now (get h d.by_device) else get k d.by_device)
unfolding poll
poll-get h k now d = polled-get h k now (get h d.by_device) d refl

-- What an answer leaves of the request that a user code names.
abbrev pub after_answer : ℕ → String → Bool → Option DeviceGrant → Option DeviceGrant
after_answer now key approve none = none
after_answer now key approve (some g) = some (if is_closed now g then g else answered key approve g)

decide_found-get :
    (user key k : String) (approve : Bool) (now : ℕ) (o : Option DeviceGrant) (d : DeviceFlows)
    → get (text_at user d.by_user) d.by_device ≡ o
    → get k (decide_found user key approve d (open_grant now o)).0.by_device
      ≡ (if text_at user d.by_user == k then after_answer now key approve o else get k d.by_device)
unfolding decide_found set_grant
decide_found-get user key k approve now none d e =
    ground (arith, text_eq (text_at user d.by_user) k, e)
decide_found-get user key k approve now (some g) d e = elim (Bool-cases (is_closed now g)) [
  | inl closed ↦ rw closed (ground (arith, text_eq (text_at user d.by_user) k, e))
  | inr waits ↦ rw waits (get-put (text_at user d.by_user) k (answered key approve g) d.by_device)
]

pub decide_grant-get :
    (user key k : String) (approve : Bool) (now : ℕ) (d : DeviceFlows)
    → get k (decide_grant user key approve now d).0.by_device ≡ (
        if text_at user d.by_user == k
        then after_answer now key approve (named user d)
        else get k d.by_device)
unfolding decide_grant pending named
decide_grant-get user key k approve now d =
    decide_found-get user key k approve now (named user d) d refl

-- What `start` leaves: the live requests, and the one that it registers.
pub start-get :
    (h client k : String) (now : ℕ) (draws : List (List ℕ)) (d : DeviceFlows) (user : String)
    → (start h client now draws d).1 ≡ begun user
    → get k (start h client now draws d).0.by_device
      ≡ (if h == k then some (new_grant user client now) else only (live now) (get k d.by_device))
unfolding start started_with
start-get h client k now draws d user =
    ground
      (arith, get-put h k (new_grant user client now) (sweep now d).by_device, sweep-get now k d)

pub start-refused :
    (h client k : String) (now : ℕ) (draws : List (List ℕ)) (d : DeviceFlows) (error : StartError)
    → (start h client now draws d).1 ≡ refused error
    → get k (start h client now draws d).0.by_device ≡ only (live now) (get k d.by_device)
unfolding start started_with
start-refused h client k now draws d error = ground (arith, sweep-get now k d)
