-- ===== src/Devices.antt =====
-- hub/internal/server/device.go: the pending logins and the operations on them. A time counts
-- nanoseconds; the lock makes each operation one step. The hash of a device code and the answers
-- of the random source are arguments.
pub mod Links
pub mod Kept
pub mod Phases
pub mod Refines
pub mod Runs
use swift_proof.Prelude.{
  Bool, List, Option, String, [], false, if◌then◌else◌, leb, length, ltb, none, not, some, true, ℕ,
  ◌*◌, ◌+◌, ◌==◌, ◌||◌, ◌∷◌,
}
use swift_proof.Prelude.Dict.{Dict, delete, get, is_some, put}
use swift_proof.UserCode.{new_user_code}

abbrev pub second : ℕ
second = 1000000000

-- `deviceCodeTTL`
abbrev pub device_code_ttl : ℕ
device_code_ttl = 600 * second

-- `devicePollInterval`
abbrev pub device_poll_interval : ℕ
device_poll_interval = 5 * second

-- `maxPendingDevices`
abbrev pub max_pending_devices : ℕ
max_pending_devices = 1000

-- `deviceGrant`; there is no last poll before the first one.
pub record DeviceGrant : Type 0 where
  pub user_code : String
  pub client : String
  pub expires : ℕ
  pub interval : ℕ
  pub last_poll : Option ℕ
  pub user_key : String
  pub denied : Bool

-- `deviceFlows`, without the two limiters, which the handlers ask.
pub record DeviceFlows : Type 0 where
  pub by_device : Dict DeviceGrant
  pub by_user : Dict String

-- `newDeviceFlows`
abbrev pub no_logins : DeviceFlows
no_logins = record { by_device = []; by_user = [] }

-- now.After(t)
abbrev pub after : ℕ → ℕ → Bool
after now t = ltb t now

-- The two deletions with which a request is forgotten.
unfoldable pub forget : String → DeviceGrant → DeviceFlows → DeviceFlows
unfolding delete
forget hash g d = record {
  by_device = delete hash d.by_device;
  by_user = delete g.user_code d.by_user;
}

-- One turn of the loop of `sweep`: a request that is still there and has expired is forgotten.
abbrev pub visited : ℕ → String → Option DeviceGrant → DeviceFlows → DeviceFlows
unfolding forget
visited now hash none d = d
visited now hash (some g) d = if after now g.expires then forget hash g d else d

unfoldable pub sweep_each : ℕ → Dict DeviceGrant → DeviceFlows → DeviceFlows
unfolding forget get
sweep_each now [] d = d
sweep_each now ((hash, g) ∷ es) d = sweep_each now es (visited now hash (get hash d.by_device) d)

-- `sweep`
unfoldable pub sweep : ℕ → DeviceFlows → DeviceFlows
unfolding sweep_each
sweep now d = sweep_each now d.by_device d

pub data StartError : Type 0 where
  random_failed device_full : StartError

-- The loop of `start` that draws a user code no other request has. Each list holds what the
-- random source answers in one call of `newUserCode`.
unfoldable pub free_code : List (List ℕ) → Dict String → Option String
unfolding new_user_code get
free_code [] codes = none
free_code (ns ∷ draws) codes =
    let later = free_code draws codes in
    elim (new_user_code ns) [
      | none ↦ none
      | some user ↦ if is_some (get user codes) then later else some user
    ]

abbrev pub new_grant : String → String → ℕ → DeviceGrant
new_grant user client now = record {
  user_code = user;
  client = client;
  expires = now + device_code_ttl;
  interval = device_poll_interval;
  last_poll = none;
  user_key = "";
  denied = false;
}

-- The two stores with which `start` registers a request.
unfoldable pub register : String → String → String → ℕ → DeviceFlows → DeviceFlows
unfolding put
register hash user client now d = record {
  by_device = put hash (new_grant user client now) d.by_device;
  by_user = put user hash d.by_user;
}

pub data Started : Type 0 where
  refused : StartError → Started
  begun : String → Started

abbrev pub registered : String → String → ℕ → DeviceFlows → Option String → DeviceFlows × Started
unfolding register
registered hash client now d none = (d, refused random_failed)
registered hash client now d (some user) = (register hash user client now d, begun user)

abbrev pub started_with : String → String → ℕ → List (List ℕ) → DeviceFlows → DeviceFlows × Started
unfolding registered free_code
started_with hash client now draws d =
    if leb max_pending_devices (length d.by_device)
    then (d, refused device_full)
    else registered hash client now d (free_code draws d.by_user)

-- `start`, for a device code with this hash.
unfoldable pub start : String → String → ℕ → List (List ℕ) → DeviceFlows → DeviceFlows × Started
unfolding sweep started_with
start hash client now draws d = started_with hash client now draws (sweep now d)

-- What d.byDevice[d.byUser[userCode]] finds; a code that is not there reads as "".
unfoldable pub text_at : String → Dict String → String
unfolding get
text_at k m = elim (get k m) [ none ↦ "" | some v ↦ v ]

unfoldable pub named : String → DeviceFlows → Option DeviceGrant
unfolding text_at get
named user d = get (text_at user d.by_user) d.by_device

-- !ok || now.After(grant.expires) || grant.userKey != "" || grant.denied
abbrev pub is_closed : ℕ → DeviceGrant → Bool
is_closed now g = after now g.expires || not (g.user_key == "") || g.denied

abbrev pub open_grant : ℕ → Option DeviceGrant → Option DeviceGrant
open_grant now none = none
open_grant now (some g) = if is_closed now g then none else some g

-- `pending`
unfoldable pub pending : String → ℕ → DeviceFlows → Option DeviceGrant
unfolding named
pending user now d = open_grant now (named user d)

-- The grant behind the pointer is written back.
unfoldable pub set_grant : String → DeviceGrant → DeviceFlows → DeviceFlows
unfolding put
set_grant hash g d = record d { by_device = put hash g d.by_device }

abbrev pub answered : String → Bool → DeviceGrant → DeviceGrant
answered key approve g = if approve then record g { user_key = key } else record g { denied = true }

unfoldable pub decide_found :
    String → String → Bool → DeviceFlows → Option DeviceGrant → DeviceFlows × Bool
unfolding set_grant text_at
decide_found user key approve d none = (d, false)
decide_found user key approve d (some g) =
    (set_grant (text_at user d.by_user) (answered key approve g) d, true)

-- `decide`
unfoldable pub decide_grant : String → String → Bool → ℕ → DeviceFlows → DeviceFlows × Bool
unfolding pending decide_found
decide_grant user key approve now d = decide_found user key approve d (pending user now d)

-- The error code of RFC 8628, or the grant of the account that approved.
pub data Polled : Type 0 where
  told : String → Polled
  granted : DeviceGrant → Polled

-- now.Sub(grant.lastPoll) < grant.interval; the time before the first poll is long past.
abbrev pub too_fast : ℕ → DeviceGrant → Bool
too_fast now g = elim g.last_poll [ none ↦ false | some t ↦ ltb now (t + g.interval) ]

abbrev pub slowed : ℕ → DeviceGrant → DeviceGrant
slowed now g = record g { interval = g.interval + 5 * second; last_poll = some now }

abbrev pub seen_at : ℕ → DeviceGrant → DeviceGrant
seen_at now g = record g { last_poll = some now }

-- The case of `poll` in which nobody has answered.
abbrev pub polled_waiting : String → ℕ → DeviceGrant → DeviceFlows → DeviceFlows × Polled
unfolding set_grant
polled_waiting hash now g d =
    if too_fast now g
    then (set_grant hash (slowed now g) d, told "slow_down")
    else (set_grant hash (seen_at now g) d, told "authorization_pending")

abbrev pub polled : String → ℕ → DeviceFlows → Option DeviceGrant → DeviceFlows × Polled
unfolding forget set_grant
polled hash now d none = (d, told "invalid_grant")
polled hash now d (some g) =
    if after now g.expires
    then (forget hash g d, told "expired_token")
    else if g.denied
    then (forget hash g d, told "access_denied")
    else if g.user_key == ""
    then polled_waiting hash now g d
    else (forget hash g d, granted g)

-- `poll`, for a device code with this hash.
unfoldable pub poll : String → ℕ → DeviceFlows → DeviceFlows × Polled
unfolding polled get
poll hash now d = polled hash now d (get hash d.by_device)
