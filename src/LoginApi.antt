-- ===== src/LoginApi.antt =====
-- hub/internal/server/device.go: the handlers. What `require` finds of the caller,
-- the decoded body (`none` if it does not decode), the time, the random texts and the hashes are
-- arguments, and so is the test `is_print` on code points. A response is its status with its
-- message or its content. Where `require` refuses (it has
-- several refusals) or a body does not decode, the text of the response is not modelled: the one
-- written stands for all of them.
pub mod Granted
pub mod Answers
pub mod Decided
pub mod Described
use Prim.Native.Char.{code}
use Prim.Native.String.{String, char_at}
use swift_proof.Prelude.{
  Bool, List, Option, eqb, false, if◌then◌else◌, ltb, none, not, some, true, ℕ, ◌==◌, ◌||◌,
}
use swift_proof.Prelude.Dict.{get}
use swift_proof.Limiter.{MapOrder, WindowLimiter, allow}
use swift_proof.Words.{fields, spaced}
use swift_proof.UserCode.{first, join, normalize_user_code}
use swift_proof.Devices.{
  DeviceFlows, DeviceGrant, Polled, Started, begun, decide_grant, device_full, granted, pending,
  poll, random_failed, refused, start, told,
}
use swift_proof.Tokens.{
  Accounts, AgentToken, Issued, User, issue_agent_token, issued, rejected, scope_llm,
  too_many_tokens, unknown_user,
}

-- `maxDeviceClient`
abbrev pub max_device_client : ℕ
max_device_client = 60

-- `deviceTokenDays`
abbrev pub device_token_days : ℕ
device_token_days = 90

-- A space for each character that is not printable.
unfoldable pub printable : (ℕ → Bool) → String → String
printable is_print String.[] = ""
printable is_print (String.◌∷◌ c s) =
    String.◌∷◌ (if is_print (code c) then c else char_at " " 0) (printable is_print s)

-- `deviceClient`; the loop that drops the last rune while there are more than 60 is `first`.
unfoldable pub device_client : (ℕ → Bool) → String → String
unfolding printable fields spaced first
device_client is_print raw =
    let client = first max_device_client (spaced (fields (printable is_print raw))) in
    if client == "" then "Probe CLI" else client

-- The state of the server that these handlers use.
pub record Server : Type 0 where
  pub gateway_enabled : Bool
  pub codes : WindowLimiter
  pub lookups : WindowLimiter
  pub devices : DeviceFlows
  pub accounts : Accounts

pub data Response : Type 0 where
  fails : ℕ → String → Response
  shows_code : String → Response
  shows_token : AgentToken → User → Response
  shows_request : String → DeviceGrant → Response
  shows_status : String → Response
  creates : AgentToken → Response

-- Who `require` finds signed in, and whether through an agent token.
pub record Caller : Type 0 where
  pub user_key : String
  pub is_agent : Bool

abbrev pub too_many_logins : Response
too_many_logins = fails 429 "too many logins in progress; try again in a minute"

abbrev pub unknown_code : Response
unknown_code = fails 404 "unknown or expired code: run probe login again"

abbrev pub with_devices : Server → DeviceFlows → Server
with_devices s d = record s { devices = d }

abbrev pub started_response : Server → DeviceFlows × Started → Server × Response
started_response s (d, refused random_failed) =
    (with_devices s d, fails 500 "could not start the login")
started_response s (d, refused device_full) = (with_devices s d, too_many_logins)
started_response s (d, begun user) = (with_devices s d, shows_code user)

-- `requireBrowser`, for the caller that `require` found.
abbrev pub in_browser : Option Caller → Server → (Caller → Server × Response) → Server × Response
in_browser none s act = (s, fails 401 "sign in to continue")
in_browser (some c) s act =
    if c.is_agent then (s, fails 403 "logins are approved from the dashboard") else act c

abbrev pub decided_response : Server → Bool → DeviceFlows × Bool → Server × Response
decided_response s approve (d, false) = (with_devices s d, unknown_code)
decided_response s approve (d, true) =
    (with_devices s d, shows_status (if approve then "approved" else "denied"))

unfoldable pub decide_login : Option (String × Bool) → ℕ → Server → Caller → Server × Response
unfolding normalize_user_code decide_grant
decide_login none now s c = (s, fails 400 "the body does not decode")
decide_login (some (typed, approve)) now s c =
    let user = normalize_user_code typed in
    if user == ""
    then (s, unknown_code)
    else decided_response s approve (decide_grant user c.user_key approve now s.devices)

-- `handleDeviceDecide`
unfoldable pub handle_device_decide :
    Option Caller → Option (String × Bool) → ℕ → Server → Server × Response
unfolding decide_login
handle_device_decide caller body now s = in_browser caller s (decide_login body now s)

module _ (order : MapOrder) (is_print : ℕ → Bool) where
  -- `handleDeviceCode` past the limiter.
  unfoldable pub begin_login :
      String → ℕ → List (List ℕ) → Option String → Server → Server × Response
  unfolding start device_client
  begin_login hash now draws none s = (s, fails 400 "the body does not decode")
  begin_login hash now draws (some client) s =
      started_response s (start hash (device_client is_print client) now draws s.devices)

  -- `handleDeviceCode`
  unfoldable pub handle_device_code :
      String → ℕ → List (List ℕ) → Option String → Server → Server × Response
  unfolding begin_login allow
  handle_device_code hash now draws body s =
      let (codes, allowed) = allow order now "code" s.codes in
      if not s.gateway_enabled
      then (s, fails 404 "this deployment does not lend its LLM")
      else if allowed
      then begin_login hash now draws body (record s { codes = codes })
      else (record s { codes = codes }, too_many_logins)

  abbrev pub shown_request : Server → String → Option DeviceGrant → Server × Response
  shown_request s user none = (s, unknown_code)
  shown_request s user (some g) =
      if user == "" then (s, unknown_code) else (s, shows_request user g)

  unfoldable pub look_up : String → ℕ → Server → Caller → Server × Response
  unfolding allow normalize_user_code pending
  look_up typed now s c =
      let (lookups, allowed) = allow order now c.user_key s.lookups in
      let s' = record s { lookups = lookups } in
      let user = normalize_user_code typed in
      if allowed
      then shown_request s' user (pending user now s.devices)
      else (s', fails 429 "too many codes tried; wait a minute")

  -- `handleDeviceLookup`
  unfoldable pub handle_device_lookup : Option Caller → String → ℕ → Server → Server × Response
  unfolding look_up
  handle_device_lookup caller typed now s = in_browser caller s (look_up typed now s)

abbrev pub token_response : Server → User → Accounts × Issued → Server × Response
token_response s u (a, rejected unknown_user) =
    (record s { accounts = a }, fails 500 "could not issue the token")
token_response s u (a, rejected too_many_tokens) = (
  record s { accounts = a },
  fails 409 "this account already has 20 agent tokens; revoke one in the hub first",
)
token_response s u (a, issued t) = (record s { accounts = a }, shows_token t u)

abbrev pub login_name : DeviceGrant → String
login_name g = join "probe login: " g.client

-- `handleDeviceToken` for an account that approved.
abbrev pub issue_login :
    String → String → ℕ → DeviceGrant → Server → Option User → Server × Response
unfolding issue_agent_token
issue_login id hash now g s none = (s, fails 400 "access_denied")
issue_login id hash now g s (some u) =
    token_response s u (
      issue_agent_token id hash u.key (login_name g) scope_llm device_token_days true now
        s.accounts)

abbrev pub polled_response : String → String → ℕ → Server → DeviceFlows × Polled → Server × Response
unfolding issue_login
polled_response id hash now s (d, told error) = (with_devices s d, fails 400 error)
polled_response id hash now s (d, granted g) =
    issue_login id hash now g (with_devices s d) (get g.user_key s.accounts)

-- `handleDeviceToken`; the body is the length of the device code in bytes and its hash.
unfoldable pub handle_device_token :
    String → String → Option (ℕ × String) → ℕ → Server → Server × Response
unfolding polled_response poll
handle_device_token id hash none now s = (
  s,
  if s.gateway_enabled
      then fails 400 "invalid_request"
      else fails 404 "this deployment does not lend its LLM",
)
handle_device_token id hash (some (size, device)) now s =
    if not s.gateway_enabled
    then (s, fails 404 "this deployment does not lend its LLM")
    else if eqb size 0 || ltb 128 size
    then (s, fails 400 "invalid_request")
    else polled_response id hash now s (poll device now s.devices)
