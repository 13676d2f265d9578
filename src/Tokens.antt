-- ===== src/Tokens.antt =====
-- hub/internal/server/tokens.go: the agent tokens of the accounts. A time counts nanoseconds. The
-- hashes and the random texts are arguments; `decode_key` stands for the base64 decoding of an
-- account's key and its check by the store.
pub mod Scoped
pub mod Limited
use swift_proof.Prelude.{
  Bool, List, Option, String, [], any, false, filter, if◌then◌else◌, leb, length, ltb, map, none,
  not, some, true, ℕ, ◌&&◌, ◌*◌, ◌++◌, ◌+◌, ◌==◌, ◌||◌, ◌∷◌,
}
use swift_proof.Prelude.Dict.{Dict, get, put}
use swift_proof.Devices.{after, second}
use swift_proof.UserCode.{join}

-- `maxAgentTokens`
abbrev pub max_agent_tokens : ℕ
max_agent_tokens = 20

-- `maxAgentTokenName`
abbrev pub max_agent_token_name : ℕ
max_agent_token_name = 80

-- `maxAgentTokenDays`
abbrev pub max_agent_token_days : ℕ
max_agent_token_days = 366

-- `lastUsedGranularity`
abbrev pub last_used_granularity : ℕ
last_used_granularity = 3600 * second

abbrev pub day : ℕ
day = 86400 * second

abbrev pub scope_read : String
scope_read = "read"

abbrev pub scope_write : String
scope_write = "write"

abbrev pub scope_llm : String
scope_llm = "llm"

-- `AgentToken`; a time that is zero in Go is `none`.
pub record AgentToken : Type 0 where
  pub id : String
  pub name : String
  pub scope : String
  pub hash : String
  pub created_at : ℕ
  pub expires_at : Option ℕ
  pub last_used_at : Option ℕ

-- What the handlers use of store.User.
pub record User : Type 0 where
  pub key : String
  pub provider : String
  pub login : String
  pub agent_tokens : List AgentToken

-- The accounts of the store, under their keys.
abbrev pub Accounts : Type 0
Accounts = Dict User

pub data TokenError : Type 0 where
  unknown_user too_many_tokens : TokenError

pub data Issued : Type 0 where
  rejected : TokenError → Issued
  issued : AgentToken → Issued

-- `UpdateUser` on a change that may fail: what it returns is stored under the key.
abbrev pub update_tokens : List AgentToken → User → User
update_tokens ts u = record u { agent_tokens = ts }

-- !t.ExpiresAt.IsZero() && !now.Before(t.ExpiresAt)
abbrev pub is_over : ℕ → Option ℕ → Bool
is_over now none = false
is_over now (some e) = leb e now

-- The tokens that the loop of `issueAgentToken` keeps.
abbrev pub makes_room : String → String → Bool → ℕ → AgentToken → Bool
makes_room name scope replace now t =
    is_over now t.expires_at || (replace && (t.name == name && t.scope == scope))

unfoldable pub kept_tokens : String → String → Bool → ℕ → List AgentToken → List AgentToken
kept_tokens name scope replace now = filter (λ t. not (makes_room name scope replace now t))

abbrev pub expiry : ℕ → ℕ → Option ℕ
expiry now days = if ltb 0 days then some (now + days * day) else none

abbrev pub new_record : String → String → String → String → ℕ → ℕ → AgentToken
new_record id hash name scope days now = record {
  id = id;
  name = name;
  scope = scope;
  hash = hash;
  created_at = now;
  expires_at = expiry now days;
  last_used_at = none;
}

-- The change that `issueAgentToken` makes to an account.
abbrev pub issued_on : AgentToken → Bool → ℕ → User → Option User
unfolding kept_tokens
issued_on t replace now u =
    let kept = kept_tokens t.name t.scope replace now u.agent_tokens in
    if leb max_agent_tokens (length kept) then none else some (update_tokens (kept ++ t ∷ []) u)

abbrev pub stored_issue : String → AgentToken → Accounts → Option User → Accounts × Issued
stored_issue key t accounts none = (accounts, rejected too_many_tokens)
stored_issue key t accounts (some u) = (put key u accounts, issued t)

abbrev pub issue_for : String → AgentToken → Bool → ℕ → Accounts → Option User → Accounts × Issued
unfolding issued_on put
issue_for key t replace now accounts none = (accounts, rejected unknown_user)
issue_for key t replace now accounts (some u) =
    stored_issue key t accounts (issued_on t replace now u)

-- `issueAgentToken`, for a token with this hash and an id.
unfoldable pub issue_agent_token :
    String → String → String → String → String → ℕ → Bool → ℕ → Accounts → Accounts × Issued
unfolding issue_for get
issue_agent_token id hash key name scope days replace now accounts =
    issue_for key (new_record id hash name scope days now) replace now accounts (get key accounts)

-- `agentPrincipal`
pub record AgentPrincipal : Type 0 where
  pub user_key : String
  pub login : String
  pub scope : String
  pub token : String
  pub id : String

-- The loop of `authenticateAgent`: the last token with the hash.
unfoldable pub find_token : String → Option AgentToken → List AgentToken → Option AgentToken
find_token hash found [] = found
find_token hash found (t ∷ ts) = find_token hash (if t.hash == hash then some t else found) ts

-- !found.ExpiresAt.IsZero() && now.After(found.ExpiresAt)
abbrev pub is_expired : ℕ → Option ℕ → Bool
is_expired now none = false
is_expired now (some e) = after now e

abbrev pub is_stale : ℕ → Option ℕ → Bool
is_stale now none = true
is_stale now (some t) = ltb (t + last_used_granularity) now

-- The change that records a use: each token with the id.
abbrev pub touch : String → ℕ → AgentToken → AgentToken
touch id now t = if t.id == id then record t { last_used_at = some now } else t

unfoldable pub principal : User → AgentToken → AgentPrincipal
unfolding join
principal u t = record {
  user_key = u.key;
  login = join u.login (join " (agent: " (join t.name ")"));
  scope = t.scope;
  token = t.name;
  id = t.id;
}

abbrev pub recorded_use : ℕ → AgentToken → User → Accounts → Accounts
unfolding put
recorded_use now t u accounts =
    if is_stale now t.last_used_at
    then put u.key (update_tokens (map (touch t.id now) u.agent_tokens) u) accounts
    else accounts

abbrev pub authenticated :
    ℕ → User → Accounts → Option AgentToken → Accounts × Option AgentPrincipal
unfolding recorded_use principal
authenticated now u accounts none = (accounts, none)
authenticated now u accounts (some t) =
    if is_expired now t.expires_at
    then (accounts, none)
    else (recorded_use now t u accounts, some (principal u t))

abbrev pub authenticate_user :
    String → ℕ → Accounts → Option User → Accounts × Option AgentPrincipal
unfolding authenticated find_token
authenticate_user hash now accounts none = (accounts, none)
authenticate_user hash now accounts (some u) =
    authenticated now u accounts (find_token hash none u.agent_tokens)

-- `authenticateAgent`, for a token with this hash that names an account.
unfoldable pub authenticate_agent :
    Option String → String → ℕ → Accounts → Accounts × Option AgentPrincipal
unfolding authenticate_user get
authenticate_agent none hash now accounts = (accounts, none)
authenticate_agent (some key) hash now accounts =
    authenticate_user hash now accounts (get key accounts)

-- The change of `handleDeleteToken`, and whether it removed a token.
unfoldable pub delete_token : String → List AgentToken → List AgentToken × Bool
delete_token id ts = (filter (λ t. not (t.id == id)) ts, any (λ t. t.id == id) ts)
