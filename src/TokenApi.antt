-- ===== src/TokenApi.antt =====
-- hub/internal/server/tokens.go: the handlers that create and revoke tokens, as those of LoginApi. As
-- there, the text of the response where `require` refuses or a body does not decode is not modelled.
pub mod Revoked
use Prim.Native.String.{String}
use swift_proof.Prelude.{Bool, Option, false, if◌then◌else◌, ltb, none, not, some, ℕ, ◌&&◌, ◌==◌}
use swift_proof.Prelude.Dict.{get, put}
use swift_proof.Prelude.Int.{negsuc, pos, ℤ}
use swift_proof.UserCode.{text_length}
use swift_proof.Tokens.{
  Accounts, Issued, User, delete_token, issue_agent_token, issued, max_agent_token_days,
  max_agent_token_name, rejected, scope_llm, scope_read, scope_write, too_many_tokens, unknown_user,
  update_tokens,
}
use swift_proof.Words.{fields, spaced}
use swift_proof.LoginApi.{Caller, Response, Server, creates, fails, shows_status}

pub record TokenRequest : Type 0 where
  pub name : String
  pub scope : String
  pub expires : ℤ

-- The guards of `handleCreateToken`, in their order.
unfoldable pub refusal : Bool → String → String → ℤ → Option String
unfolding text_length
refusal gateway name scope expires =
    if name == ""
    then some "name the token, for example after the agent that uses it"
    else if ltb max_agent_token_name (text_length name)
    then some "the token name must be at most 80 characters"
    else if not (scope == scope_read) && (not (scope == scope_write) && not (scope == scope_llm))
    then some "scope must be \"read\", \"write\" or \"llm\""
    else if scope == scope_llm && not gateway
    then some "this deployment does not lend its LLM"
    else elim expires [
      | pos n ↦
          if ltb max_agent_token_days n
          then some "expires_days must be between 0 (never) and 366"
          else none
      | negsuc n ↦ some "expires_days must be between 0 (never) and 366"
    ]

abbrev pub nat_of : ℤ → ℕ
nat_of (pos n) = n
nat_of (negsuc n) = 0

abbrev pub created_response : Server → Accounts × Issued → Server × Response
created_response s (a, rejected unknown_user) =
    (record s { accounts = a }, fails 500 "could not store the token")
created_response s (a, rejected too_many_tokens) = (
  record s { accounts = a },
  fails 409 "this account already has 20 agent tokens; revoke one first",
)
created_response s (a, issued t) = (record s { accounts = a }, creates t)

abbrev pub create_with :
    String
    → String
    → String
    → ℕ
    → TokenRequest
    → Server
    → Caller
    → Option String
    → Server × Response
unfolding issue_agent_token
create_with id hash name now q s c (some message) = (s, fails 400 message)
create_with id hash name now q s c none =
    created_response s
      (issue_agent_token id hash c.user_key name q.scope (nat_of q.expires) false now s.accounts)

-- `handleCreateToken`
unfoldable pub handle_create_token :
    String → String → Option Caller → Option TokenRequest → ℕ → Server → Server × Response
unfolding create_with refusal spaced fields
handle_create_token id hash none body now s = (s, fails 401 "sign in to continue")
handle_create_token id hash (some c) none now s = (
  s,
  if c.is_agent
      then fails 403 "agent tokens are managed from the dashboard"
      else fails 400 "the body does not decode",
)
handle_create_token id hash (some c) (some q) now s =
    let name = spaced (fields q.name) in
    if c.is_agent
    then (s, fails 403 "agent tokens are managed from the dashboard")
    else create_with id hash name now q s c (refusal s.gateway_enabled name q.scope q.expires)

abbrev pub deleted_response : String → Server → Option User → String → Server × Response
unfolding delete_token put
deleted_response key s none id = (s, fails 500 "could not revoke the token")
deleted_response key s (some u) id =
    let (ts, removed) = delete_token id u.agent_tokens in
    (
      record s { accounts = put key (update_tokens ts u) s.accounts },
      if removed then shows_status "revoked" else fails 404 "unknown token",
    )

-- `handleDeleteToken`
unfoldable pub handle_delete_token : Option Caller → String → Server → Server × Response
unfolding deleted_response get
handle_delete_token none id s = (s, fails 401 "sign in to continue")
handle_delete_token (some c) id s =
    if c.is_agent
    then (s, fails 403 "agent tokens are managed from the dashboard")
    else deleted_response c.user_key s (get c.user_key s.accounts) id
