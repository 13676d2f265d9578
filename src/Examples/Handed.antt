-- ===== src/Examples/Handed.antt =====
-- Accounts whose tokens are issued, used and revoked.
use Prim.Native.String.{String}
use swift_proof.Prelude.{[], false, leb, refl, some, true, ◌*◌, ◌==◌, ◌∷◌, ◌≡◌, ◌≢◌, ◌≤◌}
use swift_proof.Prelude.Dict.{get}
use swift_proof.UserCode.{join, text_length}
use swift_proof.Limiter.{WindowLimiter}
use swift_proof.Devices.{second}
use swift_proof.Tokens.{
  Accounts, AgentToken, User, authenticate_agent, issue_agent_token, new_record, principal,
  scope_llm,
}
use swift_proof.Tokens.Scoped.{Holds, authenticate_agent-Holds, issue-authenticate}
use swift_proof.Tokens.Limited.{IsSettled, issue-IsSettled}
use swift_proof.LoginApi.{
  Caller, Server, device_client, handle_device_decide, handle_device_token, max_device_client,
}
use swift_proof.LoginApi.Granted.{IsDelivered, handle_device_token-IsDelivered}
use swift_proof.LoginApi.Answers.{IsAnswered}
use swift_proof.LoginApi.Decided.{handle_device_decide-IsAnswered}
use swift_proof.LoginApi.Described.{device_client-bounds}
use swift_proof.TokenApi.{handle_delete_token}
use swift_proof.TokenApi.Revoked.{handle_delete_token-revokes}
use swift_proof.Examples.Logins.{approved-Run, approved_login, history, one_login}

abbrev laptop : AgentToken
laptop = new_record "id-1" "hash-1" "laptop" scope_llm 90 second

abbrev desktop : AgentToken
desktop = new_record "id-2" "hash-2" "desktop" scope_llm 0 second

abbrev ann : User
ann = record {
  key = "ann";
  provider = "github";
  login = "ann";
  agent_tokens = laptop ∷ desktop ∷ [];
}

abbrev accounts : Accounts
accounts = ("ann", ann) ∷ []

authenticate_agent-Holds_example :
    (key : String) × (u : User) × (t : AgentToken) × (some "ann" ≡ some key)
    × Holds "hash-1" (2 * second) accounts key u t
    × (principal u t ≡ principal ann laptop)
unfolding authenticate_agent
authenticate_agent-Holds_example =
    authenticate_agent-Holds (some "ann") "hash-1" (2 * second) accounts (principal ann laptop) refl

abbrev phone : AgentToken
phone = new_record "id-3" "hash-3" "phone" scope_llm 30 (5 * second)

issue-authenticate_example :
    (scope_llm ≡ scope_llm)
    × ((u : User) × (get "ann" accounts ≡ some u)
        × ((authenticate_agent
              (some "ann")
              "hash-3"
              (6 * second)
              (issue_agent_token "id-3" "hash-3" "ann" "phone" scope_llm 30 true
                (5 * second)
                accounts).0).1
            ≡ some (principal u phone)))
unfolding issue_agent_token
issue-authenticate_example =
    issue-authenticate "id-3" "hash-3" "ann" "phone" scope_llm 30 true (5 * second) (6 * second)
      accounts phone refl refl

issue-IsSettled_example :
    IsSettled "ann"
      (5 * second)
      accounts
      (issue_agent_token "id-3" "hash-3" "ann" "phone" scope_llm 30 true (5 * second) accounts).0
      (issue_agent_token "id-3" "hash-3" "ann" "phone" scope_llm 30 true (5 * second) accounts).1
issue-IsSettled_example =
    issue-IsSettled "id-3" "hash-3" "ann" "phone" scope_llm 30 true (5 * second) accounts

abbrev idle_limiter : WindowLimiter
idle_limiter = record { limit = 30; window = 60 * second; start = 0; counts = [] }

abbrev server : Server
server = record {
  gateway_enabled = true;
  codes = idle_limiter;
  lookups = idle_limiter;
  devices = approved_login;
  accounts = accounts;
}

abbrev login_token : AgentToken
login_token = new_record "id-4" "hash-4" "probe login: cli" scope_llm 90 (3 * second)

handle_device_token-IsDelivered_example :
    IsDelivered history "id-4" "hash-4"
      (some (43, "h1"))
      (3 * second)
      server
      (handle_device_token "id-4" "hash-4" (some (43, "h1")) (3 * second) server).0
      login_token
      ann
unfolding handle_device_token join
handle_device_token-IsDelivered_example =
    handle_device_token-IsDelivered history "id-4" "hash-4" (some (43, "h1")) (3 * second) server
      login_token ann approved-Run refl

abbrev browser : Caller
browser = record { user_key = "ann"; is_agent = false }

abbrev asked : Server
asked = record server { devices = one_login }

handle_device_decide-IsAnswered_example :
    IsAnswered
      (some browser)
      (some ("bcdf-ghjk", true))
      (2 * second)
      asked
      (handle_device_decide (some browser) (some ("bcdf-ghjk", true)) (2 * second) asked).0
      (handle_device_decide (some browser) (some ("bcdf-ghjk", true)) (2 * second) asked).1
unfolding handle_device_decide
handle_device_decide-IsAnswered_example =
    handle_device_decide-IsAnswered (some browser) (some ("bcdf-ghjk", true)) (2 * second) asked

handle_delete_token-revokes_example : ("id-2" == "id-1") ≡ false
unfolding handle_delete_token authenticate_agent principal
handle_delete_token-revokes_example =
    handle_delete_token-revokes browser "id-1" "hash-2" (2 * second) server "revoked"
      (principal ann desktop) refl refl

device_client-bounds_example :
    (text_length (device_client (λ c. leb 32 c) " my host ") ≤ max_device_client)
    × (device_client (λ c. leb 32 c) " my host " ≢ "")
device_client-bounds_example = device_client-bounds (λ c. leb 32 c) " my host "
