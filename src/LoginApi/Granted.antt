-- ===== src/LoginApi/Granted.antt =====
-- What the handlers do to the logins, and what a response with a token stands for.
use Prim.Native.String.{String}
use swift_proof.Prelude.{
  Bool, List, Member, Option, [], ap, arith, eqb, false, if◌then◌else◌, inl, inr, ltb, none, not,
  refl, some, subst, sym, text_eq, text_refl, true, ℕ, ◌++◌, ◌||◌, ◌∙◌, ◌∷◌, ◌≡◌, ◌≢◌, ◌≤◌,
}
use swift_proof.Prelude.Dict.{get, get-put}
use swift_proof.Devices.{DeviceFlows, DeviceGrant, Polled, granted, poll, told}
use swift_proof.Devices.Runs.{Event, Run}
use swift_proof.Devices.Runs.History.{ApprovedSince, granted-ApprovedSince, poll-granted}
use swift_proof.Tokens.{
  Accounts, AgentToken, Issued, User, issue_agent_token, issued, kept_tokens, new_record, rejected,
  scope_llm, too_many_tokens, unknown_user, update_tokens,
}
use swift_proof.Tokens.Scoped.{IsIssued, issue_for-issued}
use swift_proof.LoginApi.{
  Response, Server, creates, device_token_days, fails, handle_device_token, issue_login, login_name,
  polled_response, shows_code, shows_request, shows_status, shows_token, token_response,
  with_devices,
}

-- What a token that the hub hands to a client stands for: `device` is the hash that the client
-- sent, and `grant` the request that it named.
pub record IsDelivered (es : List Event) (id hash : String) (body : Option (ℕ × String)) (now : ℕ)
    (s s' : Server) (t : AgentToken) (u : User) : Type 0 where
  pub size : ℕ
  pub device : String
  pub grant : DeviceGrant
  pub holder : User
  pub sent : body ≡ some (size, device)
  pub requested : get device s.devices.by_device ≡ some grant
  pub lent : s.gateway_enabled ≡ true
  pub approved : ApprovedSince device grant.user_code grant.user_key es
  pub allowed : grant.denied ≡ false
  pub in_time : now ≤ grant.expires
  pub account : get grant.user_key s.accounts ≡ some u
  pub token : t ≡ new_record id hash (login_name grant) scope_llm device_token_days now
  pub held : get u.key s'.accounts ≡ some holder
  pub listed : Member t holder.agent_tokens
  pub others : (k : String) → u.key ≢ k → get k s'.accounts ≡ get k s.accounts
  pub gone : get device s'.devices.by_device ≡ none

shown_token : AgentToken → Response → AgentToken
shown_token x (shows_token t u) = t
shown_token x (fails n m) = x
shown_token x (shows_code c) = x
shown_token x (shows_request c g) = x
shown_token x (shows_status c) = x
shown_token x (creates t) = x

shown_user : User → Response → User
shown_user x (shows_token t u) = u
shown_user x (fails n m) = x
shown_user x (shows_code c) = x
shown_user x (shows_request c g) = x
shown_user x (shows_status c) = x
shown_user x (creates t) = x

token_response-shown :
    (s : Server) (u : User) (r : Accounts × Issued) (t : AgentToken) (v : User)
    → (token_response s u r).1 ≡ shows_token t v
    → (r.1 ≡ issued t) × (u ≡ v) × ((token_response s u r).0 ≡ record s { accounts = r.0 })
unfolding shown_token shown_user
token_response-shown s u (a, rejected unknown_user) t v e = cc
token_response-shown s u (a, rejected too_many_tokens) t v e = cc
token_response-shown s u (a, issued x) t v e =
    (ap (λ r. issued (shown_token x r)) e, ap (shown_user u) e, refl)

Member-last : (t : AgentToken) (ts : List AgentToken) → Member t (ts ++ t ∷ [])
Member-last t [] = inl refl
Member-last t (s ∷ ts) = inr (Member-last t ts)

-- The store after a token was issued: the account holds it, and no other account changed.
record IsStored (key : String) (t : AgentToken) (a b : Accounts) : Type 0 where
  holder : User
  held : get key b ≡ some holder
  listed : Member t holder.agent_tokens
  others : (k : String) → key ≢ k → get k b ≡ get k a

IsIssued-IsStored :
    (key : String) (t : AgentToken) (replace : Bool) (now : ℕ) (a b : Accounts)
    → IsIssued key t replace now a b
    → IsStored key t a b
IsIssued-IsStored key t replace now a b i =
    let ts = kept_tokens t.name t.scope replace now i.holder.agent_tokens in
    let u = update_tokens (ts ++ t ∷ []) i.holder in
    record {
      holder = u;
      held = ap (get key) i.left ∙ ground (arith, get-put key key u a, text_refl key);
      listed = Member-last t ts;
      others = λ k apart. ap (get k) i.left ∙ ground (arith, get-put key k u a, text_eq key k);
    }

-- What the answer to an account that approved leaves.
record IsGiven (id hash : String) (now : ℕ) (g : DeviceGrant) (s s' : Server) (t : AgentToken)
    (v : User) : Type 0 where
  token : t ≡ new_record id hash (login_name g) scope_llm device_token_days now
  stored : IsStored v.key t s.accounts s'.accounts
  kept : s'.devices ≡ s.devices

issue_login-shown :
    (id hash : String) (now : ℕ) (g : DeviceGrant) (s : Server) (o : Option User) (t : AgentToken)
    (v : User)
    → (issue_login id hash now g s o).1 ≡ shows_token t v
    → (o ≡ some v) × IsGiven id hash now g s (issue_login id hash now g s o).0 t v
unfolding issue_login issue_agent_token
issue_login-shown id hash now g s none t v e = cc
issue_login-shown id hash now g s (some u) t v e =
    let (made, same, left) = token_response-shown s u _ t v e in
    let (r, i) = issue_for-issued u.key _ t true now s.accounts (get u.key s.accounts) refl made in
    let stored_after =
      (issue_agent_token id hash u.key (login_name g) scope_llm device_token_days true now
        s.accounts).0 in
    let stored = IsIssued-IsStored u.key _ true now s.accounts _ i in
    (
      ap some same,
      subst (λ (y : Server). IsGiven id hash now g s y t v) (sym left)
          (record {
            token = sym r;
            stored =
                subst (λ (w : User). IsStored w.key t s.accounts stored_after) same
                  (subst (λ (x : AgentToken). IsStored u.key x s.accounts stored_after) r stored);
            kept = refl;
          }),
    )

polled_response-shown :
    (id hash device : String) (now : ℕ) (s : Server) (d : DeviceFlows) (r : Polled) (t : AgentToken)
    (v : User)
    → (polled_response id hash now s (d, r)).1 ≡ shows_token t v
    → (g : DeviceGrant) × (r ≡ granted g)
      × (get g.user_key s.accounts ≡ some v)
      × IsGiven id hash now g (with_devices s d) (polled_response id hash now s (d, r)).0 t v
unfolding polled_response
polled_response-shown id hash device now s d (told x) t v e = cc
polled_response-shown id hash device now s d (granted g) t v e =
    let (account, given) =
      issue_login-shown id hash now g (with_devices s d) (get g.user_key s.accounts) t v e in
    (g, refl, account, given)

delivered :
    (es : List Event) (id hash : String) (size : ℕ) (device : String) (now : ℕ) (s : Server)
    (t : AgentToken) (v : User)
    → Run es s.devices
    → s.gateway_enabled ≡ true
    → (polled_response id hash now s (poll device now s.devices)).1 ≡ shows_token t v
    → IsDelivered es id hash
        (some (size, device))
        now
        s
        (polled_response id hash now s (poll device now s.devices)).0
        t
        v
delivered es id hash size device now s t v r lent e =
    let p = poll device now s.devices in
    let (g, handed, account, given) = polled_response-shown id hash device now s p.0 p.1 t v e in
    let (approved, alive, allowed, gone) =
      granted-ApprovedSince es s.devices device now g r handed in
    record {
      size = size;
      device = device;
      grant = g;
      holder = given.stored.holder;
      sent = refl;
      requested = (poll-granted device now s.devices g handed).0;
      lent = lent;
      approved = approved;
      allowed = allowed;
      in_time = alive;
      account = account;
      token = given.token;
      held = given.stored.held;
      listed = given.stored.listed;
      others = given.stored.others;
      gone = ap (λ (d : DeviceFlows). get device d.by_device) given.kept ∙ gone;
    }

-- A response with a token comes from behind the guards.
past_guards :
    (lent bad : Bool) (s : Server) (x : Server × Response) (t : AgentToken) (u : User)
    → (if not lent
        then (s, fails 404 "this deployment does not lend its LLM")
        else if bad
        then (s, fails 400 "invalid_request")
        else x).1
      ≡ shows_token t u
    → (lent ≡ true)
      × ((if not lent
            then (s, fails 404 "this deployment does not lend its LLM")
            else if bad
            then (s, fails 400 "invalid_request")
            else x)
          ≡ x)
past_guards true true s x t u e = cc
past_guards true false s x t u e = (refl, refl)
past_guards false bad s x t u e = cc

-- A client that receives a token, after any history of the logins, sent the device code of a
-- request that was pending, that the account of its user key approved since its device code was
-- issued, that was not denied and that has not expired. The token is a new one of scope llm for 90
-- days, named after the client of the request; the account holds it, no other account changed, and
-- the request is gone. A hub that lends no LLM hands out none.
pub handle_device_token-IsDelivered :
    (es : List Event) (id hash : String) (body : Option (ℕ × String)) (now : ℕ) (s : Server)
    (t : AgentToken) (u : User)
    → Run es s.devices
    → (handle_device_token id hash body now s).1 ≡ shows_token t u
    → IsDelivered es id hash body now s (handle_device_token id hash body now s).0 t u
unfolding handle_device_token
handle_device_token-IsDelivered es id hash none now s t u r e =
    absurd (no_token s.gateway_enabled e)
  where
    no_token :
        (b : Bool)
        → (if b
            then fails 400 "invalid_request"
            else fails 404 "this deployment does not lend its LLM")
          ≡ shows_token t u
        → ⊥
    no_token true q = cc
    no_token false q = cc
handle_device_token-IsDelivered es id hash (some (size, device)) now s t u r e =
    let x = polled_response id hash now s (poll device now s.devices) in
    let (lent, same) = past_guards s.gateway_enabled (eqb size 0 || ltb 128 size) s x t u e in
    subst (λ (y : Server × Response). IsDelivered es id hash (some (size, device)) now s y.0 t u)
      (sym same)
      (delivered es id hash size device now s t u r lent
        (ap (λ (y : Server × Response). y.1) (sym same) ∙ e))
