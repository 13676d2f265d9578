-- ===== src/TokenApi/Revoked.antt =====
-- A token that was revoked.
use swift_proof.Prelude.{
  Bool-cases, Member, Option, String, ap, false, inl, inr, none, refl, some, some-injective, subst,
  sym, text_refl, ℕ, ◌==◌, ◌∙◌, ◌≡◌,
}
use swift_proof.Prelude.Dict.{get, get-put}
use swift_proof.Tokens.{
  Accounts, AgentPrincipal, User, authenticate_agent, delete_token, principal, update_tokens,
}
use swift_proof.Tokens.Scoped.{Holds, authenticate_agent-Holds}
use swift_proof.Tokens.Limited.{delete_token-gone}
use swift_proof.LoginApi.{Caller, Server, shows_status}
use swift_proof.TokenApi.{deleted_response, handle_delete_token}

deleted-get :
    (key id : String) (s : Server) (o : Option User) (x : String)
    → (deleted_response key s o id).1 ≡ shows_status x
    → (u : User) × (get key (deleted_response key s o id).0.accounts
        ≡ some (update_tokens (delete_token id u.agent_tokens).0 u))
unfolding deleted_response
deleted-get key id s none x e = cc
deleted-get key id s (some u) x e = (u, rw (get-put, text_refl key) refl)

revoked :
    (key id hash : String) (now : ℕ) (a : Accounts) (u : User) (p : AgentPrincipal)
    → get key a ≡ some (update_tokens (delete_token id u.agent_tokens).0 u)
    → (authenticate_agent (some key) hash now a).1 ≡ some p
    → (p.id == id) ≡ false
unfolding Holds principal
revoked key id hash now a u p q e =
    let (k, v, t, named, (found, m, same, alive), is_p) =
      authenticate_agent-Holds (some key) hash now a p e in
    let v_is = some-injective _ _ (sym q ∙ ap (λ j. get j a) (some-injective _ _ named) ∙ found) in
    subst (λ (y : AgentPrincipal). (y.id == id) ≡ false) is_p
      ((delete_token-gone id u.agent_tokens).0 t
        (subst (λ (w : User). Member t w.agent_tokens) (sym v_is) m))

-- After the dashboard's caller has revoked a token, no text is accepted as a token with its id for
-- that account.
pub handle_delete_token-revokes :
    (c : Caller) (id hash : String) (now : ℕ) (s : Server) (x : String) (p : AgentPrincipal)
    → (handle_delete_token (some c) id s).1 ≡ shows_status x
    → (authenticate_agent
        (some c.user_key)
        hash
        now
        (handle_delete_token (some c) id s).0.accounts).1
      ≡ some p
    → (p.id == id) ≡ false
unfolding handle_delete_token
handle_delete_token-revokes c id hash now s x p e q = elim (Bool-cases c.is_agent) [
  | inl agent ↦ cc (rw agent at e)
  | inr free ↦
      let (u, left) = deleted-get c.user_key id s (get c.user_key s.accounts) x (rw free at e) in
      revoked c.user_key id hash now _ u p left (rw free at q)
]
