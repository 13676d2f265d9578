-- ===== src/Tokens/Scoped.antt =====
-- What a token stands for, from its issue to its end.
use swift_proof.Prelude.{
  Bool, Bool-cases, List, Member, Option, String, [], ap, arith, false, filter, if◌then◌else◌, inl,
  inr, leb, length, none, refl, some, some-injective, subst, sym, text_eq, text_refl, true, ℕ, ◌++◌,
  ◌<◌, ◌==◌, ◌∷◌, ◌≡◌, ◌⊎◌,
}
use swift_proof.Prelude.Dict.{get, get-put, put}
use mathlib.Core.Logic.{⊎_elim}
use swift_proof.Tokens.{
  Accounts, AgentPrincipal, AgentToken, Issued, User, authenticate_agent, authenticate_user,
  authenticated, find_token, is_expired, issue_agent_token, issue_for, issued, issued_on,
  kept_tokens, max_agent_tokens, new_record, principal, rejected, update_tokens,
}

-- Every list that a filter leaves passes it.
pub filter-passes :
    {A : Type 0} (p : A → Bool) (xs : List A) (x : A) → Member x (filter p xs) → p x ≡ true
filter-passes p [] x m = absurd m
filter-passes p (y ∷ ys) x m = elim (Bool-cases (p y)) [
  | inl in_it ↦ ⊎_elim (λ e. subst (λ z. p z ≡ true) e in_it) (filter-passes p ys x) (rw in_it at m)
  | inr out ↦ filter-passes p ys x (rw out at m)
]

found_more :
    (b : Bool) (hash : String) (found : Option AgentToken) (s t : AgentToken) (ts : List AgentToken)
    → (b ≡ true → s.hash ≡ hash)
    → ((if b then some s else found) ≡ some t) ⊎ Member t ts × (t.hash ≡ hash)
    → (found ≡ some t) ⊎ Member t (s ∷ ts) × (t.hash ≡ hash)
found_more true hash found s t ts same (inl e) = inr (
  inl (some-injective _ _ e),
  subst (λ (z : AgentToken). z.hash ≡ hash) (some-injective _ _ e) (same refl),
)
found_more false hash found s t ts same (inl e) = inl e
found_more b hash found s t ts same (inr (m, e)) = inr (inr m, e)

find_token-Member :
    (hash : String) (found : Option AgentToken) (ts : List AgentToken) (t : AgentToken)
    → find_token hash found ts ≡ some t
    → (found ≡ some t) ⊎ Member t ts × (t.hash ≡ hash)
unfolding find_token
find_token-Member hash found [] t e = inl e
find_token-Member hash found (s ∷ ts) t e =
    found_more (s.hash == hash) hash found s t ts (text_eq s.hash hash).0
      (find_token-Member hash (if s.hash == hash then some s else found) ts t e)

find_token-last :
    (hash : String) (found : Option AgentToken) (ts : List AgentToken) (t : AgentToken)
    → t.hash ≡ hash
    → find_token hash found (ts ++ t ∷ []) ≡ some t
unfolding find_token
find_token-last hash found [] t e = rw (e, text_refl hash) refl
find_token-last hash found (s ∷ ts) t e =
    find_token-last hash (if s.hash == hash then some s else found) ts t e

-- A live token with the hash that an account of the store holds.
unfoldable pub Holds : String → ℕ → Accounts → String → User → AgentToken → Type 0
Holds hash now accounts key u t =
    (get key accounts ≡ some u)
    × Member t u.agent_tokens
    × (t.hash ≡ hash)
    × (is_expired now t.expires_at ≡ false)

authenticated-some :
    (now : ℕ) (u : User) (accounts : Accounts) (o : Option AgentToken) (p : AgentPrincipal)
    → (authenticated now u accounts o).1 ≡ some p
    → (t : AgentToken) × (o ≡ some t) × (is_expired now t.expires_at ≡ false) × (principal u t ≡ p)
unfolding authenticated
authenticated-some now u accounts none p e = cc
authenticated-some now u accounts (some t) p e = elim (Bool-cases (is_expired now t.expires_at)) [
  | inl over ↦ cc (rw over at e)
  | inr alive ↦ (t, refl, alive, some-injective _ _ (rw alive at e))
]

authenticate_user-some :
    (hash key : String) (now : ℕ) (accounts : Accounts) (o : Option User) (p : AgentPrincipal)
    → get key accounts ≡ o
    → (authenticate_user hash now accounts o).1 ≡ some p
    → (u : User) × (t : AgentToken) × Holds hash now accounts key u t × (principal u t ≡ p)
unfolding authenticate_user Holds
authenticate_user-some hash key now accounts none p q e = cc
authenticate_user-some hash key now accounts (some u) p q e =
    let (t, found, alive, same) =
      authenticated-some now u accounts (find_token hash none u.agent_tokens) p e in
    let (m, here) = only_member t (find_token-Member hash none u.agent_tokens t found) in
    (u, t, (q, m, here, alive), same)
  where
    only_member :
        (t : AgentToken)
        → (none ≡ some t) ⊎ Member t u.agent_tokens × (t.hash ≡ hash)
        → Member t u.agent_tokens × (t.hash ≡ hash)
    only_member t (inl no_one) = cc
    only_member t (inr m) = m

-- Whoever is authenticated stands for an account of the store that a token text names and that
-- holds an unexpired token with its hash: the scope, the id and the signature are that token's.
pub authenticate_agent-Holds :
    (named : Option String) (hash : String) (now : ℕ) (accounts : Accounts) (p : AgentPrincipal)
    → (authenticate_agent named hash now accounts).1 ≡ some p
    → (key : String) × (u : User) × (t : AgentToken) × (named ≡ some key)
      × Holds hash now accounts key u t
      × (principal u t ≡ p)
unfolding authenticate_agent
authenticate_agent-Holds none hash now accounts p e = cc
authenticate_agent-Holds (some key) hash now accounts p e =
    let (u, t, held, same) =
      authenticate_user-some hash key now accounts (get key accounts) p refl e in
    (key, u, t, refl, held, same)

-- What an issue that succeeds leaves.
pub record IsIssued (key : String) (t : AgentToken) (replace : Bool) (now : ℕ) (a b : Accounts)
    : Type 0 where
  pub holder : User
  pub was_there : get key a ≡ some holder
  pub room : length (kept_tokens t.name t.scope replace now holder.agent_tokens) < max_agent_tokens
  pub left :
      b
      ≡ put key
          (update_tokens
            (kept_tokens t.name t.scope replace now holder.agent_tokens ++ t ∷ [])
            holder)
          a

pub issue_for-issued :
    (key : String) (r t : AgentToken) (replace : Bool) (now : ℕ) (a : Accounts) (o : Option User)
    → get key a ≡ o
    → (issue_for key r replace now a o).1 ≡ issued t
    → (r ≡ t) × IsIssued key r replace now a (issue_for key r replace now a o).0
unfolding issue_for issued_on
issue_for-issued key r t replace now a none q e = cc
issue_for-issued key r t replace now a (some u) q e =
    elim (Bool-cases
      (leb max_agent_tokens (length (kept_tokens r.name r.scope replace now u.agent_tokens)))) [
        | inl full ↦ cc (rw full at e)
        | inr free ↦ rw free (
          issued_same (rw free at e),
          record { holder = u; was_there = q; room = ground (arith, free); left = refl },
        )
      ]
  where
    token_or : Issued → AgentToken
    token_or (issued s) = s
    token_or (rejected x) = r

    issued_same : issued r ≡ issued t → r ≡ t
    issued_same h = ap token_or h

authenticated-last :
    (hash : String) (now : ℕ) (u : User) (ts : List AgentToken) (t : AgentToken)
    (accounts : Accounts)
    → t.hash ≡ hash
    → is_expired now t.expires_at ≡ false
    → (authenticate_user hash now accounts (some (update_tokens (ts ++ t ∷ []) u))).1
      ≡ some (principal u t)
unfolding authenticate_user authenticated principal
authenticated-last hash now u ts t accounts e alive =
    rw (find_token-last hash none ts t e, alive) refl

authenticate-issued :
    (key : String) (r : AgentToken) (replace : Bool) (now later : ℕ) (a b : Accounts)
    → IsIssued key r replace now a b
    → is_expired later r.expires_at ≡ false
    → (u : User) × (get key a ≡ some u)
      × ((authenticate_agent (some key) r.hash later b).1 ≡ some (principal u r))
unfolding authenticate_agent
authenticate-issued key r replace now later a b i alive =
    let ts = kept_tokens r.name r.scope replace now i.holder.agent_tokens in
    (
      i.holder,
      i.was_there,
      rw (i.left, get-put, text_refl key)
          (authenticated-last r.hash later i.holder ts r _ refl alive),
    )

-- A token that was issued is accepted, until it expires, for the account that it was issued to and
-- with the scope that was asked for.
pub issue-authenticate :
    (id hash key name scope : String) (days : ℕ) (replace : Bool) (now later : ℕ) (a : Accounts)
    (t : AgentToken)
    → (issue_agent_token id hash key name scope days replace now a).1 ≡ issued t
    → is_expired later t.expires_at ≡ false
    → (t.scope ≡ scope)
      × ((u : User) × (get key a ≡ some u)
          × ((authenticate_agent
                (some key)
                hash
                later
                (issue_agent_token id hash key name scope days replace now a).0).1
              ≡ some (principal u t)))
unfolding issue_agent_token
issue-authenticate id hash key name scope days replace now later a t e alive =
    let r = new_record id hash name scope days now in
    let (same, i) = issue_for-issued key r t replace now a (get key a) refl e in
    (
      ap (λ (x : AgentToken). x.scope) (sym same),
      subst
          (λ (x : AgentToken).
            (u : User) × (get key a ≡ some u)
            × ((authenticate_agent (some key) hash later
                  (issue_for key r replace now a (get key a)).0).1
                ≡ some (principal u x)))
          same
          (authenticate-issued key r replace now later a _ i
            (subst (λ (x : AgentToken). is_expired later x.expires_at ≡ false) (sym same) alive)),
    )
