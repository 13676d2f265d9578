-- ===== src/Tokens/Limited.antt =====
-- The limits of an account's tokens, and their end.
use mathlib.Core.Logic.{⊎_elim}
use swift_proof.Prelude.{
  Bool, Bool-cases, List, Member, Option, String, [], any, arith, false, filter, inl, inr, leb,
  length, length-append, negated_true, none, not, or_none, refl, some, subst, sym, text_refl, ℕ,
  ◌++◌, ◌==◌, ◌∷◌, ◌≡◌, ◌≤◌, ◌⊎◌,
}
use swift_proof.Prelude.Dict.{get, get-put}
use swift_proof.Tokens.{
  Accounts, AgentToken, Issued, TokenError, User, delete_token, is_over, issue_agent_token,
  issue_for, issued, issued_on, kept_tokens, makes_room, max_agent_tokens, new_record, rejected,
  update_tokens,
}
use swift_proof.Tokens.Scoped.{IsIssued, filter-passes, issue_for-issued}

issue_for-rejected :
    (key : String) (r : AgentToken) (replace : Bool) (now : ℕ) (a : Accounts) (o : Option User)
    (x : TokenError)
    → (issue_for key r replace now a o).1 ≡ rejected x
    → (issue_for key r replace now a o).0 ≡ a
unfolding issue_for issued_on
issue_for-rejected key r replace now a none x e = refl
issue_for-rejected key r replace now a (some u) x e =
    elim (Bool-cases
      (leb max_agent_tokens (length (kept_tokens r.name r.scope replace now u.agent_tokens)))) [
        | inl full ↦ rw full refl
        | inr free ↦ cc e
      ]

-- What an issue does to the account: at most 20 tokens, the others unexpired.
abbrev pub IsWithin : ℕ → List AgentToken → AgentToken → Type 0
IsWithin now ts t =
    (length ts ≤ max_agent_tokens)
    × ((s : AgentToken) → Member s ts → (s ≡ t) ⊎ (is_over now s.expires_at ≡ false))

last_or :
    (ts : List AgentToken) (t s : AgentToken) → Member s (ts ++ t ∷ []) → (s ≡ t) ⊎ Member s ts
last_or [] t s (inl e) = inl (sym e)
last_or [] t s (inr m) = absurd m
last_or (x ∷ ts) t s (inl e) = inr (inl e)
last_or (x ∷ ts) t s (inr m) = ⊎_elim inl (λ n. inr (inr n)) (last_or ts t s m)

kept-live :
    (name scope : String) (replace : Bool) (now : ℕ) (ts : List AgentToken) (s : AgentToken)
    → Member s (kept_tokens name scope replace now ts)
    → is_over now s.expires_at ≡ false
unfolding kept_tokens
kept-live name scope replace now ts s m =
    (or_none (is_over now s.expires_at) _
      (negated_true (makes_room name scope replace now s) (filter-passes _ ts s m))).0

within :
    (key : String) (t : AgentToken) (replace : Bool) (now : ℕ) (a b : Accounts)
    → IsIssued key t replace now a b
    → (u : User) × (get key b ≡ some u) × IsWithin now u.agent_tokens t
within key t replace now a b i =
    let ts = kept_tokens t.name t.scope replace now i.holder.agent_tokens in
    (
      update_tokens (ts ++ t ∷ []) i.holder,
      rw (i.left, get-put, text_refl key) refl,
      (
        omega (arith, length-append ts (t ∷ []), i.room),
        λ s m.
            ⊎_elim inl (λ n. inr (kept-live t.name t.scope replace now i.holder.agent_tokens s n))
              (last_or ts t s m),
      ),
    )

-- The outcome of an issue: it fails and changes nothing, or the account is within its limits.
pub IsSettled : String → ℕ → Accounts → Accounts → Issued → Type 0
IsSettled key now a b (rejected x) = b ≡ a
IsSettled key now a b (issued t) = (u : User) × (get key b ≡ some u) × IsWithin now u.agent_tokens t

settled :
    (key : String) (r : AgentToken) (replace : Bool) (now : ℕ) (a : Accounts) (o : Issued)
    → (issue_for key r replace now a (get key a)).1 ≡ o
    → IsSettled key now a (issue_for key r replace now a (get key a)).0 o
unfolding IsSettled
settled key r replace now a (rejected x) e = issue_for-rejected key r replace now a (get key a) x e
settled key r replace now a (issued t) e =
    let (same, i) = issue_for-issued key r t replace now a (get key a) refl e in
    subst
      (λ (x : AgentToken).
        (u : User) × (get key (issue_for key r replace now a (get key a)).0 ≡ some u)
        × IsWithin now u.agent_tokens x)
      same (within key r replace now a _ i)

-- An issue that succeeds leaves the account with at most 20 tokens, of which only the new one may
-- have expired; one that fails leaves the store as it was.
pub issue-IsSettled :
    (id hash key name scope : String) (days : ℕ) (replace : Bool) (now : ℕ) (a : Accounts)
    → IsSettled key now a
        (issue_agent_token id hash key name scope days replace now a).0
        (issue_agent_token id hash key name scope days replace now a).1
unfolding issue_agent_token
issue-IsSettled id hash key name scope days replace now a =
    settled key (new_record id hash name scope days now) replace now a _ refl

any-none :
    (p : AgentToken → Bool) (ts : List AgentToken)
    → any p ts ≡ false
    → filter (λ t. not (p t)) ts ≡ ts
any-none p [] e = refl
any-none p (t ∷ ts) e = ground (arith, any-none p ts)

-- A deletion leaves no token with the id, and every other one; it reports whether there was one.
pub delete_token-gone :
    (id : String) (ts : List AgentToken)
    → ((t : AgentToken) → Member t (delete_token id ts).0 → (t.id == id) ≡ false)
      × ((delete_token id ts).1 ≡ false → (delete_token id ts).0 ≡ ts)
unfolding delete_token
delete_token-gone id ts =
    (λ t m. negated_true (t.id == id) (filter-passes _ ts t m), any-none (λ t. t.id == id) ts)
