-- ===== src/LoginApi/Answers.antt =====
-- Which requests to answer a login may be recorded.
use Prim.Native.String.{String}
use swift_proof.Prelude.{
  Bool, Bool-cases, Option, ap, arith, false, if◌then◌else◌, inl, inr, none, refl, some,
  some-injective, subst, sym, text_eq, text_refl, true, ℕ, ◌==◌, ◌∙◌, ◌≡◌, ◌≢◌, ◌≤◌,
}
use swift_proof.Prelude.Dict.{get, get-put}
use swift_proof.Devices.{
  DeviceFlows, DeviceGrant, answered, decide_found, decide_grant, is_closed, named, pending,
  set_grant, text_at,
}
use swift_proof.UserCode.{normalize_user_code}
use swift_proof.LoginApi.{Caller, Response, Server, fails, shows_status, with_devices}

-- A browser session sends the user code of a request that is open: unexpired and not answered.
pub record CanAnswer (caller : Option Caller) (body : Option (String × Bool)) (now : ℕ) (s : Server)
    : Type 0 where
  pub who : Caller
  pub typed : String
  pub approve : Bool
  pub grant : DeviceGrant
  pub signed_in : caller ≡ some who
  pub browser : who.is_agent ≡ false
  pub sent : body ≡ some (typed, approve)
  pub solid : (normalize_user_code typed == "") ≡ false
  pub found : named (normalize_user_code typed) s.devices ≡ some grant
  pub alive : now ≤ grant.expires
  pub unapproved : grant.user_key ≡ ""
  pub undenied : grant.denied ≡ false

-- The answer that is recorded, on the request of the code and on no other, and nothing else.
pub record IsRecorded (user key : String) (approve : Bool) (g : DeviceGrant) (s s' : Server)
    : Type 0 where
  pub answer :
      get (text_at user s.devices.by_user) s'.devices.by_device
      ≡ some (if approve then record g { user_key = key } else record g { denied = true })
  pub others :
      (k : String)
      → text_at user s.devices.by_user ≢ k
      → get k s'.devices.by_device ≡ get k s.devices.by_device
  pub codes_kept : s'.devices.by_user ≡ s.devices.by_user
  pub same : s' ≡ with_devices s s'.devices

-- A request to answer a login either may not, fails and changes nothing, or it may, is recorded and
-- told so.
pub data IsAnswered (caller : Option Caller) (body : Option (String × Bool)) (now : ℕ)
    (s s' : Server) (r : Response) : Type 0 where
  ignored :
      (status : ℕ) (message : String)
      → ¬ CanAnswer caller body now s
      → s' ≡ s
      → r ≡ fails status message
      → IsAnswered caller body now s s' r
  recorded :
      (c : CanAnswer caller body now s)
      → IsRecorded (normalize_user_code c.typed) c.who.user_key c.approve c.grant s s'
      → r ≡ shows_status (if c.approve then "approved" else "denied")
      → IsAnswered caller body now s s' r

unfoldable pub caller_or : Caller → Option Caller → Caller
caller_or c none = c
caller_or c (some d) = d

body_or : String × Bool → Option (String × Bool) → String × Bool
body_or b none = b
body_or b (some c) = c

-- Whether `pending` finds a request.
pub data Found (user : String) (now : ℕ) (d : DeviceFlows) : Type 0 where
  closed :
      ((g : DeviceGrant) → named user d ≡ some g → is_closed now g ≡ true)
      → pending user now d ≡ none
      → Found user now d
  opened :
      (g : DeviceGrant)
      → named user d ≡ some g
      → is_closed now g ≡ false
      → pending user now d ≡ some g
      → Found user now d

pub look : (user : String) (now : ℕ) (d : DeviceFlows) → Found user now d
unfolding pending
look user now d = seen (named user d) refl
  where
    seen : (o : Option DeviceGrant) → named user d ≡ o → Found user now d
    seen none q = closed (λ g e. cc (q, e)) (rw q refl)
    seen (some g) q = elim (Bool-cases (is_closed now g)) [
      | inl shut ↦
          closed (λ f e. subst (λ x. is_closed now x ≡ true) (some-injective _ _ (sym q ∙ e)) shut)
            (rw (q, shut) refl)
      | inr free ↦ opened g q free (rw (q, free) refl)
    ]

pub record_one :
    (user key : String) (approve : Bool) (now : ℕ) (s : Server) (g : DeviceGrant)
    → pending user now s.devices ≡ some g
    → IsRecorded user key approve g s
        (with_devices s (decide_grant user key approve now s.devices).0)
      × ((decide_grant user key approve now s.devices).1 ≡ true)
unfolding decide_grant decide_found set_grant
record_one user key approve now s g q = rw q (
  record {
    answer = ground (
      arith,
      get-put (text_at user s.devices.by_user) (text_at user s.devices.by_user)
          (answered key approve g) s.devices.by_device,
      text_refl (text_at user s.devices.by_user),
    );
    others = λ k apart. ground (
      arith,
      get-put (text_at user s.devices.by_user) k (answered key approve g) s.devices.by_device,
      text_eq (text_at user s.devices.by_user) k,
    );
    codes_kept = refl;
    same = refl;
  },
  refl,
)

-- A request that may be answered is found open.
pub can-found :
    (caller : Option Caller) (typed : String) (approve : Bool) (now : ℕ) (s : Server)
    (c : CanAnswer caller (some (typed, approve)) now s)
    → ((normalize_user_code typed == "") ≡ false)
      × (named (normalize_user_code typed) s.devices ≡ some c.grant)
      × (is_closed now c.grant ≡ false)
unfolding body_or
can-found caller typed approve now s c =
    let same = sym (ap (λ b. (body_or (typed, approve) b).0) c.sent) in
    (
      subst (λ x. (normalize_user_code x == "") ≡ false) same c.solid,
      subst (λ x. named (normalize_user_code x) s.devices ≡ some c.grant) same c.found,
      ground (arith, c.alive, c.undenied, c.unapproved, text_eq c.grant.user_key ""),
    )
