-- ===== src/LoginApi/Decided.antt =====
-- Who answers a login.
use Prim.Native.String.{String}
use swift_proof.Prelude.{
  Bool, Bool-cases, Option, ap, arith, false, if◌then◌else◌, inl, inr, none, not_both, refl, some,
  subst, sym, text_eq, true, ℕ, ◌==◌, ◌≡◌,
}
use swift_proof.Devices.{
  DeviceFlows, DeviceGrant, decide_found, decide_grant, is_closed, named, pending,
}
use swift_proof.UserCode.{normalize_user_code}
use swift_proof.LoginApi.{
  Caller, Response, Server, decide_login, decided_response, fails, handle_device_decide,
  with_devices,
}
use swift_proof.LoginApi.Answers.{
  CanAnswer, IsAnswered, IsRecorded, caller_or, can-found, closed, ignored, look, opened,
  record_one, recorded,
}

module _ (c : Caller) (typed : String) (approve : Bool) (now : ℕ) (s : Server) where
  Answered : Server × Response → Type 0
  Answered r = IsAnswered (some c) (some (typed, approve)) now s r.0 r.1

  unanswered :
      ((g : DeviceGrant)
        → named (normalize_user_code typed) s.devices ≡ some g
        → is_closed now g ≡ true)
      → pending (normalize_user_code typed) now s.devices ≡ none
      → Answered (
          decided_response s approve
            (decide_grant (normalize_user_code typed) c.user_key approve now s.devices))
  unfolding decide_grant decide_found Answered
  unanswered shut q = rw q (
      ignored 404 "unknown or expired code: run probe login again"
        (λ x.
          let (_, found, free) = can-found (some c) typed approve now s x in
          not_both (is_closed now x.grant) free (shut x.grant found))
        refl refl)

  taken :
      (can : CanAnswer (some c) (some (typed, approve)) now s) (r : DeviceFlows × Bool)
      → can.who ≡ c
      → can.typed ≡ typed
      → can.approve ≡ approve
      → r.1 ≡ true
      → IsRecorded (normalize_user_code typed) c.user_key approve can.grant s (with_devices s r.0)
      → Answered (decided_response s approve r)
  unfolding Answered
  taken can (d, false) w t a e i = cc
  taken can (d, true) w t a e i = recorded can (rw (w, t, a) i) (rw a refl)

  record_open :
      (g : DeviceGrant)
      → c.is_agent ≡ false
      → (normalize_user_code typed == "") ≡ false
      → named (normalize_user_code typed) s.devices ≡ some g
      → is_closed now g ≡ false
      → pending (normalize_user_code typed) now s.devices ≡ some g
      → Answered (
          decided_response s approve
            (decide_grant (normalize_user_code typed) c.user_key approve now s.devices))
  record_open g browser solid found free q =
      let (i, done) = record_one (normalize_user_code typed) c.user_key approve now s g q in
      let can : CanAnswer (some c) (some (typed, approve)) now s = record {
        who = c;
        typed = typed;
        approve = approve;
        grant = g;
        signed_in = refl;
        browser = browser;
        sent = refl;
        solid = solid;
        found = found;
        alive = ground (arith, free);
        unapproved = ground (arith, free, text_eq g.user_key "");
        undenied = ground (arith, free);
      } in
      taken can (decide_grant (normalize_user_code typed) c.user_key approve now s.devices) refl
        refl refl done i

by_browser :
    (c : Caller) (body : Option (String × Bool)) (now : ℕ) (s : Server)
    → c.is_agent ≡ false
    → IsAnswered (some c) body now s (decide_login body now s c).0 (decide_login body now s c).1
unfolding decide_login Answered
by_browser c none now s free = ignored 400 "the body does not decode" (λ x. cc x.sent) refl refl
by_browser c (some (typed, approve)) now s free =
    elim (Bool-cases (normalize_user_code typed == "")) [
      | inl blank ↦ rw blank (
          ignored 404 "unknown or expired code: run probe login again"
            (λ x. not_both _ (can-found (some c) typed approve now s x).0 blank) refl refl)
      | inr solid ↦ rw solid (elim (look (normalize_user_code typed) now s.devices) [
        | closed shut q ↦ unanswered c typed approve now s shut q
        | opened g found waits q ↦ record_open c typed approve now s g free solid found waits q
      ])
    ]

by_caller :
    (agent : Bool) (c : Caller) (body : Option (String × Bool)) (now : ℕ) (s : Server)
    → c.is_agent ≡ agent
    → (r : Server × Response)
    → r ≡ (
        if agent
        then (s, fails 403 "logins are approved from the dashboard")
        else decide_login body now s c)
    → IsAnswered (some c) body now s r.0 r.1
unfolding caller_or
by_caller true c body now s q r e = rw e (
    ignored 403 "logins are approved from the dashboard"
      (λ x.
        not_both c.is_agent
          (subst (λ (w : Caller). w.is_agent ≡ false) (sym (ap (caller_or c) x.signed_in))
            x.browser)
          q)
      refl refl)
by_caller false c body now s q r e = rw e (by_browser c body now s q)

-- A request to answer a login is recorded exactly when it comes from a browser session that is
-- signed in, decodes, and carries the user code of an unexpired request without an answer: the
-- request then carries the account or the denial, no other request and nothing else changes, and
-- the response says which answer it was. Otherwise it fails and the server stays as it was.
pub handle_device_decide-IsAnswered :
    (caller : Option Caller) (body : Option (String × Bool)) (now : ℕ) (s : Server)
    → IsAnswered caller body now s
        (handle_device_decide caller body now s).0
        (handle_device_decide caller body now s).1
unfolding handle_device_decide
handle_device_decide-IsAnswered none body now s =
    ignored 401 "sign in to continue" (λ x. cc x.signed_in) refl refl
handle_device_decide-IsAnswered (some c) body now s = by_caller c.is_agent c body now s refl _ refl
