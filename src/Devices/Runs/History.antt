-- ===== src/Devices/Runs/History.antt =====
-- What a history of the logins says of the grants that are handed over.
use swift_proof.Prelude.{
  Bool, List, Option, String, [], ap, arith, false, if◌then◌else◌, inl, inr, none, not_both, refl,
  some, some-injective, subst, sym, text_eq, text_refl, true, ℕ, ◌==◌, ◌∙◌, ◌∷◌, ◌≡◌, ◌≢◌, ◌≤◌, ◌⊎◌,
}
use swift_proof.Prelude.Dict.{get, only}
use swift_proof.Devices.{
  DeviceFlows, DeviceGrant, after, answered, decide_grant, decide_found, granted, is_closed, named,
  new_grant, pending, poll, polled, polled_waiting, text_at,
}
use swift_proof.Devices.Links.{IsLinked, carried}
use swift_proof.Devices.Phases.{
  after_answer, after_poll, decide_grant-get, live, poll-get, start-get, start-refused,
}
use swift_proof.Devices.Runs.{
  Event, Run, Run-IsLinked, Step, answer, answers, ask, begin, declines, fail, idle, more, polls,
  starts,
}

-- Since the device code of hash `h` was last issued, account `key` approved user code `user`, and
-- the hub took the answer.
pub ApprovedSince : String → String → String → List Event → Type 0
ApprovedSince h user key [] = ⊥
ApprovedSince h user key (starts j u now ∷ es) = (j ≢ h) × ApprovedSince h user key es
ApprovedSince h user key (declines now ∷ es) = ApprovedSince h user key es
ApprovedSince h user key (answers u k approve now done ∷ es) =
    ((u ≡ user) × (k ≡ key) × (approve ≡ true) × (done ≡ true)) ⊎ ApprovedSince h user key es
ApprovedSince h user key (polls j now r ∷ es) = ApprovedSince h user key es

named-code :
    (user : String) (d : DeviceFlows) (g : DeviceGrant)
    → IsLinked d
    → named user d ≡ some g
    → g.user_code ≡ user
unfolding named text_at
named-code user d g l = found (get user d.by_user) refl
  where
    found :
        (o : Option String)
        → get user d.by_user ≡ o
        → get (elim o [ none ↦ "" | some v ↦ v ]) d.by_device ≡ some g
        → g.user_code ≡ user
    found none e q = cc (l.no_blank, q)
    found (some h) e q = carried h user g d l q e

pub polled-granted :
    (h : String) (now : ℕ) (o : Option DeviceGrant) (d : DeviceFlows) (g : DeviceGrant)
    → (polled h now d o).1 ≡ granted g
    → (o ≡ some g)
      × (after now g.expires ≡ false)
      × (g.denied ≡ false)
      × ((g.user_key == "") ≡ false)
unfolding polled polled_waiting
polled-granted h now none d g e = cc
polled-granted h now (some f) d g e = ground arith

pub poll-granted :
    (h : String) (now : ℕ) (d : DeviceFlows) (g : DeviceGrant)
    → (poll h now d).1 ≡ granted g
    → (get h d.by_device ≡ some g)
      × (after now g.expires ≡ false)
      × (g.denied ≡ false)
      × ((g.user_key == "") ≡ false)
unfolding poll
poll-granted h now d g e = polled-granted h now (get h d.by_device) d g e

only-some :
    (p : DeviceGrant → Bool) (o : Option DeviceGrant) (g : DeviceGrant)
    → only p o ≡ some g
    → o ≡ some g
only-some p none g e = cc
only-some p (some f) g e = ground arith

-- A grant with an account is no new one, nor one that a poll leaves.
begun_old :
    (b : Bool) (new g : DeviceGrant) (p : DeviceGrant → Bool) (o : Option DeviceGrant)
    → (if b then some new else only p o) ≡ some g
    → new.user_key ≡ ""
    → g.user_key ≢ ""
    → (b ≡ false) × (o ≡ some g)
begun_old true new g p o e blank keyed =
    absurd (keyed (ap (λ (x : DeviceGrant). x.user_key) (some-injective _ _ (sym e)) ∙ blank))
begun_old false new g p o e blank keyed = (refl, only-some p o g e)

after_poll-key :
    (now : ℕ) (o : Option DeviceGrant) (g : DeviceGrant)
    → after_poll now o ≡ some g
    → g.user_key ≡ ""
after_poll-key now none g e = cc
after_poll-key now (some f) g e = ground (arith, text_eq f.user_key "")

polled_old :
    (b : Bool) (now : ℕ) (o o' : Option DeviceGrant) (g : DeviceGrant)
    → (if b then after_poll now o' else o) ≡ some g
    → g.user_key ≢ ""
    → o ≡ some g
polled_old true now o o' g e keyed = absurd (keyed (after_poll-key now o' g e))
polled_old false now o o' g e keyed = e

-- Who holds a grant after an answer: the account that approved it, or the one before.
abbrev Holder : ℕ → String → Bool → DeviceGrant → DeviceGrant → Type 0
Holder now key approve f g =
    (f ≡ g)
    ⊎ (is_closed now f ≡ false)
      × (approve ≡ true)
      × (f.user_code ≡ g.user_code)
      × (key ≡ g.user_key)

answered_new :
    (key : String) (b approve : Bool) (f g : DeviceGrant)
    → (if b then f else answered key approve f) ≡ g
    → g.user_key ≢ ""
    → (b ≡ false → f.user_key ≡ "")
    → (f ≡ g) ⊎ (b ≡ false) × (approve ≡ true) × (f.user_code ≡ g.user_code) × (key ≡ g.user_key)
answered_new key true approve f g e keyed blank = inl e
answered_new key false true f g e keyed blank =
    inr
      (refl, refl, ap (λ (x : DeviceGrant). x.user_code) e, ap (λ (x : DeviceGrant). x.user_key) e)
answered_new key false false f g e keyed blank =
    absurd (keyed (sym (ap (λ (x : DeviceGrant). x.user_key) e) ∙ blank refl))

open_blank : (now : ℕ) (f : DeviceGrant) → is_closed now f ≡ false → f.user_key ≡ ""
open_blank now f h = ground (arith, text_eq f.user_key "")

answer_cases :
    (b : Bool) (now : ℕ) (key : String) (approve : Bool) (o named_one : Option DeviceGrant)
    (g : DeviceGrant)
    → (if b then after_answer now key approve named_one else o) ≡ some g
    → g.user_key ≢ ""
    → (o ≡ some g)
      ⊎ (b ≡ true) × (f : DeviceGrant) × (named_one ≡ some f) × Holder now key approve f g
answer_cases false now key approve o n g e keyed = inl e
answer_cases true now key approve o none g e keyed = cc
answer_cases true now key approve o (some f) g e keyed = inr (
  refl,
  f,
  refl,
  answered_new key (is_closed now f) approve f g (some-injective _ _ e) keyed (open_blank now f),
)

decide_grant-open :
    (user key : String) (approve : Bool) (now : ℕ) (d : DeviceFlows) (f : DeviceGrant)
    → named user d ≡ some f
    → is_closed now f ≡ false
    → (decide_grant user key approve now d).1 ≡ true
unfolding decide_grant pending decide_found
decide_grant-open user key approve now d f q waits = rw (q, waits) refl

-- Every request with an account was approved by it.
abbrev AllApproved : List Event → DeviceFlows → Type 0
AllApproved es d =
    (h : String) (g : DeviceGrant)
    → get h d.by_device ≡ some g
    → g.user_key ≢ ""
    → ApprovedSince h g.user_code g.user_key es

Step-AllApproved :
    (es : List Event) {e : Event} {d d' : DeviceFlows}
    → Step e d d'
    → IsLinked d
    → AllApproved es d
    → AllApproved (e ∷ es) d'
unfolding ApprovedSince named
Step-AllApproved es (begin j client user now draws d solid fresh p) l before h g e keyed =
    let (other, old) =
      begun_old (j == h) (new_grant user client now) g (live now) (get h d.by_device)
        (sym (start-get j client h now draws d user p) ∙ e) refl keyed in
    (λ same. not_both (j == h) other ((text_eq j h).1 same), before h g old keyed)
Step-AllApproved es (fail j client now draws d error solid fresh p) l before h g e keyed =
    before h g
      (only-some (live now) (get h d.by_device) g
        (sym (start-refused j client h now draws d error p) ∙ e))
      keyed
Step-AllApproved es (answer user key approve now d solid) l before h g e keyed =
    elim (answer_cases (text_at user d.by_user == h) now key approve (get h d.by_device)
      (named user d) g (sym (decide_grant-get user key h approve now d) ∙ e) keyed) [
        | inl old ↦ inr (before h g old keyed)
        | inr (same, f, q, inl held) ↦ inr (
            before h g
              (subst (λ j. get j d.by_device ≡ some g) ((text_eq (text_at user d.by_user) h).0 same)
                (q ∙ ap some held))
              keyed)
        | inr (same, f, q, inr (waits, yes_given, code, who)) ↦ inl (
          sym (named-code user d f l q) ∙ code,
          who,
          yes_given,
          decide_grant-open user key approve now d f q waits,
        )
      ]
Step-AllApproved es (ask j now d) l before h g e keyed =
    before h g
      (polled_old (j == h) now (get h d.by_device) (get j d.by_device) g
        (sym (poll-get j h now d) ∙ e) keyed)
      keyed

Run-AllApproved : (es : List Event) (d : DeviceFlows) → Run es d → AllApproved es d
unfolding get
Run-AllApproved es d idle = λ h g e keyed. cc
Run-AllApproved es d (more r s) = Step-AllApproved _ s (Run-IsLinked _ _ r) (Run-AllApproved _ _ r)

-- A poll that hands a grant over does so before it expires and without a denial, for an account
-- that approved this user code since the device code was issued, and the request is then gone.
pub granted-ApprovedSince :
    (es : List Event) (d : DeviceFlows) (h : String) (now : ℕ) (g : DeviceGrant)
    → Run es d
    → (poll h now d).1 ≡ granted g
    → ApprovedSince h g.user_code g.user_key es
      × (now ≤ g.expires)
      × (g.denied ≡ false)
      × (get h (poll h now d).0.by_device ≡ none)
granted-ApprovedSince es d h now g r e =
    let (found, alive, allowed, keyed) = poll-granted h now d g e in
    (
      Run-AllApproved es d r h g found (λ q. ground (arith, keyed, text_eq g.user_key "", q)),
      ground (arith, alive),
      allowed,
      ground (arith, poll-get h h now d, text_refl h, found, alive, allowed, keyed),
    )
