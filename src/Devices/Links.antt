-- ===== src/Devices/Links.antt =====
-- The two maps of the pending logins belong together.
use swift_proof.Prelude.{
  Bool-cases, String, ap, arith, false, inl, inr, length, none, refl, some, some-injective, subst,
  sym, text_eq, true, ℕ, ◌<◌, ◌==◌, ◌∙◌, ◌≡◌, ◌≢◌, ◌≤◌,
}
use swift_proof.Prelude.Dict.{get, get-delete, get-put, length-delete, length-put, put}
use swift_proof.Devices.{
  DeviceFlows, DeviceGrant, forget, max_pending_devices, new_grant, no_logins, register, set_grant,
}

-- Each user code leads to the request that carries it and back, at most `maxPendingDevices` are
-- kept, and no request is kept under the hash "".
pub record IsLinked (d : DeviceFlows) : Type 0 where
  pub few : length d.by_device ≤ max_pending_devices
  pub to_user :
      (h : String) (g : DeviceGrant)
      → get h d.by_device ≡ some g
      → get g.user_code d.by_user ≡ some h
  pub to_device :
      (u h : String)
      → get u d.by_user ≡ some h
      → (g : DeviceGrant) × (get h d.by_device ≡ some g) × (g.user_code ≡ u)
  pub no_blank : get "" d.by_device ≡ none

pub no_logins-IsLinked : IsLinked no_logins
unfolding get
no_logins-IsLinked = record {
  few = omega arith;
  to_user = λ h g p. cc;
  to_device = λ u h p. cc;
  no_blank = refl;
}

pub forget-IsLinked :
    (h : String) (g : DeviceGrant) (d : DeviceFlows)
    → IsLinked d
    → get h d.by_device ≡ some g
    → IsLinked (forget h g d)
unfolding forget
forget-IsLinked h g d l found = record {
  few = omega (arith, length-delete h d.by_device, l.few);
  to_user = λ k e p. ground (
    arith,
    get-delete h k d.by_device,
    get-delete g.user_code e.user_code d.by_user,
    text_eq h k,
    text_eq g.user_code e.user_code,
    l.to_user h g found,
    l.to_user k e,
  );
  to_device = λ u k p. ground (
    arith,
    get-delete h k d.by_device,
    get-delete g.user_code u d.by_user,
    text_eq h k,
    text_eq g.user_code u,
    l.to_user h g found,
    l.to_device u k,
  );
  no_blank = ground (arith, get-delete h "" d.by_device, l.no_blank);
}

-- The request behind a user code carries that code.
pub carried :
    (h u : String) (g : DeviceGrant) (d : DeviceFlows)
    → IsLinked d
    → get h d.by_device ≡ some g
    → get u d.by_user ≡ some h
    → g.user_code ≡ u
carried h u g d l found p =
    let (x, seen, code) = l.to_device u h p in
    ap (λ (y : DeviceGrant). y.user_code) (some-injective _ _ (sym found ∙ seen)) ∙ code

stored :
    (h k u : String) (e : DeviceGrant) (d : DeviceFlows)
    → e.user_code ≡ u
    → h ≡ k
    → (x : DeviceGrant) × (get k (put h e d.by_device) ≡ some x) × (x.user_code ≡ u)
stored h k u e d same here = (e, ground (arith, get-put h k e d.by_device, text_eq h k), same)

kept_apart :
    (h k u : String) (e : DeviceGrant) (d : DeviceFlows)
    → IsLinked d
    → get u d.by_user ≡ some k
    → (h == k) ≡ false
    → (x : DeviceGrant) × (get k (put h e d.by_device) ≡ some x) × (x.user_code ≡ u)
kept_apart h k u e d l p apart =
    let (x, found, code) = l.to_device u k p in
    (x, ground (arith, get-put h k e d.by_device, found, apart), code)

pub set_grant-IsLinked :
    (h : String) (g e : DeviceGrant) (d : DeviceFlows)
    → IsLinked d
    → get h d.by_device ≡ some g
    → e.user_code ≡ g.user_code
    → IsLinked (set_grant h e d)
unfolding set_grant
set_grant-IsLinked h g e d l found same = record {
  few = ground (arith, length-put h e d.by_device, l.few, found);
  to_user = λ k f p.
      ground
        (arith, get-put h k e d.by_device, text_eq h k, l.to_user h g found, l.to_user k f, same);
  to_device = λ u k p. elim (Bool-cases (h == k)) [
    | inl here ↦
        stored h k u e d
          (same
            ∙ carried h u g d l found
                (subst (λ j. get u d.by_user ≡ some j) (sym ((text_eq h k).0 here)) p))
          ((text_eq h k).0 here)
    | inr apart ↦ kept_apart h k u e d l p apart
  ];
  no_blank = ground (arith, get-put h "" e d.by_device, l.no_blank, text_eq h "", found);
}

fresh_code :
    (h u k user : String) (d : DeviceFlows)
    → IsLinked d
    → get h d.by_device ≡ none
    → (h == k) ≡ true
    → get u (put user h d.by_user) ≡ some k
    → user ≡ u
fresh_code h u k user d l fresh here p =
    ground (arith, get-put user u h d.by_user, text_eq user u, text_eq h k, l.to_device u k)

pub register-IsLinked :
    (h user client : String) (now : ℕ) (d : DeviceFlows)
    → IsLinked d
    → h ≢ ""
    → get h d.by_device ≡ none
    → get user d.by_user ≡ none
    → length d.by_device < max_pending_devices
    → IsLinked (register h user client now d)
unfolding register
register-IsLinked h user client now d l solid fresh free room = record {
  few = ground (arith, length-put h (new_grant user client now) d.by_device, fresh);
  to_user = λ k f p. ground (
    arith,
    get-put h k (new_grant user client now) d.by_device,
    get-put user f.user_code h d.by_user,
    text_eq h k,
    text_eq user f.user_code,
    l.to_user k f,
  );
  to_device = λ u k p. elim (Bool-cases (h == k)) [
    | inl here ↦
        stored h k u (new_grant user client now) d (fresh_code h u k user d l fresh here p)
          ((text_eq h k).0 here)
    | inr apart ↦
        kept_apart h k u (new_grant user client now) d l
          (ground (arith, get-put user u h d.by_user, text_eq user u, text_eq h k, p, apart)) apart
  ];
  no_blank =
      ground
        (arith, get-put h "" (new_grant user client now) d.by_device, l.no_blank, text_eq h "");
}
