-- ===== src/DriftSignals/Located.antt =====
-- Where a drift signal points.
use swift_proof.Prelude.{
  Bool, Bool-cases, List, Member, Option, String, [], any, ap, arith, false, if◌then◌else◌, inl,
  inr, none, not, refl, some, subst, sym, text_eq, true, ◌&&◌, ◌==◌, ◌||◌, ◌∙◌, ◌∷◌, ◌≡◌,
}
use swift_proof.Prelude.Dict.{Dict, get, get-put, is_some, put}
use swift_proof.Prelude.Int.{ℤ}
use swift_proof.Model.Change.{Change, ChangedFile, PlanDriftItem, plan_drift_signal}
use swift_proof.DriftSignals.{
  drift_signal, drift_signals, first_line, locate_old, locations, planned_untouched, signals_at,
}
use swift_proof.Model.{Signal}

-- A path of a changed file.
abbrev pub names_path : String → ChangedFile → Bool
names_path path f = f.path == path || (not (f.old_path == "") && f.old_path == path)

get-locate_old :
    (old_path path : String) (at_line : ℤ × String) (first : Dict (ℤ × String))
    → is_some (get path (locate_old old_path at_line first))
      ≡ (old_path == path || is_some (get path first))
unfolding locate_old
get-locate_old old_path path at_line first = from (get old_path first) refl
  where
    from :
        (o : Option (ℤ × String))
        → get old_path first ≡ o
        → is_some (get path (elim o [ none ↦ put old_path at_line first | some seen ↦ first ]))
          ≡ (old_path == path || is_some (get path first))
    from none q = ground (arith, get-put old_path path at_line first)
    from (some seen) q = elim (Bool-cases (old_path == path)) [
      | inl same ↦
          ground
            (arith, same, subst (λ p. get p first ≡ some seen) ((text_eq old_path path).0 same) q)
      | inr other ↦ rw other refl
    ]

put-is_some :
    (p path : String) (at_line : ℤ × String) (first : Dict (ℤ × String))
    → is_some (get path (put p at_line first)) ≡ (p == path || is_some (get path first))
put-is_some p path at_line first = ground (arith, get-put p path at_line first)

with_old : (c a d : Bool) → (c || (a || d)) ≡ ((a || c) || d)
with_old true true d = refl
with_old true false d = refl
with_old false true d = refl
with_old false false d = refl

next_of :
    (f : ChangedFile) (first : Dict (ℤ × String)) (path : String) (b : Bool)
    → (not (f.old_path == "")) ≡ b
    → is_some (
        get path (
          if b
          then locate_old f.old_path (first_line f) (put f.path (first_line f) first)
          else put f.path (first_line f) first))
      ≡ (names_path path f || is_some (get path first))
next_of f first path true q =
    get-locate_old f.old_path path (first_line f) (put f.path (first_line f) first)
    ∙ ap (λ b. f.old_path == path || b) (put-is_some f.path path (first_line f) first)
    ∙ rw q (with_old (f.old_path == path) (f.path == path) (is_some (get path first)))
next_of f first path false q =
    put-is_some f.path path (first_line f) first ∙ rw q (left (f.path == path))
  where
    left : (a : Bool) → (a || is_some (get path first)) ≡ ((a || false) || is_some (get path first))
    left true = refl
    left false = refl

-- A path is located exactly when a changed file has it.
located :
    (files : List ChangedFile) (first : Dict (ℤ × String)) (path : String)
    → is_some (get path (locations files first))
      ≡ (any (names_path path) files || is_some (get path first))
unfolding locations
located [] first path = refl
located (f ∷ fs) first path =
    located fs _ path
    ∙ ap (λ b. any (names_path path) fs || b) (next_of f first path _ refl)
    ∙ with_old (any (names_path path) fs) (names_path path f) (is_some (get path first))

-- A signal made of an item that is not about an untouched file.
pub record MadeOf (s : Signal) (it : PlanDriftItem) : Type 0 where
  pub kind : s.kind ≡ plan_drift_signal
  pub path : s.path ≡ it.path
  pub symbol : s.symbol ≡ it.symbol
  pub severity : s.severity ≡ it.severity
  pub touched : (it.kind == planned_untouched) ≡ false

signals_at-MadeOf :
    (first : Dict (ℤ × String)) (items : List PlanDriftItem) (s : Signal)
    → Member s (signals_at first items)
    → (it : PlanDriftItem) × Member it items × MadeOf s it × (is_some (get s.path first) ≡ true)
unfolding signals_at
signals_at-MadeOf first [] s m = absurd m
signals_at-MadeOf first (it ∷ its) s m =
    from (get it.path first) refl (it.kind == planned_untouched) refl m
      (signals_at-MadeOf first its s)
  where
    from :
        (o : Option (ℤ × String))
        → get it.path first ≡ o
        → (b : Bool) → (it.kind == planned_untouched) ≡ b
        → Member s (elim o [
          | none ↦ signals_at first its
          | some at_line ↦
              (if b then signals_at first its else drift_signal it at_line ∷ signals_at first its)
        ])
        → (Member s (signals_at first its)
            → (o : PlanDriftItem) × Member o its × MadeOf s o × (is_some (get s.path first) ≡ true))
        → (o : PlanDriftItem) × Member o (it ∷ its)
          × MadeOf s o
          × (is_some (get s.path first) ≡ true)
    from none q b k n rec = let (o, i, made, found) = rec n in (o, inr i, made, found)
    from (some l) q true k n rec = let (o, i, made, found) = rec n in (o, inr i, made, found)
    from (some l) q false k (inr n) rec = let (o, i, made, found) = rec n in (o, inr i, made, found)
    from (some l) q false k (inl p) rec = (
      it,
      inl refl,
      subst (λ t. MadeOf t it) p
          (record { kind = refl; path = refl; symbol = refl; severity = refl; touched = k }),
      subst (λ t. is_some (get t.path first) ≡ true) p (rw q refl),
    )

-- Every signal of `DriftSignals` carries the path, symbol and severity of a drift item that is
-- not about an untouched planned file, and a changed file has its path as the new or the old one.
pub drift_signals-MadeOf :
    (items : List PlanDriftItem) (change : Change) (s : Signal)
    → Member s (drift_signals items change)
    → (it : PlanDriftItem) × Member it items
      × MadeOf s it
      × (any (names_path s.path) change.files ≡ true)
unfolding drift_signals get
drift_signals-MadeOf items change s m =
    let (it, i, made, found) = signals_at-MadeOf (locations change.files []) items s m in
    (it, i, made, at_end _ (sym (located change.files [] s.path) ∙ found))
  where
    at_end : (a : Bool) → (a || false) ≡ true → a ≡ true
    at_end true p = refl
    at_end false p = cc
