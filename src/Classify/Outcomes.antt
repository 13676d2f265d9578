-- ===== src/Classify/Outcomes.antt =====
-- The failing names that `Classify` collects from a log.
use swift_proof.Prelude.{
  Bool, List, Member, Option, String, [], ap, false, if◌then◌else◌, inl, inr, none, not, refl, some,
  some-injective, subst, sym, text_eq, true, ℕ, ◌++◌, ◌==◌, ◌∙◌, ◌∷◌, ◌≡◌, ◌⊎◌,
}
use swift_proof.TestLog.{GoTestLog, outcome}
use swift_proof.Classify.{split_outcomes}

reached :
    (b c : Bool) (rest : Option (ℕ × List String)) (x : ℕ × List String)
    → (if b then rest else if not c then none else rest) ≡ some x
    → (rest ≡ some x) × ((b ≡ true) ⊎ (c ≡ true))
reached true c rest x p = (p, inl refl)
reached false true rest x p = (p, inr refl)
reached false false rest x p = cc

Member-last : (a b : String) (xs : List String) → Member a (xs ++ b ∷ []) → Member a xs ⊎ (b ≡ a)
Member-last a b [] (inl p) = inr p
Member-last a b [] (inr m) = absurd m
Member-last a b (x ∷ xs) (inl p) = inl (inl p)
Member-last a b (x ∷ xs) (inr m) = elim (Member-last a b xs m) [
  | inl n ↦ inl (inr n)
  | inr p ↦ inr p
]

-- A failing outcome of a name in the package.
abbrev pub FailsIn : GoTestLog → String → String → Type 0
FailsIn l pkg name = ((outcome l name).0 ≡ "fail") × ((outcome l name).1 ≡ pkg)

resolve :
    (l : GoTestLog) (pkg t name : String) (failed : List String) (b : Bool)
    → ((outcome l t).0 == "fail") ≡ b
    → (((outcome l t).0 == "") ≡ true) ⊎ (((outcome l t).1 == pkg) ≡ true)
    → Member name (if b then failed ++ t ∷ [] else failed)
    → Member name failed ⊎ FailsIn l pkg name
resolve l pkg t name failed false q told m = inl m
resolve l pkg t name failed true q told m = elim (Member-last name t failed m) [
  | inl old ↦ inl old
  | inr here ↦
      let fails = (text_eq (outcome l t).0 "fail").0 q in
      inr (
        subst (FailsIn l pkg) here (
          fails,
          elim told [
            | inl silent ↦ absurd (apart (sym fails ∙ (text_eq (outcome l t).0 "").0 silent))
            | inr same ↦ (text_eq (outcome l t).1 pkg).0 same
          ],
        ))
]
  where
    apart : ◌≡◌ {A = String} "fail" "" → ⊥
    apart p = cc

-- Every failing name that the loop collects has a failing outcome in the package.
pub split_outcomes-Member :
    (l : GoTestLog) (pkg : String) (names : List String) (passed : ℕ) (failed : List String) (n : ℕ)
    (fs : List String) (name : String)
    → split_outcomes l pkg names passed failed ≡ some (n, fs)
    → Member name fs
    → Member name failed ⊎ FailsIn l pkg name
unfolding split_outcomes
split_outcomes-Member l pkg [] passed failed n fs name p m =
    inl (subst (λ x. Member name x) (sym (ap (λ x. x.1) (some-injective _ _ p))) m)
split_outcomes-Member l pkg (t ∷ ts) passed failed n fs name p m =
    let (rest, told) = reached ((outcome l t).0 == "") ((outcome l t).1 == pkg) _ _ p in
    elim (split_outcomes-Member l pkg ts _ _ n fs name rest m) [
      | inl old ↦ resolve l pkg t name failed _ refl told old
      | inr fails ↦ inr fails
    ]
