-- ===== src/Categories/Flagged.antt =====
-- Which categories are flagged.
use swift_proof.Prelude.{
  Bool, Bool-cases, List, String, [], any, ap, append-nil, append_assoc, false, if◌then◌else◌, inl,
  inr, map, refl, sym, true, ◌&&◌, ◌++◌, ◌==◌, ◌||◌, ◌∙◌, ◌∷◌, ◌≡◌,
}
use swift_proof.Texts.{has}
use swift_proof.Model.{Signal}
use swift_proof.Categories.{
  PlanCategory, categorize, categorize_each, category_of, category_order, has_category, in_category,
  raises,
}

-- Whether a signal flags a category, and the signals of a category.
abbrev pub flags : String → Signal → Bool
flags n s = n == category_of s && raises s

pub ids_of : String → List Signal → List String
ids_of n [] = []
ids_of n (s ∷ ss) = let others = ids_of n ss in if n == category_of s then s.id ∷ others else others

-- A category behind signals that are still to come.
final : List Signal → PlanCategory → PlanCategory
final ss c = record c {
  flagged = any (flags c.name) ss || c.flagged;
  signal_ids = c.signal_ids ++ ids_of c.name ss;
}

abbrev pub category : String → Bool → List String → PlanCategory
category n a is = record { name = n; flagged = a; signal_ids = is }

same_category :
    (n : String) (a b : Bool) (is js : List String)
    → a ≡ b
    → is ≡ js
    → category n a is ≡ category n b js
same_category n a b is js p q = cc (p, q)

one_more :
    (raised some_later flag : Bool)
    → (some_later || (if raised then true else flag)) ≡ ((raised || some_later) || flag)
one_more true true flag = refl
one_more true false flag = refl
one_more false later flag = refl

final-in_category :
    (s : Signal) (ss : List Signal) (c : PlanCategory)
    → final ss (in_category s c) ≡ final (s ∷ ss) c
unfolding final in_category ids_of
final-in_category s ss c = elim (Bool-cases (c.name == category_of s)) [
  | inl mine ↦ rw mine (
      same_category c.name _ _ _ _ (one_more (raises s) (any (flags c.name) ss) c.flagged)
        (append_assoc c.signal_ids (s.id ∷ []) (ids_of c.name ss)))
  | inr other ↦ rw other refl
]

in_category-name : (s : Signal) (c : PlanCategory) → (in_category s c).name ≡ c.name
unfolding in_category
in_category-name s c = elim (Bool-cases (c.name == category_of s)) [
  | inl mine ↦ rw mine refl
  | inr other ↦ rw other refl
]

map-final :
    (s : Signal) (ss : List Signal) (cs : List PlanCategory)
    → map (final ss) (map (in_category s) cs) ≡ map (final (s ∷ ss)) cs
map-final s ss [] = refl
map-final s ss (c ∷ cs) = cc (final-in_category s ss c, map-final s ss cs)

has_category-map :
    (n : String) (s : Signal) (cs : List PlanCategory)
    → has_category n (map (in_category s) cs) ≡ has_category n cs
has_category-map n s [] = refl
has_category-map n s (c ∷ cs) = rw (in_category-name s c, has_category-map n s cs) refl

-- Whether a signal makes the plan major.
abbrev makes_major : List PlanCategory → Signal → Bool
makes_major cs s = has_category (category_of s) cs && raises s

any-major :
    (s : Signal) (ss : List Signal) (cs : List PlanCategory)
    → any (makes_major (map (in_category s) cs)) ss ≡ any (makes_major cs) ss
any-major s [] cs = refl
any-major s (t ∷ ss) cs = rw (has_category-map (category_of t) s cs, any-major s ss cs) refl

final_nil : (cs : List PlanCategory) → map (final []) cs ≡ cs
unfolding final ids_of
final_nil [] = refl
final_nil (c ∷ cs) = cc (append-nil c.signal_ids, final_nil cs)

categorize_each-final :
    (ss : List Signal) (cs : List PlanCategory) (major : Bool)
    → ((categorize_each ss cs major).0 ≡ map (final ss) cs)
      × ((categorize_each ss cs major).1 ≡ (any (makes_major cs) ss || major))
unfolding categorize_each
categorize_each-final [] cs major = (sym (final_nil cs), refl)
categorize_each-final (s ∷ ss) cs major =
    let now = if has_category (category_of s) cs && raises s then true else major in
    let (a, b) = categorize_each-final ss (map (in_category s) cs) now in
    (
      a ∙ map-final s ss cs,
      b
          ∙ ap (λ x. x || now) (any-major s ss cs)
          ∙ one_more (makes_major cs s) (any (makes_major cs) ss) major,
    )

or_false : (b : Bool) → (b || false) ≡ b
or_false true = refl
or_false false = refl

-- The four categories stand in their order, each with the ids of its signals in the order of the
-- plan, and flagged exactly when one of them is medium or higher; the plan is major exactly when a
-- signal of some category is.
pub categorize_lem :
    (signals : List Signal)
    → ((categorize signals).0
        ≡ map (λ n. category n (any (flags n) signals) (ids_of n signals)) category_order)
      × ((categorize signals).1 ≡ any (λ s. has (category_of s) category_order && raises s) signals)
unfolding categorize final
categorize_lem signals =
    let cs = map (λ n. category n false []) category_order in
    let (a, b) = categorize_each-final signals cs false in
    (
      a
          ∙ cc (
            or_false (any (flags "critical_parts") signals),
            or_false (any (flags "architecture") signals),
            or_false (any (flags "regression_risk") signals),
            or_false (any (flags "other_major") signals),
          ),
      b ∙ or_false (any (makes_major cs) signals),
    )
