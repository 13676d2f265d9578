-- ===== src/UserCode/Typed.antt =====
-- What a user may type for a code.
use Prim.Native.Char.{Char, code}
use Prim.Native.String.{String, char_at}
use swift_proof.Prelude.{
  Bool, Bool-cases, List, Option-cases, [], all, and_split, ap, arith, eqb, false, inl, inr, ltb,
  ltb→lt, negated_true, not, refl, some, some-injective, subst, suc, sym, text_eq, true, zero, ℕ,
  ◌&&◌, ◌<◌, ◌==◌, ◌||◌, ◌∙◌, ◌∷◌, ◌≡◌,
}
use swift_proof.Texts.{is_space, lower_char, to_lower, to_upper, upper_char}
use swift_proof.UserCode.{
  all_in, checked_code, display_user_code, first, in_set, join, letters, new_user_code,
  normalize_user_code, rest, squeeze, text_length, user_code_alphabet,
}

typed_test :
    (normalize_user_code "bcdf-ghjk" ≡ "BCDFGHJK")
    × (normalize_user_code " BC DFGHJK" ≡ "BCDFGHJK")
    × (normalize_user_code "ACDFGHJK" ≡ "")
    × (display_user_code "BCDFGHJK" ≡ "BCDF-GHJK")
    × (new_user_code (0 ∷ 1 ∷ 2 ∷ 3 ∷ 4 ∷ 5 ∷ 6 ∷ 19 ∷ []) ≡ some "BCDFGHJZ")
unfolding normalize_user_code display_user_code new_user_code
typed_test = (refl, refl, refl, refl, refl)

abbrev same : Char → Char → Bool
same c d = String.◌∷◌ c "" == String.◌∷◌ d ""

head_or : Char → String → Char
head_or c String.[] = c
head_or c (String.◌∷◌ d s) = d

same→eq : (c d : Char) → same c d ≡ true → c ≡ d
unfolding head_or
same→eq c d h = ap (head_or c) ((text_eq (String.◌∷◌ c "") (String.◌∷◌ d "")).0 h)

-- A letter of the alphabet, typed in either case.
is_letter : Char → Bool
is_letter c =
    same (upper_char c) c
    && same (upper_char (lower_char c)) c
    && not (eqb (code c) 45 || is_space (code c))
    && in_set c user_code_alphabet

abbrev all_below : (ℕ → Bool) → ℕ → Bool
all_below p zero = true
all_below p (suc n) = p n && all_below p n

all_below-lt : (p : ℕ → Bool) (n m : ℕ) → all_below p n ≡ true → m < n → p m ≡ true
all_below-lt p zero m h l = absurd (omega (arith, l))
all_below-lt p (suc n) m h l = elim (Bool-cases (eqb m n)) [
  | inl e ↦ subst (λ k. p k ≡ true) (ground (arith, e)) (and_split (p n) (all_below p n) h).0
  | inr e ↦ all_below-lt p n m (and_split (p n) (all_below p n) h).1 (ground (arith, e, l))
]

alphabet_test : all_below (λ n. is_letter (char_at user_code_alphabet n)) 20 ≡ true
unfolding is_letter upper_char lower_char is_space in_set
alphabet_test = refl

record IsLetter (c : Char) : Type 0 where
  upper : upper_char c ≡ c
  back : upper_char (lower_char c) ≡ c
  kept : (eqb (code c) 45 || is_space (code c)) ≡ false
  known : in_set c user_code_alphabet ≡ true

and_four :
    (a b c d : Bool) → (a && b && c && d) ≡ true → (a ≡ true) × (b ≡ true) × (c ≡ true) × (d ≡ true)
and_four true true true true h = (refl, refl, refl, refl)
and_four true true true false h = cc
and_four true true false d h = cc
and_four true false c d h = cc
and_four false b c d h = cc

IsLetter_lem : (c : Char) → is_letter c ≡ true → IsLetter c
unfolding is_letter
IsLetter_lem c h =
    let (a, b, k, i) =
      and_four (same (upper_char c) c) (same (upper_char (lower_char c)) c)
        (not (eqb (code c) 45 || is_space (code c))) (in_set c user_code_alphabet) h in
    record {
      upper = same→eq (upper_char c) c a;
      back = same→eq (upper_char (lower_char c)) c b;
      kept = negated_true _ k;
      known = i;
    }

char_at-IsLetter : (n : ℕ) → n < 20 → IsLetter (char_at user_code_alphabet n)
char_at-IsLetter n h =
    IsLetter_lem (char_at user_code_alphabet n)
      (all_below-lt (λ m. is_letter (char_at user_code_alphabet m)) 20 n alphabet_test h)

IsSpelled : String → Type 0
IsSpelled String.[] = Unit {0}
IsSpelled (String.◌∷◌ c s) = IsLetter c × IsSpelled s

letters-IsSpelled :
    (k : ℕ) (ns : List ℕ) (s : String)
    → all (λ n. ltb n 20) ns ≡ true
    → letters k ns ≡ some s
    → IsSpelled s × (text_length s ≡ k)
unfolding letters IsSpelled text_length
letters-IsSpelled zero ns s ok h =
    subst (λ t. IsSpelled t × (text_length t ≡ zero)) (some-injective _ _ h) (tt, refl)
letters-IsSpelled (suc k) [] s ok h = cc
letters-IsSpelled (suc k) (n ∷ ns) s ok h = elim (Option-cases (letters k ns)) [
  | inl e ↦ cc (rw e at h)
  | inr (t, e) ↦
      let (low, others) = and_split (ltb n 20) _ ok in
      let (spelled, long) = letters-IsSpelled k ns t others e in
      subst (λ u. IsSpelled u × (text_length u ≡ suc k)) (some-injective _ _ (rw e at h))
        ((char_at-IsLetter n (ltb→lt n 20 low), spelled), ap suc long)
]

-- The text of a code with a text behind it.
squeeze-upper :
    (s t : String) → IsSpelled s → squeeze (to_upper (join s t)) ≡ join s (squeeze (to_upper t))
unfolding squeeze to_upper IsSpelled join
squeeze-upper String.[] t h = refl
squeeze-upper (String.◌∷◌ c s) t (l, h) =
    rw (l.upper, l.kept) (ap (λ u. String.◌∷◌ c u) (squeeze-upper s t h))

squeeze-lower :
    (s t : String)
    → IsSpelled s
    → squeeze (to_upper (to_lower (join s t))) ≡ join s (squeeze (to_upper (to_lower t)))
unfolding squeeze to_upper to_lower IsSpelled join
squeeze-lower String.[] t h = refl
squeeze-lower (String.◌∷◌ c s) t (l, h) =
    rw (l.back, l.kept) (ap (λ u. String.◌∷◌ c u) (squeeze-lower s t h))

append_nil : (s : String) → join s "" ≡ s
unfolding join
append_nil String.[] = refl
append_nil (String.◌∷◌ c s) = ap (λ u. String.◌∷◌ c u) (append_nil s)

first-rest : (n : ℕ) (s : String) → join (first n s) (rest n s) ≡ s
unfolding first rest join
first-rest zero s = refl
first-rest (suc n) String.[] = refl
first-rest (suc n) (String.◌∷◌ c s) = ap (λ u. String.◌∷◌ c u) (first-rest n s)

halves-IsSpelled : (n : ℕ) (s : String) → IsSpelled s → IsSpelled (first n s) × IsSpelled (rest n s)
unfolding first rest IsSpelled
halves-IsSpelled zero s h = (tt, h)
halves-IsSpelled (suc n) String.[] h = (tt, tt)
halves-IsSpelled (suc n) (String.◌∷◌ c s) (l, h) =
    let (a, b) = halves-IsSpelled n s h in ((l, a), b)

all_in-IsSpelled : (s : String) → IsSpelled s → all_in user_code_alphabet s ≡ true
unfolding all_in IsSpelled
all_in-IsSpelled String.[] h = refl
all_in-IsSpelled (String.◌∷◌ c s) (l, h) = rw l.known (all_in-IsSpelled s h)

checked-IsSpelled : (s : String) → IsSpelled s → text_length s ≡ 8 → checked_code s ≡ s
unfolding checked_code
checked-IsSpelled s h long = rw (long, all_in-IsSpelled s h) refl

plain_upper : (s : String) → IsSpelled s → squeeze (to_upper s) ≡ s
unfolding squeeze to_upper
plain_upper s h =
    ap (λ t. squeeze (to_upper t)) (sym (append_nil s)) ∙ squeeze-upper s "" h ∙ append_nil s

plain_lower : (s : String) → IsSpelled s → squeeze (to_upper (to_lower s)) ≡ s
unfolding squeeze to_upper to_lower
plain_lower s h =
    ap (λ t. squeeze (to_upper (to_lower t))) (sym (append_nil s))
    ∙ squeeze-lower s "" h
    ∙ append_nil s

dash :
    (s : String)
    → (squeeze (to_upper (join "-" s)) ≡ squeeze (to_upper s))
      × (squeeze (to_upper (to_lower (join "-" s))) ≡ squeeze (to_upper (to_lower s)))
unfolding squeeze to_upper to_lower join upper_char lower_char
dash s = (refl, refl)

dashed_upper : (s : String) → IsSpelled s → squeeze (to_upper (display_user_code s)) ≡ s
unfolding display_user_code
dashed_upper s h =
    let (a, b) = halves-IsSpelled 4 s h in
    squeeze-upper (first 4 s) (join "-" (rest 4 s)) a
    ∙ ap (join (first 4 s)) ((dash (rest 4 s)).0 ∙ plain_upper (rest 4 s) b)
    ∙ first-rest 4 s

dashed_lower : (s : String) → IsSpelled s → squeeze (to_upper (to_lower (display_user_code s))) ≡ s
unfolding display_user_code
dashed_lower s h =
    let (a, b) = halves-IsSpelled 4 s h in
    squeeze-lower (first 4 s) (join "-" (rest 4 s)) a
    ∙ ap (join (first 4 s)) ((dash (rest 4 s)).1 ∙ plain_lower (rest 4 s) b)
    ∙ first-rest 4 s

-- A code that was drawn below 20 is found again, whether it is typed as it is, as it is shown or
-- as it is shown in small letters.
pub normalize_user_code-display :
    (ns : List ℕ) (s : String)
    → all (λ n. ltb n 20) ns ≡ true
    → new_user_code ns ≡ some s
    → (normalize_user_code s ≡ s)
      × (normalize_user_code (display_user_code s) ≡ s)
      × (normalize_user_code (to_lower (display_user_code s)) ≡ s)
unfolding new_user_code normalize_user_code
normalize_user_code-display ns s low h =
    let (spelled, long) = letters-IsSpelled 8 ns s low h in
    let back = checked-IsSpelled s spelled long in
    (
      ap checked_code (plain_upper s spelled) ∙ back,
      ap checked_code (dashed_upper s spelled) ∙ back,
      ap checked_code (dashed_lower s spelled) ∙ back,
    )
