-- ===== src/Texts.antt =====
-- What the program uses of Go's strings package. Letters change case in ASCII only: a text
-- with other letters keeps them, where Go maps them too.
use Prim.Native.Char.{Char, code}
use Prim.Native.Nat.{◌-◌}
use Prim.Native.Nat.{Ordering}
use Prim.Native.String.{String, char_at, compare}
use text.Mathlib.Text.{find?}
use swift_proof.Prelude.{
  Bool, List, [], any, eqb, false, if◌then◌else◌, leb, refl, true, ℕ, ◌&&◌, ◌==◌, ◌||◌, ◌∷◌, ◌≡◌,
}
use swift_proof.Prelude.Dict.{is_some}

unfoldable pub lower_char : Char → Char
lower_char c =
    if leb 65 (code c) && leb (code c) 90
    then char_at "abcdefghijklmnopqrstuvwxyz" (code c - 65)
    else c

unfoldable pub upper_char : Char → Char
upper_char c =
    if leb 97 (code c) && leb (code c) 122
    then char_at "ABCDEFGHIJKLMNOPQRSTUVWXYZ" (code c - 97)
    else c

-- strings.ToLower
unfoldable pub to_lower : String → String
unfolding lower_char
to_lower String.[] = String.[]
to_lower (String.◌∷◌ c s) = String.◌∷◌ (lower_char c) (to_lower s)

-- strings.ToUpper
unfoldable pub to_upper : String → String
unfolding upper_char
to_upper String.[] = String.[]
to_upper (String.◌∷◌ c s) = String.◌∷◌ (upper_char c) (to_upper s)

-- unicode.IsSpace
unfoldable pub is_space : ℕ → Bool
is_space c =
    (leb 9 c && leb c 13)
    || eqb c 32
    || eqb c 133
    || eqb c 160
    || eqb c 5760
    || (leb 8192 c && leb c 8202)
    || eqb c 8232
    || eqb c 8233
    || eqb c 8239
    || eqb c 8287
    || eqb c 12288

-- strings.TrimSpace(s) == ""
unfoldable pub is_blank : String → Bool
unfolding is_space
is_blank String.[] = true
is_blank (String.◌∷◌ c s) = is_space (code c) && is_blank s

-- strings.Contains
unfoldable pub contains : String → String → Bool
contains s t = is_some (find? s t)

-- s <= t in Go's order of texts, which is that of their bytes.
unfoldable pub text_le : String → String → Bool
text_le s t = elim (compare s t) [ Ordering.gt ↦ false | _ ↦ true ]

-- s < t
unfoldable pub text_lt : String → String → Bool
text_lt s t = elim (compare s t) [ Ordering.lt ↦ true | _ ↦ false ]

abbrev pub has : String → List String → Bool
has k l = any (λ j. j == k) l

case_test : (to_lower "HIGH" ≡ "high") × (to_upper "diverged" ≡ "DIVERGED")
unfolding to_lower to_upper
case_test = (refl, refl)

blank_test : (is_blank " " ≡ true) × (is_blank " x" ≡ false)
unfolding is_blank
blank_test = (refl, refl)

-- `unique` of app/internal/report/report.go: the texts that are not empty, once each and sorted.
unfoldable pub insert_text : String → List String → List String
insert_text s [] = s ∷ []
insert_text s (t ∷ ts) =
    if s == t then t ∷ ts else if text_lt t s then t ∷ insert_text s ts else s ∷ t ∷ ts

unfoldable pub unique : List String → List String
unfolding insert_text
unique [] = []
unique (s ∷ ss) = if s == "" then unique ss else insert_text s (unique ss)
