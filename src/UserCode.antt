-- ===== src/UserCode.antt =====
-- hub/internal/server/device.go: the codes that a user types, and the text that describes the
-- machine that asks. A code is drawn from 20 letters of ASCII.
pub mod Typed
use Prim.Native.Char.{Char, code}
use Prim.Native.String.{String, char_at}
use swift_proof.Prelude.{
  Bool, List, Option, [], eqb, false, if◌then◌else◌, none, not, some, suc, true, zero, ℕ, ◌&&◌,
  ◌||◌, ◌∷◌,
}
use swift_proof.Texts.{is_space, to_upper}

-- `userCodeAlphabet`
abbrev pub user_code_alphabet : String
user_code_alphabet = "BCDFGHJKLMNPQRSTVWXZ"

-- `userCodeLength`
abbrev pub user_code_length : ℕ
user_code_length = 8

-- The number of characters of a text.
unfoldable pub text_length : String → ℕ
text_length String.[] = 0
text_length (String.◌∷◌ c s) = suc (text_length s)

-- The first n characters of a text, and those after them.
unfoldable pub first : ℕ → String → String
first zero s = ""
first (suc n) String.[] = ""
first (suc n) (String.◌∷◌ c s) = String.◌∷◌ c (first n s)

unfoldable pub rest : ℕ → String → String
rest zero s = s
rest (suc n) String.[] = ""
rest (suc n) (String.◌∷◌ c s) = rest n s

-- Go's + on texts.
unfoldable pub join : String → String → String
join String.[] t = t
join (String.◌∷◌ c s) t = String.◌∷◌ c (join s t)

-- A character of a set of characters, and a text made of them: strings.Trim(s, set) == "".
unfoldable pub in_set : Char → String → Bool
in_set c String.[] = false
in_set c (String.◌∷◌ d s) = eqb (code c) (code d) || in_set c s

unfoldable pub all_in : String → String → Bool
unfolding in_set
all_in set String.[] = true
all_in set (String.◌∷◌ c s) = in_set c set && all_in set s

abbrev pub with_letter : Char → Option String → Option String
with_letter c none = none
with_letter c (some s) = some (String.◌∷◌ c s)

-- The loop of `newUserCode`, on what the random source answers: the source fails where the
-- answers end.
unfoldable pub letters : ℕ → List ℕ → Option String
letters zero ns = some ""
letters (suc k) [] = none
letters (suc k) (n ∷ ns) = with_letter (char_at user_code_alphabet n) (letters k ns)

unfoldable pub new_user_code : List ℕ → Option String
unfolding letters
new_user_code ns = letters user_code_length ns

-- The loop of `normalizeUserCode`: neither dashes nor spaces.
unfoldable pub squeeze : String → String
unfolding is_space
squeeze String.[] = ""
squeeze (String.◌∷◌ c s) =
    let others = squeeze s in
    if eqb (code c) 45 || is_space (code c) then others else String.◌∷◌ c others

unfoldable pub checked_code : String → String
unfolding text_length all_in
checked_code out =
    if not (eqb (text_length out) user_code_length) || not (all_in user_code_alphabet out)
    then ""
    else out

unfoldable pub normalize_user_code : String → String
unfolding squeeze checked_code to_upper
normalize_user_code s = checked_code (squeeze (to_upper s))

unfoldable pub display_user_code : String → String
unfolding first rest join
display_user_code s = join (first 4 s) (join "-" (rest 4 s))
