-- ===== src/Words.antt =====
-- What the program uses of Go's strings.Fields and strings.Join.
use Prim.Native.Char.{code}
use Prim.Native.String.{String}
use swift_proof.Prelude.{List, [], if◌then◌else◌, ◌==◌, ◌∷◌}
use swift_proof.Texts.{is_space}
use swift_proof.UserCode.{join}

abbrev pub add_word : String → List String → List String
add_word w ws = if w == "" then ws else w ∷ ws

-- The word at the start of a text, and those behind it.
unfoldable pub split_words : String → String × List String
unfolding is_space
split_words String.[] = ("", [])
split_words (String.◌∷◌ c s) =
    let (w, ws) = split_words s in
    if is_space (code c) then ("", add_word w ws) else (String.◌∷◌ c w, ws)

-- strings.Fields
unfoldable pub fields : String → List String
unfolding split_words
fields s = let (w, ws) = split_words s in add_word w ws

-- strings.Join(ws, " ")
unfoldable pub spaced : List String → String
unfolding join
spaced [] = ""
spaced (w ∷ []) = w
spaced (w ∷ v ∷ ws) = join w (join " " (spaced (v ∷ ws)))
