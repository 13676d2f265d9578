-- ===== src/GoProfile.antt =====
-- app/internal/coverage/profile.go: the reader of Go coverage profiles, and the choice of a reader.
-- The number of bytes of the text is an argument.
pub mod Bounded
pub mod Kept
use Prim.Native.Char.{Char, code}
use Prim.Native.String.{String}
use swift_proof.Prelude.{
  Bool, List, Option, [], eqb, false, if◌then◌else◌, ltb, map, none, some, suc, true, ℕ, ◌&&◌, ◌==◌,
  ◌||◌, ◌∷◌,
}
use swift_proof.Texts.{has, is_blank, is_space}
use swift_proof.Words.{fields}
use swift_proof.Profile.{
  Block, cut_at, max_profile_bytes, merge_block, read_count, sort_blocks, split_at,
}
use swift_proof.Lcov.{
  LcovError, Parsed, block_limit, failed, malformed, no_format, parse_lcov, profile, trim_return,
}

-- strings.CutPrefix
unfoldable pub cut_prefix : String → String → Option String
cut_prefix String.[] s = some s
cut_prefix (String.◌∷◌ c p) String.[] = none
cut_prefix (String.◌∷◌ c p) (String.◌∷◌ d s) =
    let behind = cut_prefix p s in if eqb (code c) (code d) then behind else none

abbrev pub cut_before : Char → String → Bool → Option (String × String) → Option (String × String)
cut_before c s here none = if here then some ("", s) else none
cut_before c s here (some (before, behind)) = some (String.◌∷◌ c before, behind)

-- What stands before and behind the last of a character.
unfoldable pub cut_last : ℕ → String → Option (String × String)
cut_last sep String.[] = none
cut_last sep (String.◌∷◌ c s) = cut_before c s (eqb (code c) sep) (cut_last sep s)

-- `position`, of which only the line is used.
abbrev pub both_counts : Option ℕ → Option ℕ → Option ℕ
both_counts none column = none
both_counts (some line) none = none
both_counts (some line) (some column) = some line

abbrev pub cut_position : Option (String × String) → Option ℕ
unfolding read_count
cut_position none = none
cut_position (some (line, column)) = both_counts (read_count line) (read_count column)

unfoldable pub line_number : String → Option ℕ
unfolding cut_position cut_at
line_number s = cut_position (cut_at 46 s)

abbrev pub numbers_block : String → Option ℕ → Option ℕ → Option ℕ → Option ℕ → Option Block
numbers_block file none b c d = none
numbers_block file (some a) none c d = none
numbers_block file (some a) (some b) none d = none
numbers_block file (some a) (some b) (some c) none = none
numbers_block file (some a) (some b) (some c) (some d) =
    if ltb a 1 || ltb b a
    then none
    else some (record { file = file; start_line = a; end_line = b; num_stmts = c; count = d })

abbrev pub span_block : String → String → String → Option (String × String) → Option Block
unfolding line_number read_count
span_block file stmts runs none = none
span_block file stmts runs (some (from, to)) =
    numbers_block file (line_number from) (line_number to) (read_count stmts) (read_count runs)

abbrev pub range_block : String → String → Option (String × String) → Option Block
unfolding span_block cut_at
range_block stmts runs none = none
range_block stmts runs (some (file, span)) =
    if file == "" || span == "" then none else span_block file stmts runs (cut_at 44 span)

abbrev pub words_block : List String → Option Block
unfolding range_block cut_last
words_block [] = none
words_block (a ∷ []) = none
words_block (a ∷ b ∷ []) = none
words_block (a ∷ b ∷ c ∷ []) = range_block b c (cut_last 58 a)
words_block (a ∷ b ∷ c ∷ d ∷ ws) = none

-- `parseBlock`
unfoldable pub parse_block : String → Option Block
unfolding words_block fields
parse_block text = words_block (fields text)

-- The variables of the loop.
pub record GoReader : Type 0 where
  pub mode : String
  pub blocks : List Block

abbrev pub new_go_reader : GoReader
new_go_reader = record { mode = ""; blocks = [] }

pub data GoTurn : Type 0 where
  halt : LcovError → GoTurn
  resume : GoReader → GoTurn

abbrev pub mode_turn : GoReader → Option String → GoTurn
mode_turn r none = halt no_format
mode_turn r (some mode) =
    if has mode ("set" ∷ "count" ∷ "atomic" ∷ [])
    then resume (record r { mode = mode })
    else halt no_format

abbrev pub stored_turn : GoReader → Option (List Block) → GoTurn
stored_turn r none = halt block_limit
stored_turn r (some bs) = resume (record r { blocks = bs })

abbrev pub block_turn : ℕ → GoReader → Option Block → GoTurn
unfolding merge_block
block_turn at r none = halt (malformed at)
block_turn at r (some b) = stored_turn r (merge_block b r.blocks)

-- One turn of the loop of `ParseGoProfile`.
unfoldable pub read_go_row : ℕ → String → GoReader → GoTurn
unfolding is_blank cut_prefix block_turn parse_block
read_go_row at text r =
    if is_blank text
    then resume r
    else if r.mode == ""
    then mode_turn r (cut_prefix "mode: " text)
    else block_turn at r (parse_block text)

abbrev pub further_texts : (GoReader → GoTurn) → GoTurn → GoTurn
further_texts more (halt e) = halt e
further_texts more (resume r) = more r

unfoldable pub read_go_rows : ℕ → List String → GoReader → GoTurn
unfolding read_go_row
read_go_rows at [] r = resume r
read_go_rows at (text ∷ texts) r =
    further_texts (read_go_rows (suc at) texts) (read_go_row at text r)

abbrev pub concluded_go : GoTurn → Parsed
unfolding sort_blocks
concluded_go (halt e) = failed e
concluded_go (resume r) = if r.mode == "" then failed no_format else profile (sort_blocks r.blocks)

-- `ParseGoProfile`
unfoldable pub parse_go_profile : ℕ → String → Parsed
unfolding concluded_go read_go_rows trim_return split_at
parse_go_profile size text =
    if ltb max_profile_bytes size
    then failed block_limit
    else concluded_go (read_go_rows 1 (map trim_return (split_at 10 text)) new_go_reader)

unfoldable pub trim_left : String → String
unfolding is_space
trim_left String.[] = ""
trim_left (String.◌∷◌ c s) =
    let others = trim_left s in if is_space (code c) then others else String.◌∷◌ c s

unfoldable pub trim_right : String → String
unfolding is_space
trim_right String.[] = ""
trim_right (String.◌∷◌ c s) =
    let others = trim_right s in
    if is_space (code c) && others == "" then "" else String.◌∷◌ c others

-- strings.TrimSpace
unfoldable pub trim_space : String → String
unfolding trim_left trim_right
trim_space s = trim_right (trim_left s)

abbrev pub starts : String → String → Bool
unfolding cut_prefix
starts prefix text = elim (cut_prefix prefix text) [ none ↦ false | some s ↦ true ]

abbrev pub lcov_start : String → Bool
unfolding starts
lcov_start text = starts "TN:" text || (starts "SF:" text || starts "VER:" text)

-- The loop of `Parse`: the first row that is not blank decides.
unfoldable pub parse_by : ℕ → String → List String → Parsed
unfolding parse_go_profile parse_lcov trim_space lcov_start is_blank
parse_by size text [] = failed no_format
parse_by size text (raw ∷ raws) =
    let later = parse_by size text raws in
    if is_blank raw
    then later
    else if starts "mode: " (trim_space raw)
    then parse_go_profile size text
    else if lcov_start (trim_space raw)
    then parse_lcov size text
    else failed no_format

-- `Parse`
unfoldable pub parse_coverage : ℕ → String → Parsed
unfolding parse_by split_at
parse_coverage size text =
    if ltb max_profile_bytes size then failed block_limit else parse_by size text (split_at 10 text)
