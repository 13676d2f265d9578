-- ===== src/Profile.antt =====
-- app/internal/coverage/profile.go: the blocks of a coverage profile, and how the parsers read
-- numbers, merge blocks and sort them. A text is a list of characters; where Go counts its bytes,
-- the number is an argument.
pub mod Merged
use Prim.Native.Char.{Char, code}
use Prim.Native.String.{String}
use swift_proof.Prelude.{
  Bool, List, Option, [], eqb, false, if◌then◌else◌, leb, length, ltb, none, not, some, ℕ, ◌%◌,
  ◌&&◌, ◌*◌, ◌++◌, ◌+◌, ◌-◌, ◌==◌, ◌||◌, ◌∷◌,
}
use swift_proof.Texts.{text_lt}

-- `maxProfileBytes`
abbrev pub max_profile_bytes : ℕ
max_profile_bytes = 8388608

-- `maxBlocks`
abbrev pub max_blocks : ℕ
max_blocks = 200000

-- The largest int.
abbrev pub max_int : ℕ
max_int = 9223372036854775807

-- The number of values of an int.
abbrev pub int_range : ℕ
int_range = 18446744073709551616

-- `Block`; the count stands for its 64 bits, since additions to it wrap around.
pub record Block : Type 0 where
  pub file : String
  pub start_line : ℕ
  pub end_line : ℕ
  pub num_stmts : ℕ
  pub count : ℕ

abbrev pub begin_with : Char → List String → List String
begin_with c [] = String.◌∷◌ c "" ∷ []
begin_with c (s ∷ ss) = String.◌∷◌ c s ∷ ss

-- strings.Split(s, sep) for a separator of one character.
unfoldable pub split_at : ℕ → String → List String
split_at sep String.[] = "" ∷ []
split_at sep (String.◌∷◌ c s) =
    let parts = split_at sep s in if eqb (code c) sep then "" ∷ parts else begin_with c parts

abbrev pub cut_behind : Char → Option (String × String) → Option (String × String)
cut_behind c none = none
cut_behind c (some (before, behind)) = some (String.◌∷◌ c before, behind)

-- strings.Cut(s, sep) for a separator of one character: `none` if it is not there.
unfoldable pub cut_at : ℕ → String → Option (String × String)
cut_at sep String.[] = none
cut_at sep (String.◌∷◌ c s) =
    let later = cut_behind c (cut_at sep s) in if eqb (code c) sep then some ("", s) else later

abbrev pub is_digit : ℕ → Bool
is_digit c = leb 48 c && leb c 57

-- What strconv.ParseUint answers: a number, ErrSyntax or ErrRange.
pub data UintRead : Type 0 where
  syntax_error range_error : UintRead
  uint : ℕ → UintRead

-- The number that digits stand for, behind a number that was read. The first digit that leaves the
-- range of 64 bits ends the loop, whatever stands behind it.
unfoldable pub digits : ℕ → String → UintRead
digits n String.[] = uint n
digits n (String.◌∷◌ c s) =
    let next = n * 10 + (code c - 48) in
    let later = digits next s in
    if not (is_digit (code c))
    then syntax_error
    else if leb int_range next
    then range_error
    else later

-- strconv.ParseUint(s, 10, 64)
unfoldable pub parse_uint : String → UintRead
unfolding digits
parse_uint s = if s == "" then syntax_error else digits 0 s

abbrev pub in_int : UintRead → Option ℕ
in_int syntax_error = none
in_int range_error = none
in_int (uint n) = if leb n max_int then some n else none

-- A number behind a minus is negative, unless it is 0.
abbrev pub negated : Option ℕ → Option ℕ
negated none = none
negated (some n) = if eqb n 0 then some n else none

-- `count`: strconv.Atoi, for a number that is not negative.
unfoldable pub read_count : String → Option ℕ
unfolding parse_uint
read_count String.[] = none
read_count (String.◌∷◌ c s) =
    if eqb (code c) 43
    then in_int (parse_uint s)
    else if eqb (code c) 45
    then negated (in_int (parse_uint s))
    else in_int (parse_uint (String.◌∷◌ c s))

-- The same range of lines of the same file, which is one key of the index.
abbrev pub same_block : Block → Block → Bool
same_block b c = b.file == c.file && (eqb b.start_line c.start_line && eqb b.end_line c.end_line)

abbrev pub is_known : Block → List Block → Bool
is_known b [] = false
is_known b (c ∷ cs) = same_block c b || is_known b cs

-- profile.Blocks[at].Count += block.Count, an addition of ints.
unfoldable pub add_count : Block → List Block → List Block
add_count b [] = []
add_count b (c ∷ cs) =
    let others = add_count b cs in
    if same_block c b then record c { count = (c.count + b.count) % int_range } ∷ cs else c ∷ others

-- The blocks with one more; `none` at the bound.
unfoldable pub merge_block : Block → List Block → Option (List Block)
unfolding add_count
merge_block b bs =
    if is_known b bs
    then some (add_count b bs)
    else if leb max_blocks (length bs)
    then none
    else some (bs ++ b ∷ [])

-- The order of sort.Slice.
abbrev pub block_before : Block → Block → Bool
unfolding text_lt
block_before b c =
    if not (b.file == c.file)
    then text_lt b.file c.file
    else if not (eqb b.start_line c.start_line)
    then ltb b.start_line c.start_line
    else ltb b.end_line c.end_line

unfoldable pub insert_block : Block → List Block → List Block
unfolding block_before
insert_block b [] = b ∷ []
insert_block b (c ∷ cs) =
    let others = insert_block b cs in if block_before c b then c ∷ others else b ∷ c ∷ cs

-- Blocks have different keys, so every sort gives the same list.
unfoldable pub sort_blocks : List Block → List Block
unfolding insert_block
sort_blocks [] = []
sort_blocks (b ∷ bs) = insert_block b (sort_blocks bs)
