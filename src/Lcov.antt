-- ===== src/Lcov.antt =====
-- app/internal/coverage/lcov.go: the reader of LCOV tracefiles. The number of bytes of the text is
-- an argument. A row is classified first and then read; both steps fail in the same way.
pub mod Bounded
pub mod Accepted
pub mod Summed
use Prim.Native.Char.{code}
use Prim.Native.String.{String}
use swift_proof.Prelude.{
  Bool, List, Option, [], eqb, false, if◌then◌else◌, ltb, map, none, not, some, suc, true, ℕ, ◌&&◌,
  ◌==◌, ◌||◌, ◌∷◌,
}
use swift_proof.Texts.{has, is_blank}
use swift_proof.Profile.{
  Block, UintRead, cut_at, max_profile_bytes, merge_block, parse_uint, range_error, read_count,
  sort_blocks, split_at, syntax_error, uint,
}

-- `lcovFields`
abbrev pub lcov_fields : List String
lcov_fields =
    "TN" ∷ "SF" ∷ "VER" ∷ "FN" ∷ "FNDA" ∷ "FNF" ∷ "FNH" ∷ "FNL" ∷ "FNA" ∷ "BRDA" ∷ "BRF" ∷ "BRH"
    ∷ "DA" ∷ "LF" ∷ "LH" ∷ []

-- The bound that counts saturate at.
abbrev pub count_bound : ℕ
count_bound = 1073741824

-- strings.TrimRight(s, "\r")
unfoldable pub trim_return : String → String
trim_return String.[] = ""
trim_return (String.◌∷◌ c s) =
    let others = trim_return s in
    if eqb (code c) 13 && others == "" then "" else String.◌∷◌ c others

abbrev pub saturated : UintRead → Option ℕ
saturated syntax_error = none
saturated range_error = some count_bound
saturated (uint n) = some (if ltb count_bound n then count_bound else n)

abbrev pub line_and_count : Option ℕ → Option ℕ → Option (ℕ × ℕ)
line_and_count none n = none
line_and_count (some m) none = none
line_and_count (some m) (some n) = if ltb m 1 then none else some (m, n)

-- `lcovLine` on the parts of its value.
unfoldable pub line_of : List String → Option (ℕ × ℕ)
unfolding read_count parse_uint
line_of [] = none
line_of (a ∷ []) = none
line_of (a ∷ b ∷ []) = line_and_count (read_count a) (saturated (parse_uint b))
line_of (a ∷ b ∷ c ∷ []) = line_and_count (read_count a) (saturated (parse_uint b))
line_of (a ∷ b ∷ c ∷ d ∷ parts) = none

unfoldable pub lcov_line : String → Option (ℕ × ℕ)
unfolding line_of split_at
lcov_line value = line_of (split_at 44 value)

pub data Row : Type 0 where
  blank closing other header unreadable : Row
  source : String → Row
  line_data : ℕ → ℕ → Row

abbrev pub data_row : Option (ℕ × ℕ) → Row
data_row none = unreadable
data_row (some (m, n)) = line_data m n

abbrev pub field_row : String → String → Row
unfolding lcov_line
field_row field value =
    if not (has field lcov_fields)
    then unreadable
    else if field == "SF"
    then source value
    else if field == "DA"
    then data_row (lcov_line value)
    else if not (field == "TN") && not (field == "VER")
    then other
    else header

abbrev pub cut_row : Option (String × String) → Row
unfolding field_row
cut_row none = unreadable
cut_row (some (field, value)) = field_row field value

abbrev pub text_row : String → Row
unfolding cut_row cut_at is_blank
text_row text =
    if is_blank text
    then blank
    else if text == "end_of_record"
    then closing
    else cut_row (cut_at 58 text)

unfoldable pub row_of : String → Row
unfolding text_row trim_return
row_of raw = text_row (trim_return raw)

pub data LcovError : Type 0 where
  malformed : ℕ → LcovError
  block_limit truncated no_format : LcovError

-- The variables of the loop: the file of the open record, the records and the blocks.
pub record Reader : Type 0 where
  pub file : String
  pub is_open : Bool
  pub records : ℕ
  pub blocks : List Block

abbrev pub new_reader : Reader
new_reader = record { file = ""; is_open = false; records = 0; blocks = [] }

pub data Turn : Type 0 where
  stop : LcovError → Turn
  go_on : Reader → Turn

abbrev pub line_block : String → ℕ → ℕ → Block
line_block file m n = record { file = file; start_line = m; end_line = m; num_stmts = 1; count = n }

abbrev pub merged : Reader → Option (List Block) → Turn
merged r none = stop block_limit
merged r (some bs) = go_on (record r { blocks = bs })

-- One turn of the loop of `ParseLCOV`.
unfoldable pub read_row : ℕ → Row → Reader → Turn
unfolding merge_block
read_row at blank r = go_on r
read_row at closing r =
    if r.is_open then go_on (record r { is_open = false; file = "" }) else stop (malformed at)
read_row at (source f) r =
    if r.is_open || f == ""
    then stop (malformed at)
    else go_on (record r { is_open = true; file = f; records = suc r.records })
read_row at (line_data m n) r =
    if r.is_open
    then merged r (merge_block (line_block r.file m n) r.blocks)
    else stop (malformed at)
read_row at other r = if r.is_open then go_on r else stop (malformed at)
read_row at header r = go_on r
read_row at unreadable r = stop (malformed at)

abbrev pub further_rows : (Reader → Turn) → Turn → Turn
further_rows more (stop e) = stop e
further_rows more (go_on r) = more r

unfoldable pub read_rows : ℕ → List Row → Reader → Turn
unfolding read_row
read_rows at [] r = go_on r
read_rows at (row ∷ rows) r = further_rows (read_rows (suc at) rows) (read_row at row r)

pub data Parsed : Type 0 where
  failed : LcovError → Parsed
  profile : List Block → Parsed

abbrev pub concluded : Turn → Parsed
unfolding sort_blocks
concluded (stop e) = failed e
concluded (go_on r) =
    if r.is_open
    then failed truncated
    else if eqb r.records 0
    then failed no_format
    else profile (sort_blocks r.blocks)

-- `ParseLCOV`
unfoldable pub parse_lcov : ℕ → String → Parsed
unfolding concluded read_rows row_of split_at
parse_lcov size text =
    if ltb max_profile_bytes size
    then failed block_limit
    else concluded (read_rows 1 (map row_of (split_at 10 text)) new_reader)
