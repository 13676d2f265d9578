-- ===== src/GoProfile/Bounded.antt =====
-- The counts that the rows of a Go profile carry.
use Prim.Native.Char.{code}
use swift_proof.Words.{fields}
use Prim.Native.String.{String}
use swift_proof.Prelude.{
  Bool, List, Option, [], ap, arith, eqb, false, if◌then◌else◌, none, some, true, ℕ, ◌<◌, ◌==◌,
  ◌||◌, ◌∷◌, ◌≡◌, ◌≤◌,
}
use swift_proof.Profile.{
  Block, UintRead, cut_at, in_int, int_range, max_int, negated, parse_uint, range_error, read_count,
  syntax_error, uint,
}
use swift_proof.GoProfile.{
  cut_last, line_number, numbers_block, parse_block, range_block, span_block, words_block,
}

or_zero : Option ℕ → ℕ
or_zero none = 0
or_zero (some n) = n

in_int-small : (p : UintRead) → or_zero (in_int p) ≤ max_int
unfolding or_zero
in_int-small syntax_error = omega arith
in_int-small range_error = omega arith
in_int-small (uint n) = ground arith

negated-small : (o : Option ℕ) → or_zero (negated o) ≤ max_int
unfolding or_zero
negated-small none = omega arith
negated-small (some n) = ground arith

one_of_three :
    (a b : Bool) (x y z : Option ℕ)
    → or_zero x ≤ max_int
    → or_zero y ≤ max_int
    → or_zero z ≤ max_int
    → or_zero (if a then x else if b then y else z) ≤ max_int
one_of_three true b x y z p q r = p
one_of_three false true x y z p q r = q
one_of_three false false x y z p q r = r

read_count-small : (s : String) → or_zero (read_count s) ≤ max_int
unfolding read_count or_zero
read_count-small String.[] = omega arith
read_count-small (String.◌∷◌ c s) =
    one_of_three (eqb (code c) 43) (eqb (code c) 45) _ _ _ (in_int-small (parse_uint s))
      (negated-small (in_int (parse_uint s))) (in_int-small (parse_uint (String.◌∷◌ c s)))

block_count : Option Block → ℕ
block_count none = 0
block_count (some b) = b.count

numbers_block-small :
    (file : String) (a b c d : Option ℕ)
    → or_zero d ≤ max_int
    → block_count (numbers_block file a b c d) ≤ max_int
unfolding block_count or_zero
numbers_block-small file none b c d h = omega arith
numbers_block-small file (some a) none c d h = omega arith
numbers_block-small file (some a) (some b) none d h = omega arith
numbers_block-small file (some a) (some b) (some c) none h = omega arith
numbers_block-small file (some a) (some b) (some c) (some d) h = ground (arith, h)

span_block-small :
    (file stmts runs : String) (o : Option (String × String))
    → block_count (span_block file stmts runs o) ≤ max_int
unfolding block_count span_block
span_block-small file stmts runs none = omega arith
span_block-small file stmts runs (some (from, to)) =
    numbers_block-small file (line_number from) (line_number to) (read_count stmts)
      (read_count runs) (read_count-small runs)

none_or_small :
    (b : Bool) (o : Option Block)
    → block_count o ≤ max_int
    → block_count (if b then none else o) ≤ max_int
unfolding block_count
none_or_small true o h = omega arith
none_or_small false o h = h

range_block-small :
    (stmts runs : String) (o : Option (String × String))
    → block_count (range_block stmts runs o) ≤ max_int
unfolding block_count range_block
range_block-small stmts runs none = omega arith
range_block-small stmts runs (some (file, span)) =
    none_or_small (file == "" || span == "") _ (span_block-small file stmts runs (cut_at 44 span))

words_block-small : (ws : List String) → block_count (words_block ws) ≤ max_int
unfolding block_count words_block
words_block-small [] = omega arith
words_block-small (a ∷ []) = omega arith
words_block-small (a ∷ b ∷ []) = omega arith
words_block-small (a ∷ b ∷ c ∷ []) = range_block-small b c (cut_last 58 a)
words_block-small (a ∷ b ∷ c ∷ d ∷ ws) = omega arith

pub parse_block-small :
    (text : String) (b : Block) → parse_block text ≡ some b → b.count < int_range
unfolding parse_block block_count
parse_block-small text b e = omega (arith, words_block-small (fields text), ap block_count e)
