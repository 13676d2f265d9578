-- ===== src/Lcov/Bounded.antt =====
-- The counts that the rows of a tracefile carry.
use Prim.Native.String.{String}
use swift_proof.Prelude.{
  Bool, List, Member, Option, [], arith, false, if◌then◌else◌, inl, inr, map, none, not, refl, some,
  subst, true, ℕ, ◌&&◌, ◌<◌, ◌==◌, ◌∷◌, ◌≤◌,
}
use swift_proof.Profile.{
  UintRead, cut_at, int_range, parse_uint, range_error, read_count, split_at, syntax_error, uint,
}
use swift_proof.Texts.{has, is_blank}
use swift_proof.Lcov.{
  Row, blank, closing, count_bound, cut_row, data_row, field_row, header, lcov_fields, lcov_line,
  line_and_count, line_data, line_of, other, row_of, saturated, source, text_row, trim_return,
  unreadable,
}

unfoldable pub row_count : Row → ℕ
row_count blank = 0
row_count closing = 0
row_count other = 0
row_count header = 0
row_count unreadable = 0
row_count (source g) = 0
row_count (line_data l n) = n

one_small :
    (b : Bool) (x y : Row)
    → row_count x ≤ count_bound
    → row_count y ≤ count_bound
    → row_count (if b then x else y) ≤ count_bound
one_small true x y p q = p
one_small false x y p q = q

pair_small :
    (o : Option ℕ) (p : UintRead)
    → row_count (data_row (line_and_count o (saturated p))) ≤ count_bound
unfolding row_count
pair_small none p = omega arith
pair_small (some m) syntax_error = omega arith
pair_small (some m) range_error = ground arith
pair_small (some m) (uint n) = ground arith

line_of-small : (parts : List String) → row_count (data_row (line_of parts)) ≤ count_bound
unfolding line_of row_count
line_of-small [] = omega arith
line_of-small (a ∷ []) = omega arith
line_of-small (a ∷ b ∷ []) = pair_small (read_count a) (parse_uint b)
line_of-small (a ∷ b ∷ c ∷ []) = pair_small (read_count a) (parse_uint b)
line_of-small (a ∷ b ∷ c ∷ d ∷ parts) = omega arith

cut_row-small : (o : Option (String × String)) → row_count (cut_row o) ≤ count_bound
unfolding cut_row field_row lcov_line row_count
cut_row-small none = omega arith
cut_row-small (some (field, value)) = one_small (not (has field lcov_fields)) _ _ (omega arith) (
    one_small (field == "SF") _ _ (omega arith) (
      one_small (field == "DA") _ _ (line_of-small (split_at 44 value))
        (one_small (not (field == "TN") && not (field == "VER")) _ _ (omega arith) (omega arith))))

row_of-small : (raw : String) → row_count (row_of raw) ≤ count_bound
unfolding row_of text_row row_count
row_of-small raw = one_small (is_blank (trim_return raw)) _ _ (omega arith) (
    one_small (trim_return raw == "end_of_record") _ _ (omega arith)
      (cut_row-small (cut_at 58 (trim_return raw))))

-- All counts of rows are those that saturate.
pub Small : List Row → Type 0
Small rows = (row : Row) → Member row rows → row_count row ≤ count_bound

pub rows-Small : (raws : List String) → Small (map row_of raws)
unfolding Small
rows-Small [] row x = absurd x
rows-Small (raw ∷ raws) row (inl e) = subst (λ r. row_count r ≤ count_bound) e (row_of-small raw)
rows-Small (raw ∷ raws) row (inr x) = rows-Small raws row x

pub Small-rest : (row : Row) (rows : List Row) → Small (row ∷ rows) → Small rows
unfolding Small
Small-rest row rows h r x = h r (inr x)

pub Small-first : (row : Row) (rows : List Row) → Small (row ∷ rows) → row_count row < int_range
unfolding Small
Small-first row rows h = omega (arith, h row (inl refl))
