-- ===== src/Lcov/Summed.antt =====
-- The executions that a profile keeps.
use Prim.Native.String.{String}
use swift_proof.Prelude.{
  Bool, List, Option, [], ap, arith, eqb, false, if◌then◌else◌, ltb, map, none, refl, some, subst,
  suc, sym, true, ℕ, ◌&&◌, ◌+◌, ◌<◌, ◌==◌, ◌||◌, ◌∷◌, ◌≡◌,
}
use swift_proof.Profile.{Block, int_range, max_profile_bytes, sort_blocks, split_at}
use swift_proof.Profile.Merged.{IsSum, IsSum-none, merge_block-IsSum, sort_blocks-IsSum, total}
use swift_proof.Lcov.{
  Parsed, Reader, Row, Turn, blank, block_limit, closing, concluded, failed, further_rows, go_on,
  header, line_block, line_data, malformed, merged, new_reader, no_format, other, parse_lcov,
  profile, read_row, read_rows, row_of, source, stop, truncated, unreadable,
}
use swift_proof.Lcov.Bounded.{Small, Small-first, Small-rest, row_count, rows-Small}

-- What the rows record for a line of a file, where `cur` is the file of the open record.
pub recorded : String → ℕ → String → List Row → ℕ
recorded f m cur [] = 0
recorded f m cur (blank ∷ rows) = recorded f m cur rows
recorded f m cur (closing ∷ rows) = recorded f m "" rows
recorded f m cur (other ∷ rows) = recorded f m cur rows
recorded f m cur (header ∷ rows) = recorded f m cur rows
recorded f m cur (unreadable ∷ rows) = recorded f m cur rows
recorded f m cur (source g ∷ rows) = recorded f m g rows
recorded f m cur (line_data l n ∷ rows) =
    let others = recorded f m cur rows in if cur == f && eqb l m then n + others else others

one_line :
    (f : String) (m : ℕ) (cur : String) (l n : ℕ)
    → total f m m (line_block cur l n ∷ []) ≡ (if cur == f && eqb l m then n else 0)
unfolding total
one_line f m cur l n = ground arith

past_test :
    (b : Bool) (more : Reader → Turn) (x : Turn) (at : ℕ) (t : Reader)
    → further_rows more (if b then x else stop (malformed at)) ≡ go_on t
    → further_rows more x ≡ go_on t
past_test true more x at t e = e
past_test false more x at t e = cc

past_refusal :
    (b : Bool) (more : Reader → Turn) (x : Turn) (at : ℕ) (t : Reader)
    → further_rows more (if b then stop (malformed at) else x) ≡ go_on t
    → further_rows more x ≡ go_on t
past_refusal true more x at t e = cc
past_refusal false more x at t e = e

past_merge :
    (more : Reader → Turn) (r t : Reader) (o : Option (List Block))
    → further_rows more (merged r o) ≡ go_on t
    → (bs : List Block) × (o ≡ some bs) × (more (record r { blocks = bs }) ≡ go_on t)
past_merge more r t none e = cc
past_merge more r t (some bs) e = (bs, refl, e)

reader_or : Reader → Turn → Reader
reader_or r (stop e) = r
reader_or r (go_on t) = t

read_rows-IsSum :
    (f : String) (m at sum : ℕ) (rows : List Row) (r t : Reader)
    → read_rows at rows r ≡ go_on t
    → Small rows
    → IsSum f m m r.blocks sum
    → IsSum f m m t.blocks (sum + recorded f m r.file rows)
unfolding read_rows read_row recorded reader_or row_count
read_rows-IsSum f m at sum [] r t e h s =
    subst (λ bs. IsSum f m m bs (sum + 0)) (ap (λ x. (reader_or r x).blocks) e)
      (record { same = omega (arith, s.same); single = s.single })
read_rows-IsSum f m at sum (blank ∷ rows) r t e h s =
    read_rows-IsSum f m (suc at) sum rows r t e (Small-rest _ rows h) s
read_rows-IsSum f m at sum (closing ∷ rows) r t e h s =
    read_rows-IsSum f m (suc at) sum rows (record r { is_open = false; file = "" }) t
      (past_test r.is_open (read_rows (suc at) rows) _ at t e) (Small-rest _ rows h) s
read_rows-IsSum f m at sum (other ∷ rows) r t e h s =
    read_rows-IsSum f m (suc at) sum rows r t
      (past_test r.is_open (read_rows (suc at) rows) (go_on r) at t e) (Small-rest _ rows h) s
read_rows-IsSum f m at sum (header ∷ rows) r t e h s =
    read_rows-IsSum f m (suc at) sum rows r t e (Small-rest _ rows h) s
read_rows-IsSum f m at sum (unreadable ∷ rows) r t e h s = cc
read_rows-IsSum f m at sum (source g ∷ rows) r t e h s =
    read_rows-IsSum f m (suc at) sum rows
      (record r { is_open = true; file = g; records = suc r.records }) t
      (past_refusal (r.is_open || g == "") (read_rows (suc at) rows) _ at t e) (Small-rest _ rows h)
      s
read_rows-IsSum f m at sum (line_data l n ∷ rows) r t e h s =
    let (bs, q, later) =
      past_merge (read_rows (suc at) rows) r t _
        (past_test r.is_open (read_rows (suc at) rows) _ at t e) in
    let b = line_block r.file l n in
    let small : n < int_range = Small-first _ rows h in
    subst (IsSum f m m t.blocks) (ground (arith, one_line f m r.file l n)) (
      read_rows-IsSum f m (suc at) (sum + total f m m (b ∷ [])) rows (record r { blocks = bs }) t
        later (Small-rest _ rows h) (merge_block-IsSum f m m r.blocks bs b sum q small s))

unfoldable pub blocks_or : List Block → Parsed → List Block
blocks_or cs (failed e) = cs
blocks_or cs (profile bs) = bs

settled :
    (a b : Bool) (cs bs : List Block)
    → (if a then failed truncated else if b then failed no_format else profile cs) ≡ profile bs
    → bs ≡ cs
unfolding blocks_or
settled true b cs bs e = cc
settled false true cs bs e = cc
settled false false cs bs e = sym (ap (blocks_or cs) e)

pub within_size :
    (b : Bool) (x : Parsed) (bs : List Block)
    → (if b then failed block_limit else x) ≡ profile bs
    → x ≡ profile bs
within_size true x bs e = cc
within_size false x bs e = e

concluded-profile :
    (turn : Turn) (bs : List Block)
    → concluded turn ≡ profile bs
    → (r : Reader) × (turn ≡ go_on r) × (bs ≡ sort_blocks r.blocks)
unfolding concluded
concluded-profile (stop e) bs q = cc
concluded-profile (go_on r) bs q =
    (r, refl, settled r.is_open (eqb r.records 0) (sort_blocks r.blocks) bs q)

-- A profile that is read has at most one block for each line of each file, and for its count it
-- keeps the sum of what the rows of the records of that file say of the line, each count at most
-- 2^30. The sum is one of ints, which wraps around at 2^64.
pub parse_lcov-IsSum :
    (size : ℕ) (text f : String) (m : ℕ) (bs : List Block)
    → parse_lcov size text ≡ profile bs
    → IsSum f m m bs (recorded f m "" (map row_of (split_at 10 text)))
unfolding parse_lcov total
parse_lcov-IsSum size text f m bs e =
    let rows = map row_of (split_at 10 text) in
    let (r, q, sorted) =
      concluded-profile (read_rows 1 rows new_reader) bs
        (within_size (ltb max_profile_bytes size) _ bs e) in
    sort_blocks-IsSum f m m r.blocks bs _ sorted (
      read_rows-IsSum f m 1 0 rows new_reader r q (rows-Small (split_at 10 text))
        (IsSum-none f m m))
