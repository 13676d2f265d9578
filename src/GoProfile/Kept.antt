-- ===== src/GoProfile/Kept.antt =====
-- The executions that a Go profile keeps.
use Prim.Native.String.{String}
use swift_proof.Prelude.{
  Bool, Bool-cases, List, Option, [], ap, arith, false, if◌then◌else◌, inl, inr, ltb, map, none,
  not, refl, some, subst, suc, sym, text_eq, true, ℕ, ◌+◌, ◌==◌, ◌∷◌, ◌≡◌,
}
use swift_proof.Texts.{has, is_blank}
use swift_proof.Profile.{Block, max_profile_bytes, merge_block, sort_blocks, split_at}
use swift_proof.Lcov.Summed.{blocks_or, within_size}
use swift_proof.GoProfile.{
  GoReader, GoTurn, block_turn, concluded_go, cut_prefix, further_texts, halt, mode_turn,
  new_go_reader, parse_block, parse_go_profile, read_go_row, read_go_rows, resume, stored_turn,
}
use swift_proof.Profile.Merged.{IsSum, IsSum-none, merge_block-IsSum, sort_blocks-IsSum, total}
use swift_proof.Lcov.{profile, trim_return}
use swift_proof.GoProfile.Bounded.{parse_block-small}

abbrev add_block : Option Block → List Block → List Block
add_block none bs = bs
add_block (some b) bs = b ∷ bs

-- The blocks that the rows behind the mode state. The flag says whether the mode was read.
pub stated : Bool → List String → List Block
stated begun [] = []
stated begun (text ∷ texts) =
    let others = stated begun texts in
    let behind = stated true texts in
    if is_blank text then others else if begun then add_block (parse_block text) behind else behind

reader_or : GoReader → GoTurn → GoReader
reader_or r (halt e) = r
reader_or r (resume t) = t

mode-solid :
    (mode : String) → has mode ("set" ∷ "count" ∷ "atomic" ∷ []) ≡ true → (mode == "") ≡ false
mode-solid mode h = elim (Bool-cases (mode == "")) [
  | inl e ↦
      cc (subst (λ k. has k ("set" ∷ "count" ∷ "atomic" ∷ []) ≡ true) ((text_eq mode "").0 e) h)
  | inr e ↦ e
]

past_mode :
    (more : GoReader → GoTurn) (r t : GoReader) (o : Option String)
    → further_texts more (mode_turn r o) ≡ resume t
    → (mode : String) × ((mode == "") ≡ false) × (more (record r { mode = mode }) ≡ resume t)
past_mode more r t none e = cc
past_mode more r t (some mode) e = elim (Bool-cases (has mode ("set" ∷ "count" ∷ "atomic" ∷ []))) [
  | inl good ↦ (mode, mode-solid mode good, rw good at e)
  | inr bad ↦ cc (rw bad at e)
]

past_stored :
    (more : GoReader → GoTurn) (r t : GoReader) (o : Option (List Block))
    → further_texts more (stored_turn r o) ≡ resume t
    → (bs : List Block) × (o ≡ some bs) × (more (record r { blocks = bs }) ≡ resume t)
past_stored more r t none e = cc
past_stored more r t (some bs) e = (bs, refl, e)

past_block :
    (more : GoReader → GoTurn) (at : ℕ) (r t : GoReader) (o : Option Block)
    → further_texts more (block_turn at r o) ≡ resume t
    → (b : Block) × (o ≡ some b)
      × ((bs : List Block) × (merge_block b r.blocks ≡ some bs)
          × (more (record r { blocks = bs }) ≡ resume t))
unfolding block_turn
past_block more at r t none e = cc
past_block more at r t (some b) e = (b, refl, past_stored more r t (merge_block b r.blocks) e)

-- Where a row that is read leads.
data RowEffect (more : GoReader → GoTurn) (at : ℕ) (text : String) (r t : GoReader) : Type 0 where
  skips : is_blank text ≡ true → more r ≡ resume t → RowEffect more at text r t
  states_mode :
      (mode : String)
      → is_blank text ≡ false
      → (r.mode == "") ≡ true
      → (mode == "") ≡ false
      → more (record r { mode = mode }) ≡ resume t
      → RowEffect more at text r t
  states_block :
      (b : Block) (bs : List Block)
      → is_blank text ≡ false
      → (r.mode == "") ≡ false
      → parse_block text ≡ some b
      → merge_block b r.blocks ≡ some bs
      → more (record r { blocks = bs }) ≡ resume t
      → RowEffect more at text r t

row_effect :
    (more : GoReader → GoTurn) (at : ℕ) (text : String) (r t : GoReader)
    → further_texts more (read_go_row at text r) ≡ resume t
    → RowEffect more at text r t
unfolding read_go_row
row_effect more at text r t e = elim (Bool-cases (is_blank text)) [
  | inl blank_row ↦ skips blank_row (rw blank_row at e)
  | inr full ↦ elim (Bool-cases (r.mode == "")) [
    | inl no_mode ↦
        let (mode, solid, later) =
          past_mode more r t (cut_prefix "mode: " text) (simp (full, no_mode) at e) in
        states_mode mode full no_mode solid later
    | inr has_mode ↦
        let (b, q, (bs, p, later)) =
          past_block more at r t (parse_block text) (simp (full, has_mode) at e) in
        states_block b bs full has_mode q p later
  ]
]

total-cons :
    (f : String) (m n : ℕ) (b : Block) (bs : List Block)
    → total f m n (b ∷ bs) ≡ total f m n (b ∷ []) + total f m n bs
unfolding total
total-cons f m n b bs = ground arith

read_go_rows-IsSum :
    (f : String) (m n at sum : ℕ) (texts : List String) (r t : GoReader)
    → read_go_rows at texts r ≡ resume t
    → IsSum f m n r.blocks sum
    → IsSum f m n t.blocks (sum + total f m n (stated (not (r.mode == "")) texts))
unfolding read_go_rows stated total reader_or
read_go_rows-IsSum f m n at sum [] r t e s =
    subst (λ bs. IsSum f m n bs (sum + 0)) (ap (λ x. (reader_or r x).blocks) e)
      (record { same = omega (arith, s.same); single = s.single })
read_go_rows-IsSum f m n at sum (text ∷ texts) r t e s =
    elim (row_effect (read_go_rows (suc at) texts) at text r t e) [
      | skips empty later ↦ rw empty (read_go_rows-IsSum f m n (suc at) sum texts r t later s)
      | states_mode mode full no_mode solid later ↦
          rw (full, no_mode)
            (rw solid at
              (read_go_rows-IsSum f m n (suc at) sum texts (record r { mode = mode }) t later s))
      | states_block b bs full has_mode q p later ↦
          rw (full, has_mode, q)
            (subst (IsSum f m n t.blocks) (omega (arith, total-cons f m n b (stated true texts))) (
              rw has_mode at (
                read_go_rows-IsSum f m n (suc at) (sum + total f m n (b ∷ [])) texts
                  (record r { blocks = bs }) t later
                  (merge_block-IsSum f m n r.blocks bs b sum p (parse_block-small text b q) s))))
    ]

concluded_go-profile :
    (turn : GoTurn) (bs : List Block)
    → concluded_go turn ≡ profile bs
    → (r : GoReader) × (turn ≡ resume r) × (bs ≡ sort_blocks r.blocks)
unfolding concluded_go blocks_or
concluded_go-profile (halt e) bs q = cc
concluded_go-profile (resume r) bs q = elim (Bool-cases (r.mode == "")) [
  | inl none_read ↦ cc (simp none_read at q)
  | inr read ↦ (r, refl, sym (ap (blocks_or bs) (simp read at q)))
]

-- A Go profile that is read has at most one block for each range of lines of each file, and its
-- count is the sum of the counts that the rows behind its mode state for the range, as a sum of
-- ints, which wraps around at 2^64. Ranges that differ only in their columns are one range.
pub parse_go_profile-IsSum :
    (size : ℕ) (text f : String) (m n : ℕ) (bs : List Block)
    → parse_go_profile size text ≡ profile bs
    → IsSum f m n bs (total f m n (stated false (map trim_return (split_at 10 text))))
unfolding parse_go_profile total
parse_go_profile-IsSum size text f m n bs e =
    let texts = map trim_return (split_at 10 text) in
    let (r, q, sorted) =
      concluded_go-profile (read_go_rows 1 texts new_go_reader) bs
        (within_size (ltb max_profile_bytes size) _ bs e) in
    sort_blocks-IsSum f m n r.blocks bs _ sorted
      (read_go_rows-IsSum f m n 1 0 texts new_go_reader r q (IsSum-none f m n))
