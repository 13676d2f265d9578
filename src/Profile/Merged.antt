-- ===== src/Profile/Merged.antt =====
-- What merging and sorting do to the counts.
use Prim.Native.String.{String}
use swift_proof.Prelude.{
  Bool, Bool-cases, List, [], arith, eqb, false, if◌then◌else◌, inl, inr, leb, length, none,
  not_both, refl, some, some-injective, subst, suc, sym, text_eq, true, ℕ, ◌%◌, ◌&&◌, ◌++◌, ◌+◌,
  ◌<◌, ◌==◌, ◌∙◌, ◌∷◌, ◌≡◌, ◌≤◌,
}
use swift_proof.Profile.{
  Block, add_count, insert_block, int_range, is_known, max_blocks, merge_block, read_count,
  same_block, sort_blocks, split_at,
}

number_test :
    (read_count "12" ≡ some 12)
    × (read_count "-0" ≡ some 0)
    × (read_count "-3" ≡ none)
    × (read_count "1x" ≡ none)
    × (split_at 44 "1,2" ≡ "1" ∷ "2" ∷ [])
unfolding read_count split_at
number_test = (refl, refl, refl, refl, refl)

-- A block of a range of lines, and the executions that blocks record for it.
abbrev pub covers : String → ℕ → ℕ → Block → Bool
covers f m n b = b.file == f && (eqb b.start_line m && eqb b.end_line n)

unfoldable pub total : String → ℕ → ℕ → List Block → ℕ
total f m n [] = 0
total f m n (b ∷ bs) =
    let others = total f m n bs in if covers f m n b then b.count + others else others

-- How many blocks there are for a range of lines.
pub matches : String → ℕ → ℕ → List Block → ℕ
matches f m n [] = 0
matches f m n (b ∷ bs) =
    let others = matches f m n bs in if covers f m n b then suc others else others

-- The blocks hold at most one block for a range of lines, and its count is a sum of ints.
pub record IsSum (f : String) (m n : ℕ) (bs : List Block) (sum : ℕ) : Type 0 where
  pub same : total f m n bs ≡ sum % int_range
  pub single : matches f m n bs ≤ 1

total-append :
    (f : String) (m n : ℕ) (bs : List Block) (b : Block)
    → total f m n (bs ++ b ∷ []) ≡ total f m n bs + total f m n (b ∷ [])
unfolding total
total-append f m n [] b = ground arith
total-append f m n (c ∷ bs) b = ground (arith, total-append f m n bs b)

one-total :
    (f : String) (m n : ℕ) (b : Block) → covers f m n b ≡ true → total f m n (b ∷ []) ≡ b.count
unfolding total
one-total f m n b p = ground (arith, p)

other-total : (f : String) (m n : ℕ) (b : Block) → covers f m n b ≡ false → total f m n (b ∷ []) ≡ 0
unfolding total
other-total f m n b q = ground (arith, q)

add_count-matches :
    (f : String) (m n : ℕ) (bs : List Block) (b : Block)
    → matches f m n (add_count b bs) ≡ matches f m n bs
unfolding add_count matches
add_count-matches f m n [] b = refl
add_count-matches f m n (c ∷ bs) b = ground (arith, add_count-matches f m n bs b)

matches-append :
    (f : String) (m n : ℕ) (bs : List Block) (b : Block)
    → matches f m n (bs ++ b ∷ []) ≡ matches f m n bs + matches f m n (b ∷ [])
unfolding matches
matches-append f m n [] b = ground arith
matches-append f m n (c ∷ bs) b = ground (arith, matches-append f m n bs b)

same-range :
    (f : String) (m n : ℕ) (b c : Block)
    → covers f m n b ≡ true
    → covers f m n c ≡ true
    → same_block c b ≡ true
same-range f m n b c p q =
    ground (arith, p, q, text_eq c.file b.file, text_eq c.file f, text_eq b.file f)

covers-same :
    (f : String) (m n : ℕ) (b c : Block) → same_block c b ≡ true → covers f m n b ≡ covers f m n c
covers-same f m n b c h = elim (Bool-cases (covers f m n b)) [
  | inl p ↦
      p ∙ sym (ground (arith, p, h, text_eq c.file b.file, text_eq c.file f, text_eq b.file f))
  | inr q ↦
      q ∙ sym (ground (arith, q, h, text_eq c.file b.file, text_eq c.file f, text_eq b.file f))
]

covers-apart :
    (f : String) (m n : ℕ) (b c : Block)
    → same_block c b ≡ false
    → covers f m n c ≡ true
    → covers f m n b ≡ false
covers-apart f m n b c h p = elim (Bool-cases (covers f m n b)) [
  | inl q ↦ absurd (not_both (same_block c b) h (same-range f m n b c q p))
  | inr q ↦ q
]

no-total : (f : String) (m n : ℕ) (bs : List Block) → matches f m n bs ≡ 0 → total f m n bs ≡ 0
unfolding matches total
no-total f m n [] h = refl
no-total f m n (c ∷ bs) h = elim (Bool-cases (covers f m n c)) [
  | inl p ↦ omega (arith, rw p at h)
  | inr q ↦ rw q (no-total f m n bs (rw q at h))
]

add_count-total :
    (f : String) (m n : ℕ) (bs : List Block) (b : Block)
    → is_known b bs ≡ true
    → matches f m n bs ≤ 1
    → total f m n bs < int_range
    → total f m n (add_count b bs) ≡ (total f m n bs + total f m n (b ∷ [])) % int_range
unfolding add_count total matches
add_count-total f m n [] b h u w = cc
add_count-total f m n (c ∷ bs) b h u w = elim (Bool-cases (same_block c b)) [
  | inl same ↦ elim (Bool-cases (covers f m n c)) [
    | inl p ↦
        rw (same, p, covers-same f m n b c same ∙ p)
          (omega (arith, no-total f m n bs (omega (arith, rw p at u))))
    | inr q ↦ rw (same, q, covers-same f m n b c same ∙ q) (omega (arith, rw q at w))
  ]
  | inr apart ↦ elim (Bool-cases (covers f m n c)) [
    | inl p ↦
        let none_there = no-total f m n bs (omega (arith, rw p at u)) in
        let other = covers-apart f m n b c apart p in
        rw (apart, p, other)
          (omega (
            arith,
            rw other at (
                add_count-total f m n bs b (rw apart at h) (omega (arith, rw p at u))
                  (omega (arith, none_there))),
            none_there,
            rw p at w,
          ))
    | inr q ↦ rw (apart, q) (add_count-total f m n bs b (rw apart at h) (rw q at u) (rw q at w))
  ]
]

no-matches :
    (f : String) (m n : ℕ) (bs : List Block) (b : Block)
    → is_known b bs ≡ false
    → covers f m n b ≡ true
    → matches f m n bs ≡ 0
unfolding matches
no-matches f m n [] b h p = refl
no-matches f m n (c ∷ bs) b h p = elim (Bool-cases (covers f m n c)) [
  | inl q ↦ cc (rw (same-range f m n b c p q) at h)
  | inr q ↦ rw q (no-matches f m n bs b (ground (arith, h)) p)
]

new-matches :
    (f : String) (m n : ℕ) (bs : List Block) (b : Block)
    → is_known b bs ≡ false
    → matches f m n bs ≤ 1
    → matches f m n (bs ++ b ∷ []) ≤ 1
unfolding matches
new-matches f m n bs b h u = elim (Bool-cases (covers f m n b)) [
  | inl p ↦ rw (matches-append, p, no-matches f m n bs b h p) (omega arith)
  | inr q ↦ rw (matches-append, q) (omega (arith, u))
]

pub IsSum-none : (f : String) (m n : ℕ) → IsSum f m n [] 0
unfolding total matches
IsSum-none f m n = record { same = refl; single = omega arith }

-- Merging a block adds its count to that of its range of lines, and changes no other.
pub merge_block-IsSum :
    (f : String) (m n : ℕ) (bs cs : List Block) (b : Block) (sum : ℕ)
    → merge_block b bs ≡ some cs
    → b.count < int_range
    → IsSum f m n bs sum
    → IsSum f m n cs (sum + total f m n (b ∷ []))
unfolding merge_block
merge_block-IsSum f m n bs cs b sum h small s = elim (Bool-cases (is_known b bs)) [
  | inl known ↦
      subst (λ ds. IsSum f m n ds (sum + total f m n (b ∷ []))) (some-injective _ _ (rw known at h))
        (record {
          same = omega (arith, add_count-total f m n bs b known, s.same);
          single = rw add_count-matches s.single;
        })
  | inr new ↦ elim (Bool-cases (leb max_blocks (length bs))) [
    | inl full ↦ cc (rw (new, full) at h)
    | inr room ↦
        subst (λ ds. IsSum f m n ds (sum + total f m n (b ∷ [])))
          (some-injective _ _ (rw (new, room) at h))
          (record {
            same = elim (Bool-cases (covers f m n b)) [
              | inl p ↦ omega (
                arith,
                total-append f m n bs b,
                one-total f m n b p,
                no-total f m n bs (no-matches f m n bs b new p),
                s.same,
                small,
              )
              | inr q ↦ omega (arith, total-append f m n bs b, other-total f m n b q, s.same)
            ];
            single = new-matches f m n bs b new s.single;
          })
  ]
]

insert_block-total :
    (f : String) (m n : ℕ) (b : Block) (bs : List Block)
    → (total f m n (insert_block b bs) ≡ total f m n (b ∷ bs))
      × (matches f m n (insert_block b bs) ≡ matches f m n (b ∷ bs))
unfolding insert_block total matches
insert_block-total f m n b [] = (refl, refl)
insert_block-total f m n b (c ∷ bs) = ground (arith, insert_block-total f m n b bs)

sort_blocks-total :
    (f : String) (m n : ℕ) (bs : List Block)
    → (total f m n (sort_blocks bs) ≡ total f m n bs)
      × (matches f m n (sort_blocks bs) ≡ matches f m n bs)
unfolding sort_blocks total matches
sort_blocks-total f m n [] = (refl, refl)
sort_blocks-total f m n (b ∷ bs) =
    ground (arith, insert_block-total f m n b (sort_blocks bs), sort_blocks-total f m n bs)

pub sort_blocks-IsSum :
    (f : String) (m n : ℕ) (bs cs : List Block) (sum : ℕ)
    → cs ≡ sort_blocks bs
    → IsSum f m n bs (0 + sum)
    → IsSum f m n cs sum
sort_blocks-IsSum f m n bs cs sum sorted s =
    let (t, k) = sort_blocks-total f m n bs in
    subst (λ ds. IsSum f m n ds sum) (sym sorted)
      (record { same = omega (arith, t, s.same); single = omega (arith, k, s.single) })
