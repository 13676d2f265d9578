-- ===== src/Graph/Frontier.antt =====
-- What is known before each round, and what the last round leaves.
use mathlib.Core.Logic.{⊎_elim}
use swift_proof.Prelude.{
  Bool, Bool-cases, List, Member, Option-cases, String, [], all, arith, false, inl, inr, leb,
  leb→le, not_both, some, some-injective, subst, suc, true, zero, ℕ, ◌+◌, ◌∷◌, ◌≡◌, ◌≤◌, ◌⊎◌,
}
use swift_proof.Graph.{Marks, Search, View, expand_all, max_path_length, rounds, seen}
use swift_proof.Graph.Marks.{Chain, IsTree, here, level, onward}
use swift_proof.Graph.Offers.{Grows, IsRound}
use swift_proof.Graph.Rounds.{Closes, Closes-Grows, IsAt, expand_all-Grows}

module _ (v : View) (kinds : List String) (undirected : Bool) (from : ℕ) where
  -- Before the round for level `d`: the frontier has the nodes of that level, what lies behind it
  -- is closed, and every node within `d` edges is seen.
  pub record IsFront (d : ℕ) (frontier : List ℕ) (s : Search) : Type 0 where
    pub tree : IsTree v kinds undirected from s.prev
    pub low : (n : ℕ) → seen n s.prev ≡ true → level n s.prev ≤ d
    pub front : IsAt v kinds undirected from d frontier s
    pub closed :
        (n : ℕ) → seen n s.prev ≡ true → Member n frontier ⊎ Closes v kinds undirected from n s
    pub complete : {k n : ℕ} → Chain v kinds undirected from k n → k ≤ d → seen n s.prev ≡ true

  IsRound-start :
      (d : ℕ) (frontier : List ℕ) (s : Search)
      → IsFront d frontier s
      → IsRound v kinds undirected from d (record s { next = [] })
  IsRound-start d frontier s i = record {
    tree = i.tree;
    low = λ n x. omega (arith, i.low n x);
    new = λ n x. absurd x;
  }

  further :
      (d : ℕ) (frontier : List ℕ) (s t : Search)
      → IsFront d frontier s
      → Grows v kinds undirected from d (record s { next = [] }) t
      → ((n : ℕ) → Member n frontier → Closes v kinds undirected from n t)
      → {k n : ℕ} → Chain v kinds undirected from k n
      → k ≤ suc d
      → seen n t.prev ≡ true
  unfolding Closes
  further d frontier s t i g c here low = (g.keeps from (i.complete here (omega arith))).0
  further d frontier s t i g c (onward {k} {n} {m} edge chain f) low =
      let there = i.complete chain (omega (arith, low)) in
      ⊎_elim (λ x. c n x edge m f) (λ x. (g.keeps m (x edge m f)).0) (i.closed n there)

  pub IsFront-next :
      (d : ℕ) (frontier : List ℕ) (s t : Search)
      → IsFront d frontier s
      → expand_all v kinds undirected frontier (some (record s { next = [] })) ≡ some t
      → IsFront (suc d) t.next t × Grows v kinds undirected from d (record s { next = [] }) t
  unfolding IsAt Closes
  IsFront-next d frontier s t i e =
      let s' = record s { next = [] } in
      let (g, c) =
        expand_all-Grows v kinds undirected from d frontier s' t (IsRound-start d frontier s i)
          i.front e in
      (
        record {
          tree = g.round.tree;
          low = g.round.low;
          front = g.round.new;
          closed = λ n x.
              ⊎_elim
                (λ y.
                  inr
                    (⊎_elim (c n) (Closes-Grows v kinds undirected from d n s' t g) (i.closed n y)))
                inl (g.fresh n x);
          complete = λ chain low. further d frontier s t i g c chain low;
        },
        g,
      )

  -- With nothing left to expand, every node that a chain leads to is seen.
  everywhere :
      (d : ℕ) (s : Search)
      → IsFront d [] s
      → {k n : ℕ} → Chain v kinds undirected from k n
      → seen n s.prev ≡ true
  unfolding Closes
  everywhere d s i here = i.complete here (omega arith)
  everywhere d s i (onward {k} {n} {m} edge chain f) =
      ⊎_elim (λ x. absurd x) (λ c. c edge m f) (i.closed n (everywhere d s i chain))

  -- The marks at the end: the wanted node at its least level, or no chain to it.
  pub record IsBest (to : ℕ) (prev : Marks) : Type 0 where
    pub reached : seen to prev ≡ true
    pub short : level to prev ≤ max_path_length
    pub least : (k : ℕ) → Chain v kinds undirected from k to → level to prev ≤ k

  pub record IsEnd (to : ℕ) (prev : Marks) : Type 0 where
    pub tree : IsTree v kinds undirected from prev
    pub ended :
        IsBest to prev
        ⊎ (seen to prev ≡ false)
          × ((k : ℕ) → k ≤ max_path_length → Chain v kinds undirected from k to → ⊥)

  -- The wanted node is not seen before the round that reaches it, unless it is the first.
  unfoldable pub Unreached : ℕ → Search → Type 0
  Unreached to s = (seen to s.prev ≡ false) ⊎ (level to s.prev ≡ 0)

  -- No round is left to run.
  stopped :
      (d to : ℕ) (frontier : List ℕ) (s : Search)
      → IsFront d frontier s
      → Unreached to s
      → ((k : ℕ) → k ≤ max_path_length → Chain v kinds undirected from k to → seen to s.prev ≡ true)
      → IsEnd to s.prev
  unfolding Unreached
  stopped d to frontier s i u all = record {
    tree = i.tree;
    ended = elim (Bool-cases (seen to s.prev)) [
      | inl there ↦ inl (record {
        reached = there;
        short = omega (arith, at_root there);
        least = λ k c. omega (arith, at_root there);
      })
      | inr missing ↦ inr (missing, λ k low c. not_both (seen to s.prev) missing (all k low c))
    ];
  }
    where
      at_root : seen to s.prev ≡ true → level to s.prev ≡ 0
      at_root there =
          ⊎_elim (λ missing. absurd (not_both (seen to s.prev) missing there)) (λ e. e) u

  -- The round that reaches the wanted node.
  reached_now :
      (d to : ℕ) (s t : Search)
      → suc d ≤ max_path_length
      → ((k : ℕ) → k ≤ d → Chain v kinds undirected from k to → seen to s.prev ≡ true)
      → Unreached to s
      → Grows v kinds undirected from d (record s { next = [] }) t
      → seen to t.prev ≡ true
      → IsBest to t.prev
  unfolding Unreached
  reached_now d to s t room all u g there = record {
    reached = there;
    short = omega (arith, g.round.low to there);
    least = λ k c. elim (Bool-cases (leb k d)) [
      | inl early ↦
          let was = all k (leb→le k d early) c in
          ⊎_elim (λ missing. absurd (not_both (seen to s.prev) missing was))
            (λ z. omega (arith, (g.keeps to was).1, z)) u
      | inr late ↦ omega (arith, g.round.low to there, late_le k late)
    ];
  }
    where
      late_le : (k : ℕ) → leb k d ≡ false → suc d ≤ k
      late_le k h = ground arith

  pub rounds-IsEnd :
      (to k d : ℕ) (frontier : List ℕ) (s : Search) (prev : Marks)
      → d + k ≡ max_path_length
      → IsFront d frontier s
      → Unreached to s
      → rounds v kinds undirected to k frontier s ≡ some prev
      → IsEnd to prev
  unfolding rounds Unreached
  rounds-IsEnd to zero d frontier s prev e i u q =
      subst (IsEnd to) (some-injective _ _ q)
        (stopped d to frontier s i u (λ k low c. i.complete c (omega (arith, low, e))))
  rounds-IsEnd to (suc k) d [] s prev e i u q =
      subst (IsEnd to) (some-injective _ _ q)
        (stopped d to [] s i u (λ j low c. everywhere d s i c))
  rounds-IsEnd to (suc k) d (n ∷ ns) s prev e i u q =
      elim (Option-cases (expand_all v kinds undirected (n ∷ ns) (some (record s { next = [] })))) [
        | inl spent ↦ cc (rw spent at q)
        | inr (t, p) ↦
            let (j, g) = IsFront-next d (n ∷ ns) s t i p in
            elim (Bool-cases (seen to t.prev)) [
              | inl there ↦ subst (IsEnd to) (some-injective _ _ (rw (p, there) at q)) (record {
                tree = j.tree;
                ended = inl (
                    reached_now d to s t (omega (arith, e)) (λ m low c. i.complete c low) u g
                      there);
              })
              | inr missing ↦
                  rounds-IsEnd to k (suc d) t.next t prev (omega (arith, e)) j (inl missing)
                    (rw (p, missing) at q)
            ]
      ]
