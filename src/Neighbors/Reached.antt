-- ===== src/Neighbors/Reached.antt =====
-- Which nodes the walk of `Neighbors` sees.
use Prim.Native.String.{String}
use mathlib.Core.Logic.{⊎_elim}
use swift_proof.Prelude.{
  List, Member, [], arith, inl, inr, refl, subst, suc, sym, zero, ℕ, ◌+◌, ◌∷◌, ◌≡◌, ◌⊎◌,
}
use swift_proof.Graph.{View}
use swift_proof.Neighbors.{Link, Walk, levels, visit_all}
use swift_proof.Neighbors.Walked.{Adjacent, visit_all-Grows, visit_all-Within}

module _ (v : View) (kinds : List String) where
  -- At most so many steps lead from a node to another.
  unfoldable pub Near : String → ℕ → ℕ → ℕ → Type 0
  Near direction zero n m = n ≡ m
  Near direction (suc k) n m =
      (n ≡ m) ⊎ ((q : ℕ) × Adjacent v kinds direction n q × Near direction k q m)

  Near-here : (direction : String) (k n m : ℕ) → n ≡ m → Near direction k n m
  unfolding Near
  Near-here direction zero n m q = q
  Near-here direction (suc k) n m q = inl q

  Near-more : (direction : String) (k n m : ℕ) → Near direction k n m → Near direction (suc k) n m
  unfolding Near
  Near-more direction zero n m q = inl q
  Near-more direction (suc k) n m (inl q) = inl q
  Near-more direction (suc k) n m (inr (p, a, near)) = inr (p, a, Near-more direction k p m near)

  Near-further :
      (direction : String) (k n q m : ℕ)
      → Near direction k n q
      → Adjacent v kinds direction q m
      → Near direction (suc k) n m
  unfolding Near
  Near-further direction zero n q m e a =
      inr (m, subst (λ j. Adjacent v kinds direction j m) (sym e) a, refl)
  Near-further direction (suc k) n q m (inl e) a =
      inr (m, subst (λ j. Adjacent v kinds direction j m) (sym e) a, inl refl)
  Near-further direction (suc k) n q m (inr (p, b, near)) a =
      inr (p, b, Near-further direction k p q m near a)

  -- Each node that was seen is in the frontier, or the nodes next to it were seen as well.
  pub Closed : String → List ℕ → Walk → Type 0
  Closed direction frontier w =
      (n : ℕ)
      → Member n w.seen_nodes
      → Member n frontier ⊎ ((m : ℕ) → Adjacent v kinds direction n m → Member m w.seen_nodes)

  -- A level of the walk.
  abbrev level : String → ℕ → List ℕ → Walk → Walk
  level direction depth frontier w =
      visit_all v kinds direction depth frontier (record w { next = [] })

  level-beside :
      (direction : String) (depth : ℕ) (frontier : List ℕ) (w : Walk)
      → Closed direction frontier w
      → (n m : ℕ) → Member n w.seen_nodes
      → Adjacent v kinds direction n m
      → Member m (level direction depth frontier w).seen_nodes
  unfolding Closed
  level-beside direction depth frontier w c n m x a =
      let (g, here) = visit_all-Grows v kinds direction depth frontier (record w { next = [] }) in
      ⊎_elim (λ y. here n m y a) (λ f. g.seen m (f m a)) (c n x)

  level-Closed :
      (direction : String) (depth : ℕ) (frontier : List ℕ) (w : Walk)
      → Closed direction frontier w
      → Closed direction (level direction depth frontier w).next (level direction depth frontier w)
  unfolding Closed
  level-Closed direction depth frontier w c n x =
      let (g, here) = visit_all-Grows v kinds direction depth frontier (record w { next = [] }) in
      ⊎_elim (λ y. inr (λ m a. level-beside direction depth frontier w c n m y a)) inl (g.fresh n x)

  -- Every node that is near a seen one is seen.
  pub levels_complete :
      (direction : String) (k depth : ℕ) (frontier : List ℕ) (w : Walk)
      → Closed direction frontier w
      → (n m : ℕ) → Member n w.seen_nodes
      → Near direction k n m
      → Member m (levels v kinds direction k depth frontier w).seen_nodes
  unfolding levels Near
  levels_complete direction zero depth frontier w c n m x q = subst (λ j. Member j w.seen_nodes) q x
  levels_complete direction (suc k) depth frontier w c n m x (inl q) =
      let (g, here) = visit_all-Grows v kinds direction depth frontier (record w { next = [] }) in
      levels_complete direction k (suc depth) _ _ (level-Closed direction depth frontier w c) n m
        (g.seen n x) (Near-here direction k n m q)
  levels_complete direction (suc k) depth frontier w c n m x (inr (q, a, near)) =
      levels_complete direction k (suc depth) _ _ (level-Closed direction depth frontier w c) q m
        (level-beside direction depth frontier w c n q x a) near

  -- Every node that is seen is near the first.
  pub levels_sound :
      (direction : String) (k j depth : ℕ) (frontier : List ℕ) (w : Walk) (n : ℕ)
      → ((m : ℕ) → Member m frontier → Near direction j n m)
      → ((m : ℕ) → Member m w.seen_nodes → Near direction j n m)
      → (m : ℕ) → Member m (levels v kinds direction k depth frontier w).seen_nodes
      → Near direction (j + k) n m
  unfolding levels
  levels_sound direction zero j depth frontier w n f h m x =
      subst (λ i. Near direction i n m) (omega arith) (h m x)
  levels_sound direction (suc k) j depth frontier w n f h m x =
      let i =
        visit_all-Within v kinds (Near direction (suc j) n) direction depth frontier
          (record w { next = [] }) (λ q p y a. Near-further direction j n q p (f q y) a)
          (record {
            seen_in = λ p y. Near-more direction j n p (h p y);
            next_in = λ p y. absurd y;
          }) in
      subst (λ i. Near direction i n m) (omega arith)
        (levels_sound direction k (suc j) (suc depth) _ _ n i.next_in i.seen_in m x)

  pub start-Closed :
      (direction : String) (n total : ℕ) (ls : List Link)
      → Closed direction
          (n ∷ [])
          (record { seen_nodes = n ∷ []; next = []; links = ls; total = total })
  unfolding Closed
  start-Closed direction n total ls m x = inl x
