-- ===== src/Neighbors/Walked.antt =====
-- What a level of the walk of `Neighbors` adds.
use Prim.Native.String.{String}
use mathlib.Core.Logic.{⊎_elim}
use swift_proof.Prelude.{
  Bool, Bool-cases, List, Member, Option, [], false, if◌then◌else◌, inl, inr, none, not_both, refl,
  some, some-injective, subst, sym, true, ℕ, ◌==◌, ◌∷◌, ◌≡◌, ◌⊎◌,
}
use swift_proof.Graph.{Edge, View, edge_at, index_of, permits}
use swift_proof.Neighbors.{Walk, follow_edge, other_end, reach, visit_all, visit_edges, visit_node}
use swift_proof.Neighbors.Grown.{Grows, Grows-same, Grows-then, Within, reach-Grows, reach-Within}

module _ (v : View) (kinds : List String) where
  -- An edge of the list is followed and leads to a node, at the end that its direction asks for.
  pub Leads : String → List ℕ → ℕ → Type 0
  Leads dir is m =
      (i : ℕ) × (e : Edge) × Member i is
      × (edge_at i v.graph.edges ≡ some e)
      × (permits kinds e ≡ true)
      × ((if dir == "in" then index_of e.from v else index_of e.to v) ≡ m)

  follow-Grows :
      (dir : String) (depth source : ℕ) (o : Option Edge) (w : Walk)
      → Grows w (follow_edge v kinds dir depth source o w)
        × ((e : Edge)
            → o ≡ some e
            → permits kinds e ≡ true
            → Member
                (other_end v kinds dir e)
                (follow_edge v kinds dir depth source o w).seen_nodes)
  unfolding follow_edge
  follow-Grows dir depth source none w = (Grows-same w, λ e q. cc)
  follow-Grows dir depth source (some e) w = elim (Bool-cases (permits kinds e)) [
    | inl taken ↦ rw taken (
      (reach-Grows dir e depth source (other_end v kinds dir e) w).0,
      λ f q _.
          subst
            (λ g.
              Member (other_end v kinds dir g)
                (reach dir e depth source (other_end v kinds dir e) w).seen_nodes)
            (some-injective _ _ q) (reach-Grows dir e depth source (other_end v kinds dir e) w).1,
    )
    | inr passed ↦ rw passed (
      Grows-same w,
      λ f q taken. absurd (
          not_both (permits kinds e) passed
            (subst (λ g. permits kinds g ≡ true) (sym (some-injective _ _ q)) taken)),
    )
  ]

  visit_edges-Grows :
      (dir : String) (depth source : ℕ) (is : List ℕ) (w : Walk)
      → Grows w (visit_edges v kinds dir depth source is w)
        × ((m : ℕ)
            → Leads dir is m
            → Member m (visit_edges v kinds dir depth source is w).seen_nodes)
  unfolding visit_edges Leads other_end
  visit_edges-Grows dir depth source [] w = (Grows-same w, λ m (i, e, x, _, _, _). absurd x)
  visit_edges-Grows dir depth source (i ∷ is) w =
      let (g, here) = follow-Grows dir depth source (edge_at i v.graph.edges) w in
      let followed = follow_edge v kinds dir depth source (edge_at i v.graph.edges) w in
      let (h, later) = visit_edges-Grows dir depth source is followed in
      (
        Grows-then _ _ _ g h,
        λ m (j, e, x, q, taken, ends).
            ⊎_elim
              (λ same.
                subst (λ k. Member k (visit_edges v kinds dir depth source is followed).seen_nodes)
                  ends
                  (h.seen _
                    (here e (subst (λ k. edge_at k v.graph.edges ≡ some e) (sym same) q) taken)))
              (λ y. later m (j, e, y, q, taken, ends)) x,
      )

  visit_edges-Within :
      (p : ℕ → Type 0) (dir : String) (depth source : ℕ) (is : List ℕ) (w : Walk)
      → ((m : ℕ) → Leads dir is m → p m)
      → Within p w
      → Within p (visit_edges v kinds dir depth source is w)
  unfolding visit_edges Leads follow_edge other_end
  visit_edges-Within p dir depth source [] w h i = i
  visit_edges-Within p dir depth source (j ∷ js) w h i =
      visit_edges-Within p dir depth source js _
        (λ m (k, e, x, q, taken, ends). h m (k, e, inr x, q, taken, ends))
        (one (edge_at j v.graph.edges) refl)
    where
      one :
          (o : Option Edge)
          → edge_at j v.graph.edges ≡ o
          → Within p (follow_edge v kinds dir depth source o w)
      one none q = i
      one (some e) q = elim (Bool-cases (permits kinds e)) [
        | inl taken ↦
            rw taken
              (reach-Within p dir e depth source _ w (h _ (j, e, inl refl, q, taken, refl)) i)
        | inr passed ↦ rw passed i
      ]

  -- A step from a node to another: an edge that is followed and that leaves the node, unless only
  -- edges into it are asked for, or that enters it, unless only edges out of it are.
  pub Adjacent : String → ℕ → ℕ → Type 0
  Adjacent direction n m =
      ((direction == "in") ≡ false) × Leads "out" (v.outs n) m
      ⊎ ((direction == "out") ≡ false) × Leads "in" (v.ins n) m

  visit_node-Grows :
      (direction : String) (depth n : ℕ) (w : Walk)
      → Grows w (visit_node v kinds direction depth n w)
        × ((m : ℕ)
            → Adjacent direction n m
            → Member m (visit_node v kinds direction depth n w).seen_nodes)
  unfolding visit_node Adjacent
  visit_node-Grows direction depth n w =
      two (direction == "in") (direction == "out") _ _
        (visit_edges-Grows "out" depth n (v.outs n) w) (visit_edges-Grows "in" depth n (v.ins n))
    where
      two :
          (b c : Bool) (w' : Walk) (f : Walk → Walk) {p r : ℕ → Type 0}
          → Grows w w' × ((m : ℕ) → p m → Member m w'.seen_nodes)
          → ((x : Walk) → Grows x (f x) × ((m : ℕ) → r m → Member m (f x).seen_nodes))
          → (Grows w (let out = if b then w else w' in if c then out else f out))
            × ((m : ℕ)
                → ((b ≡ false) × p m ⊎ (c ≡ false) × r m)
                → Member m (let out = if b then w else w' in if c then out else f out).seen_nodes)
      two true true w' f g h = (Grows-same w, λ m x. ⊎_elim (λ (q, y). cc q) (λ (q, y). cc q) x)
      two true false w' f g h = ((h w).0, λ m x. ⊎_elim (λ (q, y). cc q) (λ (q, y). (h w).1 m y) x)
      two false true w' f g h = (g.0, λ m x. ⊎_elim (λ (q, y). g.1 m y) (λ (q, y). cc q) x)
      two false false w' f g h = (
        Grows-then _ _ _ g.0 (h w').0,
        λ m x. ⊎_elim (λ (q, y). (h w').0.seen m (g.1 m y)) (λ (q, y). (h w').1 m y) x,
      )

  visit_node-Within :
      (p : ℕ → Type 0) (direction : String) (depth n : ℕ) (w : Walk)
      → ((m : ℕ) → Adjacent direction n m → p m)
      → Within p w
      → Within p (visit_node v kinds direction depth n w)
  unfolding visit_node Adjacent
  visit_node-Within p direction depth n w h i =
      two (direction == "in") (direction == "out") refl refl
    where
      first_one :
          (b : Bool)
          → (direction == "in") ≡ b
          → Within p (if b then w else visit_edges v kinds "out" depth n (v.outs n) w)
      first_one true q = i
      first_one false q =
          visit_edges-Within p "out" depth n (v.outs n) w (λ m x. h m (inl (q, x))) i

      two :
          (b c : Bool)
          → (direction == "in") ≡ b
          → (direction == "out") ≡ c
          → Within p (
              let out = if b then w else visit_edges v kinds "out" depth n (v.outs n) w in
              if c then out else visit_edges v kinds "in" depth n (v.ins n) out)
      two b true q r = first_one b q
      two b false q r =
          visit_edges-Within p "in" depth n (v.ins n) _ (λ m x. h m (inr (r, x))) (first_one b q)

  pub visit_all-Grows :
      (direction : String) (depth : ℕ) (ns : List ℕ) (w : Walk)
      → Grows w (visit_all v kinds direction depth ns w)
        × ((n m : ℕ)
            → Member n ns
            → Adjacent direction n m
            → Member m (visit_all v kinds direction depth ns w).seen_nodes)
  unfolding visit_all
  visit_all-Grows direction depth [] w = (Grows-same w, λ n m x. absurd x)
  visit_all-Grows direction depth (k ∷ ns) w =
      let (g, here) = visit_node-Grows direction depth k w in
      let (h, later) =
        visit_all-Grows direction depth ns (visit_node v kinds direction depth k w) in
      (
        Grows-then _ _ _ g h,
        λ n m x a.
            ⊎_elim (λ q. h.seen m (here m (subst (λ j. Adjacent direction j m) (sym q) a)))
              (λ y. later n m y a) x,
      )

  pub visit_all-Within :
      (p : ℕ → Type 0) (direction : String) (depth : ℕ) (ns : List ℕ) (w : Walk)
      → ((n m : ℕ) → Member n ns → Adjacent direction n m → p m)
      → Within p w
      → Within p (visit_all v kinds direction depth ns w)
  unfolding visit_all
  visit_all-Within p direction depth [] w h i = i
  visit_all-Within p direction depth (k ∷ ns) w h i =
      visit_all-Within p direction depth ns _ (λ n m x. h n m (inr x))
        (visit_node-Within p direction depth k w (λ m. h k m (inl refl)) i)
