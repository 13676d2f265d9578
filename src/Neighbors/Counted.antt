-- ===== src/Neighbors/Counted.antt =====
-- What the walk of `Neighbors` counts and lists.
use Prim.Native.String.{String}
use mathlib.Core.Logic.{⊎_elim}
use swift_proof.Prelude.{
  Bool, Bool-cases, List, Member, Option, [], any, any-append, any-false, ap, arith, eqb, false,
  if◌then◌else◌, inl, inr, length, length-append, map, none, not, not_both, refl, some, subst, suc,
  sym, true, zero, ℕ, ◌&&◌, ◌++◌, ◌+◌, ◌==◌, ◌∷◌, ◌≡◌, ◌≤◌, ◌⊎◌,
}
use swift_proof.Graph.{Edge, View, edge_at, permits}
use swift_proof.Neighbors.{
  Link, Walk, follow_edge, levels, max_neighbors, new_link, other_end, reach, visit_all,
  visit_edges, visit_node,
}

unfoldable pub distinct : List ℕ → Bool
distinct [] = true
distinct (n ∷ ns) = not (any (λ m. eqb m n) ns) && distinct ns

-- All nodes but the first, which is `start`, are counted once, and all but those past the bound are listed, at a depth
-- from 1 to `top`.
pub record IsCounted (start top : ℕ) (w : Walk) : Type 0 where
  pub nodes : length w.seen_nodes ≡ suc w.total
  pub listed :
      ((length w.links ≡ w.total) × (w.total ≤ max_neighbors))
      ⊎ (length w.links ≡ max_neighbors) × (max_neighbors ≤ w.total)
  pub near : (l : Link) → Member l w.links → (1 ≤ l.depth) × (l.depth ≤ top)
  pub once : distinct w.seen_nodes ≡ true
  pub shown : (l : Link) → Member l w.links → Member l.node w.seen_nodes
  pub begun : Member start w.seen_nodes
  pub apart : distinct (start ∷ map (λ (l : Link). l.node) w.links) ≡ true

Member-snoc : (l m : Link) (ls : List Link) → Member l (ls ++ m ∷ []) → Member l ls ⊎ (m ≡ l)
Member-snoc l m [] (inl e) = inr e
Member-snoc l m [] (inr x) = absurd x
Member-snoc l m (k ∷ ls) (inl e) = inl (inl e)
Member-snoc l m (k ∷ ls) (inr x) = ⊎_elim (λ y. inl (inr y)) inr (Member-snoc l m ls x)

added-near :
    (top : ℕ) (b : Bool) (m l : Link) (ls : List Link)
    → (1 ≤ m.depth) × (m.depth ≤ top)
    → ((l : Link) → Member l ls → (1 ≤ l.depth) × (l.depth ≤ top))
    → Member l (if b then ls ++ m ∷ [] else ls)
    → (1 ≤ l.depth) × (l.depth ≤ top)
added-near top true m l ls d near x =
    ⊎_elim (near l) (λ e. subst (λ (k : Link). (1 ≤ k.depth) × (k.depth ≤ top)) e d)
      (Member-snoc l m ls x)
added-near top false m l ls d near x = near l x

added-shown :
    (b : Bool) (m l : Link) (ls : List Link) (ns : List ℕ)
    → ((l : Link) → Member l ls → Member l.node ns)
    → Member l (if b then ls ++ m ∷ [] else ls)
    → Member l.node (m.node ∷ ns)
added-shown true m l ls ns shown x =
    ⊎_elim (λ y. inr (shown l y)) (λ e. inl (ap (λ (k : Link). k.node) e)) (Member-snoc l m ls x)
added-shown false m l ls ns shown x = inr (shown l x)

distinct-snoc :
    (m : ℕ) (ns : List ℕ) → (Member m ns → ⊥) → distinct ns ≡ true → distinct (ns ++ m ∷ []) ≡ true
unfolding distinct
distinct-snoc m [] h d = refl
distinct-snoc m (n ∷ ns) h d =
    let others = distinct-snoc m ns (λ x. h (inr x)) (ground (arith, d)) in
    ground (arith, any-append (λ k. eqb k n) ns (m ∷ []), others, d, (λ (e : n ≡ m). h (inl e)))

map-snoc :
    (ls : List Link) (m : Link)
    → map (λ (l : Link). l.node) (ls ++ m ∷ []) ≡ map (λ (l : Link). l.node) ls ++ m.node ∷ []
map-snoc [] m = refl
map-snoc (l ∷ ls) m = ap (λ ns. l.node ∷ ns) (map-snoc ls m)

Member-map :
    (n : ℕ) (ls : List Link) (ns : List ℕ)
    → ((l : Link) → Member l ls → Member l.node ns)
    → Member n (map (λ (l : Link). l.node) ls)
    → Member n ns
Member-map n [] ns h x = absurd x
Member-map n (l ∷ ls) ns h (inl e) = subst (λ k. Member k ns) e (h l (inl refl))
Member-map n (l ∷ ls) ns h (inr x) = Member-map n ls ns (λ k y. h k (inr y)) x

unseen : (m : ℕ) (ns : List ℕ) → any (λ k. eqb k m) ns ≡ false → Member m ns → ⊥
unseen m ns h x = not_both (eqb m m) (any-false (λ k. eqb k m) ns h m x) (ground arith)

added-apart :
    (start : ℕ) (b : Bool) (m : Link) (ls : List Link) (ns : List ℕ)
    → any (λ k. eqb k m.node) ns ≡ false
    → Member start ns
    → ((l : Link) → Member l ls → Member l.node ns)
    → distinct (start ∷ map (λ (l : Link). l.node) ls) ≡ true
    → distinct (start ∷ map (λ (l : Link). l.node) (if b then ls ++ m ∷ [] else ls)) ≡ true
added-apart start true m ls ns new begun shown d =
    subst (λ ks. distinct (start ∷ ks) ≡ true) (sym (map-snoc ls m))
      (distinct-snoc m.node (start ∷ map (λ (l : Link). l.node) ls)
        (λ x.
          unseen m.node ns new
            (⊎_elim (λ e. subst (λ k. Member k ns) e begun) (Member-map m.node ls ns shown) x))
        d)
added-apart start false m ls ns new begun shown d = d

reach-IsCounted :
    (start top : ℕ) (dir : String) (e : Edge) (depth source other : ℕ) (w : Walk)
    → (1 ≤ depth) × (depth ≤ top)
    → IsCounted start top w
    → IsCounted start top (reach dir e depth source other w)
unfolding reach distinct
reach-IsCounted start top dir e depth source other w d c =
    elim (Bool-cases (any (λ n. eqb n other) w.seen_nodes)) [
      | inl old ↦ rw old c
      | inr new ↦ rw new (record {
        nodes = omega (arith, c.nodes);
        listed =
            ground
              (arith, length-append w.links (new_link dir e other depth source ∷ []), c.listed);
        near = λ l x. added-near top _ (new_link dir e other depth source) l w.links d c.near x;
        once = ground (arith, new, c.once);
        shown = λ l x. added-shown _ (new_link dir e other depth source) l w.links _ c.shown x;
        begun = inr c.begun;
        apart =
            added-apart start _ (new_link dir e other depth source) w.links w.seen_nodes new c.begun
              c.shown c.apart;
      })
    ]

module _ (v : View) (kinds : List String) (start top : ℕ) where
  follow-IsCounted :
      (dir : String) (depth source : ℕ) (o : Option Edge) (w : Walk)
      → (1 ≤ depth) × (depth ≤ top)
      → IsCounted start top w
      → IsCounted start top (follow_edge v kinds dir depth source o w)
  unfolding follow_edge
  follow-IsCounted dir depth source none w d c = c
  follow-IsCounted dir depth source (some e) w d c = elim (Bool-cases (permits kinds e)) [
    | inl followed ↦
        rw followed (reach-IsCounted start top dir e depth source (other_end v kinds dir e) w d c)
    | inr passed ↦ rw passed c
  ]

  visit_edges-IsCounted :
      (dir : String) (depth source : ℕ) (is : List ℕ) (w : Walk)
      → (1 ≤ depth) × (depth ≤ top)
      → IsCounted start top w
      → IsCounted start top (visit_edges v kinds dir depth source is w)
  unfolding visit_edges
  visit_edges-IsCounted dir depth source [] w d c = c
  visit_edges-IsCounted dir depth source (i ∷ is) w d c =
      visit_edges-IsCounted dir depth source is _ d
        (follow-IsCounted dir depth source (edge_at i v.graph.edges) w d c)

  IsCounted-unless :
      (b : Bool) (w w' : Walk)
      → IsCounted start top w
      → IsCounted start top w'
      → IsCounted start top (if b then w else w')
  IsCounted-unless true w w' c c' = c
  IsCounted-unless false w w' c c' = c'

  visit_node-IsCounted :
      (direction : String) (depth n : ℕ) (w : Walk)
      → (1 ≤ depth) × (depth ≤ top)
      → IsCounted start top w
      → IsCounted start top (visit_node v kinds direction depth n w)
  unfolding visit_node
  visit_node-IsCounted direction depth n w d c =
      let out =
        IsCounted-unless (direction == "in") w _ c
          (visit_edges-IsCounted "out" depth n (v.outs n) w d c) in
      IsCounted-unless (direction == "out") _ _ out
        (visit_edges-IsCounted "in" depth n (v.ins n) _ d out)

  visit_all-IsCounted :
      (direction : String) (depth : ℕ) (ns : List ℕ) (w : Walk)
      → (1 ≤ depth) × (depth ≤ top)
      → IsCounted start top w
      → IsCounted start top (visit_all v kinds direction depth ns w)
  unfolding visit_all
  visit_all-IsCounted direction depth [] w d c = c
  visit_all-IsCounted direction depth (n ∷ ns) w d c =
      visit_all-IsCounted direction depth ns _ d (visit_node-IsCounted direction depth n w d c)

  pub levels-IsCounted :
      (direction : String) (k depth : ℕ) (frontier : List ℕ) (w : Walk)
      → 1 ≤ depth
      → depth + k ≤ suc top
      → IsCounted start top w
      → IsCounted start top (levels v kinds direction k depth frontier w)
  unfolding levels
  levels-IsCounted direction zero depth frontier w low high c = c
  levels-IsCounted direction (suc k) depth frontier w low high c =
      levels-IsCounted direction k (suc depth) _ _ (omega arith) (omega (arith, high)) (
        visit_all-IsCounted direction depth frontier (record w { next = [] })
          (low, omega (arith, high))
          (record {
            nodes = c.nodes;
            listed = c.listed;
            near = c.near;
            once = c.once;
            shown = c.shown;
            begun = c.begun;
            apart = c.apart;
          }))
