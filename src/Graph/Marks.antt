-- ===== src/Graph/Marks.antt =====
-- Marks form a tree whose root is the first node.
use swift_proof.Prelude.{
  Bool, Bool-cases, List, Member, Option, String, [], ap, arith, eqb, false, if◌then◌else◌, inl,
  inr, length, none, not_both, refl, some, subst, suc, sym, true, zero, ℕ, ◌+◌, ◌∙◌, ◌∷◌, ◌≡◌, ◌≤◌,
  ◌⊎◌,
}
use swift_proof.Graph.{Hop, Marks, View, backward, forward, mark_of, root, seen, trace, via}

eqb→eq : (a b : ℕ) → eqb a b ≡ true → a ≡ b
eqb→eq a b h = ground arith

-- The number of edges from the root.
unfoldable pub level : ℕ → Marks → ℕ
level n [] = 0
level n ((m, root) ∷ ms) = 0
level n ((m, via p edge) ∷ ms) =
    let up = level p ms in let down = level n ms in if eqb m n then suc up else down

pub level-new : (m n edge : ℕ) (ms : Marks) → level m ((m, via n edge) ∷ ms) ≡ suc (level n ms)
unfolding level
level-new m n edge ms = ground arith

apart : (m q : ℕ) (ms : Marks) → seen q ms ≡ true → seen m ms ≡ false → eqb m q ≡ false
apart m q ms yes_q no_m = elim (Bool-cases (eqb m q)) [
  | inl same ↦
      absurd
        (not_both (seen m ms) no_m (subst (λ j. seen j ms ≡ true) (ground (arith, same)) yes_q))
  | inr other ↦ other
]

pub level-old :
    (m p edge q : ℕ) (ms : Marks)
    → seen q ms ≡ true
    → seen m ms ≡ false
    → level q ((m, via p edge) ∷ ms) ≡ level q ms
unfolding level
level-old m p edge q ms yes_q no_m = rw (apart m q ms yes_q no_m) refl

module _ (v : View) (kinds : List String) (undirected : Bool) where
  -- An edge of the index that leads from a node to a node and may be followed.
  unfoldable pub Follows : ℕ → ℕ → ℕ → Type 0
  Follows n edge m =
      (Member edge (v.outs n) × (forward v kinds edge ≡ some m))
      ⊎ (undirected ≡ true) × Member edge (v.ins n) × (backward v kinds edge ≡ some m)

  -- The chains of edges from a node, by their length.
  pub data Chain (from : ℕ) : ℕ → ℕ → Type 0 where
    here : Chain from 0 from
    onward : {k n m : ℕ} (edge : ℕ) → Chain from k n → Follows n edge m → Chain from (suc k) m

  module _ (from : ℕ) where
    unfoldable pub IsTree : Marks → Type 0
    IsTree [] = ⊥
    IsTree ((m, root) ∷ ms) = (m ≡ from) × (ms ≡ [])
    IsTree ((m, via n edge) ∷ ms) =
        Follows n edge m × (seen n ms ≡ true) × (seen m ms ≡ false) × IsTree ms

  -- A route as the answer lists it.
  unfoldable pub IsRoute : ℕ → List Hop → ℕ → Type 0
  IsRoute from [] to = from ≡ to
  IsRoute from (h ∷ hs) to = (h.start ≡ from) × Follows h.start h.edge h.node × IsRoute h.node hs to

  -- What the mark of a node says.
  record IsMarked (n : ℕ) (ms : Marks) : Type 0 where
    parent : ℕ
    edge : ℕ
    mark : mark_of n ms ≡ some (via parent edge)
    follows : Follows parent edge n
    before : seen parent ms ≡ true
    above : level n ms ≡ suc (level parent ms)

  marked :
      (from n : ℕ) (ms : Marks)
      → IsTree from ms
      → seen n ms ≡ true
      → eqb n from ≡ false
      → IsMarked n ms
  unfolding IsTree level
  marked from n [] t s other = absurd t
  marked from n ((m, root) ∷ ms) (e, none_left) s other =
      absurd (ground (arith, e, s, other, ap (seen n) none_left))
  marked from n ((m, via p edge) ∷ ms) (f, before, new, t) s other = elim (Bool-cases (eqb m n)) [
    | inl same ↦ record {
      parent = p;
      edge = edge;
      mark = rw same refl;
      follows = subst (λ j. Follows p edge j) (ground (arith, same)) f;
      before = ground (arith, before);
      above = rw same (ap suc (sym (level-old m p edge p ms before new)));
    }
    | inr old ↦
        let i = marked from n ms t (rw old at s) other in
        record {
          parent = i.parent;
          edge = i.edge;
          mark = rw old i.mark;
          follows = i.follows;
          before = ground (arith, i.before);
          above = rw old (i.above ∙ ap suc (sym (level-old m p edge i.parent ms i.before new)));
        }
  ]

  level-from :
      (from : ℕ) (ms : Marks) → IsTree from ms → (level from ms ≡ 0) × (seen from ms ≡ true)
  unfolding IsTree level
  level-from from [] t = absurd t
  level-from from ((m, root) ∷ ms) (e, none_left) = (refl, ground (arith, e))
  level-from from ((m, via p edge) ∷ ms) (f, before, new, t) =
      let (zero_level, there) = level-from from ms t in
      (level-old m p edge from ms there new ∙ zero_level, ground (arith, there))

  -- What the loop back from a node finds.
  unfoldable pub IsTraced : ℕ → ℕ → ℕ → Option (List Hop) → Type 0
  IsTraced from to long none = ⊥
  IsTraced from to long (some hops) = IsRoute from hops to × (length hops ≡ long)

  arrived :
      (from n to long : ℕ) (prev : Marks) (hops : List Hop)
      → IsTree from prev
      → eqb n from ≡ true
      → IsRoute n hops to
      → level n prev + length hops ≡ long
      → IsRoute from hops to × (length hops ≡ long)
  arrived from n to long prev hops t same route e =
      let is_from = eqb→eq n from same in
      (
        subst (λ j. IsRoute j hops to) is_from route,
        omega (arith, e, (level-from from prev t).0, ap (λ j. level j prev) is_from),
      )

  pub trace-IsTraced :
      (fuel from n to long : ℕ) (prev : Marks) (hops : List Hop)
      → IsTree from prev
      → seen n prev ≡ true
      → level n prev ≤ fuel
      → IsRoute n hops to
      → level n prev + length hops ≡ long
      → IsTraced from to long (trace fuel prev from n hops)
  unfolding trace IsTraced IsRoute
  trace-IsTraced zero from n to long prev hops t s low route e = elim (Bool-cases (eqb n from)) [
    | inl same ↦ rw same (arrived from n to long prev hops t same route e)
    | inr other ↦ absurd (omega (arith, low, (marked from n prev t s other).above))
  ]
  trace-IsTraced (suc fuel) from n to long prev hops t s low route e =
      elim (Bool-cases (eqb n from)) [
        | inl same ↦ rw same (arrived from n to long prev hops t same route e)
        | inr other ↦
            let i = marked from n prev t s other in
            rw (other, i.mark)
              (trace-IsTraced fuel from i.parent to long prev
                (record { edge = i.edge; start = i.parent; node = n } ∷ hops) t i.before
                (omega (arith, low, i.above)) (refl, i.follows, route) (omega (arith, e, i.above)))
      ]
