-- ===== src/Graph/Shortest.antt =====
-- The search finds a shortest path, if there is one of at most 12 edges.
use mathlib.Core.Logic.{⊎_elim}
use swift_proof.Prelude.{
  Bool, List, Option, Option-cases, String, [], arith, inl, inr, length, none, refl, some, subst,
  true, ℕ, ◌∷◌, ◌≡◌, ◌≤◌,
}
use swift_proof.Graph.{
  Answer, Hop, Marks, View, bound_reached, find_path, first_search, found, lost, max_path_length,
  no_chain, path_answer, root, rounds, seen, traced,
}
use swift_proof.Graph.Marks.{Chain, IsRoute, IsTraced, IsTree, here, level, onward, trace-IsTraced}
use swift_proof.Graph.Rounds.{IsAt}
use swift_proof.Graph.Frontier.{IsBest, IsEnd, IsFront, Unreached, rounds-IsEnd}

module _ (v : View) (kinds : List String) (undirected : Bool) (from to : ℕ) where
  seen_root : (n : ℕ) → seen n ((n, root) ∷ []) ≡ true
  seen_root n = ground arith

  seen_within :
      {k n : ℕ} → Chain v kinds undirected from k n → k ≤ 0 → seen n ((from, root) ∷ []) ≡ true
  seen_within here low = seen_root from
  seen_within (onward edge c f) low = absurd (omega (arith, low))

  first-IsFront : IsFront v kinds undirected from 0 (from ∷ []) (first_search from)
  unfolding IsTree level IsAt
  first-IsFront = record {
    tree = (refl, refl);
    low = λ n x. omega arith;
    front = λ n x.
        ⊎_elim
          (λ e.
            subst (λ j. (seen j ((from, root) ∷ []) ≡ true) × (level j ((from, root) ∷ []) ≡ 0)) e
              (seen_root from, refl))
          (λ y. absurd y) x;
    closed = λ n x. inl (ground (arith, x));
    complete = λ c low. seen_within c low;
  }

  first-Unreached : Unreached v kinds undirected from to (first_search from)
  unfolding Unreached level
  first-Unreached = inr refl

  -- What each answer stands for.
  pub IsAnswer : Answer → Type 0
  IsAnswer bound_reached = Unit {0}
  IsAnswer lost = ⊥
  IsAnswer no_chain = (k : ℕ) → k ≤ max_path_length → Chain v kinds undirected from k to → ⊥
  IsAnswer (found hops) =
      IsRoute v kinds undirected from hops to
      × (length hops ≤ max_path_length)
      × ((k : ℕ) → Chain v kinds undirected from k to → length hops ≤ k)

  traced-IsAnswer :
      (prev : Marks) (o : Option (List Hop))
      → IsBest v kinds undirected from to prev
      → IsTraced v kinds undirected from to (level to prev) o
      → IsAnswer (traced o)
  unfolding IsAnswer IsTraced
  traced-IsAnswer prev none b x = x
  traced-IsAnswer prev (some hops) b (route, long) =
      (route, omega (arith, long, b.short), λ k c. omega (arith, long, b.least k c))

  path_answer-IsAnswer :
      (prev : Marks)
      → IsEnd v kinds undirected from to prev
      → IsAnswer (path_answer from to (some prev))
  unfolding IsAnswer IsRoute path_answer
  path_answer-IsAnswer prev i =
      ⊎_elim
        (λ b. rw b.reached (
          traced-IsAnswer prev _ b (
            trace-IsTraced v kinds undirected max_path_length from to to (level to prev) prev []
              i.tree b.reached b.short refl (omega arith))))
        (λ (missing, no_way). rw missing no_way) i.ended

  -- Unless the search bound is reached, the answer is right: a path that is found follows edges of
  -- the followed kinds from the first node to the wanted one, has at most 12 edges, and no chain of
  -- such edges is shorter; where none is found, no chain has at most 12 edges. The loop that
  -- collects the path always ends.
  pub find_path-IsAnswer : IsAnswer (find_path v kinds undirected from to)
  unfolding find_path IsAnswer Unreached
  find_path-IsAnswer =
      elim (Option-cases
        (rounds v kinds undirected to max_path_length (from ∷ []) (first_search from))) [
          | inl spent ↦ rw spent tt
          | inr (prev, e) ↦ rw e (
              path_answer-IsAnswer prev (
                rounds-IsEnd v kinds undirected from to max_path_length 0 (from ∷ [])
                  (first_search from) prev refl first-IsFront first-Unreached e))
        ]
