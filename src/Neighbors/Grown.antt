-- ===== src/Neighbors/Grown.antt =====
-- What one more node adds to the walk of `Neighbors`.
use Prim.Native.String.{String}
use mathlib.Core.Logic.{⊎_elim}
use swift_proof.Prelude.{
  Bool-cases, List, Member, [], any, any-Member, arith, eqb, inl, inr, refl, subst, true, ℕ, ◌++◌,
  ◌∷◌, ◌≡◌, ◌⊎◌,
}
use swift_proof.Graph.{Edge}
use swift_proof.Neighbors.{Walk, reach}

-- What a walk leaves of the walk before: nodes are only added, and each that was added comes next.
pub record Grows (w w' : Walk) : Type 0 where
  pub seen : (m : ℕ) → Member m w.seen_nodes → Member m w'.seen_nodes
  pub kept : (m : ℕ) → Member m w.next → Member m w'.next
  pub fresh : (m : ℕ) → Member m w'.seen_nodes → Member m w.seen_nodes ⊎ Member m w'.next

pub Grows-same : (w : Walk) → Grows w w
Grows-same w = record { seen = λ m x. x; kept = λ m x. x; fresh = λ m x. inl x }

pub Grows-then : (a b c : Walk) → Grows a b → Grows b c → Grows a c
Grows-then a b c g h = record {
  seen = λ m x. h.seen m (g.seen m x);
  kept = λ m x. h.kept m (g.kept m x);
  fresh = λ m x. ⊎_elim (λ y. ⊎_elim inl (λ z. inr (h.kept m z)) (g.fresh m y)) inr (h.fresh m x);
}

-- All nodes that a walk saw and that come next satisfy a predicate.
pub record Within (p : ℕ → Type 0) (w : Walk) : Type 0 where
  pub seen_in : (m : ℕ) → Member m w.seen_nodes → p m
  pub next_in : (m : ℕ) → Member m w.next → p m

Member-first : (m : ℕ) (ms ns : List ℕ) → Member m ms → Member m (ms ++ ns)
Member-first m [] ns x = absurd x
Member-first m (k ∷ ms) ns (inl e) = inl e
Member-first m (k ∷ ms) ns (inr x) = inr (Member-first m ms ns x)

Member-behind : (m : ℕ) (ms ns : List ℕ) → Member m ns → Member m (ms ++ ns)
Member-behind m [] ns x = x
Member-behind m (k ∷ ms) ns x = inr (Member-behind m ms ns x)

Member-either : (m : ℕ) (ms ns : List ℕ) → Member m (ms ++ ns) → Member m ms ⊎ Member m ns
Member-either m [] ns x = inr x
Member-either m (k ∷ ms) ns (inl e) = inl (inl e)
Member-either m (k ∷ ms) ns (inr x) = ⊎_elim (λ y. inl (inr y)) inr (Member-either m ms ns x)

was_seen : (m : ℕ) (ms : List ℕ) → any (λ n. eqb n m) ms ≡ true → Member m ms
was_seen m ms h =
    let (n, x, q) = any-Member (λ n. eqb n m) ms h in subst (λ k. Member k ms) (ground (arith, q)) x

pub reach-Grows :
    (dir : String) (e : Edge) (depth source other : ℕ) (w : Walk)
    → Grows w (reach dir e depth source other w)
      × Member other (reach dir e depth source other w).seen_nodes
unfolding reach
reach-Grows dir e depth source other w = elim (Bool-cases (any (λ n. eqb n other) w.seen_nodes)) [
  | inl old ↦ rw old (Grows-same w, was_seen other w.seen_nodes old)
  | inr new ↦ rw new (
    record {
      seen = λ m x. inr x;
      kept = λ m x. Member-first m w.next (other ∷ []) x;
      fresh = λ m x. ⊎_elim (λ q. inr (Member-behind m w.next (other ∷ []) (inl q))) inl x;
    },
    inl refl,
  )
]

pub reach-Within :
    (p : ℕ → Type 0) (dir : String) (e : Edge) (depth source other : ℕ) (w : Walk)
    → p other
    → Within p w
    → Within p (reach dir e depth source other w)
unfolding reach
reach-Within p dir e depth source other w h i =
    elim (Bool-cases (any (λ n. eqb n other) w.seen_nodes)) [
      | inl old ↦ rw old i
      | inr new ↦ rw new (record {
        seen_in = λ m x. ⊎_elim (λ q. subst p q h) (i.seen_in m) x;
        next_in =
            λ m x. ⊎_elim (i.next_in m) (λ y. only_one m y) (Member-either m w.next (other ∷ []) x);
      })
    ]
  where
    only_one : (m : ℕ) → Member m (other ∷ []) → p m
    only_one m (inl q) = subst p q h
    only_one m (inr x) = absurd x
