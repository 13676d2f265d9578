-- ===== src/Neighbors/Limited.antt =====
-- What `Neighbors` answers.
use Prim.Native.String.{String}
use swift_proof.Prelude.{
  Bool, List, Member, [], false, if◌then◌else◌, length, ltb, map, suc, true, ℕ, ◌==◌, ◌||◌, ◌↔◌,
  ◌∷◌, ◌≡◌, ◌≤◌,
}
use swift_proof.Graph.{View}
use swift_proof.Neighbors.{
  Link, Neighborhood, Walk, bad_direction, levels, max_neighbors, neighborhood,
}
use swift_proof.Neighbors.Counted.{distinct}
use swift_proof.Neighbors.Reached.{Near}

-- The nodes near the start, each of them once, the start included; all others are counted, and the
-- first 100 of those are listed.
pub record IsSurveyed (v : View) (kinds : List String) (direction : String) (top start : ℕ)
    (links : List Link) (total : ℕ) (truncated : Bool) : Type 0 where
  pub nodes : List ℕ
  pub once : distinct nodes ≡ true
  pub exact : (m : ℕ) → Member m nodes ↔ Near v kinds direction top start m
  pub counted : length nodes ≡ suc total
  pub apart : distinct (start ∷ map (λ (l : Link). l.node) links) ≡ true
  pub shown : (l : Link) → Member l links → Member l.node nodes × (1 ≤ l.depth) × (l.depth ≤ top)
  pub listed : length links ≡ (if ltb max_neighbors total then max_neighbors else total)
  pub cut : truncated ≡ ltb max_neighbors total

abbrev pub is_known : String → Bool
is_known direction = direction == "out" || (direction == "in" || direction == "both")

-- What an answer says: a direction that is not known, or a survey in one that is.
pub IsNeighborhood : View → List String → String → ℕ → ℕ → Neighborhood → Type 0
IsNeighborhood v kinds direction top start bad_direction = is_known direction ≡ false
IsNeighborhood v kinds direction top start (neighborhood n links total truncated) =
    (is_known direction ≡ true)
    × (n ≡ start)
    × IsSurveyed v kinds direction top start links total truncated

module _ (v : View) (kinds : List String) (direction : String) (top start : ℕ) where
  abbrev first_walk : Walk
  first_walk = record { seen_nodes = start ∷ []; next = []; links = []; total = 0 }

  abbrev last_walk : Walk
  last_walk = levels v kinds direction top 1 (start ∷ []) first_walk
