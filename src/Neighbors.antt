-- ===== src/Neighbors.antt =====
-- app/internal/graph/query.go: `Neighbors`, for the index of a node.
pub mod Grown
pub mod Walked
pub mod Reached
pub mod Counted
pub mod Limited
use Prim.Native.String.{String}
use swift_proof.Prelude.{
  Bool, List, Option, [], any, eqb, if◌then◌else◌, length, ltb, none, not, some, suc, zero, ℕ, ◌&&◌,
  ◌++◌, ◌==◌, ◌∷◌,
}
use swift_proof.Graph.{Edge, View, edge_at, index_of, permits}

-- `MaxNeighbors`
abbrev pub max_neighbors : ℕ
max_neighbors = 100

-- `MaxNeighborDepth`
abbrev pub max_neighbor_depth : ℕ
max_neighbor_depth = 3

-- `Link`, with the index of its node for its description, and with the node it was reached from and
-- the place of its edge for the texts that name them.
pub record Link : Type 0 where
  pub direction : String
  pub kind : String
  pub node : ℕ
  pub depth : ℕ
  pub count : ℕ
  pub source : ℕ
  pub path : String
  pub line : ℕ

-- The variables of the loops.
pub record Walk : Type 0 where
  pub seen_nodes : List ℕ
  pub next : List ℕ
  pub links : List Link
  pub total : ℕ

abbrev pub new_link : String → Edge → ℕ → ℕ → ℕ → Link
new_link dir e node depth source = record {
  direction = dir;
  kind = e.kind;
  node = node;
  depth = depth;
  count = e.count;
  source = source;
  path = e.path;
  line = e.line;
}

abbrev pub add_link : Link → List Link → List Link
add_link l ls = if ltb (length ls) max_neighbors then ls ++ l ∷ [] else ls

-- A node that was not seen.
unfoldable pub reach : String → Edge → ℕ → ℕ → ℕ → Walk → Walk
reach dir e depth source other w = if any (λ n. eqb n other) w.seen_nodes then w else record {
  seen_nodes = other ∷ w.seen_nodes;
  next = w.next ++ other ∷ [];
  links = add_link (new_link dir e other depth source) w.links;
  total = suc w.total;
}

module _ (v : View) (kinds : List String) where
  abbrev pub other_end : String → Edge → ℕ
  unfolding index_of
  other_end dir e = if dir == "in" then index_of e.from v else index_of e.to v

  abbrev pub follow_edge : String → ℕ → ℕ → Option Edge → Walk → Walk
  unfolding reach other_end
  follow_edge dir depth source none w = w
  follow_edge dir depth source (some e) w =
      if permits kinds e then reach dir e depth source (other_end dir e) w else w

  -- `visit`
  unfoldable pub visit_edges : String → ℕ → ℕ → List ℕ → Walk → Walk
  unfolding follow_edge
  visit_edges dir depth source [] w = w
  visit_edges dir depth source (i ∷ is) w =
      visit_edges dir depth source is (follow_edge dir depth source (edge_at i v.graph.edges) w)

  unfoldable pub visit_node : String → ℕ → ℕ → Walk → Walk
  unfolding visit_edges
  visit_node direction depth n w =
      let out = if direction == "in" then w else visit_edges "out" depth n (v.outs n) w in
      if direction == "out" then out else visit_edges "in" depth n (v.ins n) out

  unfoldable pub visit_all : String → ℕ → List ℕ → Walk → Walk
  unfolding visit_node
  visit_all direction depth [] w = w
  visit_all direction depth (n ∷ ns) w =
      visit_all direction depth ns (visit_node direction depth n w)

  -- The outer loop, for as many more levels; an empty frontier adds nothing.
  unfoldable pub levels : String → ℕ → ℕ → List ℕ → Walk → Walk
  unfolding visit_all
  levels direction zero depth frontier w = w
  levels direction (suc k) depth frontier w =
      let w' = visit_all direction depth frontier (record w { next = [] }) in
      levels direction k (suc depth) w'.next w'

-- depth is raised to 1 and lowered to the greatest.
abbrev pub bounded_depth : ℕ → ℕ
bounded_depth n = if ltb n 1 then 1 else if ltb max_neighbor_depth n then max_neighbor_depth else n

pub data Neighborhood : Type 0 where
  bad_direction : Neighborhood
  neighborhood : ℕ → List Link → ℕ → Bool → Neighborhood

abbrev pub summarized : ℕ → Walk → Neighborhood
summarized start w = neighborhood start w.links w.total (ltb (length w.links) w.total)

abbrev pub default_direction : String → String
default_direction direction = if direction == "" then "both" else direction

unfoldable pub neighbors_in : View → List String → String → ℕ → ℕ → Neighborhood
unfolding levels
neighbors_in v kinds direction depth start =
    if not (direction == "out") && (not (direction == "in") && not (direction == "both"))
    then bad_direction
    else summarized start (
        levels v kinds direction (bounded_depth depth) 1 (start ∷ [])
          (record { seen_nodes = start ∷ []; next = []; links = []; total = 0 }))

-- `Neighbors`; a negative depth is 0.
unfoldable pub neighbors : View → List String → String → ℕ → ℕ → Neighborhood
unfolding neighbors_in
neighbors v kinds direction depth start =
    neighbors_in v kinds (default_direction direction) depth start
