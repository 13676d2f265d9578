-- ===== src/Graph.antt =====
-- app/internal/graph/query.go: the index of a graph and the search for a shortest path. A node is
-- its index in the graph, and an edge too. A map from nodes is a function.
pub mod Marks
pub mod Offers
pub mod Rounds
pub mod Frontier
pub mod Shortest
use Prim.Native.Char.{code}
use Prim.Native.String.{String}
use swift_proof.Prelude.{
  Bool, List, Option, [], eqb, false, if◌then◌else◌, leb, none, not, some, suc, true, zero, ℕ, ◌&&◌,
  ◌++◌, ◌==◌, ◌||◌, ◌∷◌,
}
use swift_proof.Prelude.Dict.{Dict, get, put}
use swift_proof.Texts.{has, to_lower}

-- `MaxPathLength`
abbrev pub max_path_length : ℕ
max_path_length = 12

-- `maxPathVisits`
abbrev pub max_path_visits : ℕ
max_path_visits = 200000

-- `Node`, as far as the index reads it.
pub record Node : Type 0 where
  pub id : String
  pub kind : String
  pub name : String
  pub path : String

-- `Edge`
pub record Edge : Type 0 where
  pub from : String
  pub to : String
  pub kind : String
  pub path : String
  pub line : ℕ
  pub count : ℕ

-- `Graph`, as far as the index reads it.
pub record Graph : Type 0 where
  pub nodes : List Node
  pub edges : List Edge

-- `View`
pub record View : Type 0 where
  pub graph : Graph
  pub by_id : Dict ℕ
  pub outs : ℕ → List ℕ
  pub ins : ℕ → List ℕ
  pub by_name : Dict (List ℕ)

abbrev pub list_at : String → Dict (List ℕ) → List ℕ
unfolding get
list_at k m = elim (get k m) [ none ↦ [] | some is ↦ is ]

unfoldable pub add_name : ℕ → String → Dict (List ℕ) → Dict (List ℕ)
unfolding list_at put
add_name i name m = put name (list_at name m ++ i ∷ []) m

-- Every text behind a "." or a "/" of a name that is not the empty one.
unfoldable pub suffixes : String → List String
suffixes String.[] = []
suffixes (String.◌∷◌ c s) =
    let others = suffixes s in
    if (eqb (code c) 46 || eqb (code c) 47) && not (s == "") then s ∷ others else others

unfoldable pub add_names : ℕ → List String → Dict (List ℕ) → Dict (List ℕ)
unfolding add_name
add_names i [] m = m
add_names i (name ∷ names) m = add_names i names (add_name i name m)

-- The first loop of `NewView`.
unfoldable pub index_nodes : ℕ → List Node → View → View
unfolding add_names suffixes to_lower put
index_nodes i [] v = v
index_nodes i (n ∷ ns) v =
    let name = to_lower n.name in
    index_nodes (suc i) ns (record v {
      by_id = put n.id i v.by_id;
      by_name = add_names i (name ∷ suffixes name) v.by_name;
    })

abbrev pub add_at : ℕ → ℕ → (ℕ → List ℕ) → ℕ → List ℕ
add_at k i m n = if eqb n k then m n ++ i ∷ [] else m n

abbrev pub link_edge : ℕ → Option ℕ → Option ℕ → View → View
link_edge i none to v = v
link_edge i (some from) none v = v
link_edge i (some from) (some to) v = record v {
  outs = add_at from i v.outs;
  ins = add_at to i v.ins;
}

-- The second loop of `NewView`.
unfoldable pub index_edges : ℕ → List Edge → View → View
unfolding get
index_edges i [] v = v
index_edges i (e ∷ es) v =
    index_edges (suc i) es (link_edge i (get e.from v.by_id) (get e.to v.by_id) v)

-- `NewView`
unfoldable pub new_view : Graph → View
unfolding index_nodes index_edges
new_view g = index_edges 0 g.edges (
    index_nodes 0 g.nodes
      (record { graph = g; by_id = []; outs = λ n. []; ins = λ n. []; by_name = [] }))

abbrev pub edge_at : ℕ → List Edge → Option Edge
edge_at i [] = none
edge_at zero (e ∷ es) = some e
edge_at (suc i) (e ∷ es) = edge_at i es

-- v.byID[id]; the index of an id that is not there reads as 0.
unfoldable pub index_of : String → View → ℕ
unfolding get
index_of id v = elim (get id v.by_id) [ none ↦ 0 | some i ↦ i ]

-- How a node was reached: `step`, or {-1, -1} for the first.
pub data Mark : Type 0 where
  root : Mark
  via : ℕ → ℕ → Mark

-- `prev`; an entry is added only for a node that has none.
abbrev pub Marks : Type 0
Marks = List (ℕ × Mark)

abbrev pub mark_of : ℕ → Marks → Option Mark
mark_of n [] = none
mark_of n ((m, k) ∷ ms) = if eqb m n then some k else mark_of n ms

abbrev pub seen : ℕ → Marks → Bool
seen n [] = false
seen n ((m, k) ∷ ms) = eqb m n || seen n ms

pub record Search : Type 0 where
  pub prev : Marks
  pub next : List ℕ
  pub visits : ℕ

-- `try`
unfoldable pub try_node : ℕ → ℕ → ℕ → Search → Search
try_node n edge other s =
    if seen other s.prev
    then s
    else record s { prev = (other, via n edge) ∷ s.prev; next = s.next ++ other ∷ [] }

abbrev pub offer : ℕ → ℕ → Option ℕ → Search → Search
unfolding try_node
offer n edge none s = s
offer n edge (some other) s = try_node n edge other s

-- The kinds of edges that are followed: all, if none is named.
abbrev pub permits : List String → Edge → Bool
permits [] e = true
permits (k ∷ ks) e = has e.kind (k ∷ ks)

module _ (v : View) (kinds : List String) where
  -- Where an edge leads, forward and back, if its kind is followed.
  unfoldable pub forward : ℕ → Option ℕ
  unfolding index_of
  forward i = elim (edge_at i v.graph.edges) [
    | none ↦ none
    | some e ↦ if permits kinds e then some (index_of e.to v) else none
  ]

  unfoldable pub backward : ℕ → Option ℕ
  unfolding index_of
  backward i = elim (edge_at i v.graph.edges) [
    | none ↦ none
    | some e ↦ if permits kinds e then some (index_of e.from v) else none
  ]

  -- The loop over the edges that leave a node; `none` if the search bound is reached.
  unfoldable pub scan_out : ℕ → List ℕ → Search → Option Search
  unfolding offer forward
  scan_out n [] s = some s
  scan_out n (i ∷ is) s =
      let later = scan_out n is (offer n i (forward i) (record s { visits = suc s.visits })) in
      if leb max_path_visits s.visits then none else later

  unfoldable pub scan_in : ℕ → List ℕ → Search → Search
  unfolding offer backward
  scan_in n [] s = s
  scan_in n (i ∷ is) s = scan_in n is (offer n i (backward i) s)

  module _ (undirected : Bool) where
    abbrev pub scanned : ℕ → Option Search → Option Search
    unfolding scan_in
    scanned n none = none
    scanned n (some s) = if undirected then some (scan_in n (v.ins n) s) else some s

    unfoldable pub expand : ℕ → Search → Option Search
    unfolding scanned scan_out
    expand n s = scanned n (scan_out n (v.outs n) s)

    -- The loop over the frontier.
    unfoldable pub expand_all : List ℕ → Option Search → Option Search
    unfolding expand
    expand_all [] o = o
    expand_all (n ∷ ns) none = none
    expand_all (n ∷ ns) (some s) = expand_all ns (expand n s)

    -- The end of a round: at the search bound, at the wanted node, or with one more round.
    abbrev pub after_round : ℕ → (List ℕ → Search → Option Marks) → Option Search → Option Marks
    after_round to more none = none
    after_round to more (some s) = if seen to s.prev then some s.prev else more s.next s

    -- The outer loop, for as many more rounds: the marks, or `none` at the search bound.
    unfoldable pub rounds : ℕ → ℕ → List ℕ → Search → Option Marks
    unfolding expand_all
    rounds to zero frontier s = some s.prev
    rounds to (suc k) [] s = some s.prev
    rounds to (suc k) (n ∷ ns) s =
        after_round to (rounds to k) (expand_all (n ∷ ns) (some (record s { next = [] })))

-- One edge of the answer: its index and the nodes it was followed between.
pub record Hop : Type 0 where
  pub edge : ℕ
  pub start : ℕ
  pub node : ℕ

-- One turn of the loop that goes back from a node to the first.
abbrev pub back_from :
    ℕ → List Hop → (ℕ → List Hop → Option (List Hop)) → Option Mark → Option (List Hop)
back_from n hops more none = none
back_from n hops more (some root) = none
back_from n hops more (some (via m edge)) =
    more m (record { edge = edge; start = m; node = n } ∷ hops)

-- The loop that goes back from a node to the first, with fuel; `none` if the fuel is spent.
unfoldable pub trace : ℕ → Marks → ℕ → ℕ → List Hop → Option (List Hop)
trace zero prev from n hops = if eqb n from then some hops else none
trace (suc fuel) prev from n hops =
    let earlier = back_from n hops (trace fuel prev from) (mark_of n prev) in
    if eqb n from then some hops else earlier

pub data Answer : Type 0 where
  bound_reached no_chain lost : Answer
  found : List Hop → Answer

abbrev pub traced : Option (List Hop) → Answer
traced none = lost
traced (some hops) = found hops

abbrev pub path_answer : ℕ → ℕ → Option Marks → Answer
unfolding trace
path_answer from to none = bound_reached
path_answer from to (some prev) =
    if seen to prev then traced (trace max_path_length prev from to []) else no_chain

-- The start of the search.
abbrev pub first_search : ℕ → Search
first_search from = record { prev = (from, root) ∷ []; next = []; visits = 0 }

-- `Path`, for the indexes of two nodes.
unfoldable pub find_path : View → List String → Bool → ℕ → ℕ → Answer
unfolding rounds trace
find_path v kinds undirected from to =
    path_answer from to
      (rounds v kinds undirected to max_path_length (from ∷ []) (first_search from))
