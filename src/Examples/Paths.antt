-- ===== src/Examples/Paths.antt =====
-- A graph of three functions that call each other in a row.
use Prim.Native.String.{String}
use swift_proof.Prelude.{List, [], false, length, refl, true, ◌∷◌, ◌≡◌}
use swift_proof.Neighbors.{Link, Neighborhood, bad_direction, neighborhood, neighbors}
use swift_proof.Graph.{Edge, Node, View, find_path, found, new_view, no_chain}
use swift_proof.Graph.Shortest.{IsAnswer, find_path-IsAnswer}

abbrev function : String → Node
function name = record { id = name; kind = "function"; name = name; path = "a.go" }

abbrev call : String → String → Edge
call from to = record { from = from; to = to; kind = "calls"; path = "a.go"; line = 3; count = 1 }

abbrev calls : View
unfolding new_view
calls = new_view (record {
  nodes = function "f" ∷ function "g" ∷ function "h" ∷ [];
  edges = call "f" "g" ∷ call "g" "h" ∷ [];
})

path_test :
    find_path calls ("calls" ∷ []) false 0 2
    ≡ found
        (record { edge = 0; start = 0; node = 1 } ∷ record { edge = 1; start = 1; node = 2 } ∷ [])
unfolding find_path calls
path_test = refl

no_path_test :
    (find_path calls [] false 2 0 ≡ no_chain)
    × (find_path calls ("imports" ∷ []) true 2 0 ≡ no_chain)
unfolding find_path calls
no_path_test = (refl, refl)

find_path-IsAnswer_example :
    IsAnswer calls ("calls" ∷ []) false 0 2 (find_path calls ("calls" ∷ []) false 0 2)
find_path-IsAnswer_example = find_path-IsAnswer calls ("calls" ∷ []) false 0 2

abbrev neighbors_links : Neighborhood → List Link
neighbors_links bad_direction = []
neighbors_links (neighborhood start links total truncated) = links

neighbors_test : length (neighbors_links (neighbors calls [] "out" 9 0)) ≡ 2
unfolding neighbors calls
neighbors_test = refl
